-- ===== src/Mac/Configured.antt =====
-- The pages of the TX FIFO after mac_init of core/macinit.c.
use rtl8821ce_mac_os.Base.{◌^◌, ◌≤◌, ◌<◌, ◌≡◌, refl, sym, ap, ◌∙◌, arith, subst}
use rtl8821ce_mac_os.Base.{Bool, true, false, if◌then◌else◌, not}
use Prim.{Unit, tt}
use rtl8821ce_mac_os.Fifo.{
  ChipInfo, FifoConf, FifoResult, laid_out, set_trx_fifo_info, IsLayout, set_trx_fifo_info-IsLayout,
}
use rtl8821ce_mac_os.Hw.{Trace, Device, M, written}
use rtl8821ce_mac_os.Mac.{
  MacRc, ok, einval, ebusy, enomem, after_mac, MacChip, txdma_queue_mapping, queue_pages,
  pubq_num_of, init_h2c, priority_queue_cfg, h2c_after, init_trx_cfg,
}
use rtl8821ce_mac_os.Mac.Chip.{drv_info_cfg, chip_mac_init, mac_init}
use rtl8821ce_mac_os.Pwr.Seq.{is_pcie}
use rtl8821ce_mac_os.Mac.Pages.{
  page_regs, IsPaged, dedicated, Filled, queue_pages-Filled, fill_pages-IsPaged,
}

-- The steps after the pages write other registers.
init_h2c-page_regs :
    (f : FifoConf) (d : Device) (t : Trace) → page_regs (init_h2c f d t).1 ≡ page_regs t
unfolding init_h2c written
init_h2c-page_regs f d t = refl

chip_mac_init-page_regs : (d : Device) (t : Trace) → page_regs (chip_mac_init d t).1 ≡ page_regs t
unfolding chip_mac_init written
chip_mac_init-page_regs d t = refl

drv_lem :
    (b : Bool) (chip : MacChip) (d : Device) (t : Trace)
    → page_regs (drv_info_cfg (record chip { wcpu_3081 = b }) d t).1 ≡ page_regs t
unfolding drv_info_cfg written
drv_lem true chip d t = refl
drv_lem false chip d t = refl

-- A chain that succeeds.
after_mac-ok :
    (r : MacRc × Trace) (k : M MacRc) (d : Device)
    → (after_mac r k d).0 ≡ ok
    → (r.0 ≡ ok) × ((k d r.1).0 ≡ ok) × (after_mac r k d ≡ k d r.1)
after_mac-ok (ok, t) k d e = (refl, e, refl)
after_mac-ok (einval, t) k d e = cc
after_mac-ok (ebusy, t) k d e = cc
after_mac-ok (enomem, t) k d e = cc

-- What a successful configuration of the queues leaves, for a layout of the FIFO.
abbrev pub Configured : MacChip → FifoResult → Trace → Type 0
Configured chip (laid_out f) t = IsPaged chip f (page_regs t)
Configured chip FifoResult.enomem t = ⊥
Configured chip FifoResult.einval t = ⊥

-- The pages of the queues below the boundary.
abbrev pub Fits : MacChip → FifoResult → Type 0
Fits chip (laid_out f) = dedicated chip.page_table ≤ f.rsvd_boundary
Fits chip FifoResult.enomem = Unit {0}
Fits chip FifoResult.einval = Unit {0}

on_bus :
    (b : Bool) (chip : MacChip) (f : FifoConf) (d : Device) (t : Trace)
    → let r : MacRc × Trace =
        if b then queue_pages chip f (pubq_num_of chip.page_table f) d t else (einval, t) in
      r.0 ≡ ok → Filled chip f d t r.1
on_bus true chip f d t e = queue_pages-Filled chip f d t e
on_bus false chip f d t e = cc

abbrev IsSmall : FifoResult → Type 0
IsSmall (laid_out f) = f.rsvd_boundary < 2 ^ 16
IsSmall FifoResult.enomem = Unit {0}
IsSmall FifoResult.einval = Unit {0}

small_lem :
    (b c : Bool) (f : FifoConf)
    → f.rsvd_boundary < 2 ^ 16
    → IsSmall (if b then FifoResult.enomem else if not c then FifoResult.einval else laid_out f)
small_lem true c f h = tt
small_lem false true f h = h
small_lem false false f h = tt

set_trx_fifo_info-IsSmall : (chip : ChipInfo) → IsSmall (set_trx_fifo_info chip)
unfolding set_trx_fifo_info
set_trx_fifo_info-IsSmall chip = small_lem _ _ _ (omega arith)

priority_queue_cfg-Configured :
    (chip : MacChip) (r : FifoResult) (d : Device) (t : Trace)
    → IsLayout chip.info r
    → IsSmall r
    → Fits chip r
    → (priority_queue_cfg chip r d t).0 ≡ ok
    → Configured chip r (priority_queue_cfg chip r d t).1
unfolding priority_queue_cfg
priority_queue_cfg-Configured chip (laid_out f) d t l small fits e =
    subst (IsPaged chip f) (sym (on_bus (is_pcie chip.hci) chip f d t e))
      (fill_pages-IsPaged chip f d t small l.free fits)
priority_queue_cfg-Configured chip FifoResult.enomem d t l small fits e = cc
priority_queue_cfg-Configured chip FifoResult.einval d t l small fits e = cc

-- init_h2c and what comes after it.
keeps :
    (chip : MacChip) (r : FifoResult) (d : Device) (t u : Trace)
    → page_regs u ≡ page_regs t
    → Configured chip r t
    → Configured chip r u
keeps chip (laid_out f) d t u e c = subst (IsPaged chip f) (sym e) c
keeps chip FifoResult.enomem d t u e c = c
keeps chip FifoResult.einval d t u e c = c

h2c-Configured :
    (chip : MacChip) (r : FifoResult) (d : Device) (t : Trace)
    → Configured chip r t
    → Configured chip r (h2c_after r d t).1
h2c-Configured chip (laid_out f) d t c = subst (IsPaged chip f) (sym (init_h2c-page_regs f d t)) c
h2c-Configured chip FifoResult.enomem d t c = c
h2c-Configured chip FifoResult.einval d t c = c

init_trx_cfg-Configured :
    (chip : MacChip) (d : Device) (t : Trace)
    → IsLayout chip.info (set_trx_fifo_info chip.info)
    → Fits chip (set_trx_fifo_info chip.info)
    → (init_trx_cfg chip d t).0 ≡ ok
    → Configured chip (set_trx_fifo_info chip.info) (init_trx_cfg chip d t).1
unfolding init_trx_cfg
init_trx_cfg-Configured chip d t l fits e =
    let r = set_trx_fifo_info chip.info in
    let q = txdma_queue_mapping chip d t in
    let a = after_mac-ok (after_mac q (priority_queue_cfg chip r) d) (h2c_after r) d e in
    let b = after_mac-ok q (priority_queue_cfg chip r) d a.0 in
    let p = priority_queue_cfg chip r d q.1 in
    subst (λ (x : MacRc × Trace). Configured chip r x.1) (sym a.2)
      (subst (λ (x : MacRc × Trace). Configured chip r (h2c_after r d x.1).1) (sym b.2)
        (h2c-Configured chip r d p.1 (
          priority_queue_cfg-Configured chip r d q.1 l (set_trx_fifo_info-IsSmall chip.info) fits
            b.1)))

second : (b : Bool) (x y : MacRc × Trace) → b ≡ false → (if b then x else y) ≡ y
second b x y e = rw e

off_bus :
    (chip : MacChip) (d : Device) (t : Trace)
    → is_pcie chip.hci ≡ false
    → txdma_queue_mapping chip d t ≡ (einval, t)
unfolding txdma_queue_mapping
off_bus chip d t e = second (is_pcie chip.hci) _ _ e

-- On a chip with two configured page counts that are bytes and with dedicated pages that fit below
-- the boundary, whatever the card answers: on a bus that is not PCIe mac_init returns -EINVAL and
-- touches nothing; and when it returns 0 the FIFO was laid out, the four boundary registers hold
-- the boundary of that layout, and the five page counts written together with the gap pages are all
-- the pages below it.
pub mac_init-Configured :
    (chip : MacChip) (d : Device) (t : Trace)
    → chip.info.rsvd_drv_pg_num < 256
    → chip.info.csi_buf_pg_num < 256
    → Fits chip (set_trx_fifo_info chip.info)
    → (is_pcie chip.hci ≡ false → mac_init chip d t ≡ (einval, t))
      × ((mac_init chip d t).0 ≡ ok
          → Configured chip (set_trx_fifo_info chip.info) (mac_init chip d t).1)
unfolding mac_init init_trx_cfg
mac_init-Configured chip d t hd hc fits = (
  λ b.
      let r = set_trx_fifo_info chip.info in
      ap
        (λ (x : MacRc × Trace).
          after_mac
            (after_mac (after_mac (after_mac x (priority_queue_cfg chip r) d) (h2c_after r) d)
              chip_mac_init d)
            (drv_info_cfg chip) d)
        (off_bus chip d t b),
  λ e.
      let r = set_trx_fifo_info chip.info in
      let q = init_trx_cfg chip d t in
      let a = after_mac-ok (after_mac q chip_mac_init d) (drv_info_cfg chip) d e in
      let b = after_mac-ok q chip_mac_init d a.0 in
      let m = chip_mac_init d q.1 in
      subst (λ (x : MacRc × Trace). Configured chip r x.1) (sym a.2)
        (subst (λ (x : MacRc × Trace). Configured chip r (drv_info_cfg chip d x.1).1) (sym b.2)
          (keeps chip r d q.1 (drv_info_cfg chip d m.1).1
            (drv_lem chip.wcpu_3081 chip d m.1 ∙ chip_mac_init-page_regs d q.1)
            (init_trx_cfg-Configured chip d t (set_trx_fifo_info-IsLayout chip.info hd hc) fits
              b.0))),
)
