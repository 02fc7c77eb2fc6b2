-- ===== src/Fw/Honest.antt =====
-- The results of the parts of a download of core/fwdownload.c.
use rtl8821ce_mac_os.Base.{
  ℕ, zero, suc, ◌+◌, ◌-◌, ◌*◌, ◌/◌, ◌%◌, ◌^◌, ◌≤◌, ◌≡◌, ◌≢◌, refl, sym, arith, subst,
}
use rtl8821ce_mac_os.Base.{
  Bool, true, false, if◌then◌else◌, ◌==◌, Option, some, List, length, copy_out, copy_out_lem,
}
use rtl8821ce_mac_os.Trx.{Log, World, State}
use rtl8821ce_mac_os.Trx.Init.{TrxChip}
use rtl8821ce_mac_os.Fw.{
  einval, ebusy, overread, spent, Rc, ok, err, after_rc, sections, fw_hdr_size,
}
use rtl8821ce_mac_os.Fw.Dma.{
  pkt_size_of, ready_or_busy, ddma_free, iddma_enable, ch0_ctrl, iddma_download_firmware, load_part,
  load_parts, sum_checked, check_fw_checksum, download_firmware_to_mem,
}
use rtl8821ce_mac_os.Fw.Page.{page_sent, write_data_rsvd_page, send_copy, send_firmware_pkt}
use rtl8821ce_mac_os.Fw.Run.{
  load_dmem, load_imem, load_emem, open_download, start_download_firmware,
}

-- No copy past the image, and no loop out of rounds.
abbrev pub IsHonest : Rc → Type 0
IsHonest r = (r ≢ err overread) × (r ≢ err spent)

pub ok-IsHonest : IsHonest ok
ok-IsHonest = (λ e. cc, λ e. cc)

pub einval-IsHonest : IsHonest (err einval)
einval-IsHonest = (λ e. cc, λ e. cc)

after_rc-IsHonest :
    (r : Rc × State) (k : State → Rc × State)
    → IsHonest r.0
    → ((s : State) → IsHonest (k s).0)
    → IsHonest (after_rc r k).0
after_rc-IsHonest (ok, s) k h hk = hk s
after_rc-IsHonest (err e, s) k h hk = h

ready_or_busy-IsHonest : (b : Bool) → IsHonest (ready_or_busy b)
ready_or_busy-IsHonest true = ok-IsHonest
ready_or_busy-IsHonest false = (λ e. cc, λ e. cc)

ddma_free-IsHonest : (w : World) (s : State) → IsHonest (ddma_free w s).0
unfolding ddma_free
ddma_free-IsHonest w s = ready_or_busy-IsHonest _

iddma-IsHonest :
    (src dst len : ℕ) (first : Bool) (w : World) (s : State)
    → IsHonest (iddma_download_firmware src dst len first w s).0
unfolding iddma_download_firmware iddma_enable
iddma-IsHonest src dst len first w s =
    after_rc-IsHonest (ddma_free w s) (iddma_enable src dst (ch0_ctrl len first) w)
      (ddma_free-IsHonest w s) (λ t. ddma_free-IsHonest w _)

valid_or_busy-IsHonest : (b : Bool) → IsHonest (if b then ok else err ebusy)
valid_or_busy-IsHonest true = ok-IsHonest
valid_or_busy-IsHonest false = (λ e. cc, λ e. cc)

page_sent-IsHonest : (b : Bool) (w : World) (s : State) → IsHonest (page_sent b w s).0
unfolding page_sent
page_sent-IsHonest false w s = (λ e. cc, λ e. cc)
page_sent-IsHonest true w s = valid_or_busy-IsHonest _

pub choice-IsHonest :
    (b : Bool) (x y : Rc × State) → IsHonest x.0 → IsHonest y.0 → IsHonest (if b then x else y).0
choice-IsHonest true x y p q = p
choice-IsHonest false x y p q = q

send-IsHonest :
    (malloc : ℕ → Log → Bool) (chip : TrxChip) (pg size : ℕ) (frame : List ℕ) (w : World)
    (s : State)
    → IsHonest (send_firmware_pkt malloc chip pg size (some frame) w s).0
unfolding send_firmware_pkt send_copy write_data_rsvd_page
send-IsHonest malloc chip pg size frame w s =
    choice-IsHonest (malloc size s.log) _ _
      (choice-IsHonest (length frame == 0) _ _ (λ e. cc, λ e. cc) (page_sent-IsHonest _ w _))
      (λ e. cc, λ e. cc)

module _ (malloc : ℕ → Log → Bool) (chip : TrxChip) where
  load_part-IsHonest :
      (dst len : ℕ) (first : Bool) (part : Option (List ℕ)) (frame : List ℕ) (w : World) (s : State)
      → part ≡ some frame
      → IsHonest (load_part malloc chip 0 dst len first part w s).0
  unfolding load_part
  load_part-IsHonest dst len first part frame w s e =
      subst (λ (x : Option (List ℕ)). IsHonest (load_part malloc chip 0 dst len first x w s).0)
        (sym e)
        (after_rc-IsHonest (send_firmware_pkt malloc chip 0 len (some frame) w s)
          (iddma_download_firmware ((0x18780000 + 0 + chip.tx_pkt_desc_sz) % 2 ^ 32) dst len first
            w)
          (send-IsHonest malloc chip 0 len frame w s) (λ t. iddma-IsHonest _ dst len first w t))

  -- One round of the loop.
  round-IsHonest :
      (b : Bool) (residue : ℕ) (part : Rc × State) (s : State) (k : State → Rc × State)
      → residue == 0 ≡ b
      → (residue == 0 ≡ false → IsHonest part.0)
      → (residue == 0 ≡ false → (t : State) → IsHonest (k t).0)
      → let r : Rc × State = if b then (ok, s) else after_rc part k in IsHonest r.0
  round-IsHonest true residue part s k z hp hk = ok-IsHonest
  round-IsHonest false residue part s k z hp hk = after_rc-IsHonest part k (hp z) (hk z)

  chunk : (residue : ℕ) → pkt_size_of residue ≤ residue
  chunk residue = ground arith

  fewer :
      (n residue : ℕ)
      → residue + 4096 ≤ suc n * 4096
      → residue == 0 ≡ false
      → residue - pkt_size_of residue + 4096 ≤ n * 4096
  fewer n residue h z = ground arith

  load_parts-IsHonest :
      (image : List ℕ) (n off dst mo residue : ℕ) (first : Bool) (w : World) (s : State)
      → off + mo + residue ≤ length image
      → residue + 4096 ≤ n * 4096
      → IsHonest (load_parts malloc chip image n off 0 dst mo residue first w s).0
  unfolding load_parts
  load_parts-IsHonest image zero off dst mo residue first w s i h = absurd (omega arith)
  load_parts-IsHonest image (suc n) off dst mo residue first w s i h =
      let len = pkt_size_of residue in
      let c = chunk residue in
      let part = copy_out_lem (off + mo) len image (omega arith) in
      round-IsHonest (residue == 0) residue
        (load_part malloc chip 0 ((dst + mo) % 2 ^ 32) len first (copy_out (off + mo) len image) w
          s)
        s (load_parts malloc chip image n off 0 dst (mo + len) (residue - len) false w) refl
        (λ z.
          load_part-IsHonest ((dst + mo) % 2 ^ 32) len first (copy_out (off + mo) len image) part.0
            w s part.1)
        (λ z t.
          load_parts-IsHonest image n off dst (mo + len) (residue - len) false w t (omega arith)
            (fewer n residue h z))

  sum_checked-IsHonest : (b : Bool) → IsHonest (sum_checked b)
  sum_checked-IsHonest true = ok-IsHonest
  sum_checked-IsHonest false = (λ e. cc, λ e. cc)

  to_mem-IsHonest :
      (image : List ℕ) (off dst size : ℕ) (w : World) (s : State)
      → off + size ≤ length image
      → IsHonest (download_firmware_to_mem malloc chip image off 0 dst size w s).0
  unfolding download_firmware_to_mem
  to_mem-IsHonest image off dst size w s i =
      after_rc-IsHonest _
        (λ t. (sum_checked (check_fw_checksum dst w t).0, (check_fw_checksum dst w t).1))
        (load_parts-IsHonest image (size / 0x1000 + 2) off dst 0 size true w _ (omega arith)
          (omega arith))
        (λ t. sum_checked-IsHonest _)

  pub start-IsHonest :
      (image : List ℕ) (w : World) (s : State)
      → fw_hdr_size
          + (sections image).dmem_size
          + (sections image).imem_size
          + (sections image).emem_size
        ≤ length image
      → IsHonest (start_download_firmware malloc chip image w s).0
  unfolding start_download_firmware
  start-IsHonest image w s i =
      let c = sections image in
      let s0 = (open_download w s).1 in
      let r1 = load_dmem malloc chip image c w s0 in
      after_rc-IsHonest (after_rc r1 (load_imem malloc chip image c w))
        (load_emem malloc chip image c w)
        (after_rc-IsHonest r1 (load_imem malloc chip image c w)
          (to_mem-IsHonest image fw_hdr_size c.dmem_addr c.dmem_size w s0 (omega arith))
          (λ t.
            to_mem-IsHonest image (fw_hdr_size + c.dmem_size) c.imem_addr c.imem_size w t
              (omega arith)))
        (λ t.
          choice-IsHonest (c.emem_size == 0) (ok, t) _ ok-IsHonest
            (to_mem-IsHonest image (fw_hdr_size + c.dmem_size + c.imem_size) c.emem_addr c.emem_size
              w t (omega arith)))
