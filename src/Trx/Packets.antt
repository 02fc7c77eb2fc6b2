-- ===== src/Trx/Packets.antt =====
-- The DMA buffers under the functions of core/trx.c that hand a packet to the card.
use rtl8821ce_mac_os.Base.{
  ℕ, ◌+◌, ◌*◌, ◌%◌, ◌^◌, ◌≤◌, ◌<◌, ◌≡◌, ◌∙◌, refl, sym, ap, arith, subst, bit_or,
}
use rtl8821ce_mac_os.Base.{Bool, true, false, if◌then◌else◌, List, length}
use Prim.{tt}
use rtl8821ce_mac_os.Trx.{
  stored, Log, World, Trx, State, emit, put, ◌>>◌, ◌>>=◌, pure, modify, reg_read,
}
use rtl8821ce_mac_os.Trx.Init.{TrxChip}
use rtl8821ce_mac_os.Trx.Memory.{size_of, Covers, Live-Covers}
use rtl8821ce_mac_os.Trx.Safe.{Ready}
use native.Mathlib.Nat.{mod-lt}
use rtl8821ce_mac_os.Base.{not, ltb, ◌||◌, ◌<◌, bit_or}
use rtl8821ce_mac_os.Trx.{queue_bcn}
use rtl8821ce_mac_os.Trx.Layout.{ring_at-fits, set-AllFit, set-AllBd}
use rtl8821ce_mac_os.Trx.Pool.{Inv}
use rtl8821ce_mac_os.Trx.Send.{
  Desc, ring_at, build, bd_bytes, submit, send_on, step_wp, trx_write_data_rsvd_page, rsvd_desc,
  set_ring, psb_len_of,
}

-- The guards of the functions, as tests.
guarded :
    (a b : Bool) (s : State) (done : Bool × State)
    → Inv s.trx s.log
    → (a ≡ false → b ≡ false → Inv done.1.trx done.1.log)
    → let r : Bool × State = if a then (false, s) else if b then (false, s) else done in
      Inv r.1.trx r.1.log
guarded true b s done v h = v
guarded false true s done v h = v
guarded false false s done v h = h refl refl

-- With the packet buffer set, the buffers are there.
up_of : (t : Trx) (l : Log) → Inv t l → t.pkt.vaddr ≡ true → t.alloced ≡ true
up_of t l v p = decide t.alloced refl
  where
    decide : (b : Bool) → t.alloced ≡ b → t.alloced ≡ true
    decide true e = e
    decide false e = cc ((v.when_down e).1)

Ready-Inv : (t : Trx) (l : Log) → t.alloced ≡ true → Ready t l → Inv t l
Ready-Inv t l up r = record { safe = r.safe; when_up = λ e. r; when_down = λ e. cc }

-- The packet fits.
build-Ready :
    (d : Desc) (frame : List ℕ) (w : World) (s : State)
    → length frame + 48 ≤ 0x2000
    → Ready s.trx s.log
    → Ready (build 48 d frame w s).1.trx (build 48 d frame w s).1.log
unfolding build
build-Ready d frame w s h r =
    let in_pkt : (n : ℕ) → n ≤ 0x2000 → Covers (size_of s.log s.trx.pkt.handle) n = λ n p.
      Live-Covers s.log s.trx.pkt.handle s.trx.pkt_size n r.pkt_live
        (omega (arith, r.pkt_size_is)) in
    record {
      safe = (
        in_pkt 36 (omega arith),
        (
          in_pkt 20 (omega arith),
          (
            in_pkt 8 (omega arith),
            (in_pkt (48 + length frame) (omega arith), (in_pkt 48 (omega arith), r.safe)),
          ),
        ),
      );
      bd_live = r.bd_live;
      pkt_live = r.pkt_live;
      pkt_set = r.pkt_set;
      fits = r.fits;
      bds_set = r.bds_set;
      pkt_size_is = r.pkt_size_is;
    }

submit-Ready :
    (q idx_reg len : ℕ) (w : World) (s : State)
    → (ring_at s.trx q).bd ≡ true
    → Ready s.trx s.log
    → Ready (submit q idx_reg 48 len w s).1.trx (submit q idx_reg 48 len w s).1.log
unfolding submit bd_bytes
submit-Ready q idx_reg len w s b r =
    let ring = ring_at s.trx q in
    let f = ring_at-fits s.trx.txbd_size s.trx.rings q r.fits b in
    let inside : ring.bd_off + ring.wp * 16 + 16 ≤ s.trx.txbd_size = omega (arith, f.0, f.1) in
    record {
      safe = (
        tt,
        (
          Live-Covers s.log s.trx.txbd.handle s.trx.txbd_size (ring.bd_off + ring.wp * 16 + 16)
              r.bd_live inside,
          r.safe,
        ),
      );
      bd_live = r.bd_live;
      pkt_live = r.pkt_live;
      pkt_set = r.pkt_set;
      fits =
          set-AllFit s.trx.txbd_size s.trx.rings q (step_wp ring) r.fits
            (f.0, mod-lt (ring.wp + 1) (omega (arith, f.1)));
      bds_set = set-AllBd true s.trx.rings q (step_wp ring) r.bds_set b;
      pkt_size_is = r.pkt_size_is;
    }

neither : (a b : Bool) → not a || not b ≡ false → (a ≡ true) × (b ≡ true)
neither a b h = ground arith

fits_of :
    (n size : ℕ)
    → n + 48 < 2 ^ 32
    → size ≡ 0x2000
    → ltb size ((n + 48) % 2 ^ 32) ≡ false
    → n + 48 ≤ 0x2000
fits_of n size h p e = ground arith

pub send_on-Inv :
    (q idx_reg desc_sz : ℕ) (d : Desc) (frame : List ℕ) (w : World) (s : State)
    → desc_sz ≡ 48
    → length frame + 48 < 2 ^ 32
    → Inv s.trx s.log
    → Inv
        (send_on q idx_reg desc_sz d frame w s).1.trx
        (send_on q idx_reg desc_sz d frame w s).1.log
unfolding send_on
send_on-Inv q idx_reg desc_sz d frame w s is short v =
    subst (λ z. Inv (send_on q idx_reg z d frame w s).1.trx (send_on q idx_reg z d frame w s).1.log)
      (sym is)
      (guarded (not s.trx.pkt.vaddr || not (ring_at s.trx q).bd)
        (ltb s.trx.pkt_size ((length frame + 48) % 2 ^ 32)) s
        ((build 48 d frame >> submit q idx_reg 48 (length frame) >> pure true) w s) v
        (λ a b.
          let set = neither s.trx.pkt.vaddr (ring_at s.trx q).bd a in
          let up = up_of s.trx s.log v set.0 in
          let r = v.when_up up in
          let s1 = (build 48 d frame w s).1 in
          let s2 = (submit q idx_reg 48 (length frame) w s1).1 in
          Ready-Inv s2.trx s2.log up (
            submit-Ready q idx_reg (length frame) w s1 set.1 (
              build-Ready d frame w s (fits_of (length frame) s.trx.pkt_size short r.pkt_size_is b)
                r))))

-- The reserved page, which needs the buffers.
page_lem :
    (b : Bool) (d : Desc) (buf bd : List ℕ) (w : World) (s : State)
    → length bd ≡ 16
    → s.trx.alloced ≡ true
    → (ring_at s.trx queue_bcn).bd ≡ true
    → (b ≡ false → length buf + 48 ≤ 0x2000)
    → Inv s.trx s.log
    → let ring = ring_at s.trx queue_bcn in
      let r : Bool × State =
        if b
        then (false, s)
        else (build 48 d buf
              >> modify (set_ring queue_bcn (record ring { wp = 0; rp = 0 }))
              >> emit (stored s.trx.txbd.handle ring.bd_off bd)
              >> (reg_read 1 0x383 >>= λ work. emit (put 1 0x383 (bit_or work (2 ^ 4))))
              >> pure true)
            w s in
      Inv r.1.trx r.1.log
unfolding build
page_lem true d buf bd w s n up set h v = v
page_lem false d buf bd w s n up set h v =
    let s1 = (build 48 d buf w s).1 in
    let r = v.when_up up in
    let r1 = build-Ready d buf w s (h refl) r in
    let ring = ring_at s.trx queue_bcn in
    let f = ring_at-fits s.trx.txbd_size s.trx.rings queue_bcn r.fits set in
    let u : Trx = set_ring queue_bcn (record ring { wp = 0; rp = 0 }) s.trx in
    Ready-Inv u _ up (record {
      safe = (
        tt,
        (
          tt,
          (
            Live-Covers s1.log s.trx.txbd.handle s.trx.txbd_size (ring.bd_off + length bd)
                r1.bd_live (omega (arith, n, f.0, f.1)),
            r1.safe,
          ),
        ),
      );
      bd_live = r1.bd_live;
      pkt_live = r1.pkt_live;
      pkt_set = r1.pkt_set;
      fits =
          set-AllFit s.trx.txbd_size s.trx.rings queue_bcn (record ring { wp = 0; rp = 0 }) r.fits
            (f.0, omega (arith, f.1));
      bds_set = set-AllBd true s.trx.rings queue_bcn (record ring { wp = 0; rp = 0 }) r.bds_set set;
      pkt_size_is = r1.pkt_size_is;
    })

pub trx_write_data_rsvd_page-Inv :
    (chip : TrxChip) (buf : List ℕ) (w : World) (s : State)
    → chip.tx_pkt_desc_sz ≡ 48
    → length buf + 48 < 2 ^ 32
    → s.trx.alloced ≡ true
    → (ring_at s.trx queue_bcn).bd ≡ true
    → Inv s.trx s.log
    → Inv
        (trx_write_data_rsvd_page chip buf w s).1.trx
        (trx_write_data_rsvd_page chip buf w s).1.log
unfolding trx_write_data_rsvd_page bd_bytes
trx_write_data_rsvd_page-Inv chip buf w s is short up set v =
    let with_size : ℕ → TrxChip = λ z. record chip { tx_pkt_desc_sz = z } in
    let total = (length buf + 48) % 2 ^ 32 in
    subst
      (λ (c : TrxChip).
        Inv (trx_write_data_rsvd_page c buf w s).1.trx (trx_write_data_rsvd_page c buf w s).1.log)
      (sym (ap with_size is))
      (page_lem (ltb s.trx.pkt_size total) (rsvd_desc 48 (length buf) buf) buf
        (bd_bytes 48 (bit_or (psb_len_of total) (2 ^ 15)) s.trx.pkt.paddr (length buf)) w s refl up
        set (λ b. fits_of (length buf) s.trx.pkt_size short (v.when_up up).pkt_size_is b) v)

first_of : (b : Bool) (x y : Bool × State) → b ≡ true → (if b then x else y) ≡ x
first_of true x y e = refl
first_of false x y e = cc

over : (n m : ℕ) → m + 48 < 2 ^ 32 → n < m + 48 → ltb n ((m + 48) % 2 ^ 32) ≡ true
over n m h l = ground arith

-- A page that does not fit g_pkt_size is refused before any access.
pub page_refused :
    (chip : TrxChip) (buf : List ℕ) (w : World) (s : State)
    → chip.tx_pkt_desc_sz ≡ 48
    → length buf + 48 < 2 ^ 32
    → s.trx.pkt_size < length buf + 48
    → trx_write_data_rsvd_page chip buf w s ≡ (false, s)
unfolding trx_write_data_rsvd_page
page_refused chip buf w s is short long =
    first_of (ltb s.trx.pkt_size ((length buf + chip.tx_pkt_desc_sz) % 2 ^ 32)) (false, s) _
      (ap (λ (z : ℕ). ltb s.trx.pkt_size ((length buf + z) % 2 ^ 32)) is
        ∙ over s.trx.pkt_size (length buf) short long)
