-- ===== src/Fw/Copied.antt =====
-- load_part of core/fwdownload.c and the copies that the log shows.
use rtl8821ce_mac_os.Base.{
  ℕ, ◌+◌, ◌*◌, ◌/◌, ◌%◌, ◌^◌, ◌≤◌, ◌≡◌, sym, ap, ap₂, subst, ◌∙◌, arith, bit_and, bit_or,
}
use rtl8821ce_mac_os.Base.{
  Bool, true, false, not, if◌then◌else◌, ◌==◌, ==_iff, Option, some, List, ◌∷◌, length, take,
}
use rtl8821ce_mac_os.Base.Masks.{bit_or-split, bit_and-low, bit_or_zero, zero_bit_or}
use rtl8821ce_mac_os.Base.Bytes.{take-all}
use native.Mathlib.Nat.{le_refl}
use rtl8821ce_mac_os.Hw.{bit}
use rtl8821ce_mac_os.Trx.{put, Log, World, State}
use rtl8821ce_mac_os.Trx.Init.{TrxChip}
use rtl8821ce_mac_os.Fw.{Rc, ok, logged, ddma_polling_count}
use rtl8821ce_mac_os.Fw.Card.{Transfer, packet, issue, transfers, Quiet, poll-Quiet, after_rc-ok}
use rtl8821ce_mac_os.Fw.Sent.{Sent, send_firmware_pkt-Sent}
use rtl8821ce_mac_os.Fw.Page.{send_firmware_pkt}
use rtl8821ce_mac_os.Fw.Dma.{
  reg_ddma_ch0ctrl, ddma_free, iddma_enable, ch0_ctrl, iddma_download_firmware, load_part,
}

-- What the control word says: a copy, of `len` bytes, with the checksum carried on or not.
record IsCommand (len : ℕ) (first : Bool) (c : ℕ) : Type 0 where
  owns : c / 2 ^ 31 % 2 ≡ 1
  length_is : c % 2 ^ 18 ≡ len
  cont_is : c / 2 ^ 24 % 2 ≡ (if first then 0 else 1)

first_word :
    (len : ℕ) → len ≤ 0x1000 → bit_or (bit 29 + bit 31) (bit_and len 0x3ffff) ≡ 10240 * 2 ^ 18 + len
first_word len h =
    let low : bit_and len 0x3ffff ≡ len = bit_and-low 18 len ∙ omega arith in
    rw low (
      let a : bit 29 + bit 31 ≡ 10240 * 2 ^ 18 + 0 = omega arith in
      let b : len ≡ 0 * 2 ^ 18 + len = omega arith in
      ap (λ x. bit_or (bit 29 + bit 31) x) b
      ∙ bit_or-split 18 10240 0 0 len (omega arith) (omega arith)
      ∙ omega (arith, zero_bit_or len len (le_refl len)))

ch0_ctrl-IsCommand :
    (len : ℕ) (first : Bool) → len ≤ 0x1000 → IsCommand len first (ch0_ctrl len first % 2 ^ 32)
unfolding ch0_ctrl
ch0_ctrl-IsCommand len true h =
    let e = first_word len h in
    record { owns = omega (arith, e); length_is = omega (arith, e); cont_is = omega (arith, e) }
ch0_ctrl-IsCommand len false h =
    let e : bit_or (bit_or (bit 29 + bit 31) (bit_and len 0x3ffff)) (bit 24) ≡ 161 * 2 ^ 24 + len =
      rw (first_word len h) (
        let a : 10240 * 2 ^ 18 + len ≡ 160 * 2 ^ 24 + len = omega arith in
        ap (λ x. bit_or x (bit 24)) a
        ∙ bit_or-split 24 160 1 len 0 (omega arith) (omega arith)
        ∙ omega (arith, bit_or_zero len len (le_refl len))) in
    record { owns = omega (arith, e); length_is = omega (arith, e); cont_is = omega (arith, e) }

carried : (first : Bool) (n : ℕ) → n ≡ (if first then 0 else 1) → n == 1 ≡ not first
carried true n e = ground arith
carried false n e = ground arith

-- One copy is added.
pub record Copied (h : ℕ) (t : Transfer) (s s' : State) : Type 0 where
  pub pkt_same : s'.trx.pkt.handle ≡ s.trx.pkt.handle
  pub txbd_same : s'.trx.txbd.handle ≡ s.trx.txbd.handle
  pub copies_are : transfers h s'.log ≡ t ∷ transfers h s.log

module _ (h : ℕ) where
  ddma_free-Quiet : (w : World) (s : State) → Quiet h s (ddma_free w s).1
  unfolding ddma_free
  ddma_free-Quiet w s = poll-Quiet h ddma_polling_count reg_ddma_ch0ctrl (bit 31) 0 w s

  issue_lem :
      (frame : List ℕ) (len src dst c : ℕ) (first : Bool) (old : List Transfer)
      → IsCommand len first c
      → length frame ≡ len
      → issue frame c (some (dst, src)) old
        ≡ record { src = src; dst = dst; bytes = frame; cont = not first } ∷ old
  unfolding issue
  issue_lem frame len src dst c first old k e =
      let whole : take (c % 2 ^ 18) frame ≡ frame =
        take-all (c % 2 ^ 18) frame (omega (arith, k.length_is)) in
      let copy : List ℕ → Bool → Transfer =
        λ bs b. record { src = src; dst = dst; bytes = bs; cont = b } in
      ap (λ b. if b then copy (take (c % 2 ^ 18) frame) (c / 2 ^ 24 % 2 == 1) ∷ old else old)
        ((==_iff (c / 2 ^ 31 % 2) 1).1 k.owns)
      ∙ ap₂ (λ bs b. copy bs b ∷ old) whole (carried first (c / 2 ^ 24 % 2) k.cont_is)

  iddma_enable-Copied :
      (src dst len : ℕ) (first : Bool) (frame : List ℕ) (w : World) (s : State)
      → len ≤ 0x1000
      → length frame ≡ len
      → packet h s.log ≡ frame
      → Copied h
          (record { src = src % 2 ^ 32; dst = dst % 2 ^ 32; bytes = frame; cont = not first })
          s
          (iddma_enable src dst (ch0_ctrl len first) w s).1
  unfolding iddma_enable transfers
  iddma_enable-Copied src dst len first frame w s small e p =
      let c = ch0_ctrl len first % 2 ^ 32 in
      let t =
        logged s
          (put 4 0x1208 c ∷ put 4 0x1204 (dst % 2 ^ 32) ∷ put 4 0x1200 (src % 2 ^ 32) ∷ s.log) in
      let q = ddma_free-Quiet w t in
      record {
        pkt_same = q.pkt_same;
        txbd_same = q.txbd_same;
        copies_are =
            q.copies_same
            ∙ ap (λ f. issue f c (some (dst % 2 ^ 32, src % 2 ^ 32)) (transfers h s.log)) p
            ∙ issue_lem frame len (src % 2 ^ 32) (dst % 2 ^ 32) c first (transfers h s.log)
                (ch0_ctrl-IsCommand len first small) e;
      }

  -- iddma_download_firmware, when it returns 0.
  iddma-Copied :
      (src dst len : ℕ) (first : Bool) (frame : List ℕ) (w : World) (s t : State)
      → len ≤ 0x1000
      → length frame ≡ len
      → Sent h frame s t
      → (iddma_download_firmware src dst len first w t).0 ≡ ok
      → Copied h
          (record { src = src % 2 ^ 32; dst = dst % 2 ^ 32; bytes = frame; cont = not first })
          s
          (iddma_download_firmware src dst len first w t).1
  unfolding iddma_download_firmware
  iddma-Copied src dst len first frame w s t small e p done =
      let r = ddma_free w t in
      let q = ddma_free-Quiet w t in
      let a = after_rc-ok r (iddma_enable src dst (ch0_ctrl len first) w) done in
      let c =
        iddma_enable-Copied src dst len first frame w r.1 small e (q.packet_same ∙ p.packet_is) in
      let copy : Transfer = record {
        src = src % 2 ^ 32;
        dst = dst % 2 ^ 32;
        bytes = frame;
        cont = not first;
      } in
      subst (λ (x : Rc × State). Copied h copy s x.1) (sym a.2)
        (record {
          pkt_same = c.pkt_same ∙ q.pkt_same ∙ p.pkt_same;
          txbd_same = c.txbd_same ∙ q.txbd_same ∙ p.txbd_same;
          copies_are = c.copies_are ∙ ap (◌∷◌ copy) (q.copies_same ∙ p.copies_same);
        })

  -- One round of the loop over the image, when it returns 0.
  pub load_part-Copied :
      (malloc : ℕ → Log → Bool) (chip : TrxChip) (dst len : ℕ) (first : Bool)
      (part : Option (List ℕ)) (w : World) (s : State)
      → chip.tx_pkt_desc_sz ≡ 48
      → s.trx.pkt.handle ≡ h
      → s.trx.txbd.handle == h ≡ false
      → len ≤ 0x1000
      → ((frame : List ℕ) → part ≡ some frame → length frame ≡ len)
      → let r = load_part malloc chip 0 dst len first part w s in
        r.0 ≡ ok
        → (frame : List ℕ) × (part ≡ some frame)
          × Copied h
              (record { src = 0x18780030; dst = dst % 2 ^ 32; bytes = frame; cont = not first })
              s
              r.1
  unfolding load_part
  load_part-Copied malloc chip dst len first part w s is p ne small sized done =
      let src = (0x18780000 + 0 + chip.tx_pkt_desc_sz) % 2 ^ 32 in
      let r = send_firmware_pkt malloc chip 0 len part w s in
      let a = after_rc-ok r (iddma_download_firmware src dst len first w) done in
      let f = send_firmware_pkt-Sent h malloc chip 0 len part w s is p ne a.0 in
      let c = iddma-Copied src dst len first f.0 w s r.1 small (sized f.0 f.1) f.2 a.1 in
      let at : src % 2 ^ 32 ≡ 0x18780030 = omega arith in
      let copy : ℕ → Transfer =
        λ x. record { src = x; dst = dst % 2 ^ 32; bytes = f.0; cont = not first } in
      (
        f.0,
        f.1,
        subst (λ (x : Rc × State). Copied h (copy 0x18780030) s x.1) (sym a.2)
            (subst
              (λ (x : ℕ). Copied h (copy x) s (iddma_download_firmware src dst len first w r.1).1)
              at c),
      )
