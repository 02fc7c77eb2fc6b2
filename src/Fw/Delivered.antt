-- ===== src/Fw/Delivered.antt =====
-- download_firmware_to_mem of core/fwdownload.c and the copies that the log shows.
use rtl8821ce_mac_os.Base.{
  ℕ, zero, suc, ◌+◌, ◌-◌, ◌/◌, ◌%◌, ◌^◌, ◌≤◌, ◌≡◌, refl, sym, ap, ◌∙◌, arith, subst, bit_or,
}
use rtl8821ce_mac_os.Base.{
  Bool, true, false, if◌then◌else◌, ◌==◌, some, List, [], ◌++◌, length, drop, copy_out, length-take,
  length-drop,
}
use rtl8821ce_mac_os.Hw.{bit}
use rtl8821ce_mac_os.Trx.{Log, World, State, ◌>>=◌}
use rtl8821ce_mac_os.Trx.Init.{TrxChip}
use rtl8821ce_mac_os.Fw.{Rc, ok, after_rc, read32, write32}
use rtl8821ce_mac_os.Fw.Card.{transfers, Quiet, after_rc-ok}
use rtl8821ce_mac_os.Fw.Copied.{load_part-Copied}
use rtl8821ce_mac_os.Fw.Dma.{
  reg_ddma_ch0ctrl, pkt_size_of, load_part, load_parts, sum_checked, check_fw_checksum,
  download_firmware_to_mem,
}
use rtl8821ce_mac_os.Fw.Loads.{is_nil, copy_out-some, Delivered, extend, chunk}

module _ (h : ℕ) (malloc : ℕ → Log → Bool) (chip : TrxChip) (image : List ℕ) where
  -- One round, for what the loop does after it.
  round-Delivered :
      (b : Bool) (off dst mo residue : ℕ) (first : Bool) (w : World) (s t : State)
      (d : Delivered h image off dst mo s t) (k : State → Rc × State)
      → residue == 0 ≡ b
      → first ≡ is_nil d.copies
      → chip.tx_pkt_desc_sz ≡ 48
      → s.trx.pkt.handle ≡ h
      → s.trx.txbd.handle == h ≡ false
      → let len = pkt_size_of residue in
        let more : Type 0 =
          (u : State) (v : Delivered h image off dst (mo + len) s u)
          → false ≡ is_nil v.copies
          → (k u).0 ≡ ok
          → Delivered h image off dst (mo + len + (residue - len)) s (k u).1 in
        let part =
          load_part malloc chip 0
            ((dst + mo) % 2 ^ 32)
            len
            first
            (copy_out (off + mo) len image)
            w
            t in
        let r : Rc × State = if b then (ok, t) else after_rc part k in
        more → r.0 ≡ ok → Delivered h image off dst (mo + residue) s r.1
  round-Delivered true off dst mo residue first w s t d k z e is p ne more done =
      let same : mo ≡ mo + residue = ground arith in
      subst (λ (n : ℕ). Delivered h image off dst n s t) same d
  round-Delivered false off dst mo residue first w s t d k z e is p ne more done =
      let len = pkt_size_of residue in
      let out = copy_out (off + mo) len image in
      let part = load_part malloc chip 0 ((dst + mo) % 2 ^ 32) len first out w t in
      let a = after_rc-ok part k done in
      let fits = chunk h malloc chip image residue z in
      let whole : (frame : List ℕ) → out ≡ some frame → length frame ≡ len = λ frame o.
        let x = copy_out-some (off + mo) len image frame o in
        ap length x.1
        ∙ omega
            (arith, x.0, length-take len (drop (off + mo) image), length-drop (off + mo) image) in
      let c =
        load_part-Copied h malloc chip ((dst + mo) % 2 ^ 32) len first out w t is (d.pkt_same ∙ p)
          (ap (λ g. g == h) d.txbd_same ∙ ne) fits.0 whole a.0 in
      let v =
        extend h malloc chip image off dst mo len c.0 first s t part.1 d e
          (omega (arith, whole c.0 c.1, fits.0)) c.1 c.2 in
      let n : mo + len + (residue - len) ≡ mo + residue = omega (arith, fits.1) in
      subst (λ (x : Rc × State). Delivered h image off dst (mo + residue) s x.1) (sym a.2)
        (subst (λ (m : ℕ). Delivered h image off dst m s (k part.1).1) n (more part.1 v.0 v.1 a.1))

  load_parts-Delivered :
      (n off dst mo residue : ℕ) (first : Bool) (w : World) (s t : State)
      (d : Delivered h image off dst mo s t)
      → first ≡ is_nil d.copies
      → chip.tx_pkt_desc_sz ≡ 48
      → s.trx.pkt.handle ≡ h
      → s.trx.txbd.handle == h ≡ false
      → let r = load_parts malloc chip image n off 0 dst mo residue first w t in
        r.0 ≡ ok → Delivered h image off dst (mo + residue) s r.1
  unfolding load_parts
  load_parts-Delivered zero off dst mo residue first w s t d e is p ne done = cc
  load_parts-Delivered (suc n) off dst mo residue first w s t d e is p ne done =
      let len = pkt_size_of residue in
      round-Delivered (residue == 0) off dst mo residue first w s t d
        (load_parts malloc chip image n off 0 dst (mo + len) (residue - len) false w) refl e is p ne
        (λ u v q. load_parts-Delivered n off dst (mo + len) (residue - len) false w s u v q is p ne)
        done

  -- The reset of the checksum before the loop, and the check after it.
  reset_sum : World → State → State
  reset_sum w s =
      let r =
        (read32 reg_ddma_ch0ctrl >>= λ val. write32 reg_ddma_ch0ctrl (bit_or val (bit 25))) w s in
      r.1

  reset_sum-Quiet : (w : World) (s : State) → Quiet h s (reset_sum w s)
  unfolding reset_sum transfers
  reset_sum-Quiet w s = record {
    pkt_same = refl;
    txbd_same = refl;
    packet_same = refl;
    copies_same = refl;
  }

  check_fw_checksum-Quiet :
      (dst : ℕ) (w : World) (s : State) → Quiet h s (check_fw_checksum dst w s).1
  unfolding check_fw_checksum transfers
  check_fw_checksum-Quiet dst w s = record {
    pkt_same = refl;
    txbd_same = refl;
    packet_same = refl;
    copies_same = refl;
  }

  around :
      (off dst n : ℕ) (s t u v : State)
      → Quiet h s t
      → Delivered h image off dst n t u
      → Quiet h u v
      → Delivered h image off dst n s v
  around off dst n s t u v a d b = record {
    pkt_same = b.pkt_same ∙ d.pkt_same ∙ a.pkt_same;
    txbd_same = b.txbd_same ∙ d.txbd_same ∙ a.txbd_same;
    inside = d.inside;
    copies = d.copies;
    copies_are = b.copies_same ∙ d.copies_are ∙ ap (◌++◌ d.copies) a.copies_same;
    loads = d.loads;
  }

  -- A section is delivered when download_firmware_to_mem returns 0.
  pub to_mem-Delivered :
      (off dst size : ℕ) (w : World) (s : State)
      → off ≤ length image
      → chip.tx_pkt_desc_sz ≡ 48
      → s.trx.pkt.handle ≡ h
      → s.trx.txbd.handle == h ≡ false
      → let r = download_firmware_to_mem malloc chip image off 0 dst size w s in
        r.0 ≡ ok → Delivered h image off dst size s r.1
  unfolding download_firmware_to_mem reset_sum
  to_mem-Delivered off dst size w s i is p ne done =
      let t = reset_sum w s in
      let q = reset_sum-Quiet w s in
      let parts = load_parts malloc chip image (size / 0x1000 + 2) off 0 dst 0 size true w t in
      let check : State → Rc × State =
        λ u. (sum_checked (check_fw_checksum dst w u).0, (check_fw_checksum dst w u).1) in
      let a = after_rc-ok parts check done in
      let start : Delivered h image off dst 0 t t = record {
        pkt_same = refl;
        txbd_same = refl;
        inside = omega arith;
        copies = [];
        copies_are = refl;
        loads = refl;
      } in
      let d =
        load_parts-Delivered (size / 0x1000 + 2) off dst 0 size true w t t start refl is
          (q.pkt_same ∙ p) (ap (λ g. g == h) q.txbd_same ∙ ne) a.0 in
      let n : 0 + size ≡ size = omega arith in
      subst (λ (x : Rc × State). Delivered h image off dst size s x.1) (sym a.2)
        (around off dst size s t parts.1 (check parts.1).1 q
          (subst (λ (m : ℕ). Delivered h image off dst m t parts.1) n d)
          (check_fw_checksum-Quiet dst w parts.1))
