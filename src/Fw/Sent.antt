-- ===== src/Fw/Sent.antt =====
-- send_firmware_pkt of core/fwdownload.c, the packet buffer and the copies that the log shows.
use rtl8821ce_mac_os.Base.{ℕ, ◌+◌, ◌%◌, ◌^◌, ◌≡◌, refl, sym, ap, ◌∙◌, arith, subst, bit_or}
use rtl8821ce_mac_os.Base.{
  Bool, true, false, ◌&&◌, if◌then◌else◌, ltb, ◌==◌, Option, none, some, List, length,
}
use rtl8821ce_mac_os.Hw.{bit}
use rtl8821ce_mac_os.Trx.{
  stored, Log, World, State, ◌>>=◌, ◌>>◌, pure, emit, modify, put, reg_read, queue_bcn,
}
use rtl8821ce_mac_os.Trx.Init.{TrxChip}
use rtl8821ce_mac_os.Trx.Send.{
  Desc, ring_at, set_ring, build, bd_bytes, rsvd_desc, psb_len_of, trx_write_data_rsvd_page,
}
use rtl8821ce_mac_os.Fw.{einval, enomem, Rc, ok, err, ddma_polling_count}
use rtl8821ce_mac_os.Fw.Card.{packet, transfers, Quiet, poll-Quiet}
use rtl8821ce_mac_os.Fw.Page.{
  Saved, arm_page, restore_page, page_sent, write_data_rsvd_page, send_copy, send_firmware_pkt,
  reg_fifopage_ctrl_2,
}

-- The frame has reached the packet buffer.
pub record Sent (h : ℕ) (frame : List ℕ) (s s' : State) : Type 0 where
  pub pkt_same : s'.trx.pkt.handle ≡ s.trx.pkt.handle
  pub txbd_same : s'.trx.txbd.handle ≡ s.trx.txbd.handle
  pub packet_is : packet h s'.log ≡ frame
  pub copies_same : transfers h s'.log ≡ transfers h s.log

module _ (h : ℕ) where
  Quiet-Sent : (frame : List ℕ) (s t u : State) → Quiet h s t → Sent h frame t u → Sent h frame s u
  Quiet-Sent frame s t u q p = record {
    pkt_same = p.pkt_same ∙ q.pkt_same;
    txbd_same = p.txbd_same ∙ q.txbd_same;
    packet_is = p.packet_is;
    copies_same = p.copies_same ∙ q.copies_same;
  }

  Sent-Quiet : (frame : List ℕ) (s t u : State) → Sent h frame s t → Quiet h t u → Sent h frame s u
  Sent-Quiet frame s t u p q = record {
    pkt_same = q.pkt_same ∙ p.pkt_same;
    txbd_same = q.txbd_same ∙ p.txbd_same;
    packet_is = q.packet_same ∙ p.packet_is;
    copies_same = q.copies_same ∙ p.copies_same;
  }

  same : h == h ≡ true
  same = ground arith

  and_false : (b : Bool) → b && false ≡ false
  and_false true = refl
  and_false false = refl

  -- A store elsewhere, in another buffer or at another offset.
  skip : (b : Bool) (bytes old : List ℕ) → b ≡ false → (if b then bytes else old) ≡ old
  skip b bytes old e = ap (λ c. if c then bytes else old) e

  left_false : (a b : Bool) → a ≡ false → a && b ≡ false
  left_false a b e = ap (λ c. c && b) e

  -- The stores of the reserved page, behind its size check.
  stores-Sent :
      (b : Bool) (d : Desc) (frame bd : List ℕ) (w : World) (s : State)
      → s.trx.pkt.handle ≡ h
      → s.trx.txbd.handle == h ≡ false
      → let ring = ring_at s.trx queue_bcn in
        let r : Bool × State =
          if b
          then (false, s)
          else (build 48 d frame
                >> modify (set_ring queue_bcn (record ring { wp = 0; rp = 0 }))
                >> emit (stored s.trx.txbd.handle ring.bd_off bd)
                >> (reg_read 1 0x383 >>= λ work. emit (put 1 0x383 (bit_or work (2 ^ 4))))
                >> pure true)
              w s in
        r.0 ≡ true → Sent h frame s r.1
  unfolding build transfers
  stores-Sent true d frame bd w s p ne e = cc
  stores-Sent false d frame bd w s p ne e =
      let g = s.trx.pkt.handle in
      let here : g == h && true ≡ true = ap (λ x. x == h && true) p ∙ ap (λ b. b && true) same in
      let old = packet h s.log in
      let off = (ring_at s.trx queue_bcn).bd_off in
      record {
        pkt_same = refl;
        txbd_same = refl;
        packet_is =
            skip (s.trx.txbd.handle == h && off == 48) bd _
              (left_false (s.trx.txbd.handle == h) (off == 48) ne)
            ∙ skip (g == h && false) _ _ (and_false (g == h))
            ∙ skip (g == h && false) _ _ (and_false (g == h))
            ∙ skip (g == h && false) _ _ (and_false (g == h))
            ∙ ap (λ c. if c then frame else old) here;
        copies_same = refl;
      }

  write-Sent :
      (chip : TrxChip) (frame : List ℕ) (w : World) (s : State)
      → chip.tx_pkt_desc_sz ≡ 48
      → s.trx.pkt.handle ≡ h
      → s.trx.txbd.handle == h ≡ false
      → (trx_write_data_rsvd_page chip frame w s).0 ≡ true
      → Sent h frame s (trx_write_data_rsvd_page chip frame w s).1
  unfolding trx_write_data_rsvd_page bd_bytes
  write-Sent chip frame w s is p ne =
      let with_size : ℕ → TrxChip = λ z. record chip { tx_pkt_desc_sz = z } in
      let total = (length frame + 48) % 2 ^ 32 in
      subst
        (λ (c : TrxChip).
          (trx_write_data_rsvd_page c frame w s).0 ≡ true
          → Sent h frame s (trx_write_data_rsvd_page c frame w s).1)
        (sym (ap with_size is))
        (stores-Sent (ltb s.trx.pkt_size total) (rsvd_desc 48 (length frame) frame) frame
          (bd_bytes 48 (bit_or (psb_len_of total) (2 ^ 15)) s.trx.pkt.paddr (length frame)) w s p
          ne)

  arm_page-Quiet : (pg : ℕ) (w : World) (s : State) → Quiet h s (arm_page pg w s).1
  unfolding arm_page transfers
  arm_page-Quiet pg w s = record {
    pkt_same = refl;
    txbd_same = refl;
    packet_same = refl;
    copies_same = refl;
  }

  restore_page-Quiet : (b : Saved) (w : World) (s : State) → Quiet h s (restore_page b w s).1
  unfolding restore_page transfers
  restore_page-Quiet b w s = record {
    pkt_same = refl;
    txbd_same = refl;
    packet_same = refl;
    copies_same = refl;
  }

  page_sent-ok : (sent : Bool) (w : World) (s : State) → (page_sent sent w s).0 ≡ ok → sent ≡ true
  unfolding page_sent
  page_sent-ok true w s e = refl
  page_sent-ok false w s e = cc

  page_sent-Quiet : (w : World) (s : State) → Quiet h s (page_sent true w s).1
  unfolding page_sent
  page_sent-Quiet w s = poll-Quiet h ddma_polling_count reg_fifopage_ctrl_2 (bit 15) 1 w s

  -- From the stores on, with what trx_write_data_rsvd_page returned.
  finished :
      (sent : Bool) (b : Saved) (frame : List ℕ) (w : World) (s t : State)
      → (sent ≡ true → Sent h frame s t)
      → (page_sent sent w t).0 ≡ ok
      → Sent h frame s (restore_page b w (page_sent sent w t).1).1
  finished false b frame w s t f e = cc (page_sent-ok false w t e)
  finished true b frame w s t f e =
      let u = (page_sent true w t).1 in
      Sent-Quiet frame s u (restore_page b w u).1
        (Sent-Quiet frame s t u (f refl) (page_sent-Quiet w t)) (restore_page-Quiet b w u)

  page-Sent :
      (c : Bool) (chip : TrxChip) (pg : ℕ) (frame : List ℕ) (w : World) (s : State)
      → chip.tx_pkt_desc_sz ≡ 48
      → s.trx.pkt.handle ≡ h
      → s.trx.txbd.handle == h ≡ false
      → let r : Rc × State =
          if c
          then (err einval, s)
          else (arm_page pg >>= λ b. trx_write_data_rsvd_page chip frame >>= page_sent >>= λ ret.
                restore_page b >> pure ret)
              w s in
        r.0 ≡ ok → Sent h frame s r.1
  page-Sent true chip pg frame w s is p ne e = cc
  page-Sent false chip pg frame w s is p ne e =
      let a = arm_page pg w s in
      let q = arm_page-Quiet pg w s in
      let sent = trx_write_data_rsvd_page chip frame w a.1 in
      let u = (restore_page a.0 w (page_sent sent.0 w sent.1).1).1 in
      Quiet-Sent frame s a.1 u q (
        finished sent.0 a.0 frame w a.1 sent.1
          (write-Sent chip frame w a.1 is (q.pkt_same ∙ p) (ap (λ g. g == h) q.txbd_same ∙ ne)) e)

  write_data_rsvd_page-Sent :
      (chip : TrxChip) (pg : ℕ) (frame : List ℕ) (w : World) (s : State)
      → chip.tx_pkt_desc_sz ≡ 48
      → s.trx.pkt.handle ≡ h
      → s.trx.txbd.handle == h ≡ false
      → (write_data_rsvd_page chip pg frame w s).0 ≡ ok
      → Sent h frame s (write_data_rsvd_page chip pg frame w s).1
  unfolding write_data_rsvd_page
  write_data_rsvd_page-Sent chip pg frame = page-Sent (length frame == 0) chip pg frame

  copy-Sent :
      (chip : TrxChip) (pg : ℕ) (part : Option (List ℕ)) (w : World) (s : State)
      → chip.tx_pkt_desc_sz ≡ 48
      → s.trx.pkt.handle ≡ h
      → s.trx.txbd.handle == h ≡ false
      → (send_copy chip pg part w s).0 ≡ ok
      → (frame : List ℕ) × (part ≡ some frame) × Sent h frame s (send_copy chip pg part w s).1
  unfolding send_copy
  copy-Sent chip pg none w s is p ne e = cc
  copy-Sent chip pg (some frame) w s is p ne e =
      (frame, refl, write_data_rsvd_page-Sent chip pg frame w s is p ne e)

  allocated :
      (b : Bool) (chip : TrxChip) (pg : ℕ) (part : Option (List ℕ)) (w : World) (s : State)
      → chip.tx_pkt_desc_sz ≡ 48
      → s.trx.pkt.handle ≡ h
      → s.trx.txbd.handle == h ≡ false
      → let r : Rc × State = if b then send_copy chip pg part w s else (err enomem, s) in
        r.0 ≡ ok → (frame : List ℕ) × (part ≡ some frame) × Sent h frame s r.1
  allocated true chip pg part w s is p ne e = copy-Sent chip pg part w s is p ne e
  allocated false chip pg part w s is p ne e = cc

  -- What send_firmware_pkt has sent when it returns 0.
  pub send_firmware_pkt-Sent :
      (malloc : ℕ → Log → Bool) (chip : TrxChip) (pg size : ℕ) (part : Option (List ℕ)) (w : World)
      (s : State)
      → chip.tx_pkt_desc_sz ≡ 48
      → s.trx.pkt.handle ≡ h
      → s.trx.txbd.handle == h ≡ false
      → let r = send_firmware_pkt malloc chip pg size part w s in
        r.0 ≡ ok → (frame : List ℕ) × (part ≡ some frame) × Sent h frame s r.1
  unfolding send_firmware_pkt
  send_firmware_pkt-Sent malloc chip pg size part w s =
      allocated (malloc size s.log) chip pg part w s
