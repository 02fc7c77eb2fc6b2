-- ===== src/Fw/Card.antt =====
-- The on-chip DMA as the card sees it in the log of core/fwdownload.c: which bytes it was told to
-- copy, and to where.
use rtl8821ce_mac_os.Base.{ℕ, zero, suc, ◌/◌, ◌%◌, ◌^◌, ◌≡◌, refl, ◌∙◌, bit_and}
use rtl8821ce_mac_os.Base.{
  Bool, true, false, ◌&&◌, if◌then◌else◌, ◌==◌, Option, none, some, List, [], ◌∷◌, take,
}
use rtl8821ce_mac_os.Hw.{ctz}
use rtl8821ce_mac_os.Trx.{get, put, stored, waited, Log, World, State}
use rtl8821ce_mac_os.Fw.{Rc, ok, err, after_rc, poll, logged}
use rtl8821ce_mac_os.Fw.Dma.{reg_ddma_ch0sa, reg_ddma_ch0da, reg_ddma_ch0ctrl}

-- A copy from the TX buffer of the chip; `cont` is whether the checksum goes on from the last one.
pub record Transfer : Type 0 where
  pub src : ℕ
  pub dst : ℕ
  pub bytes : List ℕ
  pub cont : Bool

-- The frame behind the descriptor of 48 bytes in the packet buffer `h`.
unfoldable pub packet : ℕ → Log → List ℕ
packet h [] = []
packet h (stored g i bytes ∷ t) = let old = packet h t in if g == h && i == 48 then bytes else old
packet h (e ∷ t) = packet h t

-- The destination and the source, if the last two writes set them.
unfoldable pub addresses : Log → Option (ℕ × ℕ)
addresses (put w a v ∷ put w' a' v' ∷ t) =
    if w == 4 && a == reg_ddma_ch0da && (w' == 4 && a' == reg_ddma_ch0sa)
    then some (v, v')
    else none
addresses t = none

-- A control word with the OWN bit, right after both addresses, starts a copy.
unfoldable pub issue : List ℕ → ℕ → Option (ℕ × ℕ) → List Transfer → List Transfer
issue frame ctrl none old = old
issue frame ctrl (some (dst, src)) old =
    if ctrl / 2 ^ 31 % 2 == 1
    then record {
      src = src;
      dst = dst;
      bytes = take (ctrl % 2 ^ 18) frame;
      cont = ctrl / 2 ^ 24 % 2 == 1;
    }
      ∷ old
    else old

-- The copies so far, the newest first.
unfoldable pub transfers : ℕ → Log → List Transfer
unfolding packet addresses issue
transfers h [] = []
transfers h (put w a v ∷ t) =
    let old = transfers h t in
    let started = issue (packet h t) v (addresses t) old in
    if w == 4 && a == reg_ddma_ch0ctrl then started else old
transfers h (e ∷ t) = transfers h t

module _ (h : ℕ) where
  -- Code that starts no copy and leaves the packet buffer as it is.
  pub record Quiet (s s' : State) : Type 0 where
    pub pkt_same : s'.trx.pkt.handle ≡ s.trx.pkt.handle
    pub txbd_same : s'.trx.txbd.handle ≡ s.trx.txbd.handle
    pub packet_same : packet h s'.log ≡ packet h s.log
    pub copies_same : transfers h s'.log ≡ transfers h s.log

  pub Quiet-refl : (s : State) → Quiet s s
  Quiet-refl s = record {
    pkt_same = refl;
    txbd_same = refl;
    packet_same = refl;
    copies_same = refl;
  }

  pub Quiet-trans : (s t u : State) → Quiet s t → Quiet t u → Quiet s u
  Quiet-trans s t u a b = record {
    pkt_same = b.pkt_same ∙ a.pkt_same;
    txbd_same = b.txbd_same ∙ a.txbd_same;
    packet_same = b.packet_same ∙ a.packet_same;
    copies_same = b.copies_same ∙ a.copies_same;
  }

  pub choice-Quiet :
      {A : Type 0} (b : Bool) (s : State) (x y : A × State)
      → Quiet s x.1
      → Quiet s y.1
      → Quiet s (if b then x else y).1
  choice-Quiet true s x y p q = p
  choice-Quiet false s x y p q = q

  pub poll-Quiet :
      (n a mask target : ℕ) (w : World) (s : State) → Quiet s (poll n a mask target w s).1
  unfolding poll transfers
  poll-Quiet zero a mask target w s = Quiet-refl s
  poll-Quiet (suc n) a mask target w s =
      let v = w.read 4 a s.log % 2 ^ 32 in
      let read = logged s (get 4 a v ∷ s.log) in
      let next = logged s (waited 10 ∷ get 4 a v ∷ s.log) in
      let quiet : Quiet s next = record {
        pkt_same = refl;
        txbd_same = refl;
        packet_same = refl;
        copies_same = refl;
      } in
      choice-Quiet (bit_and v mask / 2 ^ ctz 32 mask == target) s (true, read)
        (poll n a mask target w next)
        (record { pkt_same = refl; txbd_same = refl; packet_same = refl; copies_same = refl })
        (Quiet-trans s next (poll n a mask target w next).1 quiet
          (poll-Quiet n a mask target w next))

-- A chain that succeeds.
pub after_rc-ok :
    (r : Rc × State) (k : State → Rc × State)
    → (after_rc r k).0 ≡ ok
    → (r.0 ≡ ok) × ((k r.1).0 ≡ ok) × (after_rc r k ≡ k r.1)
after_rc-ok (ok, s) k e = (refl, e, refl)
after_rc-ok (err f, s) k e = cc
