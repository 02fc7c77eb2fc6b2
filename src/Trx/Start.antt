-- ===== src/Trx/Start.antt =====
-- The RX loop of trx_init of core/trx.c.
use rtl8821ce_mac_os.Base.{ℕ, zero, suc, ◌+◌, ◌*◌, ◌%◌, ◌^◌, ◌≤◌, ◌≡◌, refl, sym, ◌∙◌, arith, subst}
use rtl8821ce_mac_os.Base.{
  Bool, true, false, if◌then◌else◌, ◌==◌, Option, none, some, List, [], ◌∷◌, ◌++◌,
}
use Prim.{Unit, tt}
use rtl8821ce_mac_os.Trx.{
  le16, le32, stored, cleared, Event, allocated, refused, freed, Log, World, Grant, Buf, Trx, State,
  emit, grant_event, hw_dma_alloc, ◌>>=◌,
}
use rtl8821ce_mac_os.Trx.Init.{
  TrxChip, buf_of, drop_vaddr, fill_rx, rx_pool, rx_bds, rx_loop, uscan_rx_buf_size,
}
use rtl8821ce_mac_os.Trx.Memory.{
  size_of, IsSafe, IsFresh, Live, Live-Covers, allocated-Live, apart, allocated_keeps, freed_keeps,
}
use rtl8821ce_mac_os.Trx.Safe.{Ready}

-- During trx_init, once the TX descriptors and the packet buffer are there.
pub record Mid (bds pkt : Grant) (t : Trx) (l : Log) : Type 0 where
  pub ready : Ready t l
  pub bds_is : t.txbd ≡ buf_of bds
  pub pkt_is : t.pkt ≡ buf_of pkt

-- An event that leaves the two buffers alone.
pub Mid-event :
    (bds pkt : Grant) (t : Trx) (l : Log) (e : Event)
    → Mid bds pkt t l
    → IsSafe (e ∷ l)
    → Live (e ∷ l) t.txbd.handle t.txbd_size
    → Live (e ∷ l) t.pkt.handle t.pkt_size
    → Mid bds pkt t (e ∷ l)
Mid-event bds pkt t l e m h b p = record {
  ready = record {
    safe = h;
    bd_live = b;
    pkt_live = p;
    pkt_set = m.ready.pkt_set;
    fits = m.ready.fits;
    bds_set = m.ready.bds_set;
    pkt_size_is = m.ready.pkt_size_is;
  };
  bds_is = m.bds_is;
  pkt_is = m.pkt_is;
}

pub Mid-alloc :
    (bds pkt : Grant) (t : Trx) (l : Log) (size : ℕ) (a : Option Grant)
    → ((g : Grant) → a ≡ some g → size_of l g.handle ≡ none)
    → Mid bds pkt t l
    → Mid bds pkt t (grant_event size a ∷ l)
Mid-alloc bds pkt t l size none f m =
    Mid-event bds pkt t l (refused size) m (tt, m.ready.safe) m.ready.bd_live m.ready.pkt_live
Mid-alloc bds pkt t l size (some g) f m =
    let new = f g refl in
    Mid-event bds pkt t l (allocated size g.handle) m (new, m.ready.safe)
      (allocated_keeps l t.txbd.handle t.txbd_size g.handle size m.ready.bd_live new)
      (allocated_keeps l t.pkt.handle t.pkt_size g.handle size m.ready.pkt_live new)

-- The other statics do not matter.
pub Mid-other :
    (bds pkt : Grant) (t : Trx) (l : Log) (a b c : Buf) (ok up : Bool) (n z : ℕ)
    → Mid bds pkt t l
    → Mid bds pkt
        (record t {
          rxbd = a;
          rxdata = b;
          txpool = c;
          rx_ok = ok;
          alloced = up;
          rx_n = n;
          txpool_size = z;
        })
        l
Mid-other bds pkt t l a b c ok up n z m = record {
  ready = record {
    safe = m.ready.safe;
    bd_live = m.ready.bd_live;
    pkt_live = m.ready.pkt_live;
    pkt_set = m.ready.pkt_set;
    fits = m.ready.fits;
    bds_set = m.ready.bds_set;
    pkt_size_is = m.ready.pkt_size_is;
  };
  bds_is = m.bds_is;
  pkt_is = m.pkt_is;
}

-- fill_rx stays inside the RX descriptors.
grant_keeps :
    (l : Log) (h n size : ℕ) (a : Option Grant)
    → ((g : Grant) → a ≡ some g → size_of l g.handle ≡ none)
    → Live l h n
    → Live (grant_event size a ∷ l) h n
grant_keeps l h n size none f live = live
grant_keeps l h n size (some g) f live = allocated_keeps l h n g.handle size live (f g refl)

fill_rx-Mid :
    (n i total h pool : ℕ) (bds pkt : Grant) (w : World) (s : State)
    → i + n ≤ total
    → Live s.log h (total * 8)
    → Mid bds pkt s.trx s.log
    → Mid bds pkt (fill_rx n i h 8 pool w s).1.trx (fill_rx n i h 8 pool w s).1.log
unfolding fill_rx
fill_rx-Mid zero i total h pool bds pkt w s le live m = m
fill_rx-Mid (suc n) i total h pool bds pkt w s le live m =
    let bytes =
      le16 uscan_rx_buf_size ++ (le16 0 ++ le32 ((pool + i * uscan_rx_buf_size) % 2 ^ 32)) in
    let s1 : State = (emit (stored h (i * 8) bytes) w s).1 in
    fill_rx-Mid n (suc i) total h pool bds pkt w s1 (omega arith) live (
      Mid-event bds pkt s.trx s.log (stored h (i * 8) bytes) m
        (Live-Covers s.log h (total * 8) (i * 8 + 8) live (omega arith), m.ready.safe)
        m.ready.bd_live m.ready.pkt_live)

rx_pool-Mid :
    (chip : TrxChip) (n : ℕ) (g : Grant) (a : Option Grant) (bds pkt : Grant) (w : World)
    (s : State)
    → chip.rx_buf_desc_sz ≡ 8
    → Live s.log g.handle (n * chip.rx_buf_desc_sz)
    → s.trx.txbd.handle == g.handle ≡ false
    → s.trx.pkt.handle == g.handle ≡ false
    → Mid bds pkt s.trx s.log
    → Mid bds pkt (rx_pool chip n g a w s).1.trx (rx_pool chip n g a w s).1.log
unfolding rx_pool
rx_pool-Mid chip n g none bds pkt w s c live db dp m =
    Mid-other bds pkt s.trx (freed g.handle ∷ s.log) (drop_vaddr (buf_of g)) s.trx.rxdata
      s.trx.txpool s.trx.rx_ok s.trx.alloced s.trx.rx_n s.trx.txpool_size
      (Mid-event bds pkt s.trx s.log (freed g.handle) m
        (Live-Covers s.log g.handle (n * chip.rx_buf_desc_sz) 0 live (omega arith), m.ready.safe)
        (freed_keeps s.log s.trx.txbd.handle s.trx.txbd_size g.handle m.ready.bd_live db)
        (freed_keeps s.log s.trx.pkt.handle s.trx.pkt_size g.handle m.ready.pkt_live dp))
rx_pool-Mid chip n g (some p) bds pkt w s c live db dp m =
    let u : Trx = record s.trx { rxdata = buf_of p; rx_n = n } in
    let e = cleared g.handle (n * chip.rx_buf_desc_sz) in
    let s1 : State = record { trx = u; log = e ∷ s.log } in
    let first : Mid bds pkt u (e ∷ s.log) =
      Mid-event bds pkt u s.log e
        (Mid-other bds pkt s.trx s.log s.trx.rxbd (buf_of p) s.trx.txpool s.trx.rx_ok s.trx.alloced
          n s.trx.txpool_size m)
        (
          Live-Covers s.log g.handle (n * chip.rx_buf_desc_sz) (n * chip.rx_buf_desc_sz) live
              (omega arith),
          m.ready.safe,
        )
        m.ready.bd_live m.ready.pkt_live in
    let filled = (fill_rx n 0 g.handle chip.rx_buf_desc_sz p.paddr w s1).1 in
    let last : Mid bds pkt filled.trx filled.log =
      subst
        (λ z.
          Live s.log g.handle (n * z)
          → Mid bds pkt (fill_rx n 0 g.handle z p.paddr w s1).1.trx
              (fill_rx n 0 g.handle z p.paddr w s1).1.log)
        (sym c) (λ h. fill_rx-Mid n 0 n g.handle p.paddr bds pkt w s1 (omega arith) h first) live in
    Mid-other bds pkt filled.trx filled.log filled.trx.rxbd filled.trx.rxdata filled.trx.txpool true
      filled.trx.alloced filled.trx.rx_n filled.trx.txpool_size last

rx_bds-Mid :
    (chip : TrxChip) (n : ℕ) (a : Option Grant) (bds pkt : Grant) (w : World) (t : Trx) (l : Log)
    → IsFresh w
    → chip.rx_buf_desc_sz ≡ 8
    → w.dma (n * chip.rx_buf_desc_sz) l ≡ a
    → Mid bds pkt t l
    → let s : State = record { trx = t; log = grant_event (n * chip.rx_buf_desc_sz) a ∷ l } in
      Mid bds pkt (rx_bds chip n a w s).1.trx (rx_bds chip n a w s).1.log
unfolding rx_bds
rx_bds-Mid chip n none bds pkt w t l fresh c e m =
    Mid-alloc bds pkt t l (n * chip.rx_buf_desc_sz) none (λ g q. fresh _ l g (e ∙ q)) m
rx_bds-Mid chip n (some g) bds pkt w t l fresh c e m =
    let size = n * chip.rx_buf_desc_sz in
    let new = fresh size l g e in
    let l1 : Log = allocated size g.handle ∷ l in
    let u : Trx = record t { rxbd = buf_of g } in
    let a2 = w.dma (n * uscan_rx_buf_size) l1 in
    let s2 : State = record { trx = u; log = grant_event (n * uscan_rx_buf_size) a2 ∷ l1 } in
    let m1 : Mid bds pkt u l1 =
      Mid-other bds pkt t l1 (buf_of g) t.rxdata t.txpool t.rx_ok t.alloced t.rx_n t.txpool_size
        (Mid-alloc bds pkt t l size (some g) (λ h q. fresh size l h (e ∙ q)) m) in
    rx_pool-Mid chip n g a2 bds pkt w s2 c
      (grant_keeps l1 g.handle size (n * uscan_rx_buf_size) a2 (λ h q. fresh _ l1 h q)
        (allocated-Live l g.handle size))
      (apart l t.txbd.handle t.txbd_size g.handle m.ready.bd_live new)
      (apart l t.pkt.handle t.pkt_size g.handle m.ready.pkt_live new)
      (Mid-alloc bds pkt u l1 (n * uscan_rx_buf_size) a2 (λ h q. fresh _ l1 h q) m1)

step_lem :
    (b : Bool) (bds pkt : Grant) (s s' : State)
    → Mid bds pkt s.trx s.log
    → Mid bds pkt s'.trx s'.log
    → let r : Unit {0} × State = if b then (tt, s) else (tt, s') in Mid bds pkt r.1.trx r.1.log
step_lem true bds pkt s s' m n = m
step_lem false bds pkt s s' m n = n

pub rx_loop-Mid :
    (chip : TrxChip) (ns : List ℕ) (bds pkt : Grant) (w : World) (s : State)
    → IsFresh w
    → chip.rx_buf_desc_sz ≡ 8
    → Mid bds pkt s.trx s.log
    → Mid bds pkt (rx_loop chip ns w s).1.trx (rx_loop chip ns w s).1.log
unfolding rx_loop
rx_loop-Mid chip [] bds pkt w s fresh c m = m
rx_loop-Mid chip (n ∷ ns) bds pkt w s fresh c m =
    let r = (hw_dma_alloc (n * chip.rx_buf_desc_sz) >>= rx_bds chip n) w s in
    let now =
      rx_bds-Mid chip n (w.dma (n * chip.rx_buf_desc_sz) s.log) bds pkt w s.trx s.log fresh c refl
        m in
    step_lem r.0 bds pkt r.1 (rx_loop chip ns w r.1).1 now
      (rx_loop-Mid chip ns bds pkt w r.1 fresh c now)
