-- ===== src/Trx/Once.antt =====
-- trx_init of core/trx.c as a whole, at every allocation result.
use rtl8821ce_mac_os.Base.{◌*◌, ◌≡◌, refl, sym, ap, ◌∙◌, arith, subst}
use rtl8821ce_mac_os.Base.{Bool, true, false, if◌then◌else◌, ◌==◌, Option, none, some, ◌∷◌, map}
use Prim.{tt}
use rtl8821ce_mac_os.Trx.{
  cleared, allocated, Log, World, Grant, Buf, Trx, State, grant_event, ◌>>◌, pure, lay_out, keep_bd,
  q_regs, set_bd,
}
use rtl8821ce_mac_os.Trx.Init.{
  TrxChip, buf_of, trx_reset, with_pkt, with_txbd, first_init, trx_init, be_ring, rtw_eth_slot_size,
}
use rtl8821ce_mac_os.Trx.Layout.{
  AllFit, AllBd, lay_out-AllFit, lay_out-AllBd, keep_bd-AllBd, keep_bd-AllFit, set_bd-AllBd,
  set_bd-AllFit,
}
use rtl8821ce_mac_os.Trx.Memory.{
  size_of, IsSafe, IsFresh, Live, Live-Covers, allocated-Live, allocated_keeps,
}
use rtl8821ce_mac_os.Trx.Safe.{trx_reset-Ready, trx_reset_alloced}
use rtl8821ce_mac_os.Trx.Start.{Mid}
use rtl8821ce_mac_os.Trx.Pool.{
  Inv, Started, IsBare, IsEarly, undone, equal, pool_log, with_pool-Started,
}

with_pkt-Started :
    (chip : TrxChip) (bds : Grant) (a : Option Grant) (w : World) (t : Trx) (l : Log)
    → IsFresh w
    → chip.rx_buf_desc_sz ≡ 8
    → let l1 : Log = cleared bds.handle t.txbd_size ∷ allocated t.txbd_size bds.handle ∷ l in
      w.dma 0x2000 l1 ≡ a
      → size_of l bds.handle ≡ none
      → IsSafe l
      → t.txbd ≡ buf_of bds
      → t.pkt_size ≡ 0x2000
      → AllFit t.txbd_size t.rings
      → AllBd true t.rings
      → t.alloced ≡ false
      → t.pkt.vaddr ≡ false
      → IsEarly t
      → let s : State = record {
        trx = t;
        log =
            grant_event 0x2000 a
            ∷ cleared bds.handle t.txbd_size
            ∷ allocated t.txbd_size bds.handle
            ∷ l;
      } in
        let r = with_pkt chip bds a w s in Started l r.0 r.1.trx r.1.log
unfolding with_pkt
with_pkt-Started chip bds none w t l fresh c e nb h tb ps fit bd down pv early =
    let l1 : Log = cleared bds.handle t.txbd_size ∷ allocated t.txbd_size bds.handle ∷ l in
    let live : Live l1 bds.handle t.txbd_size = allocated-Live l bds.handle t.txbd_size in
    (
      down,
      (
        Live-Covers l1 bds.handle t.txbd_size 0 live (omega arith),
        (tt, (Live-Covers l1 bds.handle t.txbd_size t.txbd_size live (omega arith), (nb, h))),
      ),
      (refl, pv, early.0, early.1, early.2, set_bd-AllBd false t.rings),
      λ k.
          undone (k == bds.handle) false (size_of l k) 0 t.txbd_size
            (λ q. ap (size_of l) (equal k bds.handle q) ∙ nb) (λ q. cc),
    )
with_pkt-Started chip bds (some g) w t l fresh c e nb h tb ps fit bd down pv early =
    let z = t.txbd_size in
    let l1 : Log = cleared bds.handle z ∷ allocated z bds.handle ∷ l in
    let live : Live l1 bds.handle z = allocated-Live l bds.handle z in
    let new : size_of l1 g.handle ≡ none = fresh 0x2000 l1 g e in
    let l2 : Log = pool_log z bds g l in
    let u : Trx = record t { pkt = buf_of g; txpool_size = (be_ring t).len * rtw_eth_slot_size } in
    let m : Mid bds g u l2 = record {
      ready = record {
        safe = (new, (Live-Covers l1 bds.handle z z live (omega arith), (nb, h)));
        bd_live =
            ap (λ (b : Buf). size_of l2 b.handle) tb
            ∙ allocated_keeps l1 bds.handle z g.handle 0x2000 live new;
        pkt_live = allocated-Live l1 g.handle 0x2000 ∙ ap some (sym ps);
        pkt_set = refl;
        fits = fit;
        bds_set = bd;
        pkt_size_is = ps;
      };
      bds_is = tb;
      pkt_is = refl;
    } in
    with_pool-Started chip bds g z (w.dma u.txpool_size l2) w u l fresh c refl nb new h m down early

with_txbd-Started :
    (chip : TrxChip) (a : Option Grant) (w : World) (t : Trx) (l : Log)
    → IsFresh w
    → chip.rx_buf_desc_sz ≡ 8
    → w.dma t.txbd_size l ≡ a
    → IsSafe l
    → AllFit t.txbd_size t.rings
    → AllBd false t.rings
    → t.alloced ≡ false
    → IsBare t
    → let s : State = record { trx = t; log = grant_event t.txbd_size a ∷ l } in
      let r = with_txbd chip a w s in Started l r.0 r.1.trx r.1.log
unfolding with_txbd
with_txbd-Started chip none w t l fresh c e h fit bd down bare = (down, (tt, h), bare, λ k. refl)
with_txbd-Started chip (some g) w t l fresh c e h fit bd down bare =
    let u : Trx = record t {
      txbd = buf_of g;
      rings = map (set_bd true) t.rings;
      pkt_size = 0x2000;
    } in
    let l1 : Log = cleared g.handle t.txbd_size ∷ allocated t.txbd_size g.handle ∷ l in
    with_pkt-Started chip g (w.dma 0x2000 l1) w u l fresh c refl (fresh t.txbd_size l g e) h refl
      refl (set_bd-AllFit true t.txbd_size t.rings fit) (set_bd-AllBd true t.rings) down bare.1
      (bare.2, bare.3, bare.4)

first_init-Started :
    (chip : TrxChip) (w : World) (s : State)
    → IsFresh w
    → chip.tx_buf_desc_sz ≡ 16
    → chip.rx_buf_desc_sz ≡ 8
    → s.trx.alloced ≡ false
    → Inv s.trx s.log
    → let r = first_init chip w s in Started s.log r.0 r.1.trx r.1.log
unfolding first_init
first_init-Started chip w s fresh cb cr down v =
    let plan = lay_out chip.tx_buf_desc_sz 0 q_regs in
    let u : Trx = record s.trx { rings = keep_bd s.trx.rings plan.0; txbd_size = plan.1 } in
    let b = v.when_down down in
    let bds : AllBd false u.rings =
      keep_bd-AllBd s.trx.rings plan.0 b.5 (lay_out-AllBd chip.tx_buf_desc_sz 0 q_regs) in
    let fit : AllFit plan.1 plan.0 =
      subst (λ z. AllFit (lay_out z 0 q_regs).1 (lay_out z 0 q_regs).0) (sym cb)
        (lay_out-AllFit q_regs) in
    with_txbd-Started chip (w.dma plan.1 s.log) w u s.log fresh cr refl v.safe
      (keep_bd-AllFit plan.1 s.trx.rings plan.0 fit) bds down (b.0, b.1, b.2, b.3, b.4, bds)

-- trx_init at the test of g_trx_alloced.
init_lem :
    (b : Bool) (chip : TrxChip) (w : World) (s : State)
    → s.trx.alloced ≡ b
    → IsFresh w
    → chip.tx_buf_desc_sz ≡ 16
    → chip.rx_buf_desc_sz ≡ 8
    → Inv s.trx s.log
    → let r : Bool × State = if b then (trx_reset chip >> pure true) w s else first_init chip w s in
      Started s.log r.0 r.1.trx r.1.log
init_lem true chip w s e fresh cb cr v =
    (trx_reset_alloced chip w s ∙ e, trx_reset-Ready chip w s (v.when_up e))
init_lem false chip w s e fresh cb cr v = first_init-Started chip w s fresh cb cr e v

-- trx_init over a DMA service that gives out no handle still in use, whatever it gives or refuses:
-- on -1 the memory is as before the call, with every buffer that the call allocated freed, and the
-- pointers of the statics are null, those of the five buffers and of all rings; on 0 the rings and
-- the packet buffer are allocated as the statics say. No store leaves its buffer. It says nothing of
-- the sizes, which -1 does not reset.
pub trx_init-Started :
    (chip : TrxChip) (w : World) (s : State)
    → IsFresh w
    → chip.tx_buf_desc_sz ≡ 16
    → chip.rx_buf_desc_sz ≡ 8
    → Inv s.trx s.log
    → Started s.log (trx_init chip w s).0 (trx_init chip w s).1.trx (trx_init chip w s).1.log
unfolding trx_init
trx_init-Started chip w s fresh cb cr v = init_lem s.trx.alloced chip w s refl fresh cb cr v

pub Started-Inv : (b : Bool) (before : Log) (t : Trx) (l : Log) → Started before b t l → Inv t l
Started-Inv true before t l h = record {
  safe = h.1.safe;
  when_up = λ e. h.1;
  when_down = λ e. cc h.0;
}
Started-Inv false before t l h = record { safe = h.1; when_up = λ e. cc h.0; when_down = λ e. h.2 }
