-- ===== src/Trx/Pool.antt =====
-- trx_init of core/trx.c from the buffer pool on, at every allocation result.
use rtl8821ce_mac_os.Base.{ℕ, ◌≡◌, refl, sym, ap, ◌∙◌, arith}
use rtl8821ce_mac_os.Base.{Bool, true, false, if◌then◌else◌, ◌==◌, Option, none, some, ◌∷◌}
use Prim.{tt}
use rtl8821ce_mac_os.Trx.{cleared, allocated, freed, Log, World, Grant, Trx, State, grant_event}
use rtl8821ce_mac_os.Trx.Init.{TrxChip, buf_of, rx_loop, rx_try, with_pool}
use rtl8821ce_mac_os.Trx.Layout.{AllBd, set_bd-AllBd}
use rtl8821ce_mac_os.Trx.Memory.{
  size_of, IsSafe, IsFresh, Live, Live-Covers, allocated-Live, apart, allocated_keeps, freed_keeps,
}
use rtl8821ce_mac_os.Trx.Safe.{Ready, trx_reset-Ready, trx_reset_alloced}
use rtl8821ce_mac_os.Trx.Start.{Mid, Mid-event, Mid-alloc, Mid-other, rx_loop-Mid}

-- No static points at a buffer: txbd, pkt, rxbd, rxdata, txpool and the rings.
abbrev pub IsBare : Trx → Type 0
IsBare t =
    (t.txbd.vaddr ≡ false)
    × (t.pkt.vaddr ≡ false)
    × (t.rxbd.vaddr ≡ false)
    × (t.rxdata.vaddr ≡ false)
    × (t.txpool.vaddr ≡ false)
    × AllBd false t.rings

-- The buffers that come last are not there.
abbrev pub IsEarly : Trx → Type 0
IsEarly t = (t.rxbd.vaddr ≡ false) × (t.rxdata.vaddr ≡ false) × (t.txpool.vaddr ≡ false)

-- The statics agree with the memory between two calls.
pub record Inv (t : Trx) (l : Log) : Type 0 where
  pub safe : IsSafe l
  pub when_up : t.alloced ≡ true → Ready t l
  pub when_down : t.alloced ≡ false → IsBare t

-- What trx_init returns, and what holds then. With -1 the memory is as before the call.
abbrev pub Started : Log → Bool → Trx → Log → Type 0
Started before true t l = (t.alloced ≡ true) × Ready t l
Started before false t l =
    (t.alloced ≡ false) × IsSafe l × IsBare t × ((h : ℕ) → size_of l h ≡ size_of before h)

-- Two allocations and their frees.
pub undone :
    (x y : Bool) (o : Option ℕ) (a b : ℕ)
    → (x ≡ true → o ≡ none)
    → (y ≡ true → (if x then some b else o) ≡ none)
    → (if x then none else if y then none else if y then some a else if x then some b else o) ≡ o
undone true y o a b p q = sym (p refl)
undone false true o a b p q = sym (q refl)
undone false false o a b p q = refl

pub equal : (h g : ℕ) → h == g ≡ true → h ≡ g
equal h g e = ground arith

size_undone :
    (l : Log) (h x y a b : ℕ)
    → size_of l x ≡ none
    → size_of (allocated b x ∷ l) y ≡ none
    → size_of (freed x ∷ freed y ∷ allocated a y ∷ allocated b x ∷ l) h ≡ size_of l h
size_undone l h x y a b p q =
    undone (h == x) (h == y) (size_of l h) a b (λ e. ap (size_of l) (equal h x e) ∙ p)
      (λ e. ap (size_of (allocated b x ∷ l)) (equal h y e) ∙ q)

-- The log when the TX pool is asked for.
abbrev pub pool_log : ℕ → Grant → Grant → Log → Log
pool_log z bds pkt l =
    allocated 0x2000 pkt.handle ∷ cleared bds.handle z ∷ allocated z bds.handle ∷ l

pub with_pool-Started :
    (chip : TrxChip) (bds pkt : Grant) (z : ℕ) (a : Option Grant) (w : World) (t : Trx) (l : Log)
    → IsFresh w
    → chip.rx_buf_desc_sz ≡ 8
    → w.dma t.txpool_size (pool_log z bds pkt l) ≡ a
    → size_of l bds.handle ≡ none
    → size_of (allocated z bds.handle ∷ l) pkt.handle ≡ none
    → IsSafe l
    → Mid bds pkt t (pool_log z bds pkt l)
    → t.alloced ≡ false
    → IsEarly t
    → let s : State = record {
      trx = t;
      log = grant_event t.txpool_size a ∷ pool_log z bds pkt l;
    } in
      let r = with_pool chip bds pkt a w s in Started l r.0 r.1.trx r.1.log
unfolding with_pool
with_pool-Started chip bds pkt z none w t l fresh c e nb np h m down early =
    let l1 : Log = cleared bds.handle z ∷ allocated z bds.handle ∷ l in
    let bd : Live l1 bds.handle z = allocated-Live l bds.handle z in
    (
      down,
      (
        Live-Covers (freed pkt.handle ∷ pool_log z bds pkt l) bds.handle z 0
            (freed_keeps (pool_log z bds pkt l) bds.handle z pkt.handle
              (allocated_keeps l1 bds.handle z pkt.handle 0x2000 bd np)
              (apart l1 bds.handle z pkt.handle bd np))
            (omega arith),
        (
          Live-Covers (pool_log z bds pkt l) pkt.handle 0x2000 0
              (allocated-Live l1 pkt.handle 0x2000) (omega arith),
          (tt, m.ready.safe),
        ),
      ),
      (refl, refl, early.0, early.1, early.2, set_bd-AllBd false t.rings),
      λ k. size_undone l k bds.handle pkt.handle 0x2000 z nb np,
    )
with_pool-Started chip bds pkt z (some g) w t l fresh c e nb np h m down early =
    let l2 : Log = pool_log z bds pkt l in
    let size = t.txpool_size in
    let u : Trx = record t { txpool = buf_of g; rx_ok = false } in
    let l3 : Log = allocated size g.handle ∷ l2 in
    let m3 : Mid bds pkt t l3 =
      Mid-alloc bds pkt t l2 size (some g) (λ k q. fresh size l2 k (e ∙ q)) m in
    let m4 : Mid bds pkt u (cleared g.handle size ∷ l3) =
      Mid-event bds pkt u l3 (cleared g.handle size)
        (Mid-other bds pkt t l3 t.rxbd t.rxdata (buf_of g) false t.alloced t.rx_n size m3)
        (
          Live-Covers l3 g.handle size size (allocated-Live l2 g.handle size) (omega arith),
          m3.ready.safe,
        )
        m3.ready.bd_live m3.ready.pkt_live in
    let s4 : State = record { trx = u; log = cleared g.handle size ∷ l3 } in
    let s5 = (rx_loop chip rx_try w s4).1 in
    let m5 = rx_loop-Mid chip rx_try bds pkt w s4 fresh c m4 in
    let v : Trx = record s5.trx { alloced = true } in
    let s6 : State = record { trx = v; log = s5.log } in
    let m6 : Mid bds pkt v s5.log =
      Mid-other bds pkt s5.trx s5.log s5.trx.rxbd s5.trx.rxdata s5.trx.txpool s5.trx.rx_ok true
        s5.trx.rx_n s5.trx.txpool_size m5 in
    (trx_reset_alloced chip w s6, trx_reset-Ready chip w s6 m6.ready)
