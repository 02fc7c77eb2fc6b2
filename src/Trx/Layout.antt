-- ===== src/Trx/Layout.antt =====
-- The rings that core/trx.c lays out in the buffer of the TX descriptors.
use rtl8821ce_mac_os.Base.{ℕ, zero, suc, ◌+◌, ◌*◌, ◌%◌, ◌≤◌, ◌<◌, ◌≡◌, refl, arith}
use rtl8821ce_mac_os.Base.{Bool, true, false, List, [], ◌∷◌, map, set, get_or}
use Prim.{Unit, tt}
use rtl8821ce_mac_os.Trx.{TxRing, QRegs, lay_out, tx_len_for, align8, set_bd, keep_bd, reset_ring}
use rtl8821ce_mac_os.Trx.Send.{no_ring}

-- From `start` on: every ring begins on 8 bytes, ends where or before the next one begins, and the
-- last one ends at or before `stop`.
abbrev pub Tiles : ℕ → ℕ → List TxRing → ℕ → Type 0
Tiles bd_sz start [] stop = start ≤ stop
Tiles bd_sz start (r ∷ rs) stop =
    (start ≤ r.bd_off)
    × (r.bd_off % 8 ≡ 0)
    × (0 < r.len)
    × Tiles bd_sz (r.bd_off + r.len * bd_sz) rs stop

tx_len_for-pos : (q : ℕ) → 0 < tx_len_for q
unfolding tx_len_for
tx_len_for-pos q = ground arith

Tiles-from :
    (bd_sz a b : ℕ) (rs : List TxRing) (stop : ℕ)
    → a ≤ b
    → Tiles bd_sz b rs stop
    → Tiles bd_sz a rs stop
Tiles-from bd_sz a b [] stop h t = omega arith
Tiles-from bd_sz a b (r ∷ rs) stop h t = (omega arith, t.1, t.2, t.3)

-- The loop over any rows from an aligned start: aligned rings that do not overlap, inside the size
-- that is then allocated.
pub lay_out-Tiles :
    (bd_sz size : ℕ) (rows : List QRegs)
    → size % 8 ≡ 0
    → Tiles bd_sz size (lay_out bd_sz size rows).0 (lay_out bd_sz size rows).1
unfolding lay_out
lay_out-Tiles bd_sz size [] h = omega arith
lay_out-Tiles bd_sz size (r ∷ rs) h =
    let next = size + tx_len_for r.q * bd_sz in
    let rest = lay_out bd_sz (align8 next) rs in
    (
      omega arith,
      h,
      tx_len_for-pos r.q,
      Tiles-from bd_sz next (align8 next) rest.0 rest.1 (omega arith)
          (lay_out-Tiles bd_sz (align8 next) rs (omega arith)),
    )

-- A ring inside a buffer of `size` bytes, with its write pointer inside the ring.
abbrev pub RingFits : ℕ → TxRing → Type 0
RingFits size r = (r.bd_off + r.len * 16 ≤ size) × (r.wp < r.len)

abbrev pub AllFit : ℕ → List TxRing → Type 0
AllFit size [] = Unit {0}
AllFit size (r ∷ rs) = RingFits size r × AllFit size rs

-- Whether all `bd` pointers are set, or none.
abbrev pub AllBd : Bool → List TxRing → Type 0
AllBd b [] = Unit {0}
AllBd b (r ∷ rs) = (r.bd ≡ b) × AllBd b rs

pub Tiles-end : (start : ℕ) (rs : List TxRing) (stop : ℕ) → Tiles 16 start rs stop → start ≤ stop
Tiles-end start [] stop t = t
Tiles-end start (r ∷ rs) stop t = omega (arith, Tiles-end (r.bd_off + r.len * 16) rs stop t.3)

abbrev AtStart : List TxRing → Type 0
AtStart [] = Unit {0}
AtStart (r ∷ rs) = (r.wp ≡ 0) × AtStart rs

lay_out-AtStart : (bd_sz size : ℕ) (rows : List QRegs) → AtStart (lay_out bd_sz size rows).0
unfolding lay_out
lay_out-AtStart bd_sz size [] = tt
lay_out-AtStart bd_sz size (r ∷ rs) =
    (refl, lay_out-AtStart bd_sz (align8 (size + tx_len_for r.q * bd_sz)) rs)

Tiles-AllFit :
    (start : ℕ) (rs : List TxRing) (stop : ℕ) → Tiles 16 start rs stop → AtStart rs → AllFit stop rs
Tiles-AllFit start [] stop t a = tt
Tiles-AllFit start (r ∷ rs) stop t a = (
  (Tiles-end (r.bd_off + r.len * 16) rs stop t.3, omega (arith, a.0, t.2)),
  Tiles-AllFit (r.bd_off + r.len * 16) rs stop t.3 a.1,
)

pub lay_out-AllFit : (rows : List QRegs) → AllFit (lay_out 16 0 rows).1 (lay_out 16 0 rows).0
lay_out-AllFit rows =
    Tiles-AllFit 0 (lay_out 16 0 rows).0 (lay_out 16 0 rows).1 (lay_out-Tiles 16 0 rows refl)
      (lay_out-AtStart 16 0 rows)

pub lay_out-AllBd : (bd_sz size : ℕ) (rows : List QRegs) → AllBd false (lay_out bd_sz size rows).0
unfolding lay_out
lay_out-AllBd bd_sz size [] = tt
lay_out-AllBd bd_sz size (r ∷ rs) =
    (refl, lay_out-AllBd bd_sz (align8 (size + tx_len_for r.q * bd_sz)) rs)

pub keep_bd-AllBd :
    (old rs : List TxRing) → AllBd false old → AllBd false rs → AllBd false (keep_bd old rs)
keep_bd-AllBd [] rs h k = k
keep_bd-AllBd (o ∷ os) [] h k = tt
keep_bd-AllBd (o ∷ os) (r ∷ rs) h k = (h.0, keep_bd-AllBd os rs h.1 k.1)

pub keep_bd-AllFit : (n : ℕ) (old rs : List TxRing) → AllFit n rs → AllFit n (keep_bd old rs)
keep_bd-AllFit n [] rs h = h
keep_bd-AllFit n (o ∷ os) [] h = tt
keep_bd-AllFit n (o ∷ os) (r ∷ rs) h = (h.0, keep_bd-AllFit n os rs h.1)

pub set_bd-AllBd : (b : Bool) (rs : List TxRing) → AllBd b (map (set_bd b) rs)
set_bd-AllBd b [] = tt
set_bd-AllBd b (r ∷ rs) = (refl, set_bd-AllBd b rs)

pub set_bd-AllFit :
    (b : Bool) (n : ℕ) (rs : List TxRing) → AllFit n rs → AllFit n (map (set_bd b) rs)
set_bd-AllFit b n [] h = tt
set_bd-AllFit b n (r ∷ rs) h = (h.0, set_bd-AllFit b n rs h.1)

pub reset_ring-AllFit : (n : ℕ) (rs : List TxRing) → AllFit n rs → AllFit n (map reset_ring rs)
reset_ring-AllFit n [] h = tt
reset_ring-AllFit n (r ∷ rs) h = ((h.0.0, omega (arith, h.0.1)), reset_ring-AllFit n rs h.1)

pub reset_ring-AllBd : (b : Bool) (rs : List TxRing) → AllBd b rs → AllBd b (map reset_ring rs)
reset_ring-AllBd b [] h = tt
reset_ring-AllBd b (r ∷ rs) h = (h.0, reset_ring-AllBd b rs h.1)

-- A ring that is there.
pub ring_at-fits :
    (n : ℕ) (rs : List TxRing) (q : ℕ)
    → AllFit n rs
    → (get_or rs q no_ring).bd ≡ true
    → RingFits n (get_or rs q no_ring)
ring_at-fits n [] q h b = cc
ring_at-fits n (r ∷ rs) zero h b = h.0
ring_at-fits n (r ∷ rs) (suc q) h b = ring_at-fits n rs q h.1 b

pub set-AllFit :
    (n : ℕ) (rs : List TxRing) (q : ℕ) (r : TxRing)
    → AllFit n rs
    → RingFits n r
    → AllFit n (set rs q r)
set-AllFit n [] q r h f = tt
set-AllFit n (x ∷ rs) zero r h f = (f, h.1)
set-AllFit n (x ∷ rs) (suc q) r h f = (h.0, set-AllFit n rs q r h.1 f)

pub set-AllBd :
    (b : Bool) (rs : List TxRing) (q : ℕ) (r : TxRing)
    → AllBd b rs
    → r.bd ≡ b
    → AllBd b (set rs q r)
set-AllBd b [] q r h f = tt
set-AllBd b (x ∷ rs) zero r h f = (f, h.1)
set-AllBd b (x ∷ rs) (suc q) r h f = (h.0, set-AllBd b rs q r h.1 f)
