-- ===== src/Trx/Memory.antt =====
-- The DMA memory as the log of core/trx.c shows it: what is allocated, and what may be touched.
use rtl8821ce_mac_os.Base.{ℕ, ◌+◌, ◌≤◌, ◌<◌, ◌≡◌, refl, ap, ◌∙◌, arith}
use rtl8821ce_mac_os.Base.{
  Bool, true, false, if◌then◌else◌, ◌==◌, Option, none, some, [], ◌∷◌, length,
}
use Prim.{Unit}
use rtl8821ce_mac_os.Trx.{
  Event, allocated, refused, freed, released, cleared, stored, get, put, armed, powered, waited,
  Log, World, Grant,
}

-- The size of the buffer that a handle names after the events, if there is one.
abbrev pub size_of : Log → ℕ → Option ℕ
size_of [] h = none
size_of (allocated n g ∷ t) h = let old = size_of t h in if h == g then some n else old
size_of (freed g ∷ t) h = let old = size_of t h in if h == g then none else old
size_of (released ∷ t) h = none
size_of (refused n ∷ t) h = size_of t h
size_of (cleared g n ∷ t) h = size_of t h
size_of (stored g i bytes ∷ t) h = size_of t h
size_of (get width a v ∷ t) h = size_of t h
size_of (put width a v ∷ t) h = size_of t h
size_of (armed reg g i ∷ t) h = size_of t h
size_of (powered m b ∷ t) h = size_of t h
size_of (waited us ∷ t) h = size_of t h

-- The first `n` bytes of a buffer exist.
abbrev pub Covers : Option ℕ → ℕ → Type 0
Covers none n = n < 0
Covers (some size) n = n ≤ size

-- Every store and every clearing stays inside a buffer that is allocated, every free is of one that
-- is allocated, and no handle is given out twice at a time.
abbrev pub IsAllowed : Event → Log → Type 0
IsAllowed (stored h i bytes) t = Covers (size_of t h) (i + length bytes)
IsAllowed (cleared h n) t = Covers (size_of t h) n
IsAllowed (freed h) t = Covers (size_of t h) 0
IsAllowed (allocated n h) t = size_of t h ≡ none
IsAllowed e t = Unit {0}

abbrev pub IsSafe : Log → Type 0
IsSafe [] = Unit {0}
IsSafe (e ∷ t) = IsAllowed e t × IsSafe t

-- What trx.c relies on: the DMA service does not give out a handle that is still in use.
abbrev pub IsFresh : World → Type 0
IsFresh w = (n : ℕ) (t : Log) (g : Grant) → w.dma n t ≡ some g → size_of t g.handle ≡ none

abbrev pub Live : Log → ℕ → ℕ → Type 0
Live t h n = size_of t h ≡ some n

some_inj : (k n : ℕ) → some k ≡ some n → k ≡ n
some_inj k n e = cc

covers : (o : Option ℕ) (n m : ℕ) → o ≡ some n → m ≤ n → Covers o m
covers none n m e p = cc
covers (some k) n m e p = omega (arith, some_inj k n e)

pub Live-Covers : (t : Log) (h n m : ℕ) → Live t h n → m ≤ n → Covers (size_of t h) m
Live-Covers t h n m e p = covers (size_of t h) n m e p

same : (h : ℕ) → h == h ≡ true
same h = ground arith

pub allocated-Live : (t : Log) (h n : ℕ) → Live (allocated n h ∷ t) h n
allocated-Live t h n = ap (λ b. if b then some n else size_of t h) (same h)

-- A handle in use is not the one given out.
pub apart : (t : Log) (h n g : ℕ) → Live t h n → size_of t g ≡ none → h == g ≡ false
apart t h n g l f = decide (h == g) refl
  where
    decide : (b : Bool) → h == g ≡ b → h == g ≡ false
    decide false e = e
    decide true e =
        let p : h ≡ g = ground arith in let q : size_of t h ≡ size_of t g = ap (size_of t) p in cc

pub allocated_keeps :
    (t : Log) (h n g m : ℕ) → Live t h n → size_of t g ≡ none → Live (allocated m g ∷ t) h n
allocated_keeps t h n g m l f = ap (λ b. if b then some m else size_of t h) (apart t h n g l f) ∙ l

pub freed_keeps : (t : Log) (h n g : ℕ) → Live t h n → h == g ≡ false → Live (freed g ∷ t) h n
freed_keeps t h n g l e = ap (λ b. if b then none else size_of t h) e ∙ l
