-- ===== src/Base/Bytes.antt =====
-- Lists of bytes, and `^=` between two of them.
use Prim.Native.Nat.{ℕ, zero, suc, ◌<◌, ◌≤◌, bit_xor}
use mathlib.Core.Path.{◌≡◌, refl, ap, ap₂}
use mathlib.Core.List.{List, [], ◌∷◌, ◌++◌}
use native.Mathlib.Omega.{arith}
use mathlib.Core.Logic.{◌≢◌}
use mathlib.Core.Bool.{Bool, true, false, ◌&&◌}
use rtl8821ce_mac_os.Base.Tests.{◌==◌, ltb, ltb→lt}
use rtl8821ce_mac_os.Base.Lists.{get_or, length, take, drop}
use rtl8821ce_mac_os.Base.Bits.{bit_xor-lt, bit_xor_cancel}

abbrev pub AreBytes : List ℕ → Type 0
AreBytes [] = Unit {0}
AreBytes (x ∷ xs) = (x < 256) × AreBytes xs

and_lem : (a b : Bool) → a && b ≡ true → (a ≡ true) × (b ≡ true)
and_lem a b h = ground arith

-- The same as a test.
unfoldable pub are_bytes : List ℕ → Bool
are_bytes [] = true
are_bytes (x ∷ xs) = ltb x 256 && are_bytes xs

pub are_bytes→AreBytes : (xs : List ℕ) → are_bytes xs ≡ true → AreBytes xs
unfolding are_bytes
are_bytes→AreBytes [] h = tt
are_bytes→AreBytes (x ∷ xs) h =
    let both = and_lem (ltb x 256) (are_bytes xs) h in
    (ltb→lt x 256 both.0, are_bytes→AreBytes xs both.1)

-- `for (j = 0; j < n; j++) T[j] ^= U[j]`
unfoldable pub xor_into : List ℕ → List ℕ → List ℕ
xor_into [] us = []
xor_into (t ∷ ts) [] = t ∷ ts
xor_into (t ∷ ts) (u ∷ us) = bit_xor t u ∷ xor_into ts us

pub length-xor_into : (ts us : List ℕ) → length (xor_into ts us) ≡ length ts
unfolding xor_into
length-xor_into [] us = refl
length-xor_into (t ∷ ts) [] = refl
length-xor_into (t ∷ ts) (u ∷ us) = ap suc (length-xor_into ts us)

pub xor_into-AreBytes : (ts us : List ℕ) → AreBytes ts → AreBytes us → AreBytes (xor_into ts us)
unfolding xor_into
xor_into-AreBytes [] us p q = tt
xor_into-AreBytes (t ∷ ts) [] p q = p
xor_into-AreBytes (t ∷ ts) (u ∷ us) p q =
    (bit_xor-lt 8 t u p.0 q.0, xor_into-AreBytes ts us p.1 q.1)

pub xor_into_cancel :
    (ts us : List ℕ) → AreBytes ts → AreBytes us → xor_into (xor_into ts us) us ≡ ts
unfolding xor_into
xor_into_cancel [] us p q = refl
xor_into_cancel (t ∷ ts) [] p q = refl
xor_into_cancel (t ∷ ts) (u ∷ us) p q =
    ap₂ ◌∷◌ (bit_xor_cancel 8 t u p.0 q.0) (xor_into_cancel ts us p.1 q.1)

pub AreBytes-append : (xs ys : List ℕ) → AreBytes xs → AreBytes ys → AreBytes (xs ++ ys)
AreBytes-append [] ys p q = q
AreBytes-append (x ∷ xs) ys p q = (p.0, AreBytes-append xs ys p.1 q)

pub take-AreBytes : (n : ℕ) (xs : List ℕ) → AreBytes xs → AreBytes (take n xs)
take-AreBytes zero xs p = tt
take-AreBytes (suc n) [] p = tt
take-AreBytes (suc n) (x ∷ xs) p = (p.0, take-AreBytes n xs p.1)

pub drop-AreBytes : (n : ℕ) (xs : List ℕ) → AreBytes xs → AreBytes (drop n xs)
drop-AreBytes zero xs p = p
drop-AreBytes (suc n) [] p = tt
drop-AreBytes (suc n) (x ∷ xs) p = drop-AreBytes n xs p.1

-- memcmp(a, b, 6) == 0, and strcmp of strings kept without their 0.
unfoldable pub eq_bytes : List ℕ → List ℕ → Bool
eq_bytes [] [] = true
eq_bytes [] (y ∷ ys) = false
eq_bytes (x ∷ xs) [] = false
eq_bytes (x ∷ xs) (y ∷ ys) = x == y && eq_bytes xs ys

pub eq_bytes_refl : (xs : List ℕ) → eq_bytes xs xs ≡ true
unfolding eq_bytes
eq_bytes_refl [] = refl
eq_bytes_refl (x ∷ xs) = ground (arith, eq_bytes_refl xs)

pub differ : (a b : List ℕ) → eq_bytes a b ≡ false → a ≢ b
differ a b h e = cc (eq_bytes_refl b)

eq_lem : (x y : ℕ) → x == y ≡ true → x ≡ y
eq_lem x y h = ground arith

pub eq_bytes_eq : (a b : List ℕ) → eq_bytes a b ≡ true → a ≡ b
unfolding eq_bytes
eq_bytes_eq [] [] h = refl
eq_bytes_eq [] (y ∷ ys) h = cc
eq_bytes_eq (x ∷ xs) [] h = cc
eq_bytes_eq (x ∷ xs) (y ∷ ys) h =
    let both = and_lem (x == y) (eq_bytes xs ys) h in
    ap₂ (λ z zs. z ∷ zs) (eq_lem x y both.0) (eq_bytes_eq xs ys both.1)

-- A list is the list of its entries.
unfoldable pub tabulate : (ℕ → ℕ) → ℕ → List ℕ
tabulate f zero = []
tabulate f (suc n) = f 0 ∷ tabulate (λ i. f (suc i)) n

pub tabulate-get_or :
    (n : ℕ) (s : List ℕ) → n ≤ length s → tabulate (λ i. get_or s i 0) n ≡ take n s
unfolding tabulate
tabulate-get_or zero s h = refl
tabulate-get_or (suc n) [] h = absurd (omega arith)
tabulate-get_or (suc n) (x ∷ s) h = ap (◌∷◌ x) (tabulate-get_or n s (omega arith))

pub take-all : (n : ℕ) (xs : List ℕ) → length xs ≤ n → take n xs ≡ xs
take-all zero [] h = refl
take-all zero (x ∷ xs) h = absurd (omega arith)
take-all (suc n) [] h = refl
take-all (suc n) (x ∷ xs) h = ap (◌∷◌ x) (take-all n xs (omega arith))

-- An entry of a list of bytes, or the 0 past its end.
pub get_or-lt : (xs : List ℕ) (i : ℕ) → AreBytes xs → get_or xs i 0 < 256
get_or-lt [] i h = omega arith
get_or-lt (x ∷ xs) zero h = h.0
get_or-lt (x ∷ xs) (suc i) h = get_or-lt xs i h.1
