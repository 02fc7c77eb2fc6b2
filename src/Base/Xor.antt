-- ===== src/Base/Xor.antt =====
-- `^` as a commutative group, and functions on bytes that respect it.
use Prim.Native.Nat.{ℕ, zero, suc, ◌+◌, ◌*◌, ◌/◌, ◌%◌, ◌≤◌, ◌<◌, bit_xor, bit_xor-bitwise, differ}
use mathlib.Core.Path.{◌≡◌, refl, sym, ap, ap₂, ◌∙◌}
use mathlib.Core.List.{List, [], ◌∷◌}
use mathlib.Core.Bool.{Bool, true, ◌&&◌}
use native.Mathlib.Omega.{arith}
use rtl8821ce_mac_os.Base.Tests.{◌==◌}
use rtl8821ce_mac_os.Base.Bits.{bit_xor_digit, differ_self}

-- A table of all values below a bound.
unfoldable pub agree_below : (ℕ → ℕ) → (ℕ → ℕ) → ℕ → Bool
agree_below f g zero = true
agree_below f g (suc n) = f n == g n && agree_below f g n

pub agree_below→eq : (f g : ℕ → ℕ) (n : ℕ) → agree_below f g n ≡ true → (i : ℕ) → i < n → f i ≡ g i
unfolding agree_below
agree_below→eq f g zero e i h = absurd (omega arith)
agree_below→eq f g (suc n) e i h = ground (arith, agree_below→eq f g n (ground arith) i)

differ_laws :
    (a b c : ℕ)
    → a < 2
    → b < 2
    → c < 2
    → (differ a b ≡ differ b a) × (differ (differ a b) c ≡ differ a (differ b c)) × (differ a b < 2)
differ_laws (suc (suc a)) b c p q r = absurd (omega arith)
differ_laws a (suc (suc b)) c p q r = absurd (omega arith)
differ_laws a b (suc (suc c)) p q r = absurd (omega arith)
differ_laws zero zero zero p q r = (refl, refl, omega arith)
differ_laws zero zero (suc zero) p q r = (refl, refl, omega arith)
differ_laws zero (suc zero) zero p q r = (refl, refl, omega arith)
differ_laws zero (suc zero) (suc zero) p q r = (refl, refl, omega arith)
differ_laws (suc zero) zero zero p q r = (refl, refl, omega arith)
differ_laws (suc zero) zero (suc zero) p q r = (refl, refl, omega arith)
differ_laws (suc zero) (suc zero) zero p q r = (refl, refl, omega arith)
differ_laws (suc zero) (suc zero) (suc zero) p q r = (refl, refl, omega arith)

pub bit_xor_halves :
    (a b : ℕ)
    → (bit_xor a b / 2 ≡ bit_xor (a / 2) (b / 2)) × (bit_xor a b % 2 ≡ differ (a % 2) (b % 2))
bit_xor_halves a b = omega (
  arith,
  bit_xor_digit a b,
  differ_laws (a % 2) (b % 2) 0 (omega arith) (omega arith) (omega arith),
)

comm_below : (k a b : ℕ) → a ≤ k → b ≤ k → bit_xor a b ≡ bit_xor b a
comm_below zero zero zero p q = refl
comm_below zero zero (suc b) p q = absurd (omega arith)
comm_below zero (suc a) b p q = absurd (omega arith)
comm_below (suc k) a b p q = omega (
  arith,
  bit_xor_digit a b,
  bit_xor_digit b a,
  comm_below k (a / 2) (b / 2) (omega arith) (omega arith),
  differ_laws (a % 2) (b % 2) 0 (omega arith) (omega arith) (omega arith),
)

pub bit_xor_comm : (a b : ℕ) → bit_xor a b ≡ bit_xor b a
bit_xor_comm a b = comm_below (a + b) a b (omega arith) (omega arith)

assoc_below :
    (k a b c : ℕ) → a ≤ k → b ≤ k → c ≤ k → bit_xor (bit_xor a b) c ≡ bit_xor a (bit_xor b c)
assoc_below zero zero zero zero p q r = refl
assoc_below zero (suc a) b c p q r = absurd (omega arith)
assoc_below zero zero (suc b) c p q r = absurd (omega arith)
assoc_below zero zero zero (suc c) p q r = absurd (omega arith)
assoc_below (suc k) a b c p q r =
    let left = bit_xor_halves a b in
    let right = bit_xor_halves b c in
    let laws = differ_laws (a % 2) (b % 2) (c % 2) (omega arith) (omega arith) (omega arith) in
    let rest = assoc_below k (a / 2) (b / 2) (c / 2) (omega arith) (omega arith) (omega arith) in
    rw
      (
        bit_xor_digit (bit_xor a b) c,
        bit_xor_digit a (bit_xor b c),
        left.0,
        left.1,
        right.0,
        right.1,
      )
      (omega arith)

pub bit_xor_assoc : (a b c : ℕ) → bit_xor (bit_xor a b) c ≡ bit_xor a (bit_xor b c)
bit_xor_assoc a b c = assoc_below (a + b + c) a b c (omega arith) (omega arith) (omega arith)

pub bit_xor_interchange :
    (a b c d : ℕ) → bit_xor (bit_xor a b) (bit_xor c d) ≡ bit_xor (bit_xor a c) (bit_xor b d)
bit_xor_interchange a b c d =
    bit_xor_assoc a b (bit_xor c d)
    ∙ ap (bit_xor a)
        (sym (bit_xor_assoc b c d) ∙ ap (λ x. bit_xor x d) (bit_xor_comm b c) ∙ bit_xor_assoc c b d)
    ∙ sym (bit_xor_assoc a c (bit_xor b d))

-- The value at `x` of the function that respects `^` and has the given values at the powers of 2.
unfoldable pub span : List ℕ → ℕ → ℕ
span [] x = 0
span (b ∷ bs) x = bit_xor (x % 2 * b) (span bs (x / 2))

self_below : (k a : ℕ) → a ≤ k → bit_xor a a ≡ 0
self_below k zero p = refl
self_below zero (suc a) p = absurd (omega arith)
self_below (suc k) (suc a) p = omega (
  arith,
  bit_xor_digit (suc a) (suc a),
  self_below k (suc a / 2) (omega arith),
  differ_self (suc a % 2) (omega arith),
)

bit_xor_self : (a : ℕ) → bit_xor a a ≡ 0
bit_xor_self a = self_below a a (omega arith)

pub bit_xor_zero : (b : ℕ) → bit_xor 0 b ≡ b
bit_xor_zero b = omega (arith, bit_xor-bitwise 0 b)

zero_xor : (b : ℕ) → 1 * b ≡ bit_xor (0 * b) (1 * b)
zero_xor b =
    let e : 0 * b ≡ 0 = omega arith in sym (ap (λ z. bit_xor z (1 * b)) e ∙ bit_xor_zero (1 * b))

differ_mul : (x y b : ℕ) → x < 2 → y < 2 → differ x y * b ≡ bit_xor (x * b) (y * b)
differ_mul (suc (suc x)) y b p q = absurd (omega arith)
differ_mul x (suc (suc y)) b p q = absurd (omega arith)
differ_mul zero zero b p q = omega (arith, bit_xor_self (0 * b))
differ_mul zero (suc zero) b p q = zero_xor b
differ_mul (suc zero) zero b p q = zero_xor b ∙ bit_xor_comm (0 * b) (1 * b)
differ_mul (suc zero) (suc zero) b p q = omega (arith, bit_xor_self (1 * b))

pub span-bit_xor : (bs : List ℕ) (x y : ℕ) → span bs (bit_xor x y) ≡ bit_xor (span bs x) (span bs y)
unfolding span
span-bit_xor [] x y = refl
span-bit_xor (b ∷ bs) x y =
    let h = bit_xor_halves x y in
    ap₂ bit_xor (ap (λ d. d * b) h.1 ∙ differ_mul (x % 2) (y % 2) b (omega arith) (omega arith))
      (ap (span bs) h.0 ∙ span-bit_xor bs (x / 2) (y / 2))
    ∙ bit_xor_interchange (x % 2 * b) (y % 2 * b) (span bs (x / 2)) (span bs (y / 2))
