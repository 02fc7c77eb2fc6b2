-- ===== src/Base/Bits.antt =====
-- Machine words and bit operations at variables.
use Prim.Native.Nat.{ℕ, zero, suc, ◌+◌, ◌*◌, ◌/◌, ◌%◌, ◌^◌, ◌≤◌, ◌<◌, min}
use Prim.Native.Nat.{
  digits, differ, max, bit_and, bit_or, bit_xor, bit_and-bitwise, bit_or-bitwise, bit_xor-bitwise,
}
use native.Mathlib.Nat.{pow-suc, le_refl}
use mathlib.Core.Path.{◌≡◌, refl}
use native.Mathlib.Omega.{arith}

-- The casts (u8), (u16) and (u32).
abbrev pub u8 : ℕ → ℕ
u8 n = n % 256

abbrev pub u16 : ℕ → ℕ
u16 n = n % 2 ^ 16

abbrev pub u32 : ℕ → ℕ
u32 n = n % 2 ^ 32

infixl 75 ◌<<<◌ ◌>>>◌
abbrev pub ◌<<<◌ : ℕ → ℕ → ℕ
x <<< k = x * 2 ^ k

abbrev pub ◌>>>◌ : ℕ → ℕ → ℕ
x >>> k = x / 2 ^ k

-- The native operations stand for a recursion on binary digits with fuel. Here the fuel is gone:
-- one equation for the lowest digit of each.
module _ (rest : ℕ → ℕ) (bit : ℕ → ℕ → ℕ) where
  fuel_irrelevant : (k l a b : ℕ) → a ≤ k → a ≤ l → digits rest bit k a b ≡ digits rest bit l a b
  fuel_irrelevant zero zero a b p q = refl
  fuel_irrelevant zero (suc l) zero b p q = refl
  fuel_irrelevant zero (suc l) (suc a) b p q = absurd (omega arith)
  fuel_irrelevant (suc k) zero zero b p q = refl
  fuel_irrelevant (suc k) zero (suc a) b p q = absurd (omega arith)
  fuel_irrelevant (suc k) (suc l) zero b p q = refl
  fuel_irrelevant (suc k) (suc l) (suc a) b p q =
      omega (arith, fuel_irrelevant k l (suc a / 2) (b / 2) (omega arith) (omega arith))

differ-cases :
    (a b : ℕ) → a < 2 → b < 2 → (differ a b < 2) × (differ (differ a b) b ≡ a) × (differ 0 b ≡ b)
differ-cases zero zero p q = (omega arith, refl, refl)
differ-cases zero (suc zero) p q = (omega arith, refl, refl)
differ-cases (suc zero) zero p q = (omega arith, refl, refl)
differ-cases (suc zero) (suc zero) p q = (omega arith, refl, refl)
differ-cases (suc (suc a)) b p q = absurd (omega arith)
differ-cases zero (suc (suc b)) p q = absurd (omega arith)
differ-cases (suc zero) (suc (suc b)) p q = absurd (omega arith)

pub bit_xor_digit : (a b : ℕ) → bit_xor a b ≡ bit_xor (a / 2) (b / 2) * 2 + differ (a % 2) (b % 2)
bit_xor_digit zero b = omega (
  arith,
  bit_xor-bitwise 0 b,
  bit_xor-bitwise 0 (b / 2),
  differ-cases 0 (b % 2) (omega arith) (omega arith),
)
bit_xor_digit (suc a) b = omega (
  arith,
  bit_xor-bitwise (suc a) b,
  bit_xor-bitwise (suc a / 2) (b / 2),
  fuel_irrelevant (λ b. b) differ a (suc a / 2) (suc a / 2) (b / 2) (omega arith) (omega arith),
)

pub bit_and_digit : (a b : ℕ) → bit_and a b ≡ bit_and (a / 2) (b / 2) * 2 + min (a % 2) (b % 2)
bit_and_digit zero b = omega (arith, bit_and-bitwise 0 b, bit_and-bitwise 0 (b / 2))
bit_and_digit (suc a) b = omega (
  arith,
  bit_and-bitwise (suc a) b,
  bit_and-bitwise (suc a / 2) (b / 2),
  fuel_irrelevant (λ b. zero) min a (suc a / 2) (suc a / 2) (b / 2) (omega arith) (omega arith),
)

-- Below a power of two, `^` stays below it.
pub bit_xor-lt : (k a b : ℕ) → a < 2 ^ k → b < 2 ^ k → bit_xor a b < 2 ^ k
bit_xor-lt zero zero zero p q = omega arith
bit_xor-lt zero zero (suc b) p q = absurd (omega arith)
bit_xor-lt zero (suc a) b p q = absurd (omega arith)
bit_xor-lt (suc k) a b p q = omega (
  arith,
  bit_xor_digit a b,
  differ-cases (a % 2) (b % 2) (omega arith) (omega arith),
  pow-suc 2 k,
  bit_xor-lt k (a / 2) (b / 2) (omega (arith, pow-suc 2 k)) (omega (arith, pow-suc 2 k)),
)

-- `^` with the same word twice gives the first word back.
pub bit_xor_cancel : (k a b : ℕ) → a < 2 ^ k → b < 2 ^ k → bit_xor (bit_xor a b) b ≡ a
bit_xor_cancel zero zero zero p q = refl
bit_xor_cancel zero zero (suc b) p q = absurd (omega arith)
bit_xor_cancel zero (suc a) b p q = absurd (omega arith)
bit_xor_cancel (suc k) a b p q =
    let low = differ-cases (a % 2) (b % 2) (omega arith) (omega arith) in
    let high = bit_xor_digit a b in
    let halves : (bit_xor a b / 2 ≡ bit_xor (a / 2) (b / 2))
        × (bit_xor a b % 2 ≡ differ (a % 2) (b % 2)) =
      omega arith in
    let rest =
      bit_xor_cancel k (a / 2) (b / 2) (omega (arith, pow-suc 2 k)) (omega (arith, pow-suc 2 k)) in
    rw (bit_xor_digit (bit_xor a b) b, halves.0, halves.1) (omega arith)

pub bit_and_zero : (k a : ℕ) → a ≤ k → bit_and a 0 ≡ 0
bit_and_zero k zero h = refl
bit_and_zero zero (suc a) h = absurd (omega arith)
bit_and_zero (suc k) (suc a) h =
    omega (arith, bit_and_digit (suc a) 0, bit_and_zero k (suc a / 2) (omega arith))

-- A masked word is at most its mask.
pub bit_and-le : (k a b : ℕ) → b < 2 ^ k → bit_and a b ≤ b
bit_and-le zero a zero h = omega (arith, bit_and_zero a a (le_refl a))
bit_and-le zero a (suc b) h = absurd (omega arith)
bit_and-le (suc k) a b h = omega (
  arith,
  bit_and_digit a b,
  pow-suc 2 k,
  bit_and-le k (a / 2) (b / 2) (omega (arith, pow-suc 2 k)),
)

pub bit_or_digit : (a b : ℕ) → bit_or a b ≡ bit_or (a / 2) (b / 2) * 2 + max (a % 2) (b % 2)
bit_or_digit zero b = omega (arith, bit_or-bitwise 0 b, bit_or-bitwise 0 (b / 2))
bit_or_digit (suc a) b = omega (
  arith,
  bit_or-bitwise (suc a) b,
  bit_or-bitwise (suc a / 2) (b / 2),
  fuel_irrelevant (λ b. b) max a (suc a / 2) (suc a / 2) (b / 2) (omega arith) (omega arith),
)

-- `|` is 0 only of two zeros, and `^` only of equal words.
pub bit_or-eq_zero : (k a b : ℕ) → a < 2 ^ k → b < 2 ^ k → bit_or a b ≡ 0 → (a ≡ 0) × (b ≡ 0)
bit_or-eq_zero zero a b p q e = omega arith
bit_or-eq_zero (suc k) a b p q e =
    let halves =
      bit_or-eq_zero k (a / 2) (b / 2) (omega (arith, pow-suc 2 k)) (omega (arith, pow-suc 2 k))
        (omega (arith, bit_or_digit a b)) in
    omega (arith, bit_or_digit a b)

differ-eq_zero : (a b : ℕ) → a < 2 → b < 2 → differ a b ≡ 0 → a ≡ b
differ-eq_zero zero b p q e = omega arith
differ-eq_zero (suc zero) zero p q e = omega arith
differ-eq_zero (suc zero) (suc zero) p q e = refl
differ-eq_zero (suc zero) (suc (suc b)) p q e = absurd (omega arith)
differ-eq_zero (suc (suc a)) b p q e = absurd (omega arith)

pub bit_xor-eq_zero : (k a b : ℕ) → a < 2 ^ k → b < 2 ^ k → bit_xor a b ≡ 0 → a ≡ b
bit_xor-eq_zero zero a b p q e = omega arith
bit_xor-eq_zero (suc k) a b p q e =
    let halves =
      bit_xor-eq_zero k (a / 2) (b / 2) (omega (arith, pow-suc 2 k)) (omega (arith, pow-suc 2 k))
        (omega (arith, bit_xor_digit a b)) in
    let low =
      differ-eq_zero (a % 2) (b % 2) (omega arith) (omega arith)
        (omega (arith, bit_xor_digit a b)) in
    omega arith

pub differ_self : (a : ℕ) → a < 2 → differ a a ≡ 0
differ_self zero p = refl
differ_self (suc zero) p = refl
differ_self (suc (suc a)) p = absurd (omega arith)

pub bit_xor_self : (k a : ℕ) → a < 2 ^ k → bit_xor a a ≡ 0
bit_xor_self zero zero p = refl
bit_xor_self zero (suc a) p = absurd (omega arith)
bit_xor_self (suc k) a p = omega (
  arith,
  bit_xor_digit a a,
  bit_xor_self k (a / 2) (omega (arith, pow-suc 2 k)),
  differ_self (a % 2) (omega arith),
)

pub bit_or-lt : (k a b : ℕ) → a < 2 ^ k → b < 2 ^ k → bit_or a b < 2 ^ k
bit_or-lt zero zero zero p q = omega arith
bit_or-lt zero zero (suc b) p q = absurd (omega arith)
bit_or-lt zero (suc a) b p q = absurd (omega arith)
bit_or-lt (suc k) a b p q = omega (
  arith,
  bit_or_digit a b,
  pow-suc 2 k,
  bit_or-lt k (a / 2) (b / 2) (omega (arith, pow-suc 2 k)) (omega (arith, pow-suc 2 k)),
)
