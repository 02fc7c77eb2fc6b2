-- ===== src/Crypto/Aes/Field.antt =====
-- The multiplication `mul` of AES, as a function of its first argument.
use rtl8821ce_mac_os.Base.{
  ℕ, zero, suc, ◌/◌, ◌^◌, ◌<◌, ◌≡◌, refl, sym, ap, ap₂, ◌∙◌, arith, bit_xor, bit_and,
}
use rtl8821ce_mac_os.Base.{if◌then◌else◌, ◌==◌, Bool, true, false, List, [], ◌∷◌}
use rtl8821ce_mac_os.Base.Bits.{bit_xor-lt}
use rtl8821ce_mac_os.Base.Xor.{agree_below, agree_below→eq, span, span-bit_xor, bit_xor_interchange}
use rtl8821ce_mac_os.Crypto.Aes.{mul, mul_loop, xtime, xor4}

-- Multiplication by a constant respects `^`.
module _ (c : ℕ) where
  abbrev pub basis : List ℕ
  basis = mul 1 c ∷ mul 2 c ∷ mul 4 c ∷ mul 8 c ∷ mul 16 c ∷ mul 32 c ∷ mul 64 c ∷ mul 128 c ∷ []

  unfoldable pub IsSpanned : Type 0
  IsSpanned = (x : ℕ) → x < 256 → mul x c ≡ span basis x

  mul-bit_xor :
      IsSpanned → (x y : ℕ) → x < 256 → y < 256 → mul (bit_xor x y) c ≡ bit_xor (mul x c) (mul y c)
  unfolding IsSpanned
  mul-bit_xor h x y p q =
      h (bit_xor x y) (bit_xor-lt 8 x y p q)
      ∙ span-bit_xor basis x y
      ∙ ap₂ bit_xor (sym (h x p)) (sym (h y q))

pub mul9 : IsSpanned 9
unfolding IsSpanned agree_below mul mul_loop xtime span
mul9 = agree_below→eq (λ x. mul x 9) (span (basis 9)) 256 refl

pub mul11 : IsSpanned 11
unfolding IsSpanned agree_below mul mul_loop xtime span
mul11 = agree_below→eq (λ x. mul x 11) (span (basis 11)) 256 refl

pub mul13 : IsSpanned 13
unfolding IsSpanned agree_below mul mul_loop xtime span
mul13 = agree_below→eq (λ x. mul x 13) (span (basis 13)) 256 refl

pub mul14 : IsSpanned 14
unfolding IsSpanned agree_below mul mul_loop xtime span
mul14 = agree_below→eq (λ x. mul x 14) (span (basis 14)) 256 refl

pub xtime-lt : (x : ℕ) → xtime x < 256
unfolding xtime
xtime-lt x = omega arith

pub if_lt : (b : Bool) (x y : ℕ) → x < 256 → y < 256 → (if b then x else y) < 256
if_lt true x y p q = p
if_lt false x y p q = q

mul_loop-lt : (n r a b : ℕ) → r < 256 → a < 256 → mul_loop n r a b < 256
unfolding mul_loop
mul_loop-lt zero r a b p q = p
mul_loop-lt (suc n) r a b p q =
    let r' : ℕ = if bit_and b 1 == 0 then r else bit_xor r a in
    let bound : r' < 256 = if_lt (bit_and b 1 == 0) r (bit_xor r a) p (bit_xor-lt 8 r a p q) in
    if_lt (b == 0) r (mul_loop n r' (xtime a) (b / 2 ^ 1)) p
      (mul_loop-lt n r' (xtime a) (b / 2 ^ 1) bound (xtime-lt a))

pub mul-lt : (a b : ℕ) → a < 256 → mul a b < 256
unfolding mul
mul-lt a b p = mul_loop-lt 8 0 a b (omega arith) p

pub xor4-lt : (a b c d : ℕ) → a < 256 → b < 256 → c < 256 → d < 256 → xor4 a b c d < 256
unfolding xor4
xor4-lt a b c d p q r s = bit_xor-lt 8 _ d (bit_xor-lt 8 _ c (bit_xor-lt 8 a b p q) r) s

xor4-bit_xor :
    (a b c d p q r s : ℕ)
    → bit_xor (xor4 a b c d) (xor4 p q r s)
      ≡ xor4 (bit_xor a p) (bit_xor b q) (bit_xor c r) (bit_xor d s)
unfolding xor4
xor4-bit_xor a b c d p q r s =
    bit_xor_interchange (bit_xor (bit_xor a b) c) d (bit_xor (bit_xor p q) r) s
    ∙ ap (λ x. bit_xor x (bit_xor d s))
        (bit_xor_interchange (bit_xor a b) c (bit_xor p q) r
          ∙ ap (λ x. bit_xor x (bit_xor c r)) (bit_xor_interchange a b p q))

pub mul-xor4 :
    (k a b c d : ℕ)
    → IsSpanned k
    → a < 256
    → b < 256
    → c < 256
    → d < 256
    → mul (xor4 a b c d) k ≡ xor4 (mul a k) (mul b k) (mul c k) (mul d k)
unfolding xor4
mul-xor4 k a b c d h p q r s =
    let ab = bit_xor-lt 8 a b p q in
    mul-bit_xor k h (bit_xor (bit_xor a b) c) d (bit_xor-lt 8 (bit_xor a b) c ab r) s
    ∙ ap (λ x. bit_xor x (mul d k))
        (mul-bit_xor k h (bit_xor a b) c ab r
          ∙ ap (λ x. bit_xor x (mul c k)) (mul-bit_xor k h a b p q))

pub ap_xor4 :
    {a a' b b' c c' d d' : ℕ} → a ≡ a' → b ≡ b' → c ≡ c' → d ≡ d' → xor4 a b c d ≡ xor4 a' b' c' d'
ap_xor4 p q r s = λ i. xor4 (p i) (q i) (r i) (s i)

-- A sum of four sums, by columns.
module _ (f : ℕ → ℕ → ℕ) where
  abbrev pub line : ℕ → ℕ
  line k = xor4 (f k 0) (f k 1) (f k 2) (f k 3)

  abbrev pub column : ℕ → ℕ
  column j = xor4 (f 0 j) (f 1 j) (f 2 j) (f 3 j)

  pub xor4_transpose :
      xor4 (line 0) (line 1) (line 2) (line 3) ≡ xor4 (column 0) (column 1) (column 2) (column 3)
  unfolding xor4
  xor4_transpose =
      let first = xor4-bit_xor (f 0 0) (f 0 1) (f 0 2) (f 0 3) (f 1 0) (f 1 1) (f 1 2) (f 1 3) in
      ap (λ x. bit_xor (bit_xor x (line 2)) (line 3)) first
      ∙ ap (λ x. bit_xor x (line 3))
          (xor4-bit_xor (bit_xor (f 0 0) (f 1 0)) (bit_xor (f 0 1) (f 1 1))
            (bit_xor (f 0 2) (f 1 2)) (bit_xor (f 0 3) (f 1 3)) (f 2 0) (f 2 1) (f 2 2) (f 2 3))
      ∙ xor4-bit_xor (bit_xor (bit_xor (f 0 0) (f 1 0)) (f 2 0))
          (bit_xor (bit_xor (f 0 1) (f 1 1)) (f 2 1)) (bit_xor (bit_xor (f 0 2) (f 1 2)) (f 2 2))
          (bit_xor (bit_xor (f 0 3) (f 1 3)) (f 2 3)) (f 3 0) (f 3 1) (f 3 2) (f 3 3)
