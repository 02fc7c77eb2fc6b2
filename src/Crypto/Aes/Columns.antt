-- ===== src/Crypto/Aes/Columns.antt =====
-- The columns of AES: mix_columns and inv_mix_columns.
use rtl8821ce_mac_os.Base.{ℕ, zero, suc, ◌<◌, ◌≡◌, refl, ap, ap₂, ◌∙◌, bit_xor}
use rtl8821ce_mac_os.Base.{List, [], ◌∷◌}
use rtl8821ce_mac_os.Base.{get_or}
use rtl8821ce_mac_os.Base.Bytes.{AreBytes, get_or-lt}
use rtl8821ce_mac_os.Base.Xor.{agree_below, agree_below→eq}
use rtl8821ce_mac_os.Crypto.Aes.{mul, mul_loop, xtime, xor4, mix_columns, inv_mix_columns}
use rtl8821ce_mac_os.Crypto.Aes.Field.{
  IsSpanned, mul9, mul11, mul13, mul14, mul-xor4, ap_xor4, xor4_transpose, mul-lt,
}
use rtl8821ce_mac_os.Base.Xor.{bit_xor_comm, bit_xor_zero}

-- The matrix of mix_columns, and a byte times one of its entries.
abbrev coef : ℕ → ℕ → ℕ
coef k j =
    get_or
      (get_or
        ((2 ∷ 3 ∷ 1 ∷ 1 ∷ [])
          ∷ (1 ∷ 2 ∷ 3 ∷ 1 ∷ [])
          ∷ (1 ∷ 1 ∷ 2 ∷ 3 ∷ [])
          ∷ (3 ∷ 1 ∷ 1 ∷ 2 ∷ [])
          ∷ [])
        k [])
      j 0

abbrev scale : ℕ → ℕ → ℕ
scale a zero = mul a zero
scale a (suc zero) = a
scale a (suc (suc c)) = mul a (suc (suc c))

scale-lt : (a c : ℕ) → a < 256 → scale a c < 256
scale-lt a zero h = mul-lt a 0 h
scale-lt a (suc zero) h = h
scale-lt a (suc (suc c)) h = mul-lt a (suc (suc c)) h

-- What a byte of the column `j` adds to a row with the given factors.
abbrev total : ℕ → ℕ → ℕ → ℕ → ℕ → ℕ → ℕ
total c0 c1 c2 c3 j a =
    xor4 (mul (scale a (coef 0 j)) c0) (mul (scale a (coef 1 j)) c1) (mul (scale a (coef 2 j)) c2)
      (mul (scale a (coef 3 j)) c3)

-- One row of inv_mix_columns after mix_columns.
module _ (c0 c1 c2 c3 : ℕ) (h0 : IsSpanned c0) (h1 : IsSpanned c1) (h2 : IsSpanned c2)
    (h3 : IsSpanned c3) where
  module _ (s : List ℕ) (bytes : AreBytes s) where
    entry : ℕ → ℕ → ℕ
    entry k j = scale (get_or s j 0) (coef k j)

    entry-lt : (k j : ℕ) → entry k j < 256
    unfolding entry
    entry-lt k j = scale-lt (get_or s j 0) (coef k j) (get_or-lt s j bytes)

    line_lem :
        (k c : ℕ)
        → IsSpanned c
        → mul (xor4 (entry k 0) (entry k 1) (entry k 2) (entry k 3)) c
          ≡ xor4 (mul (entry k 0) c) (mul (entry k 1) c) (mul (entry k 2) c) (mul (entry k 3) c)
    line_lem k c h =
        mul-xor4 c (entry k 0) (entry k 1) (entry k 2) (entry k 3) h (entry-lt k 0) (entry-lt k 1)
          (entry-lt k 2) (entry-lt k 3)

    factor : ℕ → ℕ
    factor k = get_or (c0 ∷ c1 ∷ c2 ∷ c3 ∷ []) k 0

    Row : ℕ → Type 0
    Row v =
        xor4 (mul (xor4 (entry 0 0) (entry 0 1) (entry 0 2) (entry 0 3)) c0)
          (mul (xor4 (entry 1 0) (entry 1 1) (entry 1 2) (entry 1 3)) c1)
          (mul (xor4 (entry 2 0) (entry 2 1) (entry 2 2) (entry 2 3)) c2)
          (mul (xor4 (entry 3 0) (entry 3 1) (entry 3 2) (entry 3 3)) c3)
        ≡ v

    row : Row (
        xor4
          (total c0 c1 c2 c3 0 (get_or s 0 0))
          (total c0 c1 c2 c3 1 (get_or s 1 0))
          (total c0 c1 c2 c3 2 (get_or s 2 0))
          (total c0 c1 c2 c3 3 (get_or s 3 0)))
    unfolding entry factor Row
    row =
        ap_xor4 (line_lem 0 c0 h0) (line_lem 1 c1 h1) (line_lem 2 c2 h2) (line_lem 3 c3 h3)
        ∙ xor4_transpose (λ k j. mul (entry k j) (factor k))

total_00 : (a : ℕ) → a < 256 → total 14 11 13 9 0 a ≡ a
unfolding agree_below mul mul_loop xtime xor4
total_00 = agree_below→eq (total 14 11 13 9 0) (λ x. x) 256 refl

total_01 : (a : ℕ) → a < 256 → total 14 11 13 9 1 a ≡ 0
unfolding agree_below mul mul_loop xtime xor4
total_01 = agree_below→eq (total 14 11 13 9 1) (λ x. 0) 256 refl

total_02 : (a : ℕ) → a < 256 → total 14 11 13 9 2 a ≡ 0
unfolding agree_below mul mul_loop xtime xor4
total_02 = agree_below→eq (total 14 11 13 9 2) (λ x. 0) 256 refl

total_03 : (a : ℕ) → a < 256 → total 14 11 13 9 3 a ≡ 0
unfolding agree_below mul mul_loop xtime xor4
total_03 = agree_below→eq (total 14 11 13 9 3) (λ x. 0) 256 refl

total_10 : (a : ℕ) → a < 256 → total 9 14 11 13 0 a ≡ 0
unfolding agree_below mul mul_loop xtime xor4
total_10 = agree_below→eq (total 9 14 11 13 0) (λ x. 0) 256 refl

total_11 : (a : ℕ) → a < 256 → total 9 14 11 13 1 a ≡ a
unfolding agree_below mul mul_loop xtime xor4
total_11 = agree_below→eq (total 9 14 11 13 1) (λ x. x) 256 refl

total_12 : (a : ℕ) → a < 256 → total 9 14 11 13 2 a ≡ 0
unfolding agree_below mul mul_loop xtime xor4
total_12 = agree_below→eq (total 9 14 11 13 2) (λ x. 0) 256 refl

total_13 : (a : ℕ) → a < 256 → total 9 14 11 13 3 a ≡ 0
unfolding agree_below mul mul_loop xtime xor4
total_13 = agree_below→eq (total 9 14 11 13 3) (λ x. 0) 256 refl

total_20 : (a : ℕ) → a < 256 → total 13 9 14 11 0 a ≡ 0
unfolding agree_below mul mul_loop xtime xor4
total_20 = agree_below→eq (total 13 9 14 11 0) (λ x. 0) 256 refl

total_21 : (a : ℕ) → a < 256 → total 13 9 14 11 1 a ≡ 0
unfolding agree_below mul mul_loop xtime xor4
total_21 = agree_below→eq (total 13 9 14 11 1) (λ x. 0) 256 refl

total_22 : (a : ℕ) → a < 256 → total 13 9 14 11 2 a ≡ a
unfolding agree_below mul mul_loop xtime xor4
total_22 = agree_below→eq (total 13 9 14 11 2) (λ x. x) 256 refl

total_23 : (a : ℕ) → a < 256 → total 13 9 14 11 3 a ≡ 0
unfolding agree_below mul mul_loop xtime xor4
total_23 = agree_below→eq (total 13 9 14 11 3) (λ x. 0) 256 refl

total_30 : (a : ℕ) → a < 256 → total 11 13 9 14 0 a ≡ 0
unfolding agree_below mul mul_loop xtime xor4
total_30 = agree_below→eq (total 11 13 9 14 0) (λ x. 0) 256 refl

total_31 : (a : ℕ) → a < 256 → total 11 13 9 14 1 a ≡ 0
unfolding agree_below mul mul_loop xtime xor4
total_31 = agree_below→eq (total 11 13 9 14 1) (λ x. 0) 256 refl

total_32 : (a : ℕ) → a < 256 → total 11 13 9 14 2 a ≡ 0
unfolding agree_below mul mul_loop xtime xor4
total_32 = agree_below→eq (total 11 13 9 14 2) (λ x. 0) 256 refl

total_33 : (a : ℕ) → a < 256 → total 11 13 9 14 3 a ≡ a
unfolding agree_below mul mul_loop xtime xor4
total_33 = agree_below→eq (total 11 13 9 14 3) (λ x. x) 256 refl

zero_right : (a : ℕ) → bit_xor a 0 ≡ a
zero_right a = bit_xor_comm a 0 ∙ bit_xor_zero a

unit_0 : (a : ℕ) → xor4 a 0 0 0 ≡ a
unfolding xor4
unit_0 a =
    ap (λ z. bit_xor (bit_xor z 0) 0) (zero_right a)
    ∙ ap (λ z. bit_xor z 0) (zero_right a)
    ∙ zero_right a

unit_1 : (a : ℕ) → xor4 0 a 0 0 ≡ a
unfolding xor4
unit_1 a =
    ap (λ z. bit_xor (bit_xor z 0) 0) (bit_xor_zero a)
    ∙ ap (λ z. bit_xor z 0) (zero_right a)
    ∙ zero_right a

unit_2 : (a : ℕ) → xor4 0 0 a 0 ≡ a
unfolding xor4
unit_2 a = ap (λ z. bit_xor z 0) (bit_xor_zero a) ∙ zero_right a

unit_3 : (a : ℕ) → xor4 0 0 0 a ≡ a
unfolding xor4
unit_3 a = bit_xor_zero a

row_0 : (s : List ℕ) (h : AreBytes s) → Row 14 11 13 9 mul14 mul11 mul13 mul9 s h (get_or s 0 0)
unfolding Row
row_0 s h =
    row 14 11 13 9 mul14 mul11 mul13 mul9 s h
    ∙ ap_xor4 (total_00 (get_or s 0 0) (get_or-lt s 0 h))
        (total_01 (get_or s 1 0) (get_or-lt s 1 h)) (total_02 (get_or s 2 0) (get_or-lt s 2 h))
        (total_03 (get_or s 3 0) (get_or-lt s 3 h))
    ∙ unit_0 (get_or s 0 0)

row_1 : (s : List ℕ) (h : AreBytes s) → Row 9 14 11 13 mul9 mul14 mul11 mul13 s h (get_or s 1 0)
unfolding Row
row_1 s h =
    row 9 14 11 13 mul9 mul14 mul11 mul13 s h
    ∙ ap_xor4 (total_10 (get_or s 0 0) (get_or-lt s 0 h))
        (total_11 (get_or s 1 0) (get_or-lt s 1 h)) (total_12 (get_or s 2 0) (get_or-lt s 2 h))
        (total_13 (get_or s 3 0) (get_or-lt s 3 h))
    ∙ unit_1 (get_or s 1 0)

row_2 : (s : List ℕ) (h : AreBytes s) → Row 13 9 14 11 mul13 mul9 mul14 mul11 s h (get_or s 2 0)
unfolding Row
row_2 s h =
    row 13 9 14 11 mul13 mul9 mul14 mul11 s h
    ∙ ap_xor4 (total_20 (get_or s 0 0) (get_or-lt s 0 h))
        (total_21 (get_or s 1 0) (get_or-lt s 1 h)) (total_22 (get_or s 2 0) (get_or-lt s 2 h))
        (total_23 (get_or s 3 0) (get_or-lt s 3 h))
    ∙ unit_2 (get_or s 2 0)

row_3 : (s : List ℕ) (h : AreBytes s) → Row 11 13 9 14 mul11 mul13 mul9 mul14 s h (get_or s 3 0)
unfolding Row
row_3 s h =
    row 11 13 9 14 mul11 mul13 mul9 mul14 s h
    ∙ ap_xor4 (total_30 (get_or s 0 0) (get_or-lt s 0 h))
        (total_31 (get_or s 1 0) (get_or-lt s 1 h)) (total_32 (get_or s 2 0) (get_or-lt s 2 h))
        (total_33 (get_or s 3 0) (get_or-lt s 3 h))
    ∙ unit_3 (get_or s 3 0)

-- inv_mix_columns undoes mix_columns.
pub inv_mix_columns-mix_columns : (s : List ℕ) → AreBytes s → inv_mix_columns (mix_columns s) ≡ s
unfolding inv_mix_columns mix_columns Row entry
inv_mix_columns-mix_columns [] h = refl
inv_mix_columns-mix_columns (a ∷ []) h = refl
inv_mix_columns-mix_columns (a ∷ b ∷ []) h = refl
inv_mix_columns-mix_columns (a ∷ b ∷ c ∷ []) h = refl
inv_mix_columns-mix_columns (a ∷ b ∷ c ∷ d ∷ t) h =
    let s = a ∷ b ∷ c ∷ d ∷ [] in
    let bytes : AreBytes s = (h.0, (h.1.0, (h.1.1.0, (h.1.1.1.0, tt)))) in
    ap₂ ◌∷◌ (row_0 s bytes) (
      ap₂ ◌∷◌ (row_1 s bytes) (
        ap₂ ◌∷◌ (row_2 s bytes)
          (ap₂ ◌∷◌ (row_3 s bytes) (inv_mix_columns-mix_columns t h.1.1.1.1))))
