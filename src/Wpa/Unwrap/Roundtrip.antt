-- ===== src/Wpa/Unwrap/Roundtrip.antt =====
-- Wrapped keys under aes_unwrap of core/wpa.c, over a block cipher and its inverse.
use rtl8821ce_mac_os.Base.{
  ℕ, zero, suc, ◌+◌, ◌-◌, ◌*◌, ◌/◌, ◌%◌, ◌≤◌, ◌≡◌, refl, sym, ap, ap₂, ◌∙◌, arith,
}
use rtl8821ce_mac_os.Base.{some}
use rtl8821ce_mac_os.Base.{List, [], ◌∷◌, ◌++◌, length, take, drop}
use rtl8821ce_mac_os.Base.{
  length-append, length-take, length-drop, take-append, drop-append, take-append-drop,
}
use rtl8821ce_mac_os.Base.Bytes.{AreBytes, take-AreBytes, drop-AreBytes}
use rtl8821ce_mac_os.Wpa.Unwrap.{
  Wrap, split_blocks, join_blocks, unwrap_rounds, default_iv, is_default_iv, load, check_iv,
  aes_unwrap, wrap_rounds, aes_wrap,
}
use rtl8821ce_mac_os.Wpa.Unwrap.Steps.{
  Inverse, AreBlocks, IsState, wrap_rounds-IsState, unwrap_rounds-wrap_rounds,
}

join_blocks-split_blocks :
    (n : ℕ) (xs : List ℕ) → length xs ≡ 8 * n → join_blocks (split_blocks n xs) ≡ xs
unfolding join_blocks split_blocks
join_blocks-split_blocks zero [] h = refl
join_blocks-split_blocks zero (x ∷ xs) h = absurd (omega arith)
join_blocks-split_blocks (suc n) xs h =
    ap (λ (l : List ℕ). take 8 xs ++ l)
      (join_blocks-split_blocks n (drop 8 xs) (omega (arith, length-drop 8 xs)))
    ∙ take-append-drop 8 xs

split_blocks-join_blocks :
    (bs : List (List ℕ)) → AreBlocks bs → split_blocks (length bs) (join_blocks bs) ≡ bs
unfolding join_blocks split_blocks
split_blocks-join_blocks [] p = refl
split_blocks-join_blocks (b ∷ bs) p = ap₂ ◌∷◌ (take-append 8 b (join_blocks bs) p.0.0) (
    ap (split_blocks (length bs)) (drop-append 8 b (join_blocks bs) p.0.0)
    ∙ split_blocks-join_blocks bs p.1)

length-join_blocks : (bs : List (List ℕ)) → AreBlocks bs → length (join_blocks bs) ≡ 8 * length bs
unfolding join_blocks
length-join_blocks [] p = refl
length-join_blocks (b ∷ bs) p =
    omega (arith, length-append {0} b (join_blocks bs), length-join_blocks bs p.1, p.0.0)

split_blocks-AreBlocks :
    (n : ℕ) (xs : List ℕ)
    → length xs ≡ 8 * n
    → AreBytes xs
    → AreBlocks (split_blocks n xs) × (length (split_blocks n xs) ≡ n)
unfolding split_blocks
split_blocks-AreBlocks zero xs h p = (tt, refl)
split_blocks-AreBlocks (suc n) xs h p =
    let rest =
      split_blocks-AreBlocks n (drop 8 xs) (omega (arith, length-drop 8 xs))
        (drop-AreBytes 8 xs p) in
    (((omega (arith, length-take 8 xs), take-AreBytes 8 xs p), rest.0), ap suc rest.1)

aes_unwrap-of_length :
    (dec : List ℕ → List ℕ) (n : ℕ) (cipher : List ℕ)
    → 1 ≤ n
    → length cipher ≡ 8 * (n + 1)
    → aes_unwrap dec cipher ≡ check_iv (unwrap_rounds dec n 6 (load n cipher))
unfolding aes_unwrap
aes_unwrap-of_length dec n cipher one h =
    let blocks : length cipher / 8 - 1 ≡ n = omega arith in
    let whole : length cipher % 8 ≡ 0 = omega arith in rw (blocks, whole) (ground arith)

check_iv-default :
    (blocks : List (List ℕ))
    → check_iv (record { a = default_iv; r = blocks }) ≡ some (join_blocks blocks)
unfolding check_iv is_default_iv
check_iv-default blocks = refl

load-join : (w : Wrap) (n : ℕ) → IsState w → length w.r ≡ n → load n (w.a ++ join_blocks w.r) ≡ w
unfolding load
load-join w n v h =
    ap₂ (λ (x : List ℕ) (y : List (List ℕ)). record { a = x; r = y })
      (take-append 8 w.a (join_blocks w.r) v.a_block.0)
      (ap (split_blocks n) (drop-append 8 w.a (join_blocks w.r) v.a_block.0)
        ∙ (ap (λ (k : ℕ). split_blocks k (join_blocks w.r)) (sym h)
            ∙ split_blocks-join_blocks w.r v.r_blocks))

-- The wrapping, at a given count of blocks.
abbrev wrapped_by : (List ℕ → List ℕ) → ℕ → List ℕ → List ℕ
wrapped_by enc n plain =
    let s = wrap_rounds enc n 6 (record { a = default_iv; r = split_blocks n plain }) in
    s.a ++ join_blocks s.r

-- Over a block cipher with an inverse, `aes_unwrap` gives back every key of one or more 8-byte
-- blocks that RFC 3394 wraps.
pub aes_unwrap-aes_wrap :
    (enc dec : List ℕ → List ℕ) (plain : List ℕ) (n : ℕ)
    → Inverse enc dec
    → 1 ≤ n
    → length plain ≡ 8 * n
    → AreBytes plain
    → aes_unwrap dec (aes_wrap enc plain) ≡ some plain
unfolding aes_wrap
aes_unwrap-aes_wrap enc dec plain n inverse one h bytes =
    let first : Wrap = record { a = default_iv; r = split_blocks n plain } in
    let blocks = split_blocks-AreBlocks n plain h bytes in
    let first_ok : IsState first = record { a_block = (refl, omega arith); r_blocks = blocks.0 } in
    let w : Wrap = wrap_rounds enc n 6 first in
    let w_ok = wrap_rounds-IsState enc dec inverse n 6 first first_ok (sym blocks.1) in
    let cipher = w.a ++ join_blocks w.r in
    let cipher_length : length cipher ≡ 8 * (n + 1) = omega (
      arith,
      length-append {0} w.a (join_blocks w.r),
      length-join_blocks w.r w_ok.0.r_blocks,
      w_ok.0.a_block.0,
      w_ok.1,
    ) in
    let loaded : load n cipher ≡ w = load-join w n w_ok.0 w_ok.1 in
    ap (λ (k : ℕ). aes_unwrap dec (wrapped_by enc k plain)) {x = length plain / 8} {y = n}
      (omega arith)
    ∙ (aes_unwrap-of_length dec n cipher one cipher_length
        ∙ (ap (λ (s : Wrap). check_iv (unwrap_rounds dec n 6 s)) loaded
            ∙ (ap check_iv
                  (unwrap_rounds-wrap_rounds enc dec inverse n 6 first first_ok (sym blocks.1))
                ∙ (check_iv-default (split_blocks n plain)
                    ∙ ap some (join_blocks-split_blocks n plain h)))))
