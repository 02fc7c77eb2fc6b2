-- ===== src/Wpa/Unwrap.antt =====
-- aes_unwrap of core/wpa.c, the key unwrapping of RFC 3394, and the wrapping that it undoes.
-- `dec` is rtw_aes128_ecb_decrypt under the KEK. The array `r` is kept as its 8-byte blocks.
pub mod Steps
pub mod Roundtrip
pub mod Kek
use rtl8821ce_mac_os.Base.{
  ℕ, zero, suc, ◌+◌, ◌-◌, ◌*◌, ◌/◌, ◌%◌, ◌^◌, ◌≤◌, ◌<◌, ◌≡◌, refl, sym, ap, ap₂, ◌∙◌, arith,
}
use rtl8821ce_mac_os.Base.{
  Bool, true, false, if◌then◌else◌, ltb, ◌==◌, ◌||◌, not, Option, none, some, Bool-cases, inl, inr,
}
use rtl8821ce_mac_os.Base.{List, [], ◌∷◌, ◌++◌, length, take, drop, get_or, set, replicate}
use rtl8821ce_mac_os.Base.{
  length-append, length-take, length-drop, length-set, take-append, drop-append, take-append-drop,
}
use rtl8821ce_mac_os.Base.Bytes.{
  AreBytes, xor_into, length-xor_into, xor_into-AreBytes, xor_into_cancel, AreBytes-append,
  take-AreBytes, drop-AreBytes,
}
use rtl8821ce_mac_os.Crypto.Sha1.{be64}

-- The register `a` and the blocks `r`.
pub record Wrap : Type 0 where
  pub a : List ℕ
  pub r : List (List ℕ)

-- `n` blocks of eight bytes, and back.
unfoldable pub split_blocks : ℕ → List ℕ → List (List ℕ)
split_blocks zero xs = []
split_blocks (suc n) xs = take 8 xs ∷ split_blocks n (drop 8 xs)

unfoldable pub join_blocks : List (List ℕ) → List ℕ
join_blocks [] = []
join_blocks (b ∷ bs) = b ++ join_blocks bs

-- One round: `b = (a ^ t) || r[k]`, decrypted and taken apart.
unfoldable pub unwrap_step : (List ℕ → List ℕ) → ℕ → ℕ → Wrap → Wrap
unfolding xor_into
unwrap_step dec t k s =
    let b = dec (xor_into s.a (be64 t) ++ get_or s.r k []) in
    record { a = take 8 b; r = set s.r k (drop 8 b) }

-- `for (i = n; i >= 1; i--)`
unfoldable pub unwrap_blocks : (List ℕ → List ℕ) → ℕ → ℕ → ℕ → Wrap → Wrap
unfolding unwrap_step
unwrap_blocks dec n j zero s = s
unwrap_blocks dec n j (suc i) s = unwrap_blocks dec n j i (unwrap_step dec (n * j + suc i) i s)

-- `for (j = 5; j >= 0; j--)`, at `j + 1` rounds to go.
unfoldable pub unwrap_rounds : (List ℕ → List ℕ) → ℕ → ℕ → Wrap → Wrap
unfolding unwrap_blocks
unwrap_rounds dec n zero s = s
unwrap_rounds dec n (suc j) s = unwrap_rounds dec n j (unwrap_blocks dec n j n s)

-- The default IV of RFC 3394, which the last loop looks for.
abbrev pub default_iv : List ℕ
default_iv = replicate 8 0xa6

unfoldable pub is_default_iv : List ℕ → Bool
is_default_iv [] = true
is_default_iv (x ∷ xs) = if x == 0xa6 then is_default_iv xs else false

-- `a` and `r` before the loops, and what the IV check lets out after them.
unfoldable pub load : ℕ → List ℕ → Wrap
load n cipher = record { a = take 8 cipher; r = split_blocks n (drop 8 cipher) }

unfoldable pub check_iv : Wrap → Option (List ℕ)
check_iv s = if is_default_iv s.a then some (join_blocks s.r) else none

-- `none` is the result 0, and `some` the bytes written to `out`. A `clen` below 8 makes the C
-- `n` negative and this one 0: both are below 1. The `r` of the C has room for 32 blocks, and its
-- one caller passes 256 bytes at most; the list has no such bound.
unfoldable pub aes_unwrap : (List ℕ → List ℕ) → List ℕ → Option (List ℕ)
aes_unwrap dec cipher =
    let n = length cipher / 8 - 1 in
    if ltb n 1 || not (length cipher % 8 == 0)
    then none
    else check_iv (unwrap_rounds dec n 6 (load n cipher))

-- RFC 3394's wrapping, which the access point does.
unfoldable pub wrap_step : (List ℕ → List ℕ) → ℕ → ℕ → Wrap → Wrap
wrap_step enc t k s =
    let b = enc (s.a ++ get_or s.r k []) in
    record { a = xor_into (take 8 b) (be64 t); r = set s.r k (drop 8 b) }

unfoldable pub wrap_blocks : (List ℕ → List ℕ) → ℕ → ℕ → ℕ → Wrap → Wrap
wrap_blocks enc n j zero s = s
wrap_blocks enc n j (suc i) s = wrap_step enc (n * j + suc i) i (wrap_blocks enc n j i s)

unfoldable pub wrap_rounds : (List ℕ → List ℕ) → ℕ → ℕ → Wrap → Wrap
wrap_rounds enc n zero s = s
wrap_rounds enc n (suc j) s = wrap_blocks enc n j n (wrap_rounds enc n j s)

unfoldable pub aes_wrap : (List ℕ → List ℕ) → List ℕ → List ℕ
aes_wrap enc plain =
    let n = length plain / 8 in
    let s = wrap_rounds enc n 6 (record { a = default_iv; r = split_blocks n plain }) in
    s.a ++ join_blocks s.r
