-- ===== src/Wpa/Ptk.antt =====
-- prf and derive_ptk of core/wpa.c.
use rtl8821ce_mac_os.Base.{
  ℕ, zero, suc, ◌+◌, ◌-◌, ◌*◌, ◌/◌, ◌%◌, ◌≤◌, ◌≡◌, refl, sym, ap, ap₂, ◌∙◌, arith, min,
}
use rtl8821ce_mac_os.Base.{Bool, true, false, if◌then◌else◌, ltb, ◌==◌, inr, ◌⊎◌}
use Prim.{Unit}
use rtl8821ce_mac_os.Base.{
  List, [], ◌∷◌, ◌++◌, length, take, take-of_append, take-min, length-append,
}
use rtl8821ce_mac_os.Base.Bits.{u8}
use rtl8821ce_mac_os.Crypto.Hmac.{hmac_sha1, length-hmac_sha1}

-- strlen, of a string whose list may stop before its final 0.
unfoldable pub strlen : List ℕ → ℕ
strlen [] = 0
strlen (x ∷ xs) = let rest = strlen xs in if x == 0 then 0 else suc rest

-- The buffer that `prf` hashes in round `i`: the label, a zero, the seed and the counter. It is
-- `u8 in[128]`, which the one caller fills with 22 + 1 + 76 + 1 bytes.
unfoldable pub prf_input : List ℕ → List ℕ → ℕ → List ℕ
unfolding strlen
prf_input label seed i = take (strlen label) label ++ (0x00 ∷ (seed ++ (u8 i ∷ [])))

-- `while (pos < outlen)`, on fuel, at `pos = outlen - left`. `hmac` is rtw_hmac_sha1 under the key.
unfoldable pub prf_loop : (List ℕ → List ℕ) → List ℕ → List ℕ → ℕ → ℕ → ℕ → List ℕ
prf_loop hmac label seed fuel zero i = []
prf_loop hmac label seed zero (suc left) i = []
prf_loop hmac label seed (suc fuel) (suc left) i =
    let c = min (suc left) 20 in
    take c (hmac (prf_input label seed i)) ++ prf_loop hmac label seed fuel (suc left - c) (i + 1)

unfoldable pub prf : (List ℕ → List ℕ → List ℕ) → List ℕ → List ℕ → List ℕ → ℕ → List ℕ
unfolding prf_loop
prf hmac key label seed outlen = prf_loop (hmac key) label seed outlen outlen 0

-- `memcmp(a, b, n) < 0`, for arrays of one length.
unfoldable pub memcmp_lt : List ℕ → List ℕ → Bool
memcmp_lt [] ys = false
memcmp_lt (a ∷ xs) [] = false
memcmp_lt (a ∷ xs) (b ∷ ys) = let rest = memcmp_lt xs ys in if a == b then rest else ltb a b

-- The smaller of the two first.
unfoldable pub in_order : List ℕ → List ℕ → List ℕ
unfolding memcmp_lt
in_order a b = if memcmp_lt a b then a ++ b else b ++ a

-- "Pairwise key expansion"
abbrev pub pairwise_label : List ℕ
pairwise_label =
    80 ∷ 97 ∷ 105 ∷ 114 ∷ 119 ∷ 105 ∷ 115 ∷ 101 ∷ 32 ∷ 107 ∷ 101 ∷ 121 ∷ 32 ∷ 101 ∷ 120 ∷ 112 ∷ 97
    ∷ 110 ∷ 115 ∷ 105 ∷ 111 ∷ 110 ∷ []

unfoldable pub derive_ptk :
    (List ℕ → List ℕ → List ℕ) → List ℕ → List ℕ → List ℕ → List ℕ → List ℕ → List ℕ
unfolding in_order prf
derive_ptk hmac pmk aa spa anonce snonce =
    prf hmac pmk pairwise_label (in_order aa spa ++ in_order anonce snonce) 48

-- Two arrays of one length: one is smaller, or they are equal.
memcmp_lt-cases :
    (a b : List ℕ)
    → length a ≡ length b
    → ((memcmp_lt a b ≡ true) × (memcmp_lt b a ≡ false))
      ⊎ ((memcmp_lt a b ≡ false) × (memcmp_lt b a ≡ true))
      ⊎ (a ≡ b)
unfolding memcmp_lt
memcmp_lt-cases [] [] h = inr (inr refl)
memcmp_lt-cases [] (b ∷ ys) h = absurd (omega arith)
memcmp_lt-cases (a ∷ xs) [] h = absurd (omega arith)
memcmp_lt-cases (a ∷ xs) (b ∷ ys) h = ground (arith, memcmp_lt-cases xs ys)

in_order_comm : (a b : List ℕ) → length a ≡ length b → in_order a b ≡ in_order b a
unfolding in_order
in_order_comm a b h = ground (arith, memcmp_lt-cases a b h)

-- The access point and the station compute one PTK: exchanging the two addresses and the two
-- nonces changes nothing.
pub derive_ptk_comm :
    (hmac : List ℕ → List ℕ → List ℕ) (pmk aa spa anonce snonce : List ℕ)
    → length aa ≡ length spa
    → length anonce ≡ length snonce
    → derive_ptk hmac pmk aa spa anonce snonce ≡ derive_ptk hmac pmk spa aa snonce anonce
unfolding derive_ptk
derive_ptk_comm hmac pmk aa spa anonce snonce h k =
    ap₂ (λ (x y : List ℕ). prf hmac pmk pairwise_label (x ++ y) 48) (in_order_comm aa spa h)
      (in_order_comm anonce snonce k)

-- A C string of n bytes, all of them before its final 0.
abbrev pub AllNonzero : List ℕ → Type 0
AllNonzero [] = Unit {0}
AllNonzero (x ∷ xs) = (x == 0 ≡ false) × AllNonzero xs

whole_string : (xs : List ℕ) → AllNonzero xs → take (strlen xs) xs ≡ xs
unfolding strlen
whole_string [] h = refl
whole_string (x ∷ xs) h = rw h.0 (ap (λ r. x ∷ r) (whole_string xs h.1))

-- IEEE 802.11's PRF: HMAC(K, A || 0 || B || i) for i = from, from + 1, ..., joined. A is the label,
-- B the seed and i one byte.
unfoldable pub prf_stream : (List ℕ → List ℕ) → List ℕ → List ℕ → ℕ → ℕ → List ℕ
prf_stream hmac a b zero i = []
prf_stream hmac a b (suc k) i =
    hmac (a ++ (0 ∷ (b ++ ((i % 256) ∷ [])))) ++ prf_stream hmac a b k (i + 1)

prf_input_lem :
    (label seed : List ℕ) (i : ℕ)
    → AllNonzero label
    → prf_input label seed i ≡ label ++ (0 ∷ (seed ++ ((i % 256) ∷ [])))
unfolding prf_input
prf_input_lem label seed i h =
    ap (λ (l : List ℕ). l ++ (0 ∷ (seed ++ ((i % 256) ∷ [])))) (whole_string label h)

module _ (hmac : List ℕ → List ℕ) (width : (m : List ℕ) → length (hmac m) ≡ 20) where
  prf_loop-prf_stream :
      (label seed : List ℕ) (fuel left k i : ℕ)
      → AllNonzero label
      → left ≤ fuel
      → left ≤ 20 * k
      → prf_loop hmac label seed fuel left i ≡ take left (prf_stream hmac label seed k i)
  unfolding prf_loop prf_stream
  prf_loop-prf_stream label seed fuel zero k i z e f = refl
  prf_loop-prf_stream label seed zero (suc n) k i z e f = absurd (omega arith)
  prf_loop-prf_stream label seed (suc fuel) (suc n) zero i z e f = absurd (omega arith)
  prf_loop-prf_stream label seed (suc fuel) (suc n) (suc k) i z e f =
      let t = hmac (prf_input label seed i) in
      let rest = prf_stream hmac label seed k (i + 1) in
      let t_length = width (prf_input label seed i) in
      let c : ℕ = min (suc n) 20 in
      let head : take c t ≡ take (suc n) t =
        ap (λ (j : ℕ). take j t) {x = c} {y = min (suc n) (length t)} (omega arith)
        ∙ take-min (suc n) t in
      let tail : prf_loop hmac label seed fuel (suc n - c) (i + 1) ≡ take (suc n - length t) rest =
        ap (λ (m : ℕ). prf_loop hmac label seed fuel m (i + 1)) {x = suc n - c}
          {y = suc n - length t} (omega arith)
        ∙ prf_loop-prf_stream label seed fuel (suc n - length t) k (i + 1) z (omega arith)
            (omega arith) in
      ap₂ ◌++◌ head tail
      ∙ sym (take-of_append (suc n) t rest)
      ∙ ap (λ (m : List ℕ). take (suc n) (hmac m ++ rest)) (prf_input_lem label seed i z)

-- With a label that is a C string, and with label, zero byte, seed and counter in the 128 bytes of
-- the buffer, `prf` over HMAC-SHA1 writes the first `outlen` bytes of the PRF of IEEE 802.11, for
-- every `outlen`: HMAC of label, zero, seed and the round's number as a byte, round after round. Its
-- loop ends with the whole output written, and no round overruns the buffer.
pub prf-prf_stream :
    (key label seed : List ℕ) (outlen i : ℕ)
    → AllNonzero label
    → length label + length seed + 2 ≤ 128
    → (prf hmac_sha1 key label seed outlen
        ≡ take outlen (prf_stream (hmac_sha1 key) label seed ((outlen + 19) / 20) 0))
      × (length (prf_input label seed i) ≤ 128)
unfolding prf
prf-prf_stream key label seed outlen i z room = (
  prf_loop-prf_stream (hmac_sha1 key) (length-hmac_sha1 key) label seed outlen outlen
      ((outlen + 19) / 20) 0 z (omega arith) (omega arith),
  rw (prf_input_lem label seed i z) (
      omega (
        arith,
        length-append {0} label (0 ∷ (seed ++ ((i % 256) ∷ []))),
        length-append {0} seed ((i % 256) ∷ []),
        room,
      )),
)
