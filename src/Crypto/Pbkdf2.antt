-- ===== src/Crypto/Pbkdf2.antt =====
-- rtw_pbkdf2_sha1 of crypto/rtw_crypto.c against RFC 8018. `prf` stands for rtw_hmac_sha1 on the
-- stack contents that it meets, so the loops can be read without it.
use rtl8821ce_mac_os.Base.{
  ℕ, zero, suc, ◌+◌, ◌-◌, ◌*◌, ◌/◌, ◌^◌, ◌≤◌, ◌<◌, ◌≡◌, refl, sym, ap, ap₂, ◌∙◌, arith, min,
}
use rtl8821ce_mac_os.Base.{List, [], ◌∷◌, ◌++◌, length, take, take-of_append, take-min, take-append}
use rtl8821ce_mac_os.Base.{fun_ext}
use mathlib.Core.List.{append-nil}
use rtl8821ce_mac_os.Base.Bits.{u8, u32, ◌>>>◌}
use rtl8821ce_mac_os.Base.Bytes.{xor_into, length-xor_into}
use rtl8821ce_mac_os.Crypto.Hmac.{
  rtw_hmac_sha1, hmac_sha1, rtw_hmac_sha1-hmac_sha1, length-hmac_sha1,
}

-- `for (i = 1; i < iterations; i++)`, with `left` rounds to go.
unfoldable pub iterate : (List ℕ → List ℕ) → ℕ → List ℕ → List ℕ → List ℕ
unfolding xor_into
iterate prf zero u t = t
iterate prf (suc left) u t = iterate prf left (prf u) (xor_into t (prf u))

-- The four bytes that follow the salt.
abbrev pub block_bytes : ℕ → List ℕ
block_bytes b = u8 (b >>> 24) ∷ u8 (b >>> 16) ∷ u8 (b >>> 8) ∷ u8 b ∷ []

-- `T` when the inner loop ends.
unfoldable pub pbkdf2_block : (List ℕ → List ℕ) → List ℕ → ℕ → ℕ → List ℕ
unfolding iterate
pbkdf2_block prf salt iterations block =
    let u = prf (salt ++ block_bytes block) in iterate prf (iterations - 1) u u

-- `while (outlen)`, on fuel. The bytes written to `out`, in order.
unfoldable pub pbkdf2_blocks : (List ℕ → List ℕ) → List ℕ → ℕ → ℕ → ℕ → ℕ → List ℕ
unfolding pbkdf2_block
pbkdf2_blocks prf salt iterations fuel zero block = []
pbkdf2_blocks prf salt iterations zero (suc outlen) block = []
pbkdf2_blocks prf salt iterations (suc fuel) (suc outlen) block =
    let c = min (suc outlen) 20 in
    take c (pbkdf2_block prf salt iterations block)
    ++ pbkdf2_blocks prf salt iterations fuel (suc outlen - c) (u32 (block + 1))

-- Each round writes at least one byte, so `outlen` is fuel enough.
unfoldable pub rtw_pbkdf2_sha1 : List ℕ → List ℕ → List ℕ → ℕ → ℕ → List ℕ
unfolding pbkdf2_blocks rtw_hmac_sha1
rtw_pbkdf2_sha1 stack pass salt iterations outlen =
    pbkdf2_blocks (rtw_hmac_sha1 stack pass) (take (min (length salt) 64) salt) iterations outlen
      outlen 1

-- RFC 8018: U_1 = PRF(S || INT(i)), U_(j+1) = PRF(U_j), T_i = U_1 ^ ... ^ U_c.
unfoldable pub chain : (List ℕ → List ℕ) → List ℕ → ℕ → List ℕ
chain prf u zero = u
chain prf u (suc j) = prf (chain prf u j)

unfoldable pub xor_chain : (List ℕ → List ℕ) → List ℕ → ℕ → List ℕ
xor_chain prf u zero = u
xor_chain prf u (suc j) = xor_into (xor_chain prf u j) (chain prf u (suc j))

-- T_i || T_(i+1) || ..., `k` of them.
unfoldable pub t_blocks : (List ℕ → List ℕ) → List ℕ → ℕ → ℕ → ℕ → List ℕ
t_blocks prf salt iterations zero i = []
t_blocks prf salt iterations (suc k) i =
    xor_chain prf (prf (salt ++ block_bytes i)) (iterations - 1)
    ++ t_blocks prf salt iterations k (i + 1)

iterate-xor_chain :
    (prf : List ℕ → List ℕ) (u : List ℕ) (left j : ℕ)
    → iterate prf left (chain prf u j) (xor_chain prf u j) ≡ xor_chain prf u (j + left)
unfolding iterate chain xor_chain
iterate-xor_chain prf u zero j = ap (xor_chain prf u) {x = j} {y = j + 0} (omega arith)
iterate-xor_chain prf u (suc left) j =
    iterate-xor_chain prf u left (suc j)
    ∙ ap (xor_chain prf u) {x = suc j + left} {y = j + suc left} (omega arith)

pbkdf2_block-xor_chain :
    (prf : List ℕ → List ℕ) (salt : List ℕ) (iterations i : ℕ)
    → pbkdf2_block prf salt iterations i
      ≡ xor_chain prf (prf (salt ++ block_bytes i)) (iterations - 1)
unfolding pbkdf2_block
pbkdf2_block-xor_chain prf salt iterations i =
    let u = prf (salt ++ block_bytes i) in
    let n : ℕ = iterations - 1 in
    unfold chain xor_chain in
    (iterate-xor_chain prf u n 0 ∙ ap (xor_chain prf u) {x = 0 + n} {y = n} (omega arith))

length-xor_chain :
    (prf : List ℕ → List ℕ) (u : List ℕ) (j : ℕ) → length (xor_chain prf u j) ≡ length u
unfolding xor_chain
length-xor_chain prf u zero = refl
length-xor_chain prf u (suc j) = length-xor_into (xor_chain prf u j) _ ∙ length-xor_chain prf u j

module _ (prf : List ℕ → List ℕ) (width : (m : List ℕ) → length (prf m) ≡ 20) where
  pbkdf2_blocks-t_blocks :
      (salt : List ℕ) (iterations fuel outlen k i : ℕ)
      → outlen ≤ fuel
      → outlen ≤ 20 * k
      → i + k < 2 ^ 32
      → pbkdf2_blocks prf salt iterations fuel outlen i
        ≡ take outlen (t_blocks prf salt iterations k i)
  unfolding pbkdf2_blocks t_blocks
  pbkdf2_blocks-t_blocks salt iterations fuel zero k i e f g = refl
  pbkdf2_blocks-t_blocks salt iterations zero (suc n) k i e f g = absurd (omega arith)
  pbkdf2_blocks-t_blocks salt iterations (suc fuel) (suc n) zero i e f g = absurd (omega arith)
  pbkdf2_blocks-t_blocks salt iterations (suc fuel) (suc n) (suc k) i e f g =
      let u = prf (salt ++ block_bytes i) in
      let t = xor_chain prf u (iterations - 1) in
      let rest = t_blocks prf salt iterations k (i + 1) in
      let t_length : length t ≡ 20 =
        length-xor_chain prf u (iterations - 1) ∙ width (salt ++ block_bytes i) in
      let c : ℕ = min (suc n) 20 in
      let head : take c (pbkdf2_block prf salt iterations i) ≡ take (suc n) t =
        ap (take c) (pbkdf2_block-xor_chain prf salt iterations i)
        ∙ (ap (λ (j : ℕ). take j t) {x = c} {y = min (suc n) (length t)} (omega arith)
            ∙ take-min (suc n) t) in
      let tail : pbkdf2_blocks prf salt iterations fuel (suc n - c) (u32 (i + 1))
          ≡ take (suc n - length t) rest =
        ap₂ (pbkdf2_blocks prf salt iterations fuel) {x = suc n - c} {y = suc n - length t}
          (omega arith) (omega arith)
        ∙ pbkdf2_blocks-t_blocks salt iterations fuel (suc n - length t) k (i + 1) (omega arith)
            (omega arith) (omega arith) in
      ap₂ ◌++◌ head tail ∙ sym (take-of_append (suc n) t rest)

-- RFC 8018 with HMAC-SHA1: the first `outlen` bytes of T_1 || T_2 || ....
unfoldable pub pbkdf2_sha1 : List ℕ → List ℕ → ℕ → ℕ → List ℕ
pbkdf2_sha1 pass salt iterations outlen =
    take outlen (t_blocks (hmac_sha1 pass) salt iterations ((outlen + 19) / 20) 1)

-- For a salt of at most 64 bytes and an output below 2 ^ 32 bytes, `rtw_pbkdf2_sha1` writes the
-- key of RFC 8018, on any stack contents.
pub rtw_pbkdf2_sha1-pbkdf2_sha1 :
    (stack pass salt : List ℕ) (iterations outlen : ℕ)
    → length stack ≡ 64
    → length salt ≤ 64
    → outlen < 2 ^ 32
    → rtw_pbkdf2_sha1 stack pass salt iterations outlen ≡ pbkdf2_sha1 pass salt iterations outlen
unfolding rtw_pbkdf2_sha1 pbkdf2_sha1
rtw_pbkdf2_sha1-pbkdf2_sha1 stack pass salt iterations outlen h hs ho =
    ap₂ (λ (f : List ℕ → List ℕ) (s : List ℕ). pbkdf2_blocks f s iterations outlen outlen 1)
      (fun_ext (λ m. rtw_hmac_sha1-hmac_sha1 stack pass m h)) whole_salt
    ∙ pbkdf2_blocks-t_blocks (hmac_sha1 pass) (length-hmac_sha1 pass) salt iterations outlen outlen
        ((outlen + 19) / 20) 1 (omega arith) (omega arith) (omega arith)
  where
    whole_salt : take (min (length salt) 64) salt ≡ salt
    whole_salt =
        ap (λ (k : ℕ). take k salt) {x = min (length salt) 64} {y = length salt} (omega arith)
        ∙ (ap (take (length salt)) (sym (append-nil salt)) ∙ take-append (length salt) salt [] refl)
