-- ===== src/Crypto/Hmac.antt =====
-- rtw_hmac_sha1 of crypto/rtw_crypto.c against RFC 2104. The context `c` is not cleared between
-- its uses: each `sha1_init` keeps the buffer of the digest before it.
use rtl8821ce_mac_os.Base.{ℕ, ◌-◌, ◌≡◌, refl, ap, ◌∙◌, arith, bit_xor}
use rtl8821ce_mac_os.Base.{if◌then◌else◌, ltb, Bool-cases, inl, inr}
use rtl8821ce_mac_os.Base.{List, ◌++◌, length, replicate, map}
use rtl8821ce_mac_os.Crypto.Sha1.{Sha1Ctx, sha1_init, sha1_update, sha1_finish, sha1_final, output}
use rtl8821ce_mac_os.Crypto.Sha1.Absorb.{sha1_update-append}
use rtl8821ce_mac_os.Crypto.Sha1.Blocks.{
  fips_sha1, sha1_final-fips_sha1, hashed, hashed-length, length-fips_sha1,
}

-- The block-sized key `k`, and the buffer that the context has then.
pub record HmacKey : Type 0 where
  pub k : List ℕ
  pub stack : List ℕ

unfoldable pub hmac_key : List ℕ → List ℕ → HmacKey
hmac_key stack key =
    if ltb 64 (length key)
    then (let c = sha1_finish (sha1_update (sha1_init stack) key) in
        record { k = output c.h ++ replicate 44 0; stack = c.buf })
    else record { k = key ++ replicate (64 - length key) 0; stack = stack }

abbrev pub xor_each : ℕ → List ℕ → List ℕ
xor_each v k = map (λ b. bit_xor b v) k

unfoldable pub rtw_hmac_sha1 : List ℕ → List ℕ → List ℕ → List ℕ
unfolding hmac_key
rtw_hmac_sha1 stack key msg =
    let hk = hmac_key stack key in
    let c = sha1_finish (sha1_update (sha1_update (sha1_init hk.stack) (xor_each 0x36 hk.k)) msg) in
    let inner = output c.h in
    sha1_final (sha1_update (sha1_update (sha1_init c.buf) (xor_each 0x5c hk.k)) inner)

-- RFC 2104: H(K ^ opad, H(K ^ ipad, text)), with a key longer than a block hashed first.
abbrev pub block_key : List ℕ → List ℕ
block_key key =
    if ltb 64 (length key)
    then fips_sha1 key ++ replicate 44 0
    else key ++ replicate (64 - length key) 0

unfoldable pub hmac_sha1 : List ℕ → List ℕ → List ℕ
hmac_sha1 key msg =
    fips_sha1 (xor_each 0x5c (block_key key) ++ fips_sha1 (xor_each 0x36 (block_key key) ++ msg))

digest-fips_sha1 :
    (stack msg : List ℕ) → length stack ≡ 64 → output (hashed stack msg).h ≡ fips_sha1 msg
digest-fips_sha1 stack msg h = unfold sha1_final in sha1_final-fips_sha1 stack msg h

-- The second hash, from the context that the first one left.
abbrev outer : List ℕ → Sha1Ctx → List ℕ
outer opad c = sha1_final (sha1_update (sha1_update (sha1_init c.buf) opad) (output c.h))

hmac_key_lem :
    (stack key : List ℕ)
    → length stack ≡ 64
    → ((hmac_key stack key).k ≡ block_key key) × (length (hmac_key stack key).stack ≡ 64)
unfolding hmac_key
hmac_key_lem stack key h = elim (Bool-cases (ltb 64 (length key))) [
  | inl long ↦ rw long (
    ap (λ (l : List ℕ). l ++ replicate 44 0) (digest-fips_sha1 stack key h),
    hashed-length stack key h,
  )
  | inr short ↦ rw short (refl, h)
]

-- On any stack contents, `rtw_hmac_sha1` computes the HMAC of RFC 2104 over that digest, with a key
-- longer than a block hashed first.
pub rtw_hmac_sha1-hmac_sha1 :
    (stack key msg : List ℕ) → length stack ≡ 64 → rtw_hmac_sha1 stack key msg ≡ hmac_sha1 key msg
unfolding rtw_hmac_sha1 hmac_sha1
rtw_hmac_sha1-hmac_sha1 stack key msg h =
    let hk = hmac_key stack key in
    let key_ok = hmac_key_lem stack key h in
    let ipad = xor_each 0x36 hk.k in
    let opad = xor_each 0x5c hk.k in
    let c = hashed hk.stack (ipad ++ msg) in
    let c_length = hashed-length hk.stack (ipad ++ msg) key_ok.1 in
    ap (λ (r : Sha1Ctx). outer opad (sha1_finish r))
      (sha1_update-append (sha1_init hk.stack) ipad msg (omega arith))
    ∙ (ap sha1_final (sha1_update-append (sha1_init c.buf) opad (output c.h) (omega arith))
        ∙ (sha1_final-fips_sha1 c.buf (opad ++ output c.h) c_length
            ∙ (ap (λ (l : List ℕ). fips_sha1 (opad ++ l))
                  (digest-fips_sha1 hk.stack (ipad ++ msg) key_ok.1)
                ∙ ap
                    (λ (k : List ℕ).
                      fips_sha1 (xor_each 0x5c k ++ fips_sha1 (xor_each 0x36 k ++ msg)))
                    key_ok.0)))

-- The digest has 20 bytes.
pub length-hmac_sha1 : (key msg : List ℕ) → length (hmac_sha1 key msg) ≡ 20
unfolding hmac_sha1
length-hmac_sha1 key msg = length-fips_sha1 _
