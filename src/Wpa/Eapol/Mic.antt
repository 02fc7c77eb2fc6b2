-- ===== src/Wpa/Eapol/Mic.antt =====
-- The MIC of an EAPOL-Key frame of core/wpa.c.
use rtl8821ce_mac_os.Base.{
  ℕ, ◌+◌, ◌^◌, ◌<◌, ◌≡◌, ◌↔◌, refl, sym, ap, ap₂, ◌∙◌, arith, bit_or, bit_xor,
}
use rtl8821ce_mac_os.Base.{Bool, true, if◌then◌else◌, ◌==◌, ==_iff, Option, min}
use rtl8821ce_mac_os.Base.{
  List, [], ◌∷◌, ◌++◌, length, take, drop, replicate, length-append, length-take,
}
use rtl8821ce_mac_os.Base.{take-append, drop-append, drop_of_append, subst}
use rtl8821ce_mac_os.Base.Bits.{
  u8, u16, bit_or-eq_zero, bit_xor-eq_zero, bit_xor_self, bit_xor-lt, bit_or-lt,
}
use rtl8821ce_mac_os.Base.Bytes.{AreBytes, take-AreBytes}
use rtl8821ce_mac_os.Wpa.Eapol.{
  eapol_mic, before_mic, after_mic, nonce_field, build_eapol_key, ct_memcmp, mic_ok, rsn_ie,
}

ct_memcmp-eq_zero :
    (xs ys : List ℕ) (d : ℕ)
    → length xs ≡ length ys
    → AreBytes xs
    → AreBytes ys
    → d < 256
    → ct_memcmp xs ys d ≡ 0
    → (d ≡ 0) × (xs ≡ ys)
unfolding ct_memcmp
ct_memcmp-eq_zero [] [] d e p q h z = (z, refl)
ct_memcmp-eq_zero [] (y ∷ ys) d e p q h z = absurd (omega arith)
ct_memcmp-eq_zero (x ∷ xs) [] d e p q h z = absurd (omega arith)
ct_memcmp-eq_zero (x ∷ xs) (y ∷ ys) d e p q h z =
    let v : ℕ = u8 (bit_xor x y) in
    let v_lt : v < 2 ^ 8 = omega arith in
    let rest =
      ct_memcmp-eq_zero xs ys (bit_or d v) (omega arith) p.1 q.1 (bit_or-lt 8 d v h v_lt) z in
    let zeros = bit_or-eq_zero 8 d v h v_lt rest.0 in
    (
      zeros.0,
      ap₂ ◌∷◌ (bit_xor-eq_zero 8 x y p.0 q.0 (omega (arith, bit_xor-lt 8 x y p.0 q.0))) rest.1,
    )

ct_memcmp_self : (xs : List ℕ) → AreBytes xs → ct_memcmp xs xs 0 ≡ 0
unfolding ct_memcmp
ct_memcmp_self [] p = refl
ct_memcmp_self (x ∷ xs) p =
    ap (ct_memcmp xs xs) (ap (λ (v : ℕ). bit_or 0 (u8 v)) (bit_xor_self 8 x p.0))
    ∙ ct_memcmp_self xs p.1

-- The constant-time compare returns 0 exactly when the two byte strings are equal.
pub ct_memcmp-eq_zero_iff :
    (xs ys : List ℕ)
    → length xs ≡ length ys
    → AreBytes xs
    → AreBytes ys
    → (ct_memcmp xs ys 0 ≡ 0) ↔ (xs ≡ ys)
ct_memcmp-eq_zero_iff xs ys e p q = (
  (λ z. (ct_memcmp-eq_zero xs ys 0 e p q (omega arith) z).1),
  (λ same. ap (λ (l : List ℕ). ct_memcmp xs l 0) (sym same) ∙ ct_memcmp_self xs p),
)

drop_mic :
    (head mic tail : List ℕ)
    → length head ≡ 81
    → length mic ≡ 16
    → drop 97 (head ++ (mic ++ tail)) ≡ tail
drop_mic head mic tail h m =
    drop_of_append 97 head (mic ++ tail) 16 (omega arith) ∙ drop-append 16 mic tail m

-- A frame in three parts: what stands before, in and after the MIC field.
eapol_mic-parts :
    (hmac : List ℕ → List ℕ → List ℕ) (kck head mic tail : List ℕ)
    → length head ≡ 81
    → length mic ≡ 16
    → eapol_mic hmac kck (head ++ (mic ++ tail))
      ≡ take 16 (hmac kck (head ++ (replicate 16 0 ++ tail)))
unfolding eapol_mic
eapol_mic-parts hmac kck head mic tail h m =
    ap₂ (λ (x y : List ℕ). take 16 (hmac kck (x ++ (replicate 16 0 ++ y))))
      (take-append 81 head (mic ++ tail) h) (drop_mic head mic tail h m)

length-before_mic :
    (key_info body_len : ℕ) (replay nonce : List ℕ)
    → length replay ≡ 8
    → length nonce ≡ 32
    → length (before_mic key_info replay nonce body_len) ≡ 81
length-before_mic key_info body_len replay nonce h k = omega (
  arith,
  length-append {0} replay (nonce ++ replicate 32 0),
  length-append {0} nonce (replicate 32 0),
)

-- HMAC-SHA1 as the frames use it: 20 bytes come out.
pub record IsMac (hmac : List ℕ → List ℕ → List ℕ) : Type 0 where
  pub width : (k m : List ℕ) → length (hmac k m) ≡ 20
  pub bytes : (k m : List ℕ) → AreBytes (hmac k m)

module _ (hmac : List ℕ → List ℕ → List ℕ) (kck head tail : List ℕ) (mac : IsMac hmac)
    (h : length head ≡ 81) where
  -- The MIC of a frame whose MIC field is still zero.
  abbrev mic : List ℕ
  mic = eapol_mic hmac kck (head ++ (replicate 16 0 ++ tail))

  abbrev whole : List ℕ
  whole = head ++ (mic ++ tail)

  mic-mac : mic ≡ take 16 (hmac kck (head ++ (replicate 16 0 ++ tail)))
  mic-mac = eapol_mic-parts hmac kck head (replicate 16 0) tail h refl

  length-mic : length mic ≡ 16
  length-mic =
      ap length mic-mac
      ∙ (length-take 16 (hmac kck (head ++ (replicate 16 0 ++ tail)))
          ∙ ap (min 16) (mac.width kck (head ++ (replicate 16 0 ++ tail))))

  mic-AreBytes : AreBytes mic
  mic-AreBytes = subst AreBytes (sym mic-mac) (
      take-AreBytes 16 (hmac kck (head ++ (replicate 16 0 ++ tail)))
        (mac.bytes kck (head ++ (replicate 16 0 ++ tail))))

  field-whole : take 16 (drop 81 whole) ≡ mic
  field-whole =
      ap (take 16) (drop-append 81 head (mic ++ tail) h) ∙ take-append 16 mic tail length-mic

  mic-whole : eapol_mic hmac kck whole ≡ mic
  mic-whole = eapol_mic-parts hmac kck head mic tail h length-mic ∙ sym mic-mac

  mic_ok-whole : mic_ok hmac kck whole ≡ true
  unfolding mic_ok
  mic_ok-whole =
      ap₂ (λ (x y : List ℕ). ct_memcmp x y 0 == 0) field-whole mic-whole
      ∙ (==_iff (ct_memcmp mic mic 0) 0).1 (ct_memcmp_self mic mic-AreBytes)

-- Every frame that `build_eapol_key` makes passes the receiver's MIC check under the same KCK, for
-- an 8-byte replay counter and a nonce of 32 bytes or none.
pub mic_ok-build_eapol_key :
    (hmac : List ℕ → List ℕ → List ℕ) (key_info : ℕ) (replay : List ℕ) (snonce : Option (List ℕ))
    (kck : List ℕ) (include_rsn : Bool)
    → IsMac hmac
    → length replay ≡ 8
    → length (nonce_field snonce) ≡ 32
    → mic_ok hmac kck (build_eapol_key hmac key_info replay snonce kck include_rsn) ≡ true
unfolding build_eapol_key
mic_ok-build_eapol_key hmac key_info replay snonce kck include_rsn mac h k =
    let key_data : List ℕ = if include_rsn then rsn_ie else [] in
    mic_ok-whole hmac kck
      (before_mic key_info replay (nonce_field snonce) (u16 (95 + length key_data)))
      (after_mic key_data) mac
      (length-before_mic key_info (u16 (95 + length key_data)) replay (nonce_field snonce) h k)
