-- ===== src/Crypto/Aes/Inverse.antt =====
-- AES encryption and decryption of crypto/rtw_crypto.c together, round by round.
use rtl8821ce_mac_os.Base.{ℕ, zero, suc, ◌*◌, ◌<◌, ◌≡◌, ap, ◌∙◌, arith}
use rtl8821ce_mac_os.Base.{if◌then◌else◌, ◌==◌, not, Bool, true, false, List}
use rtl8821ce_mac_os.Base.{take, drop, length}
use rtl8821ce_mac_os.Base.Bytes.{
  AreBytes, length-xor_into, xor_into-AreBytes, xor_into_cancel, take-AreBytes, drop-AreBytes,
}
use rtl8821ce_mac_os.Crypto.Aes.{
  mix_columns, inv_mix_columns, shift_rows, inv_shift_rows, sub_bytes, inv_sub_bytes, aes128_expand,
  add_rk, encrypt_round, encrypt_rounds, decrypt_round, decrypt_rounds, rtw_aes128_ecb_encrypt,
  rtw_aes128_ecb_decrypt,
}
use rtl8821ce_mac_os.Crypto.Aes.Columns.{inv_mix_columns-mix_columns}
use rtl8821ce_mac_os.Crypto.Aes.Blocks.{
  IsBlock16, inv_sub_bytes-sub_bytes, sub_bytes-IsBlock, inv_shift_rows-shift_rows,
  shift_rows-IsBlock16, mix_columns-IsBlock, aes128_expand-AreBytes,
}

-- The rounds, under any round keys that are bytes.
module _ (rk : List ℕ) (bytes : AreBytes rk) where
  round_key-AreBytes : (r : ℕ) → AreBytes (take 16 (drop (r * 16) rk))
  round_key-AreBytes r = take-AreBytes 16 (drop (r * 16) rk) (drop-AreBytes (r * 16) rk bytes)

  add_rk-IsBlock16 : (s : List ℕ) (r : ℕ) → IsBlock16 s → IsBlock16 (add_rk s rk r)
  unfolding add_rk
  add_rk-IsBlock16 s r h =
      (length-xor_into s _ ∙ h.0, xor_into-AreBytes s _ h.1 (round_key-AreBytes r))

  add_rk_cancel : (s : List ℕ) (r : ℕ) → AreBytes s → add_rk (add_rk s rk r) rk r ≡ s
  unfolding add_rk
  add_rk_cancel s r h = xor_into_cancel s _ h (round_key-AreBytes r)

  -- The state after SubBytes and ShiftRows.
  abbrev shifted : List ℕ → List ℕ
  shifted s = shift_rows (sub_bytes s)

  shifted-IsBlock16 : (s : List ℕ) → IsBlock16 (shifted s)
  shifted-IsBlock16 s = shift_rows-IsBlock16 (sub_bytes s) (sub_bytes-IsBlock s).1

  mixed-IsBlock16 :
      (b : Bool) (t : List ℕ) → IsBlock16 t → IsBlock16 (if b then mix_columns t else t)
  mixed-IsBlock16 true t h = let m = mix_columns-IsBlock t h.1 in (m.0 ∙ h.0, m.1)
  mixed-IsBlock16 false t h = h

  encrypt_round-IsBlock16 : (r : ℕ) (s : List ℕ) → IsBlock16 (encrypt_round rk r s)
  unfolding encrypt_round
  encrypt_round-IsBlock16 r s =
      add_rk-IsBlock16 _ r (mixed-IsBlock16 (not (r == 10)) (shifted s) (shifted-IsBlock16 s))

  encrypt_rounds-IsBlock16 : (n : ℕ) (s : List ℕ) → IsBlock16 s → IsBlock16 (encrypt_rounds rk n s)
  unfolding encrypt_rounds
  encrypt_rounds-IsBlock16 zero s h = h
  encrypt_rounds-IsBlock16 (suc n) s h = encrypt_round-IsBlock16 (suc n) (encrypt_rounds rk n s)

  unshift : (s : List ℕ) → IsBlock16 s → inv_sub_bytes (inv_shift_rows (shifted s)) ≡ s
  unshift s h =
      let b = sub_bytes-IsBlock s in
      ap inv_sub_bytes (inv_shift_rows-shift_rows (sub_bytes s) (b.0 ∙ h.0))
      ∙ inv_sub_bytes-sub_bytes s h.1

  -- A round before the last, and the decryption round with its key.
  middle :
      (r : ℕ) (s : List ℕ)
      → r < 9
      → IsBlock16 s
      → decrypt_round rk (suc r) (shifted (encrypt_round rk (suc r) s)) ≡ shifted s
  unfolding decrypt_round encrypt_round
  middle r s h v =
      let t = shifted s in
      let p : not (suc r == 10) ≡ true = ground arith in
      let mixed = mixed-IsBlock16 true t (shifted-IsBlock16 s) in
      let undo : inv_sub_bytes (inv_shift_rows (shifted (encrypt_round rk (suc r) s)))
          ≡ add_rk (mix_columns t) rk (suc r) =
        unshift (encrypt_round rk (suc r) s) (encrypt_round-IsBlock16 (suc r) s)
        ∙ ap (λ b. add_rk (if b then mix_columns t else t) rk (suc r)) p in
      let q : not (suc r == 0) ≡ true = ground arith in
      let input : List ℕ =
        add_rk (inv_sub_bytes (inv_shift_rows (shifted (encrypt_round rk (suc r) s)))) rk (suc r) in
      ap (λ b. if b then inv_mix_columns input else input) q
      ∙ ap (λ u. inv_mix_columns (add_rk u rk (suc r))) undo
      ∙ ap inv_mix_columns (add_rk_cancel (mix_columns t) (suc r) mixed.1)
      ∙ inv_mix_columns-mix_columns t (shifted-IsBlock16 s).1

  decrypt_rounds-encrypt_rounds :
      (n : ℕ) (s : List ℕ)
      → n < 10
      → IsBlock16 s
      → decrypt_rounds rk (suc n) (shifted (encrypt_rounds rk n s)) ≡ add_rk s rk 0
  unfolding decrypt_rounds encrypt_rounds decrypt_round
  decrypt_rounds-encrypt_rounds zero s h v = ap (λ t. add_rk t rk 0) (unshift s v)
  decrypt_rounds-encrypt_rounds (suc n) s h v =
      ap (decrypt_rounds rk (suc n))
        (middle n (encrypt_rounds rk n s) (omega arith) (encrypt_rounds-IsBlock16 n s v))
      ∙ decrypt_rounds-encrypt_rounds n s (omega arith) v

-- Decryption with a key undoes encryption with it.
pub rtw_aes128_ecb_decrypt-encrypt :
    (key b : List ℕ)
    → AreBytes key
    → length b ≡ 16
    → AreBytes b
    → rtw_aes128_ecb_decrypt key (rtw_aes128_ecb_encrypt key b) ≡ b
unfolding rtw_aes128_ecb_decrypt rtw_aes128_ecb_encrypt
rtw_aes128_ecb_decrypt-encrypt key b k l h =
    let rk = aes128_expand key in
    let bytes = aes128_expand-AreBytes key k in
    let s = add_rk b rk 0 in
    let v = add_rk-IsBlock16 rk bytes b 0 (l, h) in
    let last = shifted rk bytes (encrypt_rounds rk 9 s) in
    ap (decrypt_rounds rk 10)
      (add_rk_cancel rk bytes last 10 (shifted-IsBlock16 rk bytes (encrypt_rounds rk 9 s)).1)
    ∙ decrypt_rounds-encrypt_rounds rk bytes 9 s (omega arith) v
    ∙ add_rk_cancel rk bytes b 0 h

pub rtw_aes128_ecb_encrypt-IsBlock16 :
    (key b : List ℕ)
    → AreBytes key
    → length b ≡ 16
    → AreBytes b
    → IsBlock16 (rtw_aes128_ecb_encrypt key b)
unfolding rtw_aes128_ecb_encrypt
rtw_aes128_ecb_encrypt-IsBlock16 key b k l h =
    let rk = aes128_expand key in
    let bytes = aes128_expand-AreBytes key k in
    encrypt_rounds-IsBlock16 rk bytes 10 (add_rk b rk 0) (add_rk-IsBlock16 rk bytes b 0 (l, h))
