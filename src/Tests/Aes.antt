-- ===== src/Tests/Aes.antt =====
-- AES at the vector of FIPS 197, and the key wrapping over it.
use rtl8821ce_mac_os.Base.{ℕ, ◌≡◌, refl, arith, some, List, [], ◌∷◌}
use rtl8821ce_mac_os.Base.Bytes.{are_bytes, are_bytes→AreBytes}
use rtl8821ce_mac_os.Crypto.Aes.{rtw_aes128_ecb_encrypt, rtw_aes128_ecb_decrypt}
use rtl8821ce_mac_os.Crypto.Aes.Inverse.{rtw_aes128_ecb_decrypt-encrypt}
use rtl8821ce_mac_os.Wpa.Unwrap.{aes_unwrap, aes_wrap}
use rtl8821ce_mac_os.Wpa.Unwrap.Kek.{aes_unwrap-aes_wrap_kek}

-- The key and the block of FIPS 197, appendix B, and the result that it prints.
abbrev fips_key : List ℕ
fips_key =
    0x2b ∷ 0x7e ∷ 0x15 ∷ 0x16 ∷ 0x28 ∷ 0xae ∷ 0xd2 ∷ 0xa6 ∷ 0xab ∷ 0xf7 ∷ 0x15 ∷ 0x88 ∷ 0x09 ∷ 0xcf
    ∷ 0x4f ∷ 0x3c ∷ []

abbrev fips_input : List ℕ
fips_input =
    0x32 ∷ 0x43 ∷ 0xf6 ∷ 0xa8 ∷ 0x88 ∷ 0x5a ∷ 0x30 ∷ 0x8d ∷ 0x31 ∷ 0x31 ∷ 0x98 ∷ 0xa2 ∷ 0xe0 ∷ 0x37
    ∷ 0x07 ∷ 0x34 ∷ []

abbrev fips_output : List ℕ
fips_output =
    0x39 ∷ 0x25 ∷ 0x84 ∷ 0x1d ∷ 0x02 ∷ 0xdc ∷ 0x09 ∷ 0xfb ∷ 0xdc ∷ 0x11 ∷ 0x85 ∷ 0x97 ∷ 0x19 ∷ 0x6a
    ∷ 0x0b ∷ 0x32 ∷ []

encrypt_vector : rtw_aes128_ecb_encrypt fips_key fips_input ≡ fips_output
unfolding rtw_aes128_ecb_encrypt
encrypt_vector = refl

decrypt_vector : rtw_aes128_ecb_decrypt fips_key fips_output ≡ fips_input
unfolding rtw_aes128_ecb_decrypt
decrypt_vector = refl

rtw_aes128_ecb_decrypt-encrypt_example :
    rtw_aes128_ecb_decrypt fips_key (rtw_aes128_ecb_encrypt fips_key fips_input) ≡ fips_input
unfolding are_bytes
rtw_aes128_ecb_decrypt-encrypt_example =
    rtw_aes128_ecb_decrypt-encrypt fips_key fips_input (are_bytes→AreBytes fips_key refl) refl
      (are_bytes→AreBytes fips_input refl)

aes_unwrap-aes_wrap_kek_example :
    aes_unwrap
      (rtw_aes128_ecb_decrypt fips_key)
      (aes_wrap (rtw_aes128_ecb_encrypt fips_key) fips_input)
    ≡ some fips_input
unfolding are_bytes
aes_unwrap-aes_wrap_kek_example =
    aes_unwrap-aes_wrap_kek fips_key fips_input 2 (are_bytes→AreBytes fips_key refl) (omega arith)
      refl (are_bytes→AreBytes fips_input refl)
