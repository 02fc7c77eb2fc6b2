-- ===== src/Wpa/Unwrap/Kek.antt =====
-- The key unwrapping of core/wpa.c over the AES of crypto/rtw_crypto.c.
use rtl8821ce_mac_os.Base.{ℕ, ◌*◌, ◌≤◌, ◌≡◌, some, List, length}
use rtl8821ce_mac_os.Base.Bytes.{AreBytes}
use rtl8821ce_mac_os.Crypto.Aes.{rtw_aes128_ecb_encrypt, rtw_aes128_ecb_decrypt}
use rtl8821ce_mac_os.Crypto.Aes.Inverse.{
  rtw_aes128_ecb_decrypt-encrypt, rtw_aes128_ecb_encrypt-IsBlock16,
}
use rtl8821ce_mac_os.Wpa.Unwrap.{aes_unwrap, aes_wrap}
use rtl8821ce_mac_os.Wpa.Unwrap.Steps.{Inverse}
use rtl8821ce_mac_os.Wpa.Unwrap.Roundtrip.{aes_unwrap-aes_wrap}

aes-Inverse :
    (kek : List ℕ)
    → AreBytes kek
    → Inverse (rtw_aes128_ecb_encrypt kek) (rtw_aes128_ecb_decrypt kek)
aes-Inverse kek k = record {
  dec-enc = λ b l h. rtw_aes128_ecb_decrypt-encrypt kek b k l h;
  length-enc = λ b l h. (rtw_aes128_ecb_encrypt-IsBlock16 kek b k l h).0;
  enc-AreBytes = λ b l h. (rtw_aes128_ecb_encrypt-IsBlock16 kek b k l h).1;
}

-- Under every KEK, `aes_unwrap` over rtw_aes128_ecb_decrypt gives back every key of one or more
-- 8-byte blocks that the access point wraps by RFC 3394 with rtw_aes128_ecb_encrypt.
pub aes_unwrap-aes_wrap_kek :
    (kek plain : List ℕ) (n : ℕ)
    → AreBytes kek
    → 1 ≤ n
    → length plain ≡ 8 * n
    → AreBytes plain
    → aes_unwrap (rtw_aes128_ecb_decrypt kek) (aes_wrap (rtw_aes128_ecb_encrypt kek) plain)
      ≡ some plain
aes_unwrap-aes_wrap_kek kek plain n k one h bytes =
    aes_unwrap-aes_wrap (rtw_aes128_ecb_encrypt kek) (rtw_aes128_ecb_decrypt kek) plain n
      (aes-Inverse kek k) one h bytes
