-- ===== src/Wpa/Eapol.antt =====
-- The EAPOL-Key frames of core/wpa.c: eapol_hdr, build_eapol_key, eapol_mic and ct_memcmp16.
-- A frame is the list of its bytes.
pub mod Mic
use rtl8821ce_mac_os.Base.{
  ℕ, zero, suc, ◌+◌, ◌-◌, ◌*◌, ◌/◌, ◌%◌, ◌^◌, ◌≤◌, ◌<◌, ◌≡◌, refl, sym, ap, ap₂, ◌∙◌, arith, bit_or,
  bit_xor,
}
use rtl8821ce_mac_os.Base.{Bool, true, false, if◌then◌else◌, ◌==◌, Option, none, some}
use rtl8821ce_mac_os.Base.{
  List, [], ◌∷◌, ◌++◌, length, take, drop, replicate, length-append, length-take, length-drop,
  length-replicate,
}
use rtl8821ce_mac_os.Base.{take-append, drop-append, take-append-drop}
use rtl8821ce_mac_os.Base.Bits.{u8, u16, u32, ◌>>>◌}

-- put_be16, and get_be16 of two bytes.
abbrev pub put_be16 : ℕ → List ℕ
put_be16 v = u8 (v >>> 8) ∷ v % 256 ∷ []

-- The WPA2-PSK/CCMP information element.
abbrev pub rsn_ie : List ℕ
rsn_ie =
    48 ∷ 20 ∷ 0x01 ∷ 0x00 ∷ 0x00 ∷ 0x0f ∷ 0xac ∷ 0x04 ∷ 0x01 ∷ 0x00 ∷ 0x00 ∷ 0x0f ∷ 0xac ∷ 0x04
    ∷ 0x01 ∷ 0x00 ∷ 0x00 ∷ 0x0f ∷ 0xac ∷ 0x02 ∷ 0x00 ∷ 0x00 ∷ []

-- The 802.11 data header and the LLC SNAP that carry EAPOL to the access point.
unfoldable pub eapol_hdr : List ℕ → List ℕ → List ℕ
eapol_hdr bssid sa =
    (0x08 ∷ 0x01 ∷ 0 ∷ 0 ∷ [])
    ++ (bssid
        ++ (sa ++ (bssid ++ ((0 ∷ 0 ∷ []) ++ (0xaa ∷ 0xaa ∷ 0x03 ∷ 0 ∷ 0 ∷ 0 ∷ 0x88 ∷ 0x8e ∷ [])))))

-- `hmac` is rtw_hmac_sha1. The 16 bytes at 81 are the MIC: zero while it is computed.
unfoldable pub eapol_mic : (List ℕ → List ℕ → List ℕ) → List ℕ → List ℕ → List ℕ
eapol_mic hmac kck eapol = take 16 (hmac kck (take 81 eapol ++ (replicate 16 0 ++ drop 97 eapol)))

-- The frame up to the MIC, and after it.
abbrev pub before_mic : ℕ → List ℕ → List ℕ → ℕ → List ℕ
before_mic key_info replay nonce body_len =
    (0x02 ∷ 0x03 ∷ [])
    ++ (put_be16 body_len
        ++ ((0x02 ∷ [])
            ++ (put_be16 key_info ++ (put_be16 16 ++ (replay ++ (nonce ++ replicate 32 0))))))

abbrev pub after_mic : List ℕ → List ℕ
after_mic key_data = put_be16 (length key_data) ++ key_data

abbrev pub nonce_field : Option (List ℕ) → List ℕ
nonce_field none = replicate 32 0
nonce_field (some s) = s

-- `snonce` is `none` for the NULL of M4.
unfoldable pub build_eapol_key :
    (List ℕ → List ℕ → List ℕ) → ℕ → List ℕ → Option (List ℕ) → List ℕ → Bool → List ℕ
unfolding eapol_mic
build_eapol_key hmac key_info replay snonce kck include_rsn =
    let key_data = if include_rsn then rsn_ie else [] in
    let head = before_mic key_info replay (nonce_field snonce) (u16 (95 + length key_data)) in
    let tail = after_mic key_data in
    head ++ (eapol_mic hmac kck (head ++ (replicate 16 0 ++ tail)) ++ tail)

-- `d |= a[i] ^ b[i]` over the 16 bytes; 0 when they are equal.
unfoldable pub ct_memcmp : List ℕ → List ℕ → ℕ → ℕ
ct_memcmp [] ys d = d
ct_memcmp (x ∷ xs) [] d = d
ct_memcmp (x ∷ xs) (y ∷ ys) d = ct_memcmp xs ys (bit_or d (u8 (bit_xor x y)))

-- The check of a received frame: its MIC field against the MIC of the frame.
unfoldable pub mic_ok : (List ℕ → List ℕ → List ℕ) → List ℕ → List ℕ → Bool
mic_ok hmac kck eapol = ct_memcmp (take 16 (drop 81 eapol)) (eapol_mic hmac kck eapol) 0 == 0
