-- ===== src/Tests/Wifi.antt =====
-- The handshake at concrete frames, over a MAC and a cipher that are easy to compute.
use rtl8821ce_mac_os.Base.{ℕ, ◌+◌, ◌/◌, ◌≤◌, ◌<◌, ◌≡◌, ◌≢◌, refl, arith, bit_and, length}
use rtl8821ce_mac_os.Base.{true, false, none, some}
use rtl8821ce_mac_os.Base.{List, [], ◌∷◌, ◌++◌, replicate, take, copy_out}
use Prim.{tt}
use rtl8821ce_mac_os.Crypto.Hmac.{hmac_sha1}
use rtl8821ce_mac_os.Wpa.Unwrap.{
  aes_unwrap, aes_wrap, check_iv, is_default_iv, unwrap_rounds, load, join_blocks, split_blocks,
}
use rtl8821ce_mac_os.Wpa.Unwrap.Steps.{Inverse}
use rtl8821ce_mac_os.Wpa.Unwrap.Roundtrip.{aes_unwrap-aes_wrap}
use rtl8821ce_mac_os.Wpa.Kde.{parse_gtk_kde, walk_kdes, is_gtk_kde}
use rtl8821ce_mac_os.Wpa.Ptk.{
  strlen, prf_input, prf_loop, in_order, memcmp_lt, derive_ptk, prf, prf_stream, prf-prf_stream,
}
use rtl8821ce_mac_os.Wpa.Eapol.{build_eapol_key, ct_memcmp, eapol_mic, mic_ok}
use rtl8821ce_mac_os.Wpa.Eapol.Mic.{IsMac, mic_ok-build_eapol_key}
use rtl8821ce_mac_os.Wpa.Gtk.{get_be16, received_gtk, key_data_gtk, extract_gtk}
use rtl8821ce_mac_os.Wpa.Handshake.{
  Frame, Keys, complete, Join, session, send, m2_frame, replay_of, key_info_of, with_gtk, m4_window,
  m4_frame, accept_m3, m3_loop, wpa_handshake,
}
use rtl8821ce_mac_os.Wpa.Handshake.Safe.{
  Vouches, Any, wpa_handshake-Vouches, wpa_handshake-IsInstallable, wpa_handshake-accept_m3,
}

abbrev same : List ℕ → List ℕ
same b = b

-- A GTK element: index 2 and the key 1, 1, ..., 1.
abbrev key_data : List ℕ
key_data = (0xdd ∷ 22 ∷ 0x00 ∷ 0x0f ∷ 0xac ∷ 0x01 ∷ 0x02 ∷ 0x00 ∷ []) ++ replicate 16 1

identity : Inverse same same
identity = record { dec-enc = λ b h a. refl; length-enc = λ b h a. h; enc-AreBytes = λ b h a. a }

aes_unwrap-aes_wrap_example : aes_unwrap same (aes_wrap same key_data) ≡ some key_data
aes_unwrap-aes_wrap_example =
    aes_unwrap-aes_wrap same same key_data 3 identity (omega arith) refl (omega arith)

abbrev toy_mac : List ℕ → List ℕ → List ℕ
toy_mac key text = replicate 20 7

toy_mac-IsMac : IsMac toy_mac
toy_mac-IsMac = record { width = λ k m. refl; bytes = λ k m. omega arith }

mic_ok-build_eapol_key_example :
    mic_ok toy_mac [] (build_eapol_key toy_mac 0x010a (replicate 8 0) none [] true) ≡ true
mic_ok-build_eapol_key_example =
    mic_ok-build_eapol_key toy_mac 0x010a (replicate 8 0) none [] true toy_mac-IsMac refl refl

prf-prf_stream_example :
    (prf hmac_sha1 (1 ∷ []) (2 ∷ []) (3 ∷ []) 48
      ≡ take 48 (prf_stream (hmac_sha1 (1 ∷ [])) (2 ∷ []) (3 ∷ []) ((48 + 19) / 20) 0))
    × (length (prf_input (2 ∷ []) (3 ∷ []) 2) ≤ 128)
prf-prf_stream_example = prf-prf_stream (1 ∷ []) (2 ∷ []) (3 ∷ []) 48 2 (refl, tt) (omega arith)

abbrev got : List ℕ
got = 1 ∷ 2 ∷ []

abbrev want : List ℕ
want = 1 ∷ 3 ∷ []

abbrev m1 : Frame
m1 = replicate 99 0

-- A third message with the MIC of `toy_mac` and the wrapped key data.
abbrev m3 : Frame
m3 =
    replicate 5 0
    ++ ((0x13 ∷ 0xca ∷ [])
        ++ (replicate 74 0
            ++ (replicate 16 7
                ++ ((0 ∷ 32 ∷ [])
                    ++ ((0xa6 ∷ 0xa6 ∷ 0xa6 ∷ 0xa6 ∷ 0xa6 ∷ 0xa6 ∷ 0xa6 ∷ 0xb5 ∷ [])
                        ++ key_data)))))

-- The same without a MIC that verifies.
abbrev forged : Frame
forged = replicate 5 0 ++ ((0x13 ∷ 0xca ∷ []) ++ replicate 92 0)

abbrev join : Join
join = record {
  hmac = toy_mac;
  pbkdf2 = λ pass ssid. replicate 32 5;
  dec = λ kek. same;
  bssid = replicate 6 1;
  sa = replicate 6 2;
  ssid = 65 ∷ [];
  pass = replicate 8 66;
  snonce = replicate 32 3;
}

abbrev keys : Keys
keys = record { tk = replicate 16 7; gtk = replicate 16 1; keyidx = 2 }

completes : (wpa_handshake join (some m1 ∷ some m3 ∷ [])).rc ≡ complete keys
unfolding wpa_handshake session m3_loop m2_frame accept_m3 with_gtk m4_window m4_frame mic_ok
    ct_memcmp eapol_mic extract_gtk key_data_gtk received_gtk get_be16 aes_unwrap parse_gtk_kde
    walk_kdes derive_ptk prf prf_loop in_order memcmp_lt copy_out check_iv is_default_iv strlen
    prf_input unwrap_rounds load join_blocks split_blocks is_gtk_kde
completes = refl

wpa_handshake-Vouches_example : Any (Vouches (session join m1) keys) (some m3 ∷ [])
wpa_handshake-Vouches_example = wpa_handshake-Vouches join m1 (some m3 ∷ []) keys completes

wpa_handshake-IsInstallable_example : (2 < 4) × (16 ≤ 16) × (16 ≤ 32)
wpa_handshake-IsInstallable_example =
    wpa_handshake-IsInstallable join m1 (some m3 ∷ []) keys (omega arith, tt) completes

forged-has_mic : bit_and (key_info_of forged) 0x0100 ≢ 0
unfolding get_be16
forged-has_mic = omega arith

m3-has_mic : bit_and (key_info_of m3) 0x0100 ≢ 0
unfolding get_be16
m3-has_mic = omega arith

forged_fails : mic_ok (session join m1).hmac (session join m1).kck forged ≡ false
unfolding session mic_ok ct_memcmp eapol_mic
forged_fails = refl

m3_verifies : mic_ok (session join m1).hmac (session join m1).kck m3 ≡ true
unfolding session mic_ok ct_memcmp eapol_mic
m3_verifies = refl

wpa_handshake-accept_m3_example :
    wpa_handshake join (some m1 ∷ some forged ∷ some m3 ∷ [])
    ≡ send (m2_frame (session join m1) (replay_of m1)) (accept_m3 (session join m1) m3 [])
wpa_handshake-accept_m3_example =
    wpa_handshake-accept_m3 join m1 m3 (forged ∷ []) [] (omega arith)
      ((forged-has_mic, forged_fails), tt) m3-has_mic m3_verifies
