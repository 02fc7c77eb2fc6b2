-- ===== src/Wpa/Handshake.antt =====
-- wpa_handshake of core/wpa.c as a function of what `recv_eapol` returns, call by call: `none` is a
-- timeout, and so is every call beyond the list. The frames handed to trx_tx_data are collected.
pub mod Safe
use rtl8821ce_mac_os.Base.{ℕ, zero, suc, ◌+◌, ◌-◌, bit_and}
use rtl8821ce_mac_os.Base.{
  Bool, true, false, ◌||◌, not, if◌then◌else◌, ltb, ◌==◌, Option, none, some,
}
use rtl8821ce_mac_os.Base.{List, [], ◌∷◌, ◌++◌, take, drop, get_or}
use rtl8821ce_mac_os.Wpa.Ptk.{derive_ptk}
use rtl8821ce_mac_os.Wpa.Eapol.{eapol_hdr, build_eapol_key, mic_ok}
use rtl8821ce_mac_os.Wpa.Gtk.{Gtk, usable, unusable, get_be16, extract_gtk}

abbrev pub Frame : Type 0
Frame = List ℕ

abbrev pub Received : Type 0
Received = List (Option Frame)

-- What is given to `install_keys`.
pub record Keys : Type 0 where
  pub tk : List ℕ
  pub gtk : List ℕ
  pub keyidx : ℕ

-- The result codes 0, -2, -4 and -5; `fault` is a read outside a frame.
pub data Rc : Type 0 where
  complete : Keys → Rc
  no_m1 no_m3 no_gtk fault : Rc

-- The result and the frames sent, in order.
pub record Ran : Type 0 where
  pub rc : Rc
  pub sent : List Frame

-- The session keys and primitives that the loops read.
pub record Session : Type 0 where
  pub hmac : List ℕ → List ℕ → List ℕ
  pub dec : List ℕ → List ℕ → List ℕ
  pub kck : List ℕ
  pub kek : List ℕ
  pub tk : List ℕ
  pub snonce : List ℕ
  pub header : List ℕ

-- recv_eapol: the next result, and what the later calls will return.
abbrev pub recv : Received → Option Frame
recv [] = none
recv (r ∷ rs) = r

abbrev pub later : Received → Received
later [] = []
later (r ∷ rs) = rs

-- The fields that the loops read out of a frame.
abbrev pub key_info_of : Frame → ℕ
key_info_of e = get_be16 (get_or e 5 0) (get_or e 6 0)

abbrev pub replay_of : Frame → List ℕ
replay_of e = take 8 (drop 9 e)

abbrev pub anonce_of : Frame → List ℕ
anonce_of e = take 32 (drop 17 e)

abbrev pub send : Frame → Ran → Ran
send f r = record r { sent = f ∷ r.sent }

module _ (s : Session) where
  unfoldable pub m2_frame : List ℕ → Frame
  m2_frame replay = s.header ++ build_eapol_key s.hmac 0x010a replay (some s.snonce) s.kck true

  unfoldable pub m4_frame : List ℕ → Frame
  m4_frame replay = s.header ++ build_eapol_key s.hmac 0x030a replay none s.kck false

  -- `for (w = 0; w < 3; w++)`: the answers to a retransmitted M3.
  unfoldable pub m4_window : ℕ → Received → List Frame
  m4_window zero rx = []
  m4_window (suc w) rx =
      let rest = m4_window w (later rx) in
      elim (recv rx) [
        | none ↦ []
        | some e ↦
            if bit_and (key_info_of e) 0x0100 == 0 || bit_and (key_info_of e) 0x0008 == 0
            then rest
            else if mic_ok s.hmac s.kck e
            then m4_frame (replay_of e) ∷ rest
            else rest
      ]

  -- What follows the extraction of the GTK: M4 and the window, or the failure.
  unfoldable pub with_gtk : Frame → Received → Gtk → Ran
  with_gtk e rx (usable keyidx gtk) = record {
    rc = complete (record { tk = s.tk; gtk = gtk; keyidx = keyidx });
    sent = m4_frame (replay_of e) ∷ m4_window 3 rx;
  }
  with_gtk e rx unusable = record { rc = no_gtk; sent = [] }
  with_gtk e rx Gtk.fault = record { rc = fault; sent = [] }

  -- An M3 whose MIC is verified.
  unfoldable pub accept_m3 : Frame → Received → Ran
  unfolding with_gtk m4_window m4_frame
  accept_m3 e rx = with_gtk e rx (extract_gtk (s.dec s.kek) e)

  -- `while (!ok && timeouts < 8 && iters < 30)`, with `iters` rounds left of 30.
  unfoldable pub m3_loop : ℕ → ℕ → Frame → Received → Ran
  m3_loop zero timeouts m2 rx = record { rc = no_m3; sent = [] }
  m3_loop (suc iters) timeouts m2 rx =
      let silence = send m2 (m3_loop iters (timeouts + 1) m2 (later rx)) in
      let ignored = m3_loop iters timeouts m2 (later rx) in
      let answer = λ (m : Frame). send m (m3_loop iters timeouts m (later rx)) in
      if ltb timeouts 8
      then elim (recv rx) [
        | none ↦ silence
        | some e ↦
            if bit_and (key_info_of e) 0x0100 == 0
            then answer (m2_frame (replay_of e))
            else if mic_ok s.hmac s.kck e
            then accept_m3 e (later rx)
            else ignored
      ]
      else record { rc = no_m3; sent = [] }

-- The primitives and the inputs of one handshake: `pbkdf2` is rtw_pbkdf2_sha1 at 4096 iterations
-- and 32 bytes, `dec` rtw_aes128_ecb_decrypt, `snonce` what arc4random_buf gave.
pub record Join : Type 0 where
  pub hmac : List ℕ → List ℕ → List ℕ
  pub pbkdf2 : List ℕ → List ℕ → List ℕ
  pub dec : List ℕ → List ℕ → List ℕ
  pub bssid : List ℕ
  pub sa : List ℕ
  pub ssid : List ℕ
  pub pass : List ℕ
  pub snonce : List ℕ

-- The session once M1 has brought the access point's nonce.
unfoldable pub session : Join → Frame → Session
session j m1 =
    let pmk = j.pbkdf2 j.pass j.ssid in
    let ptk = derive_ptk j.hmac pmk j.bssid j.sa (anonce_of m1) j.snonce in
    record {
      hmac = j.hmac;
      dec = j.dec;
      kck = take 16 ptk;
      kek = take 16 (drop 16 ptk);
      tk = take 16 (drop 32 ptk);
      snonce = j.snonce;
      header = eapol_hdr j.bssid j.sa;
    }

unfoldable pub wpa_handshake : Join → Received → Ran
wpa_handshake j rx = elim (recv rx) [
  | none ↦ record { rc = no_m1; sent = [] }
  | some m1 ↦
      let s = session j m1 in
      let m2 = m2_frame s (replay_of m1) in send m2 (m3_loop s 30 0 m2 (later rx))
]
