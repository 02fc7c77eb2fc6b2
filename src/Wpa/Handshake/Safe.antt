-- ===== src/Wpa/Handshake/Safe.antt =====
-- What a finished handshake guarantees, and how much it may send.
use rtl8821ce_mac_os.Base.{
  ℕ, zero, suc, ◌+◌, ◌-◌, ◌≤◌, ◌<◌, ◌≡◌, ◌≢◌, ◌⊎◌, inl, inr, refl, sym, ap, subst, ◌∙◌, arith,
  bit_and,
}
use rtl8821ce_mac_os.Base.{true, false, none, some}
use rtl8821ce_mac_os.Base.{List, [], ◌∷◌, length}
use rtl8821ce_mac_os.Wpa.Gtk.{
  Gtk, usable, unusable, extract_gtk, IsInstallable, extract_gtk-IsInstallable,
}
use rtl8821ce_mac_os.Wpa.Eapol.{mic_ok}
use rtl8821ce_mac_os.Wpa.Handshake.{
  Frame, Received, Keys, complete, Session, later, key_info_of, replay_of, send, m2_frame,
  m4_window, with_gtk, accept_m3, m3_loop, Join, session, wpa_handshake,
}

-- A received frame that carries a verified MIC under the session's KCK, and these keys.
pub record Vouches (s : Session) (keys : Keys) (e : Frame) : Type 0 where
  pub has_mic : bit_and (key_info_of e) 0x0100 ≢ 0
  pub verified : mic_ok s.hmac s.kck e ≡ true
  pub carried : extract_gtk (s.dec s.kek) e ≡ usable keys.keyidx keys.gtk
  pub pairwise : keys.tk ≡ s.tk

-- Some received frame has the property.
abbrev pub Any : (Frame → Type 0) → Received → Type 0
Any P [] = ⊥
Any P (none ∷ rx) = Any P rx
Any P (some e ∷ rx) = P e ⊎ Any P rx

Any-later : (P : Frame → Type 0) (rx : Received) → Any P (later rx) → Any P rx
Any-later P [] h = h
Any-later P (none ∷ rx) h = h
Any-later P (some e ∷ rx) h = inr h

with_gtk-complete :
    (s : Session) (e : Frame) (rx : Received) (g : Gtk) (keys : Keys)
    → (with_gtk s e rx g).rc ≡ complete keys
    → (g ≡ usable keys.keyidx keys.gtk) × (keys.tk ≡ s.tk)
unfolding with_gtk
with_gtk-complete s e rx (usable keyidx gtk) keys c = ground arith
with_gtk-complete s e rx unusable keys c = cc
with_gtk-complete s e rx Gtk.fault keys c = cc

accept_m3-Vouches :
    (s : Session) (e : Frame) (rx : Received) (keys : Keys)
    → bit_and (key_info_of e) 0x0100 ≢ 0
    → mic_ok s.hmac s.kck e ≡ true
    → (accept_m3 s e rx).rc ≡ complete keys
    → Vouches s keys e
unfolding accept_m3
accept_m3-Vouches s e rx keys h v c =
    let g = with_gtk-complete s e rx (extract_gtk (s.dec s.kek) e) keys c in
    record { has_mic = h; verified = v; carried = g.0; pairwise = g.1 }

-- Where the loop ends with keys, one of the frames vouched for them.
m3_loop-Any :
    (s : Session) (iters timeouts : ℕ) (m2 : Frame) (rx : Received) (keys : Keys)
    → (m3_loop s iters timeouts m2 rx).rc ≡ complete keys
    → Any (Vouches s keys) rx
unfolding m3_loop
m3_loop-Any s zero timeouts m2 rx keys c = cc
m3_loop-Any s (suc iters) timeouts m2 [] keys c =
    ground (arith, m3_loop-Any s iters (timeouts + 1) m2 [] keys)
m3_loop-Any s (suc iters) timeouts m2 (none ∷ rx) keys c =
    ground (arith, m3_loop-Any s iters (timeouts + 1) m2 rx keys)
m3_loop-Any s (suc iters) timeouts m2 (some e ∷ rx) keys c = ground (
  arith,
  m3_loop-Any s iters timeouts (m2_frame s (replay_of e)) rx keys,
  m3_loop-Any s iters timeouts m2 rx keys,
  accept_m3-Vouches s e rx keys,
)

-- A handshake that completes installs the pairwise key of the session that the first frame
-- opened, and a group key out of a later frame whose MIC was verified under that session's KCK.
pub wpa_handshake-Vouches :
    (j : Join) (m1 : Frame) (rx : Received) (keys : Keys)
    → (wpa_handshake j (some m1 ∷ rx)).rc ≡ complete keys
    → Any (Vouches (session j m1) keys) rx
unfolding wpa_handshake
wpa_handshake-Vouches j m1 rx keys c =
    m3_loop-Any (session j m1) 30 0 (m2_frame (session j m1) (replay_of m1)) rx keys c

-- Every received frame is at least as long as `recv_eapol` lets through.
abbrev pub AllLong : Received → Type 0
AllLong [] = Unit {0}
AllLong (none ∷ rx) = AllLong rx
AllLong (some e ∷ rx) = (99 ≤ length e) × AllLong rx

Any-IsInstallable :
    (s : Session) (keys : Keys) (rx : Received)
    → AllLong rx
    → Any (Vouches s keys) rx
    → IsInstallable (usable keys.keyidx keys.gtk)
Any-IsInstallable s keys [] l a = absurd a
Any-IsInstallable s keys (none ∷ rx) l a = Any-IsInstallable s keys rx l a
Any-IsInstallable s keys (some e ∷ rx) l (inl v) =
    subst IsInstallable v.carried (extract_gtk-IsInstallable (s.dec s.kek) e l.0)
Any-IsInstallable s keys (some e ∷ rx) l (inr a) = Any-IsInstallable s keys rx l.1 a

-- The key index that a completed handshake hands to the hardware is one of the four group entries,
-- and the group key has 16 to 32 bytes, whatever the frames claim.
pub wpa_handshake-IsInstallable :
    (j : Join) (m1 : Frame) (rx : Received) (keys : Keys)
    → AllLong rx
    → (wpa_handshake j (some m1 ∷ rx)).rc ≡ complete keys
    → (keys.keyidx < 4) × (16 ≤ length keys.gtk) × (length keys.gtk ≤ 32)
wpa_handshake-IsInstallable j m1 rx keys l c =
    Any-IsInstallable (session j m1) keys rx l (wpa_handshake-Vouches j m1 rx keys c)

m4_window-length : (s : Session) (w : ℕ) (rx : Received) → length (m4_window s w rx) ≤ w
unfolding m4_window
m4_window-length s zero rx = omega arith
m4_window-length s (suc w) [] = omega arith
m4_window-length s (suc w) (none ∷ rx) = omega arith
m4_window-length s (suc w) (some e ∷ rx) = ground (arith, m4_window-length s w rx)

with_gtk-length :
    (s : Session) (e : Frame) (rx : Received) (g : Gtk) → length (with_gtk s e rx g).sent ≤ 4
unfolding with_gtk
with_gtk-length s e rx (usable keyidx gtk) = omega (arith, m4_window-length s 3 rx)
with_gtk-length s e rx unusable = omega arith
with_gtk-length s e rx Gtk.fault = omega arith

accept_m3-length : (s : Session) (e : Frame) (rx : Received) → length (accept_m3 s e rx).sent ≤ 4
unfolding accept_m3
accept_m3-length s e rx = with_gtk-length s e rx (extract_gtk (s.dec s.kek) e)

m3_loop-length :
    (s : Session) (iters timeouts : ℕ) (m2 : Frame) (rx : Received)
    → length (m3_loop s iters timeouts m2 rx).sent ≤ iters + 3
unfolding m3_loop
m3_loop-length s zero timeouts m2 rx = omega arith
m3_loop-length s (suc iters) timeouts m2 [] =
    ground (arith, m3_loop-length s iters (timeouts + 1) m2 [])
m3_loop-length s (suc iters) timeouts m2 (none ∷ rx) =
    ground (arith, m3_loop-length s iters (timeouts + 1) m2 rx)
m3_loop-length s (suc iters) timeouts m2 (some e ∷ rx) = ground (
  arith,
  m3_loop-length s iters timeouts (m2_frame s (replay_of e)) rx,
  m3_loop-length s iters timeouts m2 rx,
  accept_m3-length s e rx,
)

-- However an access point or an attacker answers, a handshake sends at most 34 frames.
pub length-wpa_handshake : (j : Join) (rx : Received) → length (wpa_handshake j rx).sent ≤ 34
unfolding wpa_handshake
length-wpa_handshake j [] = omega arith
length-wpa_handshake j (none ∷ rx) = omega arith
length-wpa_handshake j (some m1 ∷ rx) =
    omega (arith, m3_loop-length (session j m1) 30 0 (m2_frame (session j m1) (replay_of m1)) rx)

-- A frame that claims a MIC and does not verify.
abbrev pub IsForged : Session → Frame → Type 0
IsForged s e = (bit_and (key_info_of e) 0x0100 ≢ 0) × (mic_ok s.hmac s.kck e ≡ false)

abbrev pub AllForged : Session → List Frame → Type 0
AllForged s [] = Unit {0}
AllForged s (e ∷ es) = IsForged s e × AllForged s es

abbrev pub arrivals : List Frame → Received → Received
arrivals [] rx = rx
arrivals (e ∷ es) rx = some e ∷ arrivals es rx

-- The rounds with which as many are left once these frames were read.
abbrev pub after : List Frame → ℕ → ℕ
after [] iters = iters
after (e ∷ es) iters = suc (after es iters)

after_lem : (es : List Frame) (iters : ℕ) → after es iters ≡ length es + iters
after_lem [] iters = omega arith
after_lem (e ∷ es) iters = omega (arith, after_lem es iters)

m3_loop-forged :
    (s : Session) (es : List Frame) (iters timeouts : ℕ) (m2 : Frame) (rx : Received)
    → timeouts < 8
    → AllForged s es
    → m3_loop s (after es iters) timeouts m2 (arrivals es rx) ≡ m3_loop s iters timeouts m2 rx
unfolding m3_loop
m3_loop-forged s [] iters timeouts m2 rx h f = refl
m3_loop-forged s (e ∷ es) iters timeouts m2 rx h f =
    ground (arith, m3_loop-forged s es iters timeouts m2 rx h f.1, f.0.0, f.0.1)

m3_loop-accept_m3 :
    (s : Session) (iters : ℕ) (m2 m3 : Frame) (rx : Received)
    → bit_and (key_info_of m3) 0x0100 ≢ 0
    → mic_ok s.hmac s.kck m3 ≡ true
    → m3_loop s (suc iters) 0 m2 (some m3 ∷ rx) ≡ accept_m3 s m3 rx
unfolding m3_loop
m3_loop-accept_m3 s iters m2 m3 rx h v = ground (arith, h, v)

-- Fewer than 30 frames with a MIC that does not verify do not keep the handshake from the genuine
-- third message: they are all skipped without an answer, and it is accepted as if it came first.
pub wpa_handshake-accept_m3 :
    (j : Join) (m1 m3 : Frame) (es : List Frame) (rx : Received)
    → length es < 30
    → AllForged (session j m1) es
    → bit_and (key_info_of m3) 0x0100 ≢ 0
    → mic_ok (session j m1).hmac (session j m1).kck m3 ≡ true
    → wpa_handshake j (some m1 ∷ arrivals es (some m3 ∷ rx))
      ≡ send (m2_frame (session j m1) (replay_of m1)) (accept_m3 (session j m1) m3 rx)
unfolding wpa_handshake
wpa_handshake-accept_m3 j m1 m3 es rx l f h v =
    let s = session j m1 in
    let m2 = m2_frame s (replay_of m1) in
    let rest = arrivals es (some m3 ∷ rx) in
    let rounds : after es (suc (29 - length es)) ≡ 30 =
      omega (arith, after_lem es (suc (29 - length es)), l) in
    ap (send m2) (
      sym (ap (λ n. m3_loop s n 0 m2 rest) rounds)
      ∙ m3_loop-forged s es (suc (29 - length es)) 0 m2 (some m3 ∷ rx) (omega arith) f
      ∙ m3_loop-accept_m3 s (29 - length es) m2 m3 rx h v)
