-- ===== src/Assoc/Safe.antt =====
-- What a join needs to succeed, and the sizes of its frames and buffers.
use rtl8821ce_mac_os.Base.{ℕ, zero, suc, ◌+◌, ◌≤◌, ◌≡◌, refl, arith}
use rtl8821ce_mac_os.Base.{Bool, true, false, ◌&&◌, if◌then◌else◌, ltb, ◌==◌}
use rtl8821ce_mac_os.Base.{none, some, List, [], ◌∷◌, ◌++◌, length, length-append}
use Prim.{Unit, tt}
use rtl8821ce_mac_os.Assoc.{
  put_hdr, build_auth_req, rates, rsn_element, ht_element, vht_element, build_assoc_req, Caps,
  granted, joined, no_auth, rejected, Joined, Answers, u16_at, after_send, assoc_loop, auth_loop,
  associate,
}

-- An answer of the association round that grants the caps.
abbrev pub IsGranted : Caps → Answers → Type 0
IsGranted c [] = ⊥
IsGranted c (none ∷ answers) = IsGranted c answers
IsGranted c (some body ∷ answers) = (u16_at body 2 ≡ 0) × (granted body ≡ c)

-- The first answer that is not a timeout accepts the authentication, and the next one the join.
abbrev pub IsAccepted : Caps → Answers → Type 0
IsAccepted c [] = ⊥
IsAccepted c (none ∷ answers) = IsAccepted c answers
IsAccepted c (some body ∷ answers) = (u16_at body 4 ≡ 0) × IsGranted c answers

assoc_loop-IsGranted :
    (tries : ℕ) (req : List ℕ) (answers : Answers) (c : Caps)
    → (assoc_loop tries req answers).rc ≡ joined c
    → IsGranted c answers
unfolding assoc_loop
assoc_loop-IsGranted zero req answers c h = cc
assoc_loop-IsGranted (suc tries) req [] c h = assoc_loop-IsGranted tries req [] c h
assoc_loop-IsGranted (suc tries) req (none ∷ answers) c h =
    assoc_loop-IsGranted tries req answers c h
assoc_loop-IsGranted (suc tries) req (some body ∷ answers) c h = ground arith

status_lem :
    (status : ℕ) (r : Joined) (c : Caps)
    → (if status == 0 then r else record { rc = no_auth; sent = [] }).rc ≡ joined c
    → (status ≡ 0) × (r.rc ≡ joined c)
status_lem status r c h = ground arith

auth_loop-IsAccepted :
    (tries : ℕ) (auth req : List ℕ) (answers : Answers) (c : Caps)
    → (auth_loop tries auth req answers).rc ≡ joined c
    → IsAccepted c answers
unfolding auth_loop
auth_loop-IsAccepted zero auth req answers c h = cc
auth_loop-IsAccepted (suc tries) auth req [] c h = auth_loop-IsAccepted tries auth req [] c h
auth_loop-IsAccepted (suc tries) auth req (none ∷ answers) c h =
    auth_loop-IsAccepted tries auth req answers c h
auth_loop-IsAccepted (suc tries) auth req (some body ∷ answers) c h =
    let passed = status_lem (u16_at body 4) (assoc_loop 6 req answers) c h in
    (passed.0, assoc_loop-IsGranted 6 req answers c passed.1)

-- A join that succeeds was accepted twice: the first authentication response that arrived has
-- status 0, a later association response has status 0, and the capabilities that are kept are
-- those which that response grants.
pub associate-IsAccepted :
    (sa bssid ssid : List ℕ) (channel : ℕ) (answers : Answers) (c : Caps)
    → (associate sa bssid ssid channel answers).rc ≡ joined c
    → IsAccepted c answers
unfolding associate
associate-IsAccepted sa bssid ssid channel answers c h =
    auth_loop-IsAccepted 6 (build_auth_req sa bssid)
      (build_assoc_req sa bssid ssid (ltb 14 channel)) answers c h

-- Frames that fit the buffer `u8 frame[256]`, and how many were sent.
abbrev pub AllFit : List (List ℕ) → Type 0
AllFit [] = Unit {0}
AllFit (f ∷ fs) = (length f ≤ 256) × AllFit fs

abbrev pub IsShort : ℕ → Joined → Type 0
IsShort k r = AllFit r.sent × (length r.sent ≤ k)

-- One frame more, in front of what either way sends.
either_lem :
    (b : Bool) (k : ℕ) (f : List ℕ) (r q : Joined)
    → length f ≤ 256
    → IsShort k r
    → IsShort k q
    → IsShort (suc k) (after_send f (if b then r else q))
either_lem true k f r q h hr hq = ((h, hr.0), omega arith)
either_lem false k f r q h hr hq = ((h, hq.0), omega arith)

assoc_loop-IsShort :
    (tries : ℕ) (req : List ℕ) (answers : Answers)
    → length req ≤ 256
    → IsShort tries (assoc_loop tries req answers)
unfolding assoc_loop
assoc_loop-IsShort zero req answers h = (tt, omega arith)
assoc_loop-IsShort (suc tries) req [] h =
    let k = assoc_loop-IsShort tries req [] h in ((h, k.0), omega arith)
assoc_loop-IsShort (suc tries) req (none ∷ answers) h =
    let k = assoc_loop-IsShort tries req answers h in ((h, k.0), omega arith)
assoc_loop-IsShort (suc tries) req (some body ∷ answers) h =
    either_lem (u16_at body 2 == 0) tries req (record { rc = joined (granted body); sent = [] })
      (record { rc = rejected; sent = [] }) h (tt, omega arith) (tt, omega arith)

auth_loop-IsShort :
    (tries : ℕ) (auth req : List ℕ) (answers : Answers)
    → length auth ≤ 256
    → length req ≤ 256
    → IsShort (tries + 6) (auth_loop tries auth req answers)
unfolding auth_loop
auth_loop-IsShort zero auth req answers h k = (tt, omega arith)
auth_loop-IsShort (suc tries) auth req [] h k =
    let r = auth_loop-IsShort tries auth req [] h k in ((h, r.0), omega arith)
auth_loop-IsShort (suc tries) auth req (none ∷ answers) h k =
    let r = auth_loop-IsShort tries auth req answers h k in ((h, r.0), omega arith)
auth_loop-IsShort (suc tries) auth req (some body ∷ answers) h k =
    let r = assoc_loop-IsShort 6 req answers k in
    let more =
      either_lem (u16_at body 4 == 0) (tries + 6) auth (assoc_loop 6 req answers)
        (record { rc = no_auth; sent = [] }) h (r.0, omega arith) (tt, omega arith) in
    (more.0, omega (arith, more.1))

length-put_hdr :
    (sub : ℕ) (da sa bssid : List ℕ)
    → length da ≡ 6
    → length sa ≡ 6
    → length bssid ≡ 6
    → length (put_hdr sub da sa bssid) ≡ 24
unfolding put_hdr
length-put_hdr sub da sa bssid hd hs hb = omega (
  arith,
  length-append {0} da (sa ++ (bssid ++ (0 ∷ 0 ∷ []))),
  length-append {0} sa (bssid ++ (0 ∷ 0 ∷ [])),
  length-append {0} bssid (0 ∷ 0 ∷ []),
)

length-build_auth_req :
    (sa bssid : List ℕ) → length sa ≡ 6 → length bssid ≡ 6 → length (build_auth_req sa bssid) ≡ 30
unfolding build_auth_req
length-build_auth_req sa bssid hs hb = omega (
  arith,
  length-append {0} (put_hdr 11 bssid sa bssid) (0 ∷ 0 ∷ 1 ∷ 0 ∷ 0 ∷ 0 ∷ []),
  length-put_hdr 11 bssid sa bssid hb hs hb,
)

length-rates : (five : Bool) → length (rates five) ≡ 9
length-rates true = refl
length-rates false = refl

-- Everything behind the name.
tail_of_req :
    (five : Bool)
    → length ((1 ∷ rates five) ++ (rsn_element ++ (ht_element ++ vht_element (five && false)))) ≡ 60
tail_of_req true = refl
tail_of_req false = refl

length-build_assoc_req :
    (sa bssid ssid : List ℕ) (five : Bool)
    → length sa ≡ 6
    → length bssid ≡ 6
    → length (build_assoc_req sa bssid ssid five) ≡ 90 + length ssid
unfolding build_assoc_req
length-build_assoc_req sa bssid ssid five hs hb = omega (
  arith,
  length-append {0} (put_hdr 0 bssid sa bssid) _,
  length-append {0} ssid _,
  length-put_hdr 0 bssid sa bssid hb hs hb,
  tail_of_req five,
)

-- With a name of at most 32 bytes and 6-byte addresses, a join sends at most 12 frames, whatever is
-- answered, and each of them fits the 256 bytes of its buffer.
pub associate-IsShort :
    (sa bssid ssid : List ℕ) (channel : ℕ) (answers : Answers)
    → length sa ≡ 6
    → length bssid ≡ 6
    → length ssid ≤ 32
    → IsShort 12 (associate sa bssid ssid channel answers)
unfolding associate
associate-IsShort sa bssid ssid channel answers hs hb hn =
    auth_loop-IsShort 6 (build_auth_req sa bssid) (build_assoc_req sa bssid ssid (ltb 14 channel))
      answers (omega (arith, length-build_auth_req sa bssid hs hb))
      (omega (arith, length-build_assoc_req sa bssid ssid (ltb 14 channel) hs hb))
