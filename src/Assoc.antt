-- ===== src/Assoc.antt =====
-- core/assoc.c: the frames of the open-system join, the responses, and the join itself.
pub mod Safe
pub mod Walk
use rtl8821ce_mac_os.Base.{ℕ, zero, suc, ◌+◌, ◌-◌, ◌*◌, ◌/◌, ◌%◌, ◌^◌, bit_and}
use rtl8821ce_mac_os.Base.{Bool, true, false, ◌||◌, ◌&&◌, not, if◌then◌else◌, ltb, ◌==◌}
use rtl8821ce_mac_os.Base.{
  Option, none, some, List, [], ◌∷◌, ◌++◌, take, drop, get_or, replicate, length,
}
use rtl8821ce_mac_os.Base.Bytes.{eq_bytes}
use rtl8821ce_mac_os.Scan.Parse.{word0, frame_type, subtype}

unfoldable pub put_hdr : ℕ → List ℕ → List ℕ → List ℕ → List ℕ
put_hdr sub da sa bssid =
    (sub * 2 ^ 4 % 256 ∷ 0 ∷ 0 ∷ 0 ∷ []) ++ (da ++ (sa ++ (bssid ++ (0 ∷ 0 ∷ []))))

unfoldable pub build_auth_req : List ℕ → List ℕ → List ℕ
build_auth_req sa bssid = put_hdr 11 bssid sa bssid ++ (0 ∷ 0 ∷ 1 ∷ 0 ∷ 0 ∷ 0 ∷ [])

abbrev pub rates : Bool → List ℕ
rates true = 8 ∷ 0x8c ∷ 0x12 ∷ 0x98 ∷ 0x24 ∷ 0xb0 ∷ 0x48 ∷ 0x60 ∷ 0x6c ∷ []
rates false = 8 ∷ 0x82 ∷ 0x84 ∷ 0x8b ∷ 0x96 ∷ 0x0c ∷ 0x12 ∷ 0x18 ∷ 0x24 ∷ []

abbrev pub rsn_element : List ℕ
rsn_element =
    48 ∷ 20 ∷ 0x01 ∷ 0x00 ∷ 0x00 ∷ 0x0f ∷ 0xac ∷ 0x04 ∷ 0x01 ∷ 0x00 ∷ 0x00 ∷ 0x0f ∷ 0xac ∷ 0x04
    ∷ 0x01 ∷ 0x00 ∷ 0x00 ∷ 0x0f ∷ 0xac ∷ 0x02 ∷ 0x00 ∷ 0x00 ∷ []

abbrev pub ht_element : List ℕ
ht_element =
    (45 ∷ 26 ∷ 0x20 ∷ 0x08 ∷ 0x1b ∷ 0xff ∷ [])
    ++ (replicate 15 0 ++ (0 ∷ 0 ∷ 0 ∷ 0 ∷ 0 ∷ 0 ∷ 0 ∷ []))

-- RTW_ADVERTISE_VHT.
abbrev pub advertise_vht : Bool
advertise_vht = false

abbrev pub vht_element : Bool → List ℕ
vht_element true =
    191 ∷ 12 ∷ 0x02 ∷ 0x00 ∷ 0x00 ∷ 0x00 ∷ 0xfe ∷ 0xff ∷ 0x00 ∷ 0x00 ∷ 0xfe ∷ 0xff ∷ 0x00 ∷ 0x00
    ∷ []
vht_element false = []

unfoldable pub build_assoc_req : List ℕ → List ℕ → List ℕ → Bool → List ℕ
build_assoc_req sa bssid ssid five_ghz =
    put_hdr 0 bssid sa bssid
    ++ ((0x11 ∷ 0x04 ∷ 0x0a ∷ 0x00 ∷ 0 ∷ length ssid % 256 ∷ [])
        ++ (ssid
            ++ ((1 ∷ rates five_ghz)
                ++ (rsn_element ++ (ht_element ++ vht_element (five_ghz && advertise_vht))))))

-- The body of one received slot, if wait_mgmt_resp takes it as the response; `cap` is *body_len.
unfoldable pub response : List ℕ → ℕ → ℕ → List ℕ → Option (List ℕ)
unfolding eq_bytes
response bssid want cap buf =
    let w0 = word0 buf in
    let pkt_len = bit_and w0 0x3fff in
    let f = drop (24 + bit_and (w0 / 2 ^ 24) 0x3 + bit_and (w0 / 2 ^ 16) 0xf * 8) buf in
    let fc = get_or f 0 0 + get_or f 1 0 * 2 ^ 8 in
    let blen = if ltb cap (pkt_len - 24) then cap else pkt_len - 24 in
    if not (bit_and w0 (2 ^ 14 + 2 ^ 15) == 0) || ltb pkt_len 30 || ltb 2048 pkt_len
    then none
    else if not (frame_type fc == 0 && subtype fc == want && eq_bytes (take 6 (drop 16 f)) bssid)
    then none
    else if ltb blen 6
    then none
    else some (take blen (drop 24 f))

-- wait_mgmt_resp: the first response among the slots that arrive before the time is over.
unfoldable wait_mgmt_resp : List ℕ → ℕ → ℕ → List (Option (List ℕ)) → Option (List ℕ)
wait_mgmt_resp bssid want cap [] = none
wait_mgmt_resp bssid want cap (none ∷ slots) = wait_mgmt_resp bssid want cap slots
wait_mgmt_resp bssid want cap (some buf ∷ slots) =
    let rest = wait_mgmt_resp bssid want cap slots in
    elim (response bssid want cap buf) [ none ↦ rest | some body ↦ some body ]

-- g_session.has_ht and g_session.has_vht.
pub record Caps : Type 0 where
  pub has_ht : Bool
  pub has_vht : Bool

abbrev pub learn : Caps → ℕ → Caps
learn c t =
    if t == 45
    then record c { has_ht = true }
    else if t == 191
    then record c { has_vht = true }
    else c

-- The walk over the elements of the response from offset `i`; as many rounds as bytes are enough.
unfoldable pub walk_caps : ℕ → List ℕ → ℕ → Caps → Caps
walk_caps zero body i c = c
walk_caps (suc rounds) body i c =
    let l = get_or body (i + 1) 0 in
    let rest = walk_caps rounds body (i + 2 + l) (learn c (get_or body i 0)) in
    if ltb (length body) (i + 2) then c else if ltb (length body) (i + 2 + l) then c else rest

abbrev pub granted : List ℕ → Caps
granted body = walk_caps (length body) body 6 (record { has_ht = false; has_vht = false })

-- The return codes 0, -1, -2 and -3.
pub data JoinRc : Type 0 where
  joined : Caps → JoinRc
  no_auth rejected no_assoc : JoinRc

-- The result and the frames handed to trx_tx_mgmt, in order.
pub record Joined : Type 0 where
  pub rc : JoinRc
  pub sent : List (List ℕ)

-- What the calls of wait_mgmt_resp return, one by one; beyond the list they time out.
abbrev pub Answers : Type 0
Answers = List (Option (List ℕ))

abbrev pub first_answer : Answers → Option (List ℕ)
first_answer [] = none
first_answer (a ∷ rest) = a

abbrev pub later_answers : Answers → Answers
later_answers [] = []
later_answers (a ∷ rest) = rest

abbrev pub u16_at : List ℕ → ℕ → ℕ
u16_at body i = get_or body i 0 + get_or body (i + 1) 0 * 2 ^ 8

abbrev pub after_send : List ℕ → Joined → Joined
after_send f r = record r { sent = f ∷ r.sent }

-- The second loop, with `tries` left of 6.
unfoldable pub assoc_loop : ℕ → List ℕ → Answers → Joined
unfolding walk_caps
assoc_loop zero req answers = record { rc = no_assoc; sent = [] }
assoc_loop (suc tries) req answers =
    let again = assoc_loop tries req (later_answers answers) in
    after_send req (elim (first_answer answers) [
      | none ↦ again
      | some body ↦
          if u16_at body 2 == 0
          then record { rc = joined (granted body); sent = [] }
          else record { rc = rejected; sent = [] }
    ])

-- The first loop, with `tries` left of 6.
unfoldable pub auth_loop : ℕ → List ℕ → List ℕ → Answers → Joined
auth_loop zero auth req answers = record { rc = no_auth; sent = [] }
auth_loop (suc tries) auth req answers =
    let again = auth_loop tries auth req (later_answers answers) in
    let go_on = assoc_loop 6 req (later_answers answers) in
    after_send auth (elim (first_answer answers) [
      | none ↦ again
      | some body ↦ if u16_at body 4 == 0 then go_on else record { rc = no_auth; sent = [] }
    ])

unfoldable pub associate : List ℕ → List ℕ → List ℕ → ℕ → Answers → Joined
associate sa bssid ssid channel answers =
    auth_loop 6 (build_auth_req sa bssid) (build_assoc_req sa bssid ssid (ltb 14 channel)) answers
