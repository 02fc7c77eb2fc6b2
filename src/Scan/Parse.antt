-- ===== src/Scan/Parse.antt =====
-- parse_frame, drain and build_probe_req of core/scan.c.
pub mod Inv
use rtl8821ce_mac_os.Base.{ℕ, zero, suc, ◌+◌, ◌*◌, ◌/◌, ◌%◌, ◌^◌, bit_and}
use rtl8821ce_mac_os.Base.{Bool, true, false, ◌||◌, ◌&&◌, not, if◌then◌else◌, ltb, ◌==◌}
use rtl8821ce_mac_os.Base.{Option, none, some, List, [], ◌∷◌, ◌++◌, take, drop, get_or, replicate}
use rtl8821ce_mac_os.Scan.Nets.{Net, add_net}

-- g_nets with g_nnets, and g_probe_resp.
pub record Scan : Type 0 where
  pub nets : List Net
  pub probe_resp : ℕ

abbrev pub rx_pkt_desc_sz : ℕ
rx_pkt_desc_sz = 24

-- The first word of the RX descriptor, little endian.
abbrev pub word0 : List ℕ → ℕ
word0 buf =
    get_or buf 0 0 + get_or buf 1 0 * 2 ^ 8 + get_or buf 2 0 * 2 ^ 16 + get_or buf 3 0 * 2 ^ 24

-- The walk over the elements of a frame of `size` bytes from offset `ie`: the first element with
-- tag 0. Every round moves on by two bytes at least, so `size` rounds are enough.
unfoldable pub find_ssid : ℕ → List ℕ → ℕ → ℕ → Option (List ℕ)
find_ssid zero f size ie = none
find_ssid (suc rounds) f size ie =
    let len = get_or f (ie + 1) 0 in
    let rest = find_ssid rounds f size (ie + 2 + len) in
    if ltb size (ie + 2)
    then none
    else if ltb size (ie + 2 + len)
    then none
    else if get_or f ie 0 == 0
    then some (take len (drop (ie + 2) f))
    else rest

-- `add_net(bssid, NULL, 0, ...)` where no name was found.
abbrev pub name_or_empty : Option (List ℕ) → List ℕ
name_or_empty none = []
name_or_empty (some ssid) = ssid

abbrev pub frame_type : ℕ → ℕ
frame_type fc = bit_and (fc / 2 ^ 2) 0x3

abbrev pub subtype : ℕ → ℕ
subtype fc = bit_and (fc / 2 ^ 4) 0xf

-- A management frame that is a beacon or a probe response.
unfoldable pub add_frame : Scan → List ℕ → ℕ → ℕ → Scan
unfolding find_ssid
add_frame s f size channel =
    let fc = get_or f 0 0 + get_or f 1 0 * 2 ^ 8 in
    let privacy = if bit_and (get_or f 34 0) 0x10 == 0 then 0 else 1 in
    let ssid = name_or_empty (find_ssid size f size 36) in
    if not (frame_type fc == 0)
    then s
    else if not (subtype fc == 8) && not (subtype fc == 5)
    then s
    else record {
      nets = add_net s.nets (take 6 (drop 16 f)) ssid channel privacy;
      probe_resp = if subtype fc == 5 then s.probe_resp + 1 else s.probe_resp;
    }

unfoldable pub parse_frame : Scan → List ℕ → ℕ → Scan
parse_frame s buf channel =
    let w0 = word0 buf in
    let pkt_len = bit_and w0 0x3fff in
    let drv_info = bit_and (w0 / 2 ^ 16) 0xf in
    let shift = bit_and (w0 / 2 ^ 24) 0x3 in
    let f = drop (rx_pkt_desc_sz + shift + drv_info * 8) buf in
    if not (bit_and w0 (2 ^ 14 + 2 ^ 15) == 0)
    then s
    else if ltb pkt_len 36 || ltb 2048 pkt_len
    then s
    else add_frame s f pkt_len channel

-- drain: the frames between the host index and the hardware index, in ring order. A slot
-- without a buffer is passed over.
unfoldable pub drain : Scan → List (Option (List ℕ)) → ℕ → Scan
drain s [] channel = s
drain s (none ∷ slots) channel = drain s slots channel
drain s (some buf ∷ slots) channel = drain (parse_frame s buf channel) slots channel

unfoldable build_probe_req : List ℕ → List ℕ
build_probe_req src_mac =
    (0x40 ∷ 0x00 ∷ 0x00 ∷ 0x00 ∷ [])
    ++ (replicate 6 0xff
        ++ (src_mac
            ++ (replicate 6 0xff
                ++ (0x00 ∷ 0x00 ∷ 0x00 ∷ 0x00 ∷ 0x01 ∷ 0x08 ∷ 0x82 ∷ 0x84 ∷ 0x8b ∷ 0x96 ∷ 0x0c
                    ∷ 0x12 ∷ 0x18 ∷ 0x24 ∷ []))))
