-- ===== src/Scan/Nets.antt =====
-- The scan list of core/scan.c: `struct net_entry`, g_nets with g_nnets, and add_net.
use rtl8821ce_mac_os.Base.{ℕ, ◌+◌}
use rtl8821ce_mac_os.Base.{Bool, true, false, ◌&&◌, not, if◌then◌else◌, leb, ◌==◌}
use rtl8821ce_mac_os.Base.{Option, none, some, List, [], ◌∷◌, ◌++◌, length, take}
use rtl8821ce_mac_os.Base.Bytes.{eq_bytes}

pub record Net : Type 0 where
  pub bssid : List ℕ
  pub ssid : List ℕ
  pub channel : ℕ
  pub beacons : ℕ
  pub hidden : Bool
  pub privacy : ℕ

-- No byte is 0.
unfoldable pub no_zero : List ℕ → Bool
no_zero [] = true
no_zero (x ∷ xs) = not (x == 0) && no_zero xs

-- "<hidden>".
abbrev pub hidden_name : List ℕ
hidden_name = 60 ∷ 104 ∷ 105 ∷ 100 ∷ 100 ∷ 101 ∷ 110 ∷ 62 ∷ []

abbrev pub max_nets : ℕ
max_nets = 128

-- Whether a name of 1 to 32 bytes has no 0 in it.
abbrev pub is_printable : List ℕ → Bool
is_printable [] = false
is_printable (x ∷ xs) = no_zero (x ∷ xs)

unfoldable pub new_net : List ℕ → List ℕ → ℕ → ℕ → Net
unfolding no_zero
new_net bssid ssid channel privacy =
    let printable = is_printable (take 32 ssid) in
    record {
      bssid = bssid;
      ssid = if printable then take 32 ssid else hidden_name;
      channel = channel;
      beacons = 1;
      hidden = not printable;
      privacy = privacy;
    }

abbrev pub onto : Net → Option (List Net) → Option (List Net)
onto n none = none
onto n (some ns) = some (n ∷ ns)

-- The loop over the known networks: the first one with the BSSID counts one more beacon.
unfoldable pub count_beacon : List ℕ → List Net → Option (List Net)
unfolding eq_bytes
count_beacon bssid [] = none
count_beacon bssid (n ∷ ns) =
    let rest = count_beacon bssid ns in
    if eq_bytes n.bssid bssid then some (record n { beacons = n.beacons + 1 } ∷ ns) else onto n rest

abbrev pub append_net : List Net → Net → Option (List Net) → List Net
append_net ns n (some counted) = counted
append_net ns n none = if leb max_nets (length ns) then ns else ns ++ (n ∷ [])

unfoldable pub add_net : List Net → List ℕ → List ℕ → ℕ → ℕ → List Net
unfolding count_beacon new_net
add_net ns bssid ssid channel privacy =
    append_net ns (new_net bssid ssid channel privacy) (count_beacon bssid ns)
