-- ===== src/Config.antt =====
-- client/config.c: the known networks and the settings of the daemon. Strings are byte lists
-- without their final 0; `strncpy` into a zeroed array of n bytes keeps n - 1 of them.
pub mod Lookup
pub mod Update
use rtl8821ce_mac_os.Base.{ℕ, zero, suc, ◌+◌, ◌-◌, ◌≤◌}
use rtl8821ce_mac_os.Base.{Bool, true, false, ◌||◌, ◌&&◌, not, if◌then◌else◌, leb, ◌==◌}
use rtl8821ce_mac_os.Base.{Option, none, some, List, [], ◌∷◌, ◌++◌, length, take}
use rtl8821ce_mac_os.Base.Bytes.{eq_bytes}

-- struct wifi_network.
pub record Network : Type 0 where
  pub ssid : List ℕ
  pub password : List ℕ

-- struct wifi_config: `nets` are its first n_nets entries.
pub record WifiConfig : Type 0 where
  pub nets : List Network
  pub band : ℕ
  pub mode : ℕ
  pub ip : ℕ
  pub netmask : ℕ
  pub gateway : ℕ
  pub dns : ℕ

-- The result 0 or -1 of a call, and the state after it.
pub record Done (A : Type 0) : Type 0 where
  pub is_ok : Bool
  pub state : A

abbrev pub max_networks : ℕ
max_networks = 16

unfoldable pub network_match : List Network → List ℕ → Option Network
network_match [] ssid = none
network_match (n ∷ ns) ssid =
    let rest = network_match ns ssid in if eq_bytes n.ssid ssid then some n else rest

-- The index of the entry that add_network finds.
abbrev pub next : Option ℕ → Option ℕ
next none = none
next (some i) = some (suc i)

unfoldable pub find_network : List Network → List ℕ → Option ℕ
find_network [] ssid = none
find_network (n ∷ ns) ssid =
    let rest = find_network ns ssid in if eq_bytes n.ssid ssid then some 0 else next rest

-- add_network: the entries after it, and the index of the one that it returns.
pub record Added : Type 0 where
  pub nets : List Network
  pub index : Option ℕ

abbrev pub append_network : List Network → List ℕ → Option ℕ → Added
append_network ns ssid (some i) = record { nets = ns; index = some i }
append_network ns ssid none =
    if leb max_networks (length ns) then record { nets = ns; index = none } else record {
      nets = ns ++ (record { ssid = take 32 ssid; password = [] } ∷ []);
      index = some (length ns);
    }

unfoldable pub add_network : List Network → List ℕ → Added
add_network ns ssid = append_network ns ssid (find_network ns ssid)

-- `nets[i].password`, of an index within the list.
unfoldable pub set_password : List Network → ℕ → List ℕ → List Network
set_password [] i pass = []
set_password (n ∷ ns) zero pass = record n { password = take 63 pass } ∷ ns
set_password (n ∷ ns) (suc i) pass = n ∷ set_password ns i pass

abbrev pub with_password : Added → List ℕ → Done (List Network)
with_password a pass = elim a.index [
  | none ↦ record { is_ok = false; state = a.nets }
  | some i ↦ record { is_ok = true; state = set_password a.nets i pass }
]

-- config_set_network; a missing password is the empty one.
unfoldable pub set_network : List Network → List ℕ → List ℕ → Done (List Network)
set_network ns [] pass = record { is_ok = false; state = ns }
set_network ns (c ∷ ssid) pass = with_password (add_network ns (c ∷ ssid)) pass

-- config_forget_network: the later entries move up by one.
abbrev pub after_kept : Network → Done (List Network) → Done (List Network)
after_kept n d = record { is_ok = d.is_ok; state = n ∷ d.state }

unfoldable pub forget_network : List Network → List ℕ → Done (List Network)
forget_network [] ssid = record { is_ok = false; state = [] }
forget_network (n ∷ ns) ssid =
    let rest = forget_network ns ssid in
    if eq_bytes n.ssid ssid then record { is_ok = true; state = ns } else after_kept n rest

abbrev pub key_ssid : List ℕ
key_ssid = 115 ∷ 115 ∷ 105 ∷ 100 ∷ []

abbrev pub key_network : List ℕ
key_network = 110 ∷ 101 ∷ 116 ∷ 119 ∷ 111 ∷ 114 ∷ 107 ∷ []

abbrev pub key_password : List ℕ
key_password = 112 ∷ 97 ∷ 115 ∷ 115 ∷ 119 ∷ 111 ∷ 114 ∷ 100 ∷ []

abbrev pub key_pass : List ℕ
key_pass = 112 ∷ 97 ∷ 115 ∷ 115 ∷ []

abbrev pub key_band : List ℕ
key_band = 98 ∷ 97 ∷ 110 ∷ 100 ∷ []

abbrev pub key_mode : List ℕ
key_mode = 109 ∷ 111 ∷ 100 ∷ 101 ∷ []

abbrev pub key_ip : List ℕ
key_ip = 105 ∷ 112 ∷ []

abbrev pub key_netmask : List ℕ
key_netmask = 110 ∷ 101 ∷ 116 ∷ 109 ∷ 97 ∷ 115 ∷ 107 ∷ []

abbrev pub key_gateway : List ℕ
key_gateway = 103 ∷ 97 ∷ 116 ∷ 101 ∷ 119 ∷ 97 ∷ 121 ∷ []

abbrev pub key_gw : List ℕ
key_gw = 103 ∷ 119 ∷ []

abbrev pub key_dns : List ℕ
key_dns = 100 ∷ 110 ∷ 115 ∷ []

-- parse_band and parse_mode: "2.4", "2", "2g", "2.4g"; "5", "5g"; "both", "all"; "eth", "ethernet";
-- "scan", "none".
unfoldable pub parse_band : List ℕ → Option ℕ
parse_band v =
    if eq_bytes v (50 ∷ 46 ∷ 52 ∷ [])
      || eq_bytes v (50 ∷ [])
      || eq_bytes v (50 ∷ 103 ∷ [])
      || eq_bytes v (50 ∷ 46 ∷ 52 ∷ 103 ∷ [])
    then some 1
    else if eq_bytes v (53 ∷ []) || eq_bytes v (53 ∷ 103 ∷ [])
    then some 2
    else if eq_bytes v (98 ∷ 111 ∷ 116 ∷ 104 ∷ []) || eq_bytes v (97 ∷ 108 ∷ 108 ∷ [])
    then some 0
    else none

unfoldable pub parse_mode : List ℕ → Option ℕ
parse_mode v =
    if eq_bytes v (101 ∷ 116 ∷ 104 ∷ [])
      || eq_bytes v (101 ∷ 116 ∷ 104 ∷ 101 ∷ 114 ∷ 110 ∷ 101 ∷ 116 ∷ [])
    then some 1
    else if eq_bytes v (115 ∷ 99 ∷ 97 ∷ 110 ∷ []) || eq_bytes v (110 ∷ 111 ∷ 110 ∷ 101 ∷ [])
    then some 0
    else none

abbrev pub accepted : WifiConfig → Done WifiConfig
accepted c = record { is_ok = true; state = c }

abbrev pub refused : WifiConfig → Done WifiConfig
refused c = record { is_ok = false; state = c }

abbrev pub set_band : WifiConfig → Option ℕ → Done WifiConfig
set_band c none = refused c
set_band c (some b) = accepted (record c { band = b })

abbrev pub set_mode : WifiConfig → Option ℕ → Done WifiConfig
set_mode c none = refused c
set_mode c (some m) = accepted (record c { mode = m })

abbrev pub is_some : {A : Type 0} → Option A → Bool
is_some none = false
is_some (some a) = true

-- `network = ssid`.
abbrev pub apply_network : WifiConfig → List ℕ → Done WifiConfig
apply_network c ssid =
    let a = add_network c.nets ssid in
    record { is_ok = is_some a.index; state = record c { nets = a.nets } }

-- `password = pass`, of the last entry.
abbrev pub apply_password : WifiConfig → List ℕ → Done WifiConfig
apply_password c pass =
    if length c.nets == 0
    then refused c
    else accepted (record c { nets = set_password c.nets (length c.nets - 1) pass })

-- apply; `parse_ip` stands on inet_aton, which gives 0 where it fails.
unfoldable pub apply : (List ℕ → ℕ) → WifiConfig → List ℕ → List ℕ → Done WifiConfig
apply parse_ip c key val =
    if eq_bytes key key_ssid || eq_bytes key key_network
    then apply_network c val
    else if eq_bytes key key_password || eq_bytes key key_pass
    then apply_password c val
    else if eq_bytes key key_band
    then set_band c (parse_band val)
    else if eq_bytes key key_mode
    then set_mode c (parse_mode val)
    else if eq_bytes key key_ip
    then accepted (record c { ip = parse_ip val })
    else if eq_bytes key key_netmask
    then accepted (record c { netmask = parse_ip val })
    else if eq_bytes key key_gateway || eq_bytes key key_gw
    then accepted (record c { gateway = parse_ip val })
    else if eq_bytes key key_dns
    then accepted (record c { dns = parse_ip val })
    else refused c
