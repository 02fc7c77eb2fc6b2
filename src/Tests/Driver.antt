-- ===== src/Tests/Driver.antt =====
-- The scan list, the join, the known networks, the FIFO and the power-on at concrete inputs.
use rtl8821ce_mac_os.Base.{ℕ, ◌≡◌, ◌≢◌, refl, arith}
use rtl8821ce_mac_os.Base.{Bool, true, false, Option, none, some}
use rtl8821ce_mac_os.Base.{List, [], ◌∷◌, ◌++◌, replicate}
use Prim.{tt}
use rtl8821ce_mac_os.Base.Bytes.{eq_bytes, differ}
use rtl8821ce_mac_os.Hw.{Device}
use rtl8821ce_mac_os.Pwr.Tables.{card_enable_flow_8821c, card_disable_flow_8821c}
use rtl8821ce_mac_os.Pwr.Seq.{pcie, undefine, Chip, pwr_seq_parser}
use rtl8821ce_mac_os.Pwr.Seq.Ends.{IsOkOrBusy, pwr_seq_parser-IsOkOrBusy}
use rtl8821ce_mac_os.Fifo.{ChipInfo, set_trx_fifo_info, IsWhole, set_trx_fifo_info-IsWhole}
use rtl8821ce_mac_os.Scan.Nets.{Net}
use rtl8821ce_mac_os.Scan.Parse.{Scan, drain}
use rtl8821ce_mac_os.Scan.Parse.Inv.{IsWellFormed, drain-IsWellFormed}
use rtl8821ce_mac_os.Scan.Target.{best_target}
use rtl8821ce_mac_os.Scan.Target.Best.{IsFrom, AllReach, best_target-IsFrom}
use rtl8821ce_mac_os.Assoc.{Caps, joined, associate, auth_loop, assoc_loop, walk_caps, granted}
use rtl8821ce_mac_os.Assoc.Walk.{Elements, on_air, has_tag, granted-elements}
use rtl8821ce_mac_os.Assoc.Safe.{IsAccepted, IsShort, associate-IsAccepted, associate-IsShort}
use rtl8821ce_mac_os.Config.{
  Network, WifiConfig, apply, key_network, key_password, set_network, forget_network, network_match,
  add_network, find_network, set_password,
}
use rtl8821ce_mac_os.Config.Lookup.{forget_network-network_match}
use rtl8821ce_mac_os.Config.Update.{IsUpdated, set_network-IsUpdated}

abbrev card : Device
card t width address = 0xff

-- The 8821CE as a PCIe card.
abbrev chip : Chip
chip = record {
  hci = pcie;
  is_8723d = false;
  is_8814a = false;
  has_usb_fix = true;
  is_8051 = false;
  rpwm_addr = 0x03d9;
  sys_func_en = 0xd8;
  pwr_on_seq = card_enable_flow_8821c;
  pwr_off_seq = card_disable_flow_8821c;
  cut_version = 0;
}

pcie-defined : pcie ≢ undefine
pcie-defined e = cc

pwr_seq_parser-IsOkOrBusy_example :
    IsOkOrBusy (pwr_seq_parser chip card_enable_flow_8821c card []).0
    × IsOkOrBusy (pwr_seq_parser chip card_disable_flow_8821c card []).0
pwr_seq_parser-IsOkOrBusy_example = pwr_seq_parser-IsOkOrBusy chip card [] pcie-defined

abbrev chip_info : ChipInfo
chip_info = record { txff_size = 65536; page_size = 128; rsvd_drv_pg_num = 8; csi_buf_pg_num = 50 }

set_trx_fifo_info-IsWhole_example : IsWhole chip_info (set_trx_fifo_info chip_info)
set_trx_fifo_info-IsWhole_example =
    set_trx_fifo_info-IsWhole chip_info (omega arith) (omega arith) (omega arith)

-- A beacon of 42 bytes with the name "net", behind its descriptor.
abbrev beacon : List ℕ
beacon =
    (42 ∷ 0 ∷ 0 ∷ 0 ∷ [])
    ++ (replicate 20 0
        ++ ((0x80 ∷ 0 ∷ []) ++ (replicate 34 1 ++ (0 ∷ 3 ∷ 110 ∷ 101 ∷ 116 ∷ 0 ∷ []))))

abbrev empty_scan : Scan
empty_scan = record { nets = []; probe_resp = 0 }

drain-IsWellFormed_example :
    IsWellFormed (drain empty_scan (some beacon ∷ none ∷ some beacon ∷ []) 6).nets
drain-IsWellFormed_example =
    drain-IsWellFormed empty_scan (some beacon ∷ none ∷ some beacon ∷ []) 6
      (record { few = omega arith; distinct = tt; shown = tt })

abbrev net : ℕ → Net
net beacons = record {
  bssid = replicate 6 beacons;
  ssid = 110 ∷ 101 ∷ 116 ∷ [];
  channel = 6;
  beacons = beacons;
  hidden = false;
  privacy = 1;
}

abbrev any_name : List ℕ → Bool
any_name ssid = true

abbrev heard : List Net
heard = net 2 ∷ net 5 ∷ net 3 ∷ []

best_target-IsFrom_example :
    ((m : Net) → best_target any_name heard ≡ some m → IsFrom any_name heard m)
    × AllReach any_name heard (best_target any_name heard)
best_target-IsFrom_example = best_target-IsFrom any_name heard

-- Authentication accepted; the association accepted with an HT element.
abbrev auth_ok : List ℕ
auth_ok = 0 ∷ 0 ∷ 2 ∷ 0 ∷ 0 ∷ 0 ∷ []

abbrev assoc_ok : List ℕ
assoc_ok = 0x11 ∷ 4 ∷ 0 ∷ 0 ∷ 1 ∷ 0xc0 ∷ 45 ∷ 1 ∷ 0 ∷ []

abbrev answers : List (Option (List ℕ))
answers = none ∷ some auth_ok ∷ some assoc_ok ∷ []

abbrev me : List ℕ
me = replicate 6 2

abbrev caps : Caps
caps = record { has_ht = true; has_vht = false }

joins : (associate me me (65 ∷ []) 36 answers).rc ≡ joined caps
unfolding associate auth_loop assoc_loop walk_caps
joins = refl

associate-IsAccepted_example : IsAccepted caps answers
associate-IsAccepted_example = associate-IsAccepted me me (65 ∷ []) 36 answers caps joins

associate-IsShort_example : IsShort 12 (associate me me (65 ∷ []) 36 answers)
associate-IsShort_example = associate-IsShort me me (65 ∷ []) 36 answers refl refl (omega arith)

abbrev known : List Network
known =
    record { ssid = 65 ∷ []; password = 1 ∷ [] } ∷ record { ssid = 66 ∷ []; password = 2 ∷ [] } ∷ []

abbrev name_a : List ℕ
name_a = 65 ∷ []

abbrev name_b : List ℕ
name_b = 66 ∷ []

b_ne_a : name_b ≢ name_a
unfolding eq_bytes
b_ne_a = differ name_b name_a refl

accepts : (set_network known (66 ∷ []) (9 ∷ [])).is_ok ≡ true
unfolding set_network add_network find_network eq_bytes
accepts = refl

set_network-IsUpdated_example :
    IsUpdated known (66 ∷ []) (9 ∷ []) (set_network known (66 ∷ []) (9 ∷ [])).state
set_network-IsUpdated_example = set_network-IsUpdated known 66 [] (9 ∷ []) (omega arith) accepts

forget_network-network_match_example :
    (network_match (forget_network known (66 ∷ [])).state (66 ∷ []) ≡ none)
    × (network_match (forget_network known (66 ∷ [])).state (65 ∷ [])
        ≡ network_match known (65 ∷ []))
forget_network-network_match_example =
    forget_network-network_match known name_b name_a ((b_ne_a, tt), (tt, tt)) b_ne_a

abbrev settings : List Network → WifiConfig
settings nets = record {
  nets = nets;
  band = 0;
  mode = 1;
  ip = 0;
  netmask = 0;
  gateway = 0;
  dns = 0;
}

abbrev no_ip : List ℕ → ℕ
no_ip v = 0

-- `network = A` of a known network, then `password = 9`: the last network gets the password.
password_line :
    (apply no_ip
      (apply no_ip (settings known) key_network name_a).state
      key_password
      (9 ∷ [])).state.nets
    ≡ record { ssid = name_a; password = 1 ∷ [] } ∷ record { ssid = name_b; password = 9 ∷ [] } ∷ []
unfolding apply add_network find_network eq_bytes set_password
password_line = refl

-- An SSID, then an HT and a VHT element, and a byte that is no element.
abbrev elements : Elements
elements = (0, 104 ∷ 105 ∷ []) ∷ (45, 0 ∷ []) ∷ (191, []) ∷ []

granted-elements_example :
    ((granted (replicate 6 0 ++ on_air elements (7 ∷ []))).has_ht ≡ has_tag 45 elements)
    × ((granted (replicate 6 0 ++ on_air elements (7 ∷ []))).has_vht ≡ has_tag 191 elements)
granted-elements_example = granted-elements (replicate 6 0) elements (7 ∷ []) refl tt
