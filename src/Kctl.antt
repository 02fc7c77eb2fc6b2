-- ===== src/Kctl.antt =====
-- server/kctl.c: the in-kernel control state, the calls that its entry points make, and the parts
-- that the entry points share.
pub mod Ops
pub mod Connect
pub mod Calls
pub mod Safe
pub mod Outcome
pub mod Steps
pub mod Runs
pub mod Promises
use rtl8821ce_mac_os.Base.{ℕ, zero, suc, ◌^◌, ◌-◌, ◌%◌}
use rtl8821ce_mac_os.Base.{Bool, true, false, if◌then◌else◌, ◌==◌, ◌&&◌, not}
use rtl8821ce_mac_os.Base.{List, [], ◌∷◌, take}
use rtl8821ce_mac_os.Scan.Nets.{Net}
use Prim.{Unit, tt}

-- struct rtw_data_cfg, of what connect itself fills in.
pub record DataCfg : Type 0 where
  pub mac : List ℕ
  pub bssid : List ℕ
  pub rate : ℕ
  pub rate_id : ℕ

-- The functions of the other files that kctl.c calls, with the arguments that it chooses.
pub data Call : Type 0 where
  -- hw_data_stop, trx_free, rtw_mac_power_on, trx_init, download_firmware, mac_init, efuse_read,
  -- phy_set_param, fw_handshake, coex_wifi_antenna
  stop_data free_trx power_on_mac init_trx load_firmware init_mac read_efuse : Call
  set_phy greet_firmware grant_antenna : Call
  -- hw_power, hw_set_mac_power, and the volatile reads of hw_read8 and hw_read16
  set_power : Bool → Bool → Call
  set_mac_power : Bool → Call
  get8 get16 : ℕ → Call
  -- scan_networks; associate with BSSID, SSID, channel and password
  scan_channels : List ℕ → ℕ → Call
  join_network : List ℕ → List ℕ → ℕ → List ℕ → Call
  -- hw_data_start, hw_data_link, trx_tx_mgmt and usleep_range
  start_data_path : DataCfg → Call
  set_link : Bool → Call
  send_mgmt : List ℕ → ℕ → Call
  sleep_us : ℕ → Call

-- A call and the `int` that it returned, as 32 bits; 0 for a void function.
pub data Event : Type 0 where
  did : Call → ℕ → Event

-- The calls made so far, the newest first.
abbrev pub Log : Type 0
Log = List Event

-- The rest of the kernel: what a call returns after a history, and what it leaves in the globals
-- and in `d` that kctl.c reads: g_nets, d.efuse.addr, g_wpa_done and g_session. `mapped` is
-- g_kmmio != 0.
pub record World : Type 0 where
  pub ret : Call → Log → ℕ
  pub nets : Log → List Net
  pub mac : Log → List ℕ
  pub wpa_done : Log → Bool
  pub init_rate : Log → ℕ
  pub raid : Log → ℕ
  pub mapped : Bool

-- The statics of kctl.c.
pub record Control : Type 0 where
  pub g_cur_connected : Bool
  pub g_cur_ssid : List ℕ
  pub g_cur_bssid : List ℕ
  pub g_cur_mac : List ℕ
  pub g_cur_channel : ℕ
  pub g_scan_active : Bool

pub record Server : Type 0 where
  pub control : Control
  pub log : Log

-- A piece of an entry point.
abbrev pub K : Type 0 → Type 0
K A = World → Server → A × Server

infixl 5 ◌>>=◌ ◌>>◌
abbrev pub ◌>>=◌ : {A B : Type 0} → K A → (A → K B) → K B
◌>>=◌ m f w s = let r = m w s in f r.0 w r.1

abbrev pub ◌>>◌ : {A B : Type 0} → K A → K B → K B
◌>>◌ m k w s = k w (m w s).1

abbrev pub pure : {A : Type 0} → A → K A
pure a w s = (a, s)

abbrev pub call : Call → K ℕ
call c w s = let r = w.ret c s.log in (r, record { control = s.control; log = did c r ∷ s.log })

abbrev pub ask : {A : Type 0} → (World → Log → A) → K A
ask f w s = (f w s.log, s)

abbrev pub modify : (Control → Control) → K (Unit {0})
modify f w s = (tt, record { control = f s.control; log = s.log })

abbrev pub control_of : K Control
control_of w s = (s.control, s)

-- `-1` as 32 bits.
abbrev pub minus_one : ℕ
minus_one = 2 ^ 32 - 1

-- The string in an array: its bytes before the first 0.
unfoldable pub cstr : List ℕ → List ℕ
cstr [] = []
cstr (x ∷ xs) = let rest = cstr xs in if x == 0 then [] else x ∷ rest

-- Both `chans` of rtw_kctl_scan and rtw_kctl_connect.
abbrev pub chans : List ℕ
chans =
    36 ∷ 40 ∷ 44 ∷ 48 ∷ 52 ∷ 56 ∷ 60 ∷ 64 ∷ 100 ∷ 104 ∷ 108 ∷ 112 ∷ 116 ∷ 120 ∷ 124 ∷ 128 ∷ 132
    ∷ 136 ∷ 140 ∷ 149 ∷ 153 ∷ 157 ∷ 161 ∷ 165 ∷ 1 ∷ 2 ∷ 3 ∷ 4 ∷ 5 ∷ 6 ∷ 7 ∷ 8 ∷ 9 ∷ 10 ∷ 11 ∷ 12
    ∷ 13 ∷ []

-- hw_read8 and hw_read16 of the MMIO shim.
abbrev pub mmio_read8 : ℕ → K ℕ
mmio_read8 off w s = if w.mapped then (call (get8 off) >>= λ v. pure (v % 256)) w s else (0xff, s)

abbrev pub mmio_read16 : ℕ → K ℕ
mmio_read16 off w s =
    if w.mapped then (call (get16 off) >>= λ v. pure (v % 2 ^ 16)) w s else (0xffff, s)

abbrev pub forget_connection : Control → Control
forget_connection c = record c { g_scan_active = false; g_cur_connected = false }

-- `hw_data_stop(); trx_free(); g_scan_active = 0; g_cur_connected = 0; hw_power(1, 1);`, with which
-- scan, scan BEGIN and connect start.
unfoldable pub quiesce : K (Unit {0})
quiesce =
    call stop_data
    >> call free_trx
    >> modify forget_connection
    >> call (set_power true true)
    >> pure tt
