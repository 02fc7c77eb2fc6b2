-- ===== src/Kctl/Calls.antt =====
-- What the calls of server/kctl.c do to the data path and to the DMA rings, as the log shows it,
-- and the calls that are dangerous in the wrong state.
use rtl8821ce_mac_os.Base.{ℕ, ◌≡◌}
use rtl8821ce_mac_os.Base.{Bool, true, false, if◌then◌else◌, ◌==◌, ◌||◌, not, Option, none, some}
use rtl8821ce_mac_os.Base.{List, [], ◌∷◌}
use Prim.{Unit}
use rtl8821ce_mac_os.Kctl.{Call, did, Log, World, Server}
use rtl8821ce_mac_os.Kctl.{
  stop_data, free_trx, power_on_mac, init_trx, load_firmware, init_mac, read_efuse, set_phy,
  join_network, start_data_path, send_mgmt, greet_firmware, scan_channels,
}

-- The two ends of the link that the data path serves.
pub record Link : Type 0 where
  pub mac : List ℕ
  pub bssid : List ℕ

abbrev pub link_after : Call → ℕ → Option Link → Option Link
link_after (start_data_path cfg) r old =
    if r == 0 then some (record { mac = cfg.mac; bssid = cfg.bssid }) else old
link_after stop_data r old = none
link_after c r old = old

abbrev pub armed_after : Call → ℕ → Bool → Bool
armed_after init_trx r old = r == 0
armed_after free_trx r old = false
armed_after c r old = old

-- The link of the data path that runs after the calls.
abbrev pub link : Log → Option Link
link [] = none
link (did c r ∷ t) = link_after c r (link t)

-- Whether trx_init has returned 0 since DMA was halted: the rings are there and the card has them.
abbrev pub armed : Log → Bool
armed [] = false
armed (did c r ∷ t) = armed_after c r (armed t)

-- What must hold before a call: the power-on sequence resets the MAC, so it needs the data path
-- down and DMA halted; what sends through the rings needs them, be it a frame, a firmware packet,
-- the probe requests of a scan or a join; a second data path would share the rings of the first.
abbrev pub IsAllowed : Call → Log → Type 0
IsAllowed power_on_mac t = (link t ≡ none) × (armed t ≡ false)
IsAllowed (start_data_path cfg) t = (link t ≡ none) × (armed t ≡ true)
IsAllowed (send_mgmt frame rate) t = armed t ≡ true
IsAllowed load_firmware t = armed t ≡ true
IsAllowed greet_firmware t = armed t ≡ true
IsAllowed (scan_channels channels dwell) t = armed t ≡ true
IsAllowed (join_network bssid ssid channel pass) t = armed t ≡ true
IsAllowed c t = Unit {0}

abbrev pub IsSafe : Log → Type 0
IsSafe [] = Unit {0}
IsSafe (did c r ∷ t) = IsAllowed c t × IsSafe t

-- Whether a stage of a bring-up has failed since the data path was last stopped.
abbrev pub failed_after : Call → ℕ → Bool → Bool
failed_after stop_data r old = false
failed_after power_on_mac r old = old || not (r == 0)
failed_after init_trx r old = old || not (r == 0)
failed_after load_firmware r old = old || not (r == 0)
failed_after init_mac r old = old || not (r == 0)
failed_after read_efuse r old = old || not (r == 0)
failed_after set_phy r old = old || not (r == 0)
failed_after c r old = old

abbrev pub failed : Log → Bool
failed [] = false
failed (did c r ∷ t) = failed_after c r (failed t)

-- trx_init finds the memory that it needs.
abbrev pub HasMemory : World → Type 0
HasMemory w = (l : Log) → w.ret init_trx l == 0 ≡ true

-- No data path, no connection and no scan.
pub record Quiet (s : Server) : Type 0 where
  pub safe : IsSafe s.log
  pub no_link : link s.log ≡ none
  pub not_connected : s.control.g_cur_connected ≡ false
  pub not_scanning : s.control.g_scan_active ≡ false

-- A call that a stage of the bring-up makes.
pub record IsStage (c : Call) : Type 0 where
  pub keeps_link : (r : ℕ) (t : Log) → link (did c r ∷ t) ≡ link t
  pub keeps_armed : (r : ℕ) (t : Log) → armed t ≡ true → r == 0 ≡ true → armed (did c r ∷ t) ≡ true
  pub counts : (r : ℕ) (t : Log) → failed (did c r ∷ t) ≡ failed t || not (r == 0)
