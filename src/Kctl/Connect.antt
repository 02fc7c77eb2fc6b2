-- ===== src/Kctl/Connect.antt =====
-- rtw_kctl_connect of server/kctl.c.
use rtl8821ce_mac_os.Base.{ℕ, ◌*◌}
use rtl8821ce_mac_os.Base.{Bool, true, false, if◌then◌else◌, ◌==◌, ◌&&◌, bit_or}
use rtl8821ce_mac_os.Base.{List, take, replicate, Option, none, some}
use rtl8821ce_mac_os.Scan.Nets.{Net}
use rtl8821ce_mac_os.Scan.Target.{find_by_ssid}
use rtl8821ce_mac_os.Kctl.{
  Call, Control, K, ◌>>=◌, ◌>>◌, pure, call, ask, modify, minus_one, cstr, chans, quiesce,
}
use rtl8821ce_mac_os.Kctl.{
  free_trx, power_on_mac, init_trx, load_firmware, init_mac, read_efuse, set_phy, greet_firmware,
  grant_antenna, set_mac_power, scan_channels, join_network, start_data_path, set_link,
}

-- struct rtw_connect_req and struct rtw_connect_result.
pub record ConnectReq : Type 0 where
  pub ssid : List ℕ
  pub pass : List ℕ

pub record ConnectResult : Type 0 where
  pub status : ℕ
  pub mac : List ℕ
  pub channel : ℕ

-- `memset(out, 0, sizeof(*out))`
abbrev pub no_result : ConnectResult
no_result = record { status = 0; mac = replicate 6 0; channel = 0 }

-- `(prev == 0) ? stage(&d) : -1`
unfoldable pub stage : ℕ → Call → K ℕ
stage prev c w s = if prev == 0 then call c w s else (minus_one, s)

-- The bring-up: whether all six stages returned 0.
unfoldable pub bring_up : K Bool
unfolding stage
bring_up = call power_on_mac >>= λ pr. call (set_mac_power true) >> stage pr init_trx >>= λ tr.
    stage tr load_firmware >>= λ fr. stage fr init_mac >>= λ mr. stage mr read_efuse >>= λ er.
    stage er set_phy >>= λ pe. pure (pr == 0 && tr == 0 && fr == 0 && mr == 0 && er == 0 && pe == 0)

-- `trx_free(); return;`
unfoldable pub give_up : K ConnectResult
give_up = call free_trx >> pure no_result

abbrev pub bit_of : Bool → ℕ
bit_of true = 1
bit_of false = 0

-- `1u | associated << 1 | wpa << 2 | data_up << 3`
abbrev pub status_of : Bool → Bool → Bool → ℕ
status_of associated wpa data_up =
    bit_or (bit_or (bit_or 1 (bit_of associated * 2)) (bit_of wpa * 4)) (bit_of data_up * 8)

-- The assignments to the statics once the data path is up; `strncpy` keeps 32 bytes.
abbrev pub publish : List ℕ → Net → List ℕ → Control → Control
publish ssid net mac c = record c {
  g_cur_connected = true;
  g_cur_ssid = take 32 ssid;
  g_cur_bssid = net.bssid;
  g_cur_mac = mac;
  g_cur_channel = net.channel;
}

-- The end of rtw_kctl_connect.
abbrev pub result : Bool → Bool → Bool → List ℕ → Net → ConnectResult
result associated wpa data_up mac net = record {
  status = status_of associated wpa data_up;
  mac = mac;
  channel = net.channel;
}

-- `data_up = (hw_data_start(&cfg) == 0)` and what follows it, with the result.
unfoldable pub data_started : List ℕ → Net → Bool → Bool → List ℕ → ℕ → K ConnectResult
data_started ssid net associated wpa mac r w s =
    if r == 0
    then (call (set_link true)
          >> modify (publish ssid net mac)
          >> pure (result associated wpa true mac net))
        w s
    else (result associated wpa false mac net, s)

unfoldable pub start_data : List ℕ → Net → Bool → Bool → K ConnectResult
unfolding data_started
start_data ssid net associated wpa = ask (λ w l. w.mac l) >>= λ mac.
    ask (λ w l. w.init_rate l) >>= λ rate. ask (λ w l. w.raid l) >>= λ raid.
    call (start_data_path (record { mac = mac; bssid = net.bssid; rate = rate; rate_id = raid }))
    >>= λ r. data_started ssid net associated wpa mac r

unfoldable pub after_associate : List ℕ → Net → Bool → Bool → K ConnectResult
unfolding start_data
after_associate ssid net associated wpa w s =
    if associated && wpa
    then start_data ssid net associated wpa w s
    else (call free_trx >> pure (result associated wpa false (replicate 6 0) net)) w s

unfoldable pub locate : List ℕ → List ℕ → Option Net → K ConnectResult
unfolding give_up after_associate
locate ssid pass none = give_up
locate ssid pass (some net) = call (join_network net.bssid ssid net.channel pass) >>= λ ar.
    ask (λ w l. w.wpa_done l) >>= λ wpa. after_associate ssid net (ar == 0) wpa

unfoldable pub scan_and_join : List ℕ → List ℕ → K ConnectResult
unfolding locate find_by_ssid
scan_and_join ssid pass =
    call greet_firmware
    >> call grant_antenna
    >> call (scan_channels chans 300)
    >> ask (λ w l. w.nets l)
    >>= λ nets. locate ssid pass (find_by_ssid ssid nets)

unfoldable pub after_bring_up : List ℕ → List ℕ → Bool → K ConnectResult
unfolding scan_and_join give_up
after_bring_up ssid pass up w s = if up then scan_and_join ssid pass w s else give_up w s

unfoldable pub rtw_kctl_connect : ConnectReq → K ConnectResult
unfolding quiesce bring_up after_bring_up cstr
rtw_kctl_connect req =
    quiesce >> bring_up >>= after_bring_up (cstr (take 32 req.ssid)) (cstr (take 63 req.pass))
