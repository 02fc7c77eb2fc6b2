-- ===== src/Kctl/Ops.antt =====
-- The other entry points of server/kctl.c. Reads that only a printed line uses are left out.
use rtl8821ce_mac_os.Base.{ℕ, ◌*◌, ◌%◌, ◌^◌, min}
use rtl8821ce_mac_os.Base.{
  Bool, true, false, if◌then◌else◌, ◌==◌, ◌&&◌, not, leb, ltb, bit_and, bit_or,
}
use rtl8821ce_mac_os.Base.{List, [], ◌∷◌, ◌++◌, take, replicate}
use rtl8821ce_mac_os.Scan.Nets.{Net}
use Prim.{Unit, tt}
use rtl8821ce_mac_os.Kctl.{
  Control, K, ◌>>=◌, ◌>>◌, pure, call, ask, modify, control_of, chans, quiesce, mmio_read8,
  mmio_read16,
}
use rtl8821ce_mac_os.Kctl.{
  stop_data, free_trx, power_on_mac, init_trx, load_firmware, init_mac, read_efuse, set_phy,
  greet_firmware, grant_antenna, set_mac_power, scan_channels, send_mgmt, sleep_us,
}

-- RTW_SCAN_MAX and scan_marshal of core/scan.c: the entries written to the result.
abbrev pub rtw_scan_max : ℕ
rtw_scan_max = 64

unfoldable pub scan_marshal : List Net → List Net
scan_marshal nets = take rtw_scan_max nets

-- `if (n < 0) n = 0`
abbrev pub not_negative : ℕ → ℕ
not_negative n = if leb (2 ^ 31) n then 0 else n

-- All stages one after the other, as scan and scan BEGIN run them.
unfoldable pub run_stages : K (Unit {0})
run_stages =
    call power_on_mac
    >> call (set_mac_power true)
    >> call init_trx
    >> call load_firmware
    >> call init_mac
    >> call read_efuse
    >> call set_phy
    >> call greet_firmware
    >> call grant_antenna
    >> pure tt

-- The network count, and the networks.
unfoldable pub rtw_kctl_scan : K (ℕ × List Net)
unfolding quiesce run_stages scan_marshal
rtw_kctl_scan = quiesce >> run_stages >> call (scan_channels chans 300) >>= λ n.
    ask (λ w l. w.nets l) >>= λ nets. call free_trx >> pure (not_negative n, scan_marshal nets)

-- struct rtw_scan_chans.
pub record ScanChans : Type 0 where
  pub flags : ℕ
  pub count : ℕ
  pub ch : List ℕ

abbrev pub has : ℕ → ℕ → Bool
has flags f = not (bit_and flags f == 0)

abbrev pub set_scan_active : Bool → Control → Control
set_scan_active b c = record c { g_scan_active = b }

unfoldable pub scan_begin : Bool → K (Unit {0})
unfolding quiesce run_stages
scan_begin begin w s =
    if begin then (quiesce >> run_stages >> modify (set_scan_active true)) w s else (tt, s)

-- The middle of a chunk: the networks of its channels.
unfoldable pub scan_some : ScanChans → K (List Net)
unfolding scan_marshal
scan_some input w s =
    if s.control.g_scan_active && not (input.count == 0)
    then (call (scan_channels (take (min input.count 40) input.ch) 250)
          >> (ask (λ w l. w.nets l) >>= λ nets. pure (scan_marshal nets)))
        w s
    else ([], s)

unfoldable pub scan_end : Bool → K (Unit {0})
scan_end end w s =
    if end && s.control.g_scan_active
    then (call free_trx >> modify (set_scan_active false)) w s
    else (tt, s)

unfoldable pub rtw_kctl_scan_chunk : ScanChans → K (List Net)
unfolding scan_begin scan_some scan_end
rtw_kctl_scan_chunk input = scan_begin (has input.flags 1) >> scan_some input >>= λ nets.
    scan_end (has input.flags 2) >> pure nets

-- The deauthentication frame, reason 3.
unfoldable pub deauth : Control → List ℕ
deauth c =
    (0xc0 ∷ 0x00 ∷ 0 ∷ 0 ∷ [])
    ++ (c.g_cur_bssid ++ (c.g_cur_mac ++ (c.g_cur_bssid ++ (0 ∷ 0 ∷ 3 ∷ 0 ∷ []))))

unfoldable pub say_goodbye : K (Unit {0})
unfolding deauth
say_goodbye w s =
    let c = s.control in
    if c.g_cur_connected && w.mapped
    then (call (send_mgmt (deauth c) (if ltb 14 c.g_cur_channel then 0x04 else 0x00))
          >> call (sleep_us 20000)
          >> pure tt)
        w s
    else (tt, s)

abbrev pub disconnected : Control → Control
disconnected c = record c { g_cur_connected = false; g_cur_ssid = [] }

unfoldable pub rtw_kctl_disconnect : K (Unit {0})
unfolding say_goodbye
rtw_kctl_disconnect = say_goodbye >> call stop_data >> call free_trx >> modify disconnected

-- The statics as the program starts with them, which rtw_kctl_unload_reset brings back.
abbrev pub reset : Control
reset = record {
  g_cur_connected = false;
  g_cur_ssid = [];
  g_cur_bssid = replicate 6 0;
  g_cur_mac = replicate 6 0;
  g_cur_channel = 0;
  g_scan_active = false;
}

unfoldable pub rtw_kctl_unload_reset : K (Unit {0})
rtw_kctl_unload_reset = modify (λ c. reset)

-- struct rtw_status_result.
pub record Status : Type 0 where
  pub connected : Bool
  pub mac : List ℕ
  pub bssid : List ℕ
  pub channel : ℕ
  pub ssid : List ℕ

unfoldable pub status_of_control : Control → Status
status_of_control c =
    if c.g_cur_connected
    then record {
      connected = true;
      mac = c.g_cur_mac;
      bssid = c.g_cur_bssid;
      channel = c.g_cur_channel;
      ssid = take 32 c.g_cur_ssid;
    }
    else record {
      connected = false;
      mac = replicate 6 0;
      bssid = replicate 6 0;
      channel = 0;
      ssid = [];
    }

unfoldable pub rtw_kctl_status : K Status
unfolding status_of_control
rtw_kctl_status = control_of >>= λ c. pure (status_of_control c)

-- REG_CR and REG_MCUFW_CTRL.
abbrev pub reg_cr : ℕ
reg_cr = 0x100

abbrev pub reg_mcufw_ctrl : ℕ
reg_mcufw_ctrl = 0x80

-- The power-on command: the return code, REG_CR and the flag as one word. `flag` is
-- RTW_FLAG_POWERON of `d` after the call.
unfoldable pub rtw_kctl_poweron : Bool → K ℕ
rtw_kctl_poweron flag = call power_on_mac >>= λ ret. mmio_read8 reg_cr >>= λ cr.
    pure (bit_or (bit_or (ret % 2 ^ 8 * 2 ^ 16) (cr * 2 ^ 8)) (if flag then 1 else 0))

-- The bring-up command without a connection: whether it worked, and the register.
unfoldable pub rtw_kctl_bringup : K (Bool × ℕ)
rtw_kctl_bringup = call power_on_mac >>= λ pr. call (set_mac_power true) >> call init_trx >>= λ tr.
    call load_firmware >>= λ fr. mmio_read16 reg_mcufw_ctrl >>= λ mcufw. call init_mac >>= λ mr.
    call read_efuse >>= λ er. call set_phy >>= λ pe.
    call free_trx
    >> pure (
      pr == 0
          && tr == 0
          && fr == 0
          && mr == 0
          && er == 0
          && pe == 0
          && not (bit_and mcufw 0xc000 == 0),
      mcufw,
    )
