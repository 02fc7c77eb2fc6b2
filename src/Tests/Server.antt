-- ===== src/Tests/Server.antt =====
-- The kernel's entry points against a kernel in which every call succeeds.
use rtl8821ce_mac_os.Base.{◌≡◌, refl, true, false, some, [], ◌∷◌, replicate}
use Prim.{tt}
use rtl8821ce_mac_os.Scan.Nets.{Net}
use rtl8821ce_mac_os.Kctl.{World, Server}
use rtl8821ce_mac_os.Kctl.Connect.{ConnectReq, rtw_kctl_connect}
use rtl8821ce_mac_os.Kctl.Ops.{reset, rtw_kctl_disconnect, rtw_kctl_status, rtw_kctl_scan_chunk}
use rtl8821ce_mac_os.Kctl.Calls.{link, armed}
use rtl8821ce_mac_os.Kctl.Outcome.{Outcome}
use rtl8821ce_mac_os.Kctl.Runs.{Reach, boot, served, connect, bringup, serve}
use rtl8821ce_mac_os.Kctl.Promises.{Left, rtw_kctl_disconnect-Left, rtw_kctl_status-IsTrue}

abbrev home : Net
home = record {
  bssid = replicate 6 1;
  ssid = 104 ∷ 105 ∷ [];
  channel = 6;
  beacons = 1;
  hidden = false;
  privacy = 1;
}

abbrev kernel : World
kernel = record {
  ret = λ c l. 0;
  nets = λ l. home ∷ [];
  mac = λ l. replicate 6 2;
  wpa_done = λ l. true;
  init_rate = λ l. 4;
  raid = λ l. 1;
  mapped = true;
}

abbrev first : Server
first = record { control = reset; log = [] }

abbrev to_home : ConnectReq
to_home = record { ssid = 104 ∷ 105 ∷ replicate 31 0; pass = replicate 64 97 }

abbrev online : Server
online = serve kernel (connect to_home) first

online-Reach : Reach kernel online
online-Reach = served boot (connect to_home) tt

connects : (rtw_kctl_connect to_home kernel first).0.status ≡ 15
unfolding rtw_kctl_connect
connects = refl

-- The state after a bring-up.
abbrev raised : Server
raised = serve kernel bringup first

rtw_kctl_disconnect-Left_example : Left kernel online (rtw_kctl_disconnect kernel online).1
rtw_kctl_disconnect-Left_example = rtw_kctl_disconnect-Left kernel online online-Reach

rtw_kctl_status-IsTrue_example :
    (link online.log
      ≡ some (record {
        mac = (rtw_kctl_status kernel online).0.mac;
        bssid = (rtw_kctl_status kernel online).0.bssid;
      }))
    × (armed online.log ≡ true)
unfolding rtw_kctl_status serve
rtw_kctl_status-IsTrue_example = rtw_kctl_status-IsTrue kernel online online-Reach refl

-- A disconnect between BEGIN and a chunk leaves g_scan_active set, and the chunk scans without
-- rings.
abbrev after_begin : Server
after_begin = (rtw_kctl_scan_chunk (record { flags = 1; count = 0; ch = [] }) kernel first).1

stale_scan :
    (armed (rtw_kctl_disconnect kernel after_begin).1.log ≡ false)
    × ((rtw_kctl_disconnect kernel after_begin).1.control.g_scan_active ≡ true)
unfolding rtw_kctl_disconnect rtw_kctl_scan_chunk
stale_scan = (refl, refl)
