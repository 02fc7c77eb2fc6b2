-- ===== src/Kctl/Runs.antt =====
-- Every sequence of requests to server/kctl.c.
use rtl8821ce_mac_os.Base.{◌≡◌, refl}
use rtl8821ce_mac_os.Base.{Bool, true, false, none}
use rtl8821ce_mac_os.Base.{[], take}
use Prim.{Unit, tt}
use rtl8821ce_mac_os.Kctl.{World, Server, cstr}
use rtl8821ce_mac_os.Kctl.Connect.{ConnectReq, rtw_kctl_connect}
use rtl8821ce_mac_os.Kctl.Ops.{
  ScanChans, has, rtw_kctl_scan, scan_begin, scan_some, rtw_kctl_scan_chunk, rtw_kctl_disconnect,
  reset, rtw_kctl_unload_reset, rtw_kctl_status, rtw_kctl_poweron, rtw_kctl_bringup,
}
use rtl8821ce_mac_os.Kctl.Calls.{HasMemory, link, armed}
use rtl8821ce_mac_os.Kctl.Outcome.{rtw_kctl_connect-Outcome}
use rtl8821ce_mac_os.Kctl.Steps.{
  not_both, Inv, Outcome-Inv, scan-Inv, poweron-Inv, bringup-Inv, scan_begin-Inv, scan_some-Inv,
  scan_end-Inv, disconnect-Inv,
}

-- The requests of the user client. A power-on carries RTW_FLAG_POWERON as the call leaves it.
pub data Request : Type 0 where
  connect : ConnectReq → Request
  disconnect scan status unload_reset bringup : Request
  poweron : Bool → Request
  scan_chunk : ScanChans → Request

unfoldable pub serve : World → Request → Server → Server
unfolding rtw_kctl_connect rtw_kctl_disconnect rtw_kctl_scan rtw_kctl_status rtw_kctl_unload_reset
    rtw_kctl_scan_chunk rtw_kctl_bringup rtw_kctl_poweron
serve w (connect req) s = (rtw_kctl_connect req w s).1
serve w disconnect s = (rtw_kctl_disconnect w s).1
serve w scan s = (rtw_kctl_scan w s).1
serve w status s = (rtw_kctl_status w s).1
serve w unload_reset s = (rtw_kctl_unload_reset w s).1
serve w bringup s = (rtw_kctl_bringup w s).1
serve w (poweron flag) s = (rtw_kctl_poweron flag w s).1
serve w (scan_chunk input) s = (rtw_kctl_scan_chunk input w s).1

-- What the entry points do not check themselves, and the client has to see to. The two bring-up
-- commands come only when no data path is up and DMA is halted; a chunk that does not BEGIN comes
-- only while the rings of its BEGIN are there, or with no scan active; and trx_init finds its memory
-- in the requests that go on when it fails.
abbrev pub IsPolite : World → Request → Server → Type 0
IsPolite w scan s = HasMemory w
IsPolite w bringup s = HasMemory w × (link s.log ≡ none) × (armed s.log ≡ false)
IsPolite w (poweron flag) s = (link s.log ≡ none) × (armed s.log ≡ false)
IsPolite w (scan_chunk input) s =
    (has input.flags 1 ≡ true → HasMemory w)
    × (has input.flags 1 ≡ false → s.control.g_scan_active ≡ true → armed s.log ≡ true)
IsPolite w r s = Unit {0}

-- The states that such requests lead to from the start of the program.
pub data Reach (w : World) : Server → Type 0 where
  boot : Reach w (record { control = reset; log = [] })
  served : {s : Server} → Reach w s → (r : Request) → IsPolite w r s → Reach w (serve w r s)

serve-Inv : (w : World) (r : Request) (s : Server) → IsPolite w r s → Inv s → Inv (serve w r s)
unfolding serve rtw_kctl_unload_reset rtw_kctl_status rtw_kctl_scan_chunk
serve-Inv w (connect req) s p v =
    Outcome-Inv w (cstr (take 32 req.ssid)) (cstr (take 63 req.pass)) (rtw_kctl_connect req w s).0
      (rtw_kctl_connect req w s).1 (rtw_kctl_connect-Outcome w s req v.safe)
serve-Inv w disconnect s p v = disconnect-Inv w s v
serve-Inv w scan s p v = scan-Inv w s p v.safe
serve-Inv w status s p v = v
serve-Inv w unload_reset s p v = record {
  safe = v.safe;
  when_connected = λ h. not_both false refl h;
  when_scanning = λ h. not_both false refl h;
}
serve-Inv w bringup s p v = bringup-Inv w s p.0 v p.1 p.2
serve-Inv w (poweron flag) s p v = poweron-Inv flag w s v p.0 p.1
serve-Inv w (scan_chunk input) s p v =
    let b = scan_begin-Inv (has input.flags 1) w s p.0 p.1 v in
    let s1 = (scan_begin (has input.flags 1) w s).1 in
    let s2 = (scan_some input w s1).1 in
    scan_end-Inv (has input.flags 2) w s2 (scan_some-Inv input w s1 b.1 b.0)

pub Reach-Inv : {w : World} {s : Server} → Reach w s → Inv s
Reach-Inv boot = record {
  safe = tt;
  when_connected = λ h. not_both false refl h;
  when_scanning = λ h. not_both false refl h;
}
Reach-Inv {w} (served {s} before r p) = serve-Inv w r s p (Reach-Inv before)
