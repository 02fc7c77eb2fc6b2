-- ===== src/Kctl/Steps.antt =====
-- The entry points of server/kctl.c one by one, over what the two flags stand for.
use rtl8821ce_mac_os.Base.{ℕ, ◌%◌, ◌^◌, ◌≡◌, refl, sym, ap, ◌∙◌}
use rtl8821ce_mac_os.Base.{Bool, true, false, if◌then◌else◌, ◌==◌, ◌&&◌, ltb, not, none, some}
use rtl8821ce_mac_os.Base.{List, [], take, min}
use Prim.{tt}
use rtl8821ce_mac_os.Kctl.{
  Control, World, Server, power_on_mac, init_trx, load_firmware, set_mac_power, get8, get16, call,
  quiesce, scan_channels, free_trx, send_mgmt, sleep_us, ◌>>◌, ◌>>=◌, pure, ask, modify,
}
use rtl8821ce_mac_os.Kctl.Connect.{ConnectResult}
use rtl8821ce_mac_os.Kctl.Ops.{
  ScanChans, scan_marshal, set_scan_active, run_stages, rtw_kctl_scan, scan_begin, scan_some,
  scan_end, say_goodbye, deauth, rtw_kctl_disconnect, rtw_kctl_poweron, rtw_kctl_bringup, reg_cr,
  reg_mcufw_ctrl,
}
use rtl8821ce_mac_os.Kctl.Safe.{quiesce-Quiet, run_stages-Quiet}
use rtl8821ce_mac_os.Kctl.Calls.{Link, HasMemory, link, armed, IsSafe, Quiet}
use rtl8821ce_mac_os.Kctl.Outcome.{Outcome, unraised, unknown, refused, keyed, up}

-- What the two flags promise.
pub record Inv (s : Server) : Type 0 where
  pub safe : IsSafe s.log
  pub when_connected :
      s.control.g_cur_connected ≡ true
      → (link s.log ≡ some (record { mac = s.control.g_cur_mac; bssid = s.control.g_cur_bssid }))
        × (armed s.log ≡ true)
  pub when_scanning : s.control.g_scan_active ≡ true → s.control.g_cur_connected ≡ false

pub not_both {ℓ} : {P : Type ℓ} (b : Bool) → b ≡ false → b ≡ true → P
not_both b e f = cc

none_some {ℓ} : {P : Type ℓ} {x : Link} → none ≡ some x → P
none_some e = cc

Quiet-Inv : (s : Server) → Quiet s → Inv s
Quiet-Inv s q = record {
  safe = q.safe;
  when_connected = λ h. not_both s.control.g_cur_connected q.not_connected h;
  when_scanning = λ h. not_both s.control.g_scan_active q.not_scanning h;
}

pub Outcome-Inv :
    (w : World) (ssid pass : List ℕ) (r : ConnectResult) (s : Server)
    → Outcome w ssid pass r s
    → Inv s
Outcome-Inv w ssid pass r s (unraised q a f h) = Quiet-Inv s q
Outcome-Inv w ssid pass r s (unknown l e f n q a h) = Quiet-Inv s q
Outcome-Inv w ssid pass r s (refused net a k l e j n q d h) = Quiet-Inv s q
Outcome-Inv w ssid pass r s (keyed net cfg code l e j n q h) = Quiet-Inv s q
Outcome-Inv w ssid pass r s (up net cfg code more l e j z u h n b m c) = record {
  safe = u.safe;
  when_connected = λ h. (u.serves, u.on);
  when_scanning = λ h. not_both s.control.g_scan_active u.not_scanning h;
}

pub scan-Inv : (w : World) (s : Server) → HasMemory w → IsSafe s.log → Inv (rtw_kctl_scan w s).1
unfolding rtw_kctl_scan
scan-Inv w s m h =
    let first = quiesce-Quiet w s h in
    let s1 = (quiesce w s).1 in
    let raised = run_stages-Quiet w s1 m first.0 first.1 in
    Quiet-Inv (rtw_kctl_scan w s).1 (record {
      safe = (tt, (raised.1, raised.0.safe));
      no_link = raised.0.no_link;
      not_connected = raised.0.not_connected;
      not_scanning = raised.0.not_scanning;
    })

-- A read of the MMIO shim, which is nothing where the registers are not mapped.
record Reads (s s' : Server) : Type 0 where
  pub safe : IsSafe s.log → IsSafe s'.log
  pub link_same : link s'.log ≡ link s.log
  pub armed_same : armed s'.log ≡ armed s.log
  pub control_same : s'.control ≡ s.control

mmio_read16-Reads :
    (b : Bool) (off : ℕ) (w : World) (s : Server)
    → Reads s (if b then (call (get16 off) >>= λ v. pure (v % 2 ^ 16)) w s else (0xffff, s)).1
mmio_read16-Reads true off w s = record {
  safe = λ h. (tt, h);
  link_same = refl;
  armed_same = refl;
  control_same = refl;
}
mmio_read16-Reads false off w s = record {
  safe = λ h. h;
  link_same = refl;
  armed_same = refl;
  control_same = refl;
}

mmio_read8-Reads :
    (b : Bool) (off : ℕ) (w : World) (s : Server)
    → Reads s (if b then (call (get8 off) >>= λ v. pure (v % 256)) w s else (0xff, s)).1
mmio_read8-Reads true off w s = record {
  safe = λ h. (tt, h);
  link_same = refl;
  armed_same = refl;
  control_same = refl;
}
mmio_read8-Reads false off w s = record {
  safe = λ h. h;
  link_same = refl;
  armed_same = refl;
  control_same = refl;
}

-- A state with the statics of another and no link.
linkless-Inv :
    (s s' : Server) → Inv s → link s.log ≡ none → IsSafe s'.log → s'.control ≡ s.control → Inv s'
linkless-Inv s s' v n h c = record {
  safe = h;
  when_connected = λ e.
      let k = (v.when_connected (ap (λ (x : Control). x.g_cur_connected) (sym c) ∙ e)).0 in
      none_some (sym n ∙ k);
  when_scanning = λ e.
      ap (λ (x : Control). x.g_cur_connected) c
      ∙ v.when_scanning (ap (λ (x : Control). x.g_scan_active) (sym c) ∙ e);
}

pub poweron-Inv :
    (flag : Bool) (w : World) (s : Server)
    → Inv s
    → link s.log ≡ none
    → armed s.log ≡ false
    → Inv (rtw_kctl_poweron flag w s).1
unfolding rtw_kctl_poweron
poweron-Inv flag w s v n a =
    let s1 = (call power_on_mac w s).1 in
    let r = mmio_read8-Reads w.mapped reg_cr w s1 in
    linkless-Inv s (rtw_kctl_poweron flag w s).1 v n (r.safe ((n, a), v.safe)) r.control_same

pub bringup-Inv :
    (w : World) (s : Server)
    → HasMemory w
    → Inv s
    → link s.log ≡ none
    → armed s.log ≡ false
    → Inv (rtw_kctl_bringup w s).1
unfolding rtw_kctl_bringup
bringup-Inv w s m v n a =
    let s2 = (call (set_mac_power true) w (call power_on_mac w s).1).1 in
    let s4 = (call load_firmware w (call init_trx w s2).1).1 in
    let r = mmio_read16-Reads w.mapped reg_mcufw_ctrl w s4 in
    linkless-Inv s (rtw_kctl_bringup w s).1 v n
      (tt, (tt, (tt, (tt, r.safe (m s2.log, (tt, (tt, ((n, a), v.safe)))))))) r.control_same

pub scan_begin-Inv :
    (b : Bool) (w : World) (s : Server)
    → (b ≡ true → HasMemory w)
    → (b ≡ false → s.control.g_scan_active ≡ true → armed s.log ≡ true)
    → Inv s
    → let s' = (scan_begin b w s).1 in
      Inv s' × (s'.control.g_scan_active ≡ true → armed s'.log ≡ true)
unfolding scan_begin
scan_begin-Inv true w s m k v =
    let first = quiesce-Quiet w s v.safe in
    let s1 = (quiesce w s).1 in
    let raised = run_stages-Quiet w s1 (m refl) first.0 first.1 in
    (
      record {
        safe = raised.0.safe;
        when_connected =
            λ h. not_both (run_stages w s1).1.control.g_cur_connected raised.0.not_connected h;
        when_scanning = λ h. raised.0.not_connected;
      },
      λ h. raised.1,
    )
scan_begin-Inv false w s m k v = (v, k refl)

-- The other parts of a chunk, at their tests.
scan_some_lem :
    (b c : Bool) (channels : List ℕ) (w : World) (s : Server)
    → (b ≡ true → armed s.log ≡ true)
    → Inv s
    → Inv
        (if b && c
          then (call (scan_channels channels 250)
                >> (ask (λ w l. w.nets l) >>= λ nets. pure (scan_marshal nets)))
              w s
          else ([], s)).1
scan_some_lem true true channels w s a v = record {
  safe = (a refl, v.safe);
  when_connected = v.when_connected;
  when_scanning = v.when_scanning;
}
scan_some_lem true false channels w s a v = v
scan_some_lem false c channels w s a v = v

pub scan_some-Inv :
    (input : ScanChans) (w : World) (s : Server)
    → (s.control.g_scan_active ≡ true → armed s.log ≡ true)
    → Inv s
    → Inv (scan_some input w s).1
unfolding scan_some
scan_some-Inv input w s a v =
    scan_some_lem s.control.g_scan_active (not (input.count == 0))
      (take (min input.count 40) input.ch) w s a v

scan_end_lem :
    (b c : Bool) (w : World) (s : Server)
    → Inv s
    → (c ≡ true → s.control.g_cur_connected ≡ false)
    → Inv (if b && c then (call free_trx >> modify (set_scan_active false)) w s else (tt, s)).1
scan_end_lem true true w s v h = record {
  safe = (tt, v.safe);
  when_connected = λ e. not_both s.control.g_cur_connected (h refl) e;
  when_scanning = λ e. not_both false refl e;
}
scan_end_lem true false w s v h = v
scan_end_lem false c w s v h = v

pub scan_end-Inv : (b : Bool) (w : World) (s : Server) → Inv s → Inv (scan_end b w s).1
unfolding scan_end
scan_end-Inv b w s v = scan_end_lem b s.control.g_scan_active w s v v.when_scanning

-- The deauthentication, at its test.
goodbye_lem :
    (b c : Bool) (w : World) (s : Server)
    → IsSafe s.log
    → (b ≡ true → armed s.log ≡ true)
    → IsSafe
        (if b && c
          then (call (
                  send_mgmt
                    (deauth s.control)
                    (if ltb 14 s.control.g_cur_channel then 0x04 else 0x00))
                >> call (sleep_us 20000)
                >> pure tt)
              w s
          else (tt, s)).1.log
goodbye_lem true true w s v h = (tt, (h refl, v))
goodbye_lem true false w s v h = v
goodbye_lem false c w s v h = v

pub disconnect-Inv : (w : World) (s : Server) → Inv s → Inv (rtw_kctl_disconnect w s).1
unfolding rtw_kctl_disconnect say_goodbye
disconnect-Inv w s v = record {
  safe = (
    tt,
    (tt, goodbye_lem s.control.g_cur_connected w.mapped w s v.safe (λ h. (v.when_connected h).1)),
  );
  when_connected = λ e. not_both false refl e;
  when_scanning = λ e. refl;
}
