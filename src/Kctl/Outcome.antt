-- ===== src/Kctl/Outcome.antt =====
-- How rtw_kctl_connect of server/kctl.c ends.
use rtl8821ce_mac_os.Base.{ℕ, ◌+◌, ◌*◌, ◌≤◌, ◌≡◌, refl, ap, arith}
use rtl8821ce_mac_os.Base.{Bool, true, false, if◌then◌else◌, ◌==◌, ◌&&◌, not, Option, none, some}
use rtl8821ce_mac_os.Base.{List, [], ◌∷◌, take, length, length-take, replicate}
use Prim.{tt}
use rtl8821ce_mac_os.Base.Bytes.{take-all}
use rtl8821ce_mac_os.Scan.Nets.{Net}
use rtl8821ce_mac_os.Scan.Target.{find_by_ssid}
use rtl8821ce_mac_os.Kctl.{
  did, Log, DataCfg, World, Server, K, ◌>>◌, pure, call, modify, cstr, chans, quiesce,
}
use rtl8821ce_mac_os.Kctl.{
  free_trx, scan_channels, join_network, start_data_path, set_link, greet_firmware, grant_antenna,
}
use rtl8821ce_mac_os.Kctl.Connect.{
  ConnectReq, ConnectResult, bring_up, give_up, data_started, start_data, publish, status_of,
  result, after_associate, locate, scan_and_join, after_bring_up, rtw_kctl_connect,
}
use rtl8821ce_mac_os.Kctl.Safe.{quiesce-Quiet, bring_up-Quiet}
use rtl8821ce_mac_os.Kctl.Calls.{Link, link, armed, failed, IsSafe, Quiet}

-- The data path runs on the link that the statics name.
pub record Up (s : Server) : Type 0 where
  pub safe : IsSafe s.log
  pub serves :
      link s.log ≡ some (record { mac = s.control.g_cur_mac; bssid = s.control.g_cur_bssid })
  pub on : armed s.log ≡ true
  pub connected : s.control.g_cur_connected ≡ true
  pub not_scanning : s.control.g_scan_active ≡ false

-- The last call of the log is a join with the first network of that name in the scan's list, after a
-- bring-up in which no stage failed. `good` is whether the join returned 0, `keyed` whether the
-- handshake has ended well after it.
pub record Joined (w : World) (ssid pass : List ℕ) (net : Net) (good keyed : Bool) (l : Log)
    : Type 0 where
  pub code : ℕ
  pub scanned : Log
  pub last : l ≡ did (join_network net.bssid ssid net.channel pass) code ∷ scanned
  pub raised : failed scanned ≡ false
  pub found : find_by_ssid ssid (w.nets scanned) ≡ some net
  pub good_is : code == 0 ≡ good
  pub keyed_is : w.wpa_done l ≡ keyed

abbrev pub bit_value : Bool → ℕ
bit_value true = 1
bit_value false = 0

-- What a request ends in: the calls that decide it, the status bits and the state.
pub data Outcome (w : World) (ssid pass : List ℕ) (r : ConnectResult) (s : Server) : Type 0 where
  -- A stage of the bring-up failed. All is down, with DMA halted.
  unraised :
      Quiet s → armed s.log ≡ false → failed s.log ≡ true → r.status ≡ 0 → Outcome w ssid pass r s
  -- The scan found no network of the name. The same.
  unknown :
      (scanned : Log)
      → s.log ≡ did free_trx (w.ret free_trx scanned) ∷ scanned
      → failed scanned ≡ false
      → find_by_ssid ssid (w.nets scanned) ≡ none
      → Quiet s
      → armed s.log ≡ false
      → r.status ≡ 0
      → Outcome w ssid pass r s
  -- The join or the handshake failed. The same, and the bits say which of the two.
  refused :
      (net : Net) (associated wpa : Bool) (l : Log)
      → s.log ≡ did free_trx (w.ret free_trx l) ∷ l
      → Joined w ssid pass net associated wpa l
      → associated && wpa ≡ false
      → Quiet s
      → armed s.log ≡ false
      → r.status ≡ 1 + 2 * bit_value associated + 4 * bit_value wpa
      → Outcome w ssid pass r s
  -- Joined with keys, but the data path did not start.
  keyed :
      (net : Net) (cfg : DataCfg) (code : ℕ) (l : Log)
      → s.log ≡ did (start_data_path cfg) code ∷ l
      → Joined w ssid pass net true true l
      → code == 0 ≡ false
      → Quiet s
      → r.status ≡ 7
      → Outcome w ssid pass r s
  -- Joined with keys, and the data path runs on the link that the statics name.
  up :
      (net : Net) (cfg : DataCfg) (code more : ℕ) (l : Log)
      → s.log ≡ did (set_link true) more ∷ did (start_data_path cfg) code ∷ l
      → Joined w ssid pass net true true l
      → code == 0 ≡ true
      → Up s
      → r.status ≡ 15
      → s.control.g_cur_ssid ≡ ssid
      → s.control.g_cur_bssid ≡ net.bssid
      → r.mac ≡ s.control.g_cur_mac
      → r.channel ≡ s.control.g_cur_channel
      → Outcome w ssid pass r s

free_trx-Quiet :
    (w : World) (s : Server)
    → Quiet s
    → Quiet (call free_trx w s).1 × (armed (call free_trx w s).1.log ≡ false)
free_trx-Quiet w s q = (
  record {
    safe = (tt, q.safe);
    no_link = q.no_link;
    not_connected = q.not_connected;
    not_scanning = q.not_scanning;
  },
  refl,
)

length-cstr : (xs : List ℕ) → length (cstr xs) ≤ length xs
unfolding cstr
length-cstr [] = omega arith
length-cstr (x ∷ xs) = ground (arith, length-cstr xs)

pub length-name : (n : ℕ) (xs : List ℕ) → length (cstr (take n xs)) ≤ n
length-name n xs = omega (arith, length-cstr (take n xs), length-take n xs)

link_of_start :
    (b : Bool) (new : Link) (old : Option Link)
    → old ≡ none
    → (if b then some new else old) ≡ (if b then some new else none)
link_of_start true new old e = refl
link_of_start false new old e = e

-- The result of hw_data_start as a test.
module _ (w : World) (ssid pass : List ℕ) (net : Net) (short : length ssid ≤ 32) where
  ended : List ℕ → Bool → K ConnectResult
  ended mac b v s =
      if b
      then (call (set_link true)
            >> modify (publish ssid net mac)
            >> pure (result true true true mac net))
          v s
      else (result true true false mac net, s)

  ended-Outcome :
      (b : Bool) (cfg : DataCfg) (code : ℕ) (s : Server) (l : Log)
      → code == 0 ≡ b
      → s.log ≡ did (start_data_path cfg) code ∷ l
      → Joined w ssid pass net true true l
      → IsSafe s.log
      → link s.log ≡ (if b then some (record { mac = cfg.mac; bssid = net.bssid }) else none)
      → armed s.log ≡ true
      → s.control.g_cur_connected ≡ false
      → s.control.g_scan_active ≡ false
      → Outcome w ssid pass (ended cfg.mac b w s).0 (ended cfg.mac b w s).1
  unfolding ended
  ended-Outcome true cfg code s l z e j h k a c n =
      up net cfg code (w.ret (set_link true) s.log) l
        (ap (λ (x : Log). did (set_link true) (w.ret (set_link true) s.log) ∷ x) e) j z
        (record { safe = (tt, h); serves = k; on = a; connected = refl; not_scanning = n }) refl
        (take-all 32 ssid short) refl refl refl
  ended-Outcome false cfg code s l z e j h k a c n =
      keyed net cfg code l e j z
        (record { safe = h; no_link = k; not_connected = c; not_scanning = n }) refl

  start_data-Outcome :
      (s : Server)
      → Joined w ssid pass net true true s.log
      → Quiet s
      → armed s.log ≡ true
      → let r = start_data ssid net true true w s in Outcome w ssid pass r.0 r.1
  unfolding start_data data_started ended
  start_data-Outcome s j q a =
      let cfg : DataCfg = record {
        mac = w.mac s.log;
        bssid = net.bssid;
        rate = w.init_rate s.log;
        rate_id = w.raid s.log;
      } in
      let r = w.ret (start_data_path cfg) s.log in
      ended-Outcome (r == 0) cfg r (call (start_data_path cfg) w s).1 s.log refl refl j
        ((q.no_link, a), q.safe)
        (link_of_start (r == 0) (record { mac = w.mac s.log; bssid = net.bssid }) (link s.log)
          q.no_link)
        a q.not_connected q.not_scanning

  refused-Outcome :
      (associated wpa : Bool) (s : Server)
      → Joined w ssid pass net associated wpa s.log
      → Quiet s
      → associated && wpa ≡ false
      → status_of associated wpa false ≡ 1 + 2 * bit_value associated + 4 * bit_value wpa
      → Outcome w ssid pass (result associated wpa false (replicate 6 0) net) (call free_trx w s).1
  refused-Outcome associated wpa s j q n e =
      let f = free_trx-Quiet w s q in refused net associated wpa s.log refl j n f.0 f.1 e

  -- Every result of associate and of the handshake.
  after_associate-Outcome :
      (associated wpa : Bool) (s : Server)
      → Joined w ssid pass net associated wpa s.log
      → Quiet s
      → armed s.log ≡ true
      → let r = after_associate ssid net associated wpa w s in Outcome w ssid pass r.0 r.1
  unfolding after_associate
  after_associate-Outcome true true s j q a = start_data-Outcome s j q a
  after_associate-Outcome true false s j q a = refused-Outcome true false s j q refl refl
  after_associate-Outcome false true s j q a = refused-Outcome false true s j q refl refl
  after_associate-Outcome false false s j q a = refused-Outcome false false s j q refl refl

locate-Outcome :
    (ssid pass : List ℕ) (net : Option Net) (w : World) (s : Server)
    → find_by_ssid ssid (w.nets s.log) ≡ net
    → failed s.log ≡ false
    → Quiet s
    → armed s.log ≡ true
    → length ssid ≤ 32
    → Outcome w ssid pass (locate ssid pass net w s).0 (locate ssid pass net w s).1
unfolding locate give_up
locate-Outcome ssid pass none w s e f q a short =
    let g = free_trx-Quiet w s q in unknown s.log refl f e g.0 g.1 refl
locate-Outcome ssid pass (some net) w s e f q a short =
    let joined = call (join_network net.bssid ssid net.channel pass) w s in
    after_associate-Outcome w ssid pass net short (joined.0 == 0) (w.wpa_done joined.1.log) joined.1
      (record {
        code = joined.0;
        scanned = s.log;
        last = refl;
        raised = f;
        found = e;
        good_is = refl;
        keyed_is = refl;
      })
      (record {
        safe = (a, q.safe);
        no_link = q.no_link;
        not_connected = q.not_connected;
        not_scanning = q.not_scanning;
      })
      a

after_bring_up-Outcome :
    (up : Bool) (ssid pass : List ℕ) (w : World) (s : Server)
    → Quiet s
    → (up ≡ true → armed s.log ≡ true)
    → failed s.log ≡ not up
    → length ssid ≤ 32
    → Outcome w ssid pass (after_bring_up ssid pass up w s).0 (after_bring_up ssid pass up w s).1
unfolding after_bring_up scan_and_join give_up
after_bring_up-Outcome false ssid pass w s q a f short =
    let g = free_trx-Quiet w s q in unraised g.0 g.1 f refl
after_bring_up-Outcome true ssid pass w s q a f short =
    let s1 = (call grant_antenna w (call greet_firmware w s).1).1 in
    let s2 = (call (scan_channels chans 300) w s1).1 in
    let on = a refl in
    locate-Outcome ssid pass (find_by_ssid ssid (w.nets s2.log)) w s2 refl f
      (record {
        safe = (on, (tt, (on, q.safe)));
        no_link = q.no_link;
        not_connected = q.not_connected;
        not_scanning = q.not_scanning;
      })
      on short

pub rtw_kctl_connect-Outcome :
    (w : World) (s : Server) (req : ConnectReq)
    → IsSafe s.log
    → let r = rtw_kctl_connect req w s in
      Outcome w (cstr (take 32 req.ssid)) (cstr (take 63 req.pass)) r.0 r.1
unfolding rtw_kctl_connect
rtw_kctl_connect-Outcome w s req h =
    let first = quiesce-Quiet w s h in
    let s1 = (quiesce w s).1 in
    let raised = bring_up-Quiet w s1 first.0 first.1 first.2 in
    after_bring_up-Outcome (bring_up w s1).0 (cstr (take 32 req.ssid)) (cstr (take 63 req.pass)) w
      (bring_up w s1).1 raised.0 raised.1 raised.2 (length-name 32 req.ssid)
