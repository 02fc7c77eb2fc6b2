-- ===== src/Kctl/Safe.antt =====
-- The quiesce and the bring-ups of server/kctl.c, stage by stage.
use rtl8821ce_mac_os.Base.{ℕ, ◌≡◌, refl, sym, ap, ◌∙◌, arith}
use rtl8821ce_mac_os.Base.{Bool, true, false, if◌then◌else◌, ◌==◌, ◌&&◌, ◌||◌, not}
use Prim.{tt}
use rtl8821ce_mac_os.Kctl.{Call, World, Server, K, call, minus_one, quiesce}
use rtl8821ce_mac_os.Kctl.{
  power_on_mac, init_trx, load_firmware, init_mac, read_efuse, set_phy, set_mac_power,
}
use rtl8821ce_mac_os.Kctl.Connect.{stage, bring_up}
use rtl8821ce_mac_os.Kctl.Ops.{run_stages}
use rtl8821ce_mac_os.Kctl.Calls.{armed, IsAllowed, IsSafe, failed, HasMemory, Quiet, IsStage}

-- The state after quiesce.
pub quiesce-Quiet :
    (w : World) (s : Server)
    → IsSafe s.log
    → Quiet (quiesce w s).1
      × (armed (quiesce w s).1.log ≡ false)
      × (failed (quiesce w s).1.log ≡ false)
unfolding quiesce
quiesce-Quiet w s h = (
  record { safe = (tt, (tt, (tt, h))); no_link = refl; not_connected = refl; not_scanning = refl },
  refl,
  refl,
)

pub run_stages-Quiet :
    (w : World) (s : Server)
    → HasMemory w
    → Quiet s
    → armed s.log ≡ false
    → Quiet (run_stages w s).1 × (armed (run_stages w s).1.log ≡ true)
unfolding run_stages
run_stages-Quiet w s m q a =
    let s1 : Server = (call (set_mac_power true) w (call power_on_mac w s).1).1 in
    let e = m s1.log in
    (
      record {
        safe = (tt, (e, (tt, (tt, (tt, (e, (tt, (tt, ((q.no_link, a), q.safe)))))))));
        no_link = q.no_link;
        not_connected = q.not_connected;
        not_scanning = q.not_scanning;
      },
      e,
    )

call-Quiet :
    (c : Call) (w : World) (s : Server)
    → IsStage c
    → IsAllowed c s.log
    → Quiet s
    → Quiet (call c w s).1
call-Quiet c w s h a q = record {
  safe = (a, q.safe);
  no_link = h.keeps_link (w.ret c s.log) s.log ∙ q.no_link;
  not_connected = q.not_connected;
  not_scanning = q.not_scanning;
}

-- A stage that may be skipped, at the test of the stage before.
abbrev staged : Bool → Call → K ℕ
staged b c w s = if b then call c w s else (minus_one, s)

-- What a stage finds: the stages before it went well exactly if it is run, and if they include
-- trx_init then the rings are armed.
record IsDue (rings b : Bool) (s : Server) : Type 0 where
  quiet : Quiet s
  counted : failed s.log ≡ not b
  on : rings ≡ true → b ≡ true → armed s.log ≡ true

staged-IsDue :
    (rings b : Bool) (c : Call) (w : World) (s : Server)
    → IsStage c
    → (b ≡ true → IsAllowed c s.log)
    → IsDue rings b s
    → IsDue rings ((staged b c w s).0 == 0) (staged b c w s).1
staged-IsDue rings true c w s h a q = record {
  quiet = call-Quiet c w s h (a refl) q.quiet;
  counted =
      h.counts (w.ret c s.log) s.log ∙ ap (λ (f : Bool). f || not (w.ret c s.log == 0)) q.counted;
  on = λ r e. h.keeps_armed (w.ret c s.log) s.log (q.on r refl) e;
}
staged-IsDue rings false c w s h a q = record {
  quiet = q.quiet;
  counted = q.counted;
  on = λ r e. cc;
}

staged-before :
    (b : Bool) (c : Call) (w : World) (s : Server) → (staged b c w s).0 == 0 ≡ true → b ≡ true
staged-before true c w s e = refl
staged-before false c w s e = cc

-- The rings are armed if trx_init ran and returned 0.
staged-init_trx :
    (b : Bool) (w : World) (s : Server)
    → (staged b init_trx w s).0 == 0 ≡ true
    → armed (staged b init_trx w s).1.log ≡ true
staged-init_trx true w s e = e
staged-init_trx false w s e = cc

init_trx-IsStage : IsStage init_trx
init_trx-IsStage = record {
  keeps_link = λ r t. refl;
  keeps_armed = λ r t a e. e;
  counts = λ r t. refl;
}

load_firmware-IsStage : IsStage load_firmware
load_firmware-IsStage = record {
  keeps_link = λ r t. refl;
  keeps_armed = λ r t a e. a;
  counts = λ r t. refl;
}

init_mac-IsStage : IsStage init_mac
init_mac-IsStage = record {
  keeps_link = λ r t. refl;
  keeps_armed = λ r t a e. a;
  counts = λ r t. refl;
}

read_efuse-IsStage : IsStage read_efuse
read_efuse-IsStage = record {
  keeps_link = λ r t. refl;
  keeps_armed = λ r t a e. a;
  counts = λ r t. refl;
}

set_phy-IsStage : IsStage set_phy
set_phy-IsStage = record {
  keeps_link = λ r t. refl;
  keeps_armed = λ r t a e. a;
  counts = λ r t. refl;
}

-- A chain of tests of which each needs the one before is its last test.
last_of :
    (a b c d e f : Bool)
    → (b ≡ true → a ≡ true)
    → (c ≡ true → b ≡ true)
    → (d ≡ true → c ≡ true)
    → (e ≡ true → d ≡ true)
    → (f ≡ true → e ≡ true)
    → a && b && c && d && e && f ≡ f
last_of a b c d e true p q r s t =
    let he = t refl in
    let hd = s he in let hc = r hd in let hb = q hc in let ha = p hb in ground arith
last_of a b c d e false p q r s t = ground arith

-- The bring-up keeps everything down; it arms the rings if all of it succeeds, and returns whether
-- no stage has failed.
pub bring_up-Quiet :
    (w : World) (s : Server)
    → Quiet s
    → armed s.log ≡ false
    → failed s.log ≡ false
    → let r = bring_up w s in
      Quiet r.1 × (r.0 ≡ true → armed r.1.log ≡ true) × (failed r.1.log ≡ not r.0)
unfolding bring_up stage
bring_up-Quiet w s q a f =
    let pr = w.ret power_on_mac s.log in
    let s1 : Server = (call (set_mac_power true) w (call power_on_mac w s).1).1 in
    let q1 : Quiet s1 = record {
      safe = (tt, ((q.no_link, a), q.safe));
      no_link = q.no_link;
      not_connected = q.not_connected;
      not_scanning = q.not_scanning;
    } in
    let d1 : IsDue false (pr == 0) s1 = record {
      quiet = q1;
      counted = ap (λ (x : Bool). x || not (pr == 0)) f;
      on = λ r e. cc;
    } in
    let tr = staged (pr == 0) init_trx w s1 in
    let d2 = staged-IsDue false (pr == 0) init_trx w s1 init_trx-IsStage (λ e. tt) d1 in
    let up = staged-init_trx (pr == 0) w s1 in
    let d2' : IsDue true (tr.0 == 0) tr.1 = record {
      quiet = d2.quiet;
      counted = d2.counted;
      on = λ r e. up e;
    } in
    let fr = staged (tr.0 == 0) load_firmware w tr.1 in
    let d3 = staged-IsDue true (tr.0 == 0) load_firmware w tr.1 load_firmware-IsStage up d2' in
    let mr = staged (fr.0 == 0) init_mac w fr.1 in
    let d4 = staged-IsDue true (fr.0 == 0) init_mac w fr.1 init_mac-IsStage (λ e. tt) d3 in
    let er = staged (mr.0 == 0) read_efuse w mr.1 in
    let d5 = staged-IsDue true (mr.0 == 0) read_efuse w mr.1 read_efuse-IsStage (λ e. tt) d4 in
    let pe = staged (er.0 == 0) set_phy w er.1 in
    let d6 = staged-IsDue true (er.0 == 0) set_phy w er.1 set_phy-IsStage (λ e. tt) d5 in
    let all =
      last_of (pr == 0) (tr.0 == 0) (fr.0 == 0) (mr.0 == 0) (er.0 == 0) (pe.0 == 0)
        (staged-before (pr == 0) init_trx w s1) (staged-before (tr.0 == 0) load_firmware w tr.1)
        (staged-before (fr.0 == 0) init_mac w fr.1) (staged-before (mr.0 == 0) read_efuse w mr.1)
        (staged-before (er.0 == 0) set_phy w er.1) in
    (d6.quiet, λ h. d6.on refl (sym all ∙ h), d6.counted ∙ ap not (sym all))
