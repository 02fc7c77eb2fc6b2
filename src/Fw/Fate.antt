-- ===== src/Fw/Fate.antt =====
-- How download_firmware ends, on every path.
use rtl8821ce_mac_os.Base.{ℕ, ◌+◌, ◌%◌, ◌≡◌, refl, bit_or}
use rtl8821ce_mac_os.Base.{Bool, true, false, if◌then◌else◌, List, ◌∷◌}
use Prim.{Unit}
use rtl8821ce_mac_os.Hw.{bit, clear}
use rtl8821ce_mac_os.Trx.{get, put, Log, World, State, D, ◌>>=◌, ◌>>◌}
use rtl8821ce_mac_os.Trx.Init.{TrxChip}
use rtl8821ce_mac_os.Fw.{
  Fault, einval, Rc, ok, err, check_firmware_size, wlan_cpu_enable, download_firmware_reg_backup,
  restore_reg, download_firmware_reset_platform, reg_sys_func_en,
}
use rtl8821ce_mac_os.Fw.Dma.{reg_mcufw_ctrl}
use rtl8821ce_mac_os.Fw.Ready.{IsReady, validate-IsReady, trx_reset-IsReady}
use rtl8821ce_mac_os.Fw.Run.{
  Loaded, start_download_firmware, dlfw_fail, validated, started, download_firmware_end_flow,
  download_firmware_validate, download_firmware,
}

-- The last accesses are those of the failure path: the download is closed, then the CPU released.
pub record IsClosed (t : Log) : Type 0 where
  pub ctrl : ℕ
  pub func : ℕ
  pub before : Log
  pub log_is :
      t
      ≡ put 1 (reg_sys_func_en + 1) (bit_or func (bit 2) % 256)
        ∷ get 1 (reg_sys_func_en + 1) func
        ∷ put 1 reg_mcufw_ctrl (clear ctrl (bit 0) % 256)
        ∷ get 1 reg_mcufw_ctrl ctrl
        ∷ before

-- The ends of a download from `s` with the flag RTW_FLAG_FW_RUNNING as `running`.
pub data Fate (image : List ℕ) (size : ℕ) (running : Bool) (s : State) (r : Loaded × State)
    : Type 0 where
  rejected :
      check_firmware_size image size ≡ false
      → r ≡ (record { ret = err einval; running = running }, s)
      → Fate image size running s r
  loaded :
      check_firmware_size image size ≡ true
      → r.0 ≡ record { ret = ok; running = true }
      → IsReady r.1.log
      → Fate image size running s r
  closed :
      (e : Fault)
      → check_firmware_size image size ≡ true
      → r.0 ≡ record { ret = err e; running = running }
      → IsClosed r.1.log
      → Fate image size running s r

-- What the steps after the size check lead to.
data Ends (running : Bool) (r : Loaded × State) : Type 0 where
  up : r.0 ≡ record { ret = ok; running = true } → IsReady r.1.log → Ends running r
  down :
      (e : Fault)
      → r.0 ≡ record { ret = err e; running = running }
      → IsClosed r.1.log
      → Ends running r

dlfw_fail-Ends :
    (e : Fault) (running : Bool) (w : World) (s : State) → Ends running (dlfw_fail e running w s)
unfolding dlfw_fail
dlfw_fail-Ends e running w s =
    down e refl (record {
      ctrl = w.read 1 reg_mcufw_ctrl s.log % 256;
      func = _;
      before = s.log;
      log_is = refl;
    })

validated-Ends :
    (chip : TrxChip) (running : Bool) (rc : Rc) (w : World) (s : State)
    → (rc ≡ ok → IsReady s.log)
    → Ends running (validated chip running rc w s)
unfolding validated
validated-Ends chip running ok w s h = up refl (trx_reset-IsReady chip w s (h refl))
validated-Ends chip running (err e) w s h = dlfw_fail-Ends e running w s

started-Ends :
    (chip : TrxChip) (running : Bool) (rc : Rc) (restore : D (Unit {0})) (w : World) (s : State)
    → Ends running (started chip running rc restore w s)
unfolding started
started-Ends chip running (err e) restore w s = dlfw_fail-Ends e running w s
started-Ends chip running ok restore w s =
    let t = ((restore >> download_firmware_end_flow >> wlan_cpu_enable true) w s).1 in
    let v = download_firmware_validate w t in
    validated-Ends chip running v.0 w v.1 (λ e. (validate-IsReady 0 w t e).0)

-- After the size check, at its result.
checked-Fate :
    (b : Bool) (malloc : ℕ → Log → Bool) (chip : TrxChip) (image : List ℕ) (size : ℕ)
    (running : Bool) (w : World) (s : State)
    → check_firmware_size image size ≡ b
    → Fate image size running s (
        if b
        then (wlan_cpu_enable false >> download_firmware_reg_backup >>= λ bckp.
              download_firmware_reset_platform
              >> start_download_firmware malloc chip image
              >>= λ ret. started chip running ret (restore_reg bckp))
            w s
        else (record { ret = err einval; running = running }, s))
checked-Fate false malloc chip image size running w s c = rejected c refl
checked-Fate true malloc chip image size running w s c =
    let off = (wlan_cpu_enable false w s).1 in
    let saved = download_firmware_reg_backup w off in
    let t = (download_firmware_reset_platform w saved.1).1 in
    let load = start_download_firmware malloc chip image w t in
    elim (started-Ends chip running load.0 (restore_reg saved.0) w load.1) [
      | up r ready ↦ loaded c r ready
      | down e r log ↦ closed e c r log
    ]

-- On every path, whatever the card, malloc and the rings do: an image whose header does not add up
-- to `size` is refused with -EINVAL before any access, with the flag RTW_FLAG_FW_RUNNING as it was;
-- or the download returns 0, sets the flag and the last poll of MCUFW_CTRL read FW_READY; or it
-- returns an error with the flag as it was, and its last accesses clear MCUFWDL_EN and set
-- FEN_CPUEN.
pub download_firmware-Fate :
    (malloc : ℕ → Log → Bool) (chip : TrxChip) (image : List ℕ) (size : ℕ) (running : Bool)
    (w : World) (s : State)
    → Fate image size running s (download_firmware malloc chip image size running w s)
unfolding download_firmware
download_firmware-Fate malloc chip image size running w s =
    checked-Fate (check_firmware_size image size) malloc chip image size running w s refl
