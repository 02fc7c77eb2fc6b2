-- ===== src/Fw/Run.antt =====
-- start_download_firmware, download_firmware_validate, download_firmware_end_flow and
-- download_firmware of core/fwdownload.c.
use rtl8821ce_mac_os.Base.{ℕ, ◌+◌, bit_and, bit_or, Bool, true, false, if◌then◌else◌, ◌==◌, List}
use Prim.{Unit, tt}
use rtl8821ce_mac_os.Hw.{bit, clear}
use rtl8821ce_mac_os.Trx.{Log, D, ◌>>=◌, ◌>>◌, pure}
use rtl8821ce_mac_os.Trx.Init.{TrxChip, trx_reset}
use rtl8821ce_mac_os.Fw.{
  Fault, einval, Rc, ok, err, ◌>>?◌, read16, read32, write16, write32, write8_set, write8_clr,
  check_hw_ready, poll, Sections, fw_hdr_size, sections, check_firmware_size, reg_sys_func_en,
  wlan_cpu_enable, download_firmware_reg_backup, restore_reg, download_firmware_reset_platform,
}
use rtl8821ce_mac_os.Fw.Dma.{reg_mcufw_ctrl, download_firmware_to_mem}

abbrev pub fw_ready_mask : ℕ
fw_ready_mask = 0xcfff

abbrev pub fw_ready : ℕ
fw_ready = 0xc078

-- The illegal key is only printed.
unfoldable pub download_firmware_validate : D Rc
unfolding poll
download_firmware_validate = check_hw_ready reg_mcufw_ctrl fw_ready_mask fw_ready >>= λ ready.
    λ w s. if ready then (ok, s) else (read32 0x10fc >> pure (err einval)) w s

unfoldable pub download_firmware_end_flow : D (Unit {0})
download_firmware_end_flow = write32 0x210 (bit 2) >> read16 reg_mcufw_ctrl >>= λ fw_ctrl w s.
    if bit_and fw_ctrl (bit 4 + bit 6) == bit 4 + bit 6
    then write16 reg_mcufw_ctrl (clear (bit_or fw_ctrl (bit 14)) (bit 0)) w s
    else (tt, s)

abbrev pub open_download : D (Unit {0})
open_download =
    read16 reg_mcufw_ctrl >>= λ val. write16 reg_mcufw_ctrl (bit_or (bit_and val 0x3800) (bit 0))

-- What download_firmware returns, and RTW_FLAG_FW_RUNNING.
pub record Loaded : Type 0 where
  pub ret : Rc
  pub running : Bool

module _ (malloc : ℕ → Log → Bool) (chip : TrxChip) (image : List ℕ) where
  abbrev pub load_dmem : Sections → D Rc
  load_dmem c = download_firmware_to_mem malloc chip image fw_hdr_size 0 c.dmem_addr c.dmem_size

  abbrev pub load_imem : Sections → D Rc
  load_imem c =
      download_firmware_to_mem malloc chip image (fw_hdr_size + c.dmem_size) 0 c.imem_addr
        c.imem_size

  abbrev pub load_emem : Sections → D Rc
  load_emem c w s =
      if c.emem_size == 0
      then (ok, s)
      else download_firmware_to_mem malloc chip image (fw_hdr_size + c.dmem_size + c.imem_size) 0
          c.emem_addr c.emem_size w s

  unfoldable pub start_download_firmware : D Rc
  unfolding sections download_firmware_to_mem
  start_download_firmware =
      open_download
      >> load_dmem (sections image)
      >>? load_imem (sections image)
      >>? load_emem (sections image)

-- The label `dlfw_fail`.
unfoldable pub dlfw_fail : Fault → Bool → D Loaded
dlfw_fail e running =
    write8_clr reg_mcufw_ctrl (bit 0)
    >> write8_set (reg_sys_func_en + 1) (bit 2)
    >> pure (record { ret = err e; running = running })

unfoldable pub validated : TrxChip → Bool → Rc → D Loaded
unfolding dlfw_fail trx_reset
validated chip running (err e) = dlfw_fail e running
validated chip running ok = trx_reset chip >> pure (record { ret = ok; running = true })

unfoldable pub started : TrxChip → Bool → Rc → D (Unit {0}) → D Loaded
unfolding validated download_firmware_end_flow download_firmware_validate wlan_cpu_enable
started chip running (err e) restore = dlfw_fail e running
started chip running ok restore =
    restore
    >> download_firmware_end_flow
    >> wlan_cpu_enable true
    >> download_firmware_validate
    >>= validated chip running

module _ (malloc : ℕ → Log → Bool) (chip : TrxChip) (image : List ℕ) where
  unfoldable pub download_firmware : ℕ → Bool → D Loaded
  unfolding started start_download_firmware check_firmware_size download_firmware_reg_backup
      download_firmware_reset_platform restore_reg
  download_firmware size running w s =
      if check_firmware_size image size
      then (wlan_cpu_enable false >> download_firmware_reg_backup >>= λ bckp.
            download_firmware_reset_platform >> start_download_firmware malloc chip image >>= λ ret.
            started chip running ret (restore_reg bckp))
          w s
      else (record { ret = err einval; running = running }, s)
