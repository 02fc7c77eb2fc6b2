-- ===== src/Pwr/Power.antt =====
-- The power switch of core/pwr.c: rtw_mac_pre_system_cfg, rtw_mac_power_switch,
-- rtw_mac_power_on and rtw_mac_power_off, with the POWERON flag passed along.
pub mod Flag
use rtl8821ce_mac_os.Base.{
  ℕ, zero, suc, ◌+◌, ◌*◌, ◌%◌, ◌/◌, ◌^◌, ◌≡◌, refl, ap, arith, bit_and, bit_or, bit_xor,
}
use rtl8821ce_mac_os.Base.{Bool, true, false, ◌&&◌, not, if◌then◌else◌, ◌==◌, Bool-cases}
use rtl8821ce_mac_os.Base.{List, [], ◌∷◌}
use Prim.{Unit, tt}
use rtl8821ce_mac_os.Hw.{
  Access, get, put, delay, Trace, Device, M, ◌>>=◌, ◌>>◌, pure, read8, read16, read32, write8,
  write32, write8_set, write8_clr, write32_set, udelay, bit, clear,
}
use rtl8821ce_mac_os.Pwr.Tables.{PwrSeqCmd}
use rtl8821ce_mac_os.Pwr.Seq.{
  HciType, pcie, usb, sdio, undefine, Errno, ebusy, einval, ealready, etimedout, overrun, Ret, ok,
  err, Chip, when, pwr_polling_cnt, pwr_seq_parser, is_sdio, is_usb,
}

-- The result of a power function and RTW_FLAG_POWERON after it.
pub record Switched : Type 0 where
  pub ret : Ret
  pub flag : Bool

abbrev pub reg_sys_func_en : ℕ
reg_sys_func_en = 0x0002

abbrev pub reg_gpio_muxcfg : ℕ
reg_gpio_muxcfg = 0x0040

abbrev pub reg_hci_opt_ctrl : ℕ
reg_hci_opt_ctrl = 0x0074

abbrev pub reg_sdio_hsus_ctrl : ℕ
reg_sdio_hsus_ctrl = 0x0086

abbrev pub reg_sdio_himr : ℕ
reg_sdio_himr = 0x10250014

abbrev pub reg_mcufw_ctrl : ℕ
reg_mcufw_ctrl = 0x0080

abbrev pub reg_cr : ℕ
reg_cr = 0x0100

abbrev pub reg_sys_status1 : ℕ
reg_sys_status1 = 0x00f4

-- The way of the 8051 chips: the regulator is chosen and nothing else is done.
abbrev pub choose_regulator : M Ret
choose_regulator = read32 0x00f0 >>= λ cfg.
    write8 0x007c (if not (bit_and cfg (bit 24) == 0) then 0xc3 else 0x83) >> pure ok

-- The wait for BIT_HCI_RESUME_RDY, with `left` of RTW_PWR_POLLING_CNT reads to go.
unfoldable pub poll_resume : ℕ → M Bool
poll_resume zero d t = (false, t)
poll_resume (suc left) d t =
    let v = d t 1 reg_sdio_hsus_ctrl % 256 in
    let again = poll_resume left d (delay 10 ∷ get 1 reg_sdio_hsus_ctrl v ∷ t) in
    if bit_and v (bit 1) == 0 then again else (true, get 1 reg_sdio_hsus_ctrl v ∷ t)

-- rtw_sdio_is_sdio30_supported is false in this port.
abbrev pub wake_sdio : M Bool
wake_sdio =
    write8_clr reg_sdio_hsus_ctrl (bit 0)
    >> (poll_resume pwr_polling_cnt >>= λ ready.
        when ready (write8_clr (reg_hci_opt_ctrl + 2) (bit 18 / 2 ^ 16)) >> pure ready)

-- The pin multiplexer, the base band and the radio.
abbrev pub update32 : ℕ → (ℕ → ℕ) → M (Unit {0})
update32 a f = read32 a >>= λ v. write32 a (f v)

abbrev pub update8 : ℕ → (ℕ → ℕ) → M (Unit {0})
update8 a f = read8 a >>= λ v. write8 a (f v)

abbrev pub config_pins : M Ret
config_pins = do
  update32 0x0064 (λ v. bit_or v (bit_or (bit 29) (bit 28)))
  update32 0x004c (λ v. clear v (bit_or (bit 25) (bit 26)))
  update32 reg_gpio_muxcfg (λ v. bit_or v (bit 2))
  update8 reg_sys_func_en (λ v. clear v (bit_or (bit 0) (bit 1)))
  update8 0x001f (λ v. clear v (bit_or (bit 2) (bit_or (bit 1) (bit 0))))
  update32 0x00ec (λ v. clear v (bit_or (bit 24) (bit_or (bit 25) (bit 26))))
  pure ok

abbrev pub pre_by_interface : HciType → M Ret
pre_by_interface pcie = write32_set reg_hci_opt_ctrl (bit 8) >> config_pins
pre_by_interface usb = config_pins
pre_by_interface sdio = wake_sdio >>= λ ready. if ready then config_pins else pure (err etimedout)
pre_by_interface undefine = pure (err einval)

unfoldable pub pre_system_cfg : Chip → M Ret
unfolding poll_resume
pre_system_cfg chip =
    write8 0x001c 0 >> (if chip.is_8051 then choose_regulator else pre_by_interface chip.hci)

abbrev pub toggle_rpwm : Chip → M (Unit {0})
toggle_rpwm chip = read8 chip.rpwm_addr >>= λ rpwm. read16 reg_mcufw_ctrl >>= λ fw.
    when (fw == 0xc078) (write8 chip.rpwm_addr (bit_and (bit_xor rpwm (bit 7)) (bit 7)))

-- `cur_pwr`.
abbrev pub is_powered : Chip → M Bool
is_powered chip = read8 reg_cr >>= λ cr.
    if cr == 0xea
    then pure false
    else if is_usb chip.hci && not chip.is_8814a
    then (read8 (reg_sys_status1 + 1) >>= λ v. pure (bit_and v (bit 0) == 0))
    else pure true

abbrev pub flow : Chip → Bool → List (List PwrSeqCmd)
flow chip true = chip.pwr_on_seq
flow chip false = chip.pwr_off_seq

-- The flag once a sequence has run: cleared before a power-off, set after a good power-on.
abbrev pub flag_after : Bool → Ret → Bool → Bool
flag_after true ok flag = true
flag_after true (err e) flag = flag
flag_after false r flag = false

-- The interrupt mask of an SDIO card is saved, and written back after the sequence.
abbrev pub save_himr : HciType → M ℕ
save_himr hci =
    if is_sdio hci
    then (read32 reg_sdio_himr >>= λ imr. write32 reg_sdio_himr 0 >> pure imr)
    else pure 0

unfoldable pub run_sequence : Chip → Bool → Bool → M Switched
run_sequence chip pwr_on flag = save_himr chip.hci >>= λ imr.
    pwr_seq_parser chip (flow chip pwr_on) >>= λ r.
    when (pwr_on && is_usb chip.hci && chip.has_usb_fix) (write8_clr (reg_sys_status1 + 1) (bit 0))
    >> when (is_sdio chip.hci) (write32 reg_sdio_himr imr)
    >> pure (record { ret = r; flag = flag_after pwr_on r flag })

abbrev pub is_same : Bool → Bool → Bool
is_same true b = b
is_same false b = not b

unfoldable pub power_switch : Chip → Bool → Bool → M Switched
power_switch chip pwr_on flag =
    when (not chip.is_8051) (toggle_rpwm chip)
    >> (is_powered chip >>= λ cur.
        if is_same pwr_on cur
        then pure (record { ret = err ealready; flag = flag })
        else run_sequence chip pwr_on flag)

-- __rtw_mac_init_system_cfg.
abbrev pub init_system_cfg : Chip → M (Unit {0})
init_system_cfg chip = do
  update32 0x1080 (λ v. bit_or v (bit_or (bit 16) (bit 8)))
  write8_set (reg_sys_func_en + 1) chip.sys_func_en
  update8 (0x1100 + 3) (λ v. bit_or (bit_and v 0xf0) 0x0c)
  tmp ← read32 reg_mcufw_ctrl
  when (not (bit_and tmp (bit 20) == 0)) (
      write32 reg_mcufw_ctrl (clear tmp (bit 20))
      >> update32 reg_gpio_muxcfg (λ v. clear v (bit 19)))

-- `if (ret) goto err;` after rtw_mac_pre_system_cfg.
abbrev pub if_ready : Bool → Ret → M Switched → M Switched
if_ready flag ok k = k
if_ready flag (err e) k = pure (record { ret = err e; flag = flag })

abbrev pub finish_on : Chip → Ret → Switched → M Switched
finish_on chip ok s = init_system_cfg chip >> pure s
finish_on chip (err e) s = pure s

-- The second attempt: power off, and on again.
abbrev pub power_cycle : Chip → Bool → M Switched
power_cycle chip flag = power_switch chip false flag >>= λ off. pre_system_cfg chip >>= λ r.
    if_ready off.flag r (power_switch chip true off.flag >>= λ s. finish_on chip s.ret s)

abbrev pub first_attempt : Chip → Ret → Switched → M Switched
first_attempt chip ok s = finish_on chip ok s
first_attempt chip (err ealready) s = power_cycle chip s.flag
first_attempt chip (err ebusy) s = pure s
first_attempt chip (err einval) s = pure s
first_attempt chip (err etimedout) s = pure s
first_attempt chip (err overrun) s = pure s

unfoldable pub mac_power_on : Chip → Bool → M Switched
mac_power_on chip flag = pre_system_cfg chip >>= λ r.
    if_ready flag r (power_switch chip true flag >>= λ s. first_attempt chip s.ret s)

unfoldable pub mac_power_off : Chip → Bool → M Switched
mac_power_off chip flag = power_switch chip false flag
