-- ===== src/Pwr/Seq.antt =====
-- The interpreter of power sequences of core/pwr.c, for any host interface.
pub mod Ends
use rtl8821ce_mac_os.Base.{ℕ, zero, suc, ◌+◌, ◌*◌, ◌%◌, ◌^◌, ◌≡◌, refl, ap, arith, bit_and, bit_or}
use rtl8821ce_mac_os.Base.{
  Bool, true, false, ◌||◌, not, if◌then◌else◌, ◌==◌, Bool-cases, inl, inr, fun_ext,
}
use rtl8821ce_mac_os.Base.{List, [], ◌∷◌, ltb, ◌&&◌, ◌⊎◌}
use Prim.{Unit, tt}
use rtl8821ce_mac_os.Hw.{
  Access, get, put, delay, Trace, Device, M, ◌>>=◌, ◌>>◌, pure, read8, write8, udelay, bit, clear,
}
use rtl8821ce_mac_os.Pwr.Tables.{
  PwrSeqCmd, pwr_cmd_read, pwr_cmd_write, pwr_cmd_polling, pwr_cmd_delay, pwr_cmd_end,
  pwr_addr_sdio,
}

-- rtw_hci_type.
pub data HciType : Type 0 where
  pcie usb sdio undefine : HciType

-- The return codes -EBUSY, -EINVAL, -EALREADY and -ETIMEDOUT; `overrun` is a read past a table.
pub data Errno : Type 0 where
  ebusy einval ealready etimedout overrun : Errno

pub data Ret : Type 0 where
  ok : Ret
  err : Errno → Ret

-- The fields of `struct rtw_dev` that the power code reads. A chip that is not an 8051 is a 3081;
-- `has_usb_fix` is the test for an 8822C, an 8822B or an 8821C.
pub record Chip : Type 0 where
  pub hci : HciType
  pub is_8723d : Bool
  pub is_8814a : Bool
  pub has_usb_fix : Bool
  pub is_8051 : Bool
  pub rpwm_addr : ℕ
  pub sys_func_en : ℕ
  pub pwr_on_seq : List (List PwrSeqCmd)
  pub pwr_off_seq : List (List PwrSeqCmd)
  pub cut_version : ℕ

abbrev pub is_pcie : HciType → Bool
is_pcie pcie = true
is_pcie usb = false
is_pcie sdio = false
is_pcie undefine = false

abbrev pub is_usb : HciType → Bool
is_usb pcie = false
is_usb usb = true
is_usb sdio = false
is_usb undefine = false

abbrev pub is_sdio : HciType → Bool
is_sdio pcie = false
is_sdio usb = false
is_sdio sdio = true
is_sdio undefine = false

-- `if (ret) return ret;`
abbrev pub after_ret : Ret × Trace → M Ret → Device → Ret × Trace
after_ret (ok, t) k d = k d t
after_ret (err e, t) k d = (err e, t)

infixl 5 ◌>>?◌
abbrev pub ◌>>?◌ : M Ret → M Ret → M Ret
◌>>?◌ m k d t = after_ret (m d t) k d

abbrev pub when : Bool → M (Unit {0}) → M (Unit {0})
when b m = if b then m else pure tt

-- RTW_PWR_POLLING_CNT: the budget of read_poll_timeout_atomic is 50 times this many microseconds,
-- in steps of 50, so it reads at most once more than this.
abbrev pub pwr_polling_cnt : ℕ
pwr_polling_cnt = 20000

-- read_poll_timeout_atomic on rtw_read8, with `left` sleeps to go.
unfoldable pub read_poll : ℕ → ℕ → (ℕ → Bool) → M Bool
read_poll zero addr cond d t = let v = d t 1 addr % 256 in (cond v, get 1 addr v ∷ t)
read_poll (suc left) addr cond d t =
    let v = d t 1 addr % 256 in
    let again = read_poll left addr cond d (delay 50 ∷ get 1 addr v ∷ t) in
    if cond v then (true, get 1 addr v ∷ t) else again

abbrev pub do_pwr_poll_cmd : ℕ → ℕ → ℕ → M Bool
do_pwr_poll_cmd addr mask target =
    read_poll pwr_polling_cnt addr (λ v. bit_and v mask == bit_and target mask)

abbrev pub sdio_local_offset : ℕ
sdio_local_offset = 0x10250000

abbrev pub reg_sys_pw_ctrl : ℕ
reg_sys_pw_ctrl = 0x0004

abbrev pub bit_pfm_wowl : ℕ
bit_pfm_wowl = 2 ^ 3

abbrev pub cmd_offset : PwrSeqCmd → ℕ
cmd_offset c = if c.base == pwr_addr_sdio then bit_or c.offset sdio_local_offset else c.offset

-- The toggle of BIT_PFM_WOWL between the two polls on PCIe.
abbrev pub toggle_wowl : Chip → M (Unit {0})
toggle_wowl chip = read8 reg_sys_pw_ctrl >>= λ value.
    when chip.is_8723d (write8 reg_sys_pw_ctrl (clear value bit_pfm_wowl))
    >> write8 reg_sys_pw_ctrl (bit_or value bit_pfm_wowl)
    >> write8 reg_sys_pw_ctrl (clear value bit_pfm_wowl)
    >> when chip.is_8723d (write8 reg_sys_pw_ctrl (bit_or value bit_pfm_wowl))

abbrev pub second_poll : Chip → PwrSeqCmd → M Ret
second_poll chip c =
    toggle_wowl chip
    >> (do_pwr_poll_cmd (cmd_offset c) c.mask c.value >>= λ b. pure (if b then ok else err ebusy))

abbrev pub pwr_cmd_poll : Chip → PwrSeqCmd → M Ret
pwr_cmd_poll chip c = do_pwr_poll_cmd (cmd_offset c) c.mask c.value >>= λ b.
    if b then pure ok else if is_pcie chip.hci then second_poll chip c else pure (err ebusy)

abbrev pub pwr_cmd_masked_write : PwrSeqCmd → M (Unit {0})
pwr_cmd_masked_write c = read8 (cmd_offset c) >>= λ value.
    write8 (cmd_offset c) (bit_or (clear value c.mask) (bit_and c.value c.mask))

abbrev pub pwr_cmd_sleep : PwrSeqCmd → M (Unit {0})
pwr_cmd_sleep c = if c.value == 0 then udelay c.offset else udelay (c.offset * 1000)

-- The `switch` on one command.
unfoldable pub run_cmd : Chip → PwrSeqCmd → M Ret
unfolding read_poll
run_cmd chip c =
    if c.cmd == pwr_cmd_write
    then pwr_cmd_masked_write c >> pure ok
    else if c.cmd == pwr_cmd_polling
    then pwr_cmd_poll chip c
    else if c.cmd == pwr_cmd_delay
    then pwr_cmd_sleep c >> pure ok
    else if c.cmd == pwr_cmd_read
    then pure ok
    else pure (err einval)

abbrev pub is_skipped : ℕ → ℕ → PwrSeqCmd → Bool
is_skipped intf cut c = bit_and c.intf_mask intf == 0 || bit_and c.cut_mask cut == 0

unfoldable pub sub_pwr_seq_parser : Chip → ℕ → ℕ → List PwrSeqCmd → M Ret
sub_pwr_seq_parser chip intf cut [] = pure (err overrun)
sub_pwr_seq_parser chip intf cut (c ∷ cs) =
    let rest = sub_pwr_seq_parser chip intf cut cs in
    if c.cmd == pwr_cmd_end
    then pure ok
    else if is_skipped intf cut c
    then rest
    else run_cmd chip c >>? rest

unfoldable pub each_table : Chip → ℕ → ℕ → List (List PwrSeqCmd) → M Ret
each_table chip intf cut [] = pure ok
each_table chip intf cut (cs ∷ css) =
    sub_pwr_seq_parser chip intf cut cs >>? each_table chip intf cut css

-- cut_version_to_mask, stored in a byte.
abbrev pub cut_version_to_mask : ℕ → ℕ
cut_version_to_mask cut = 2 ^ (cut + 1) % 256

abbrev pub on_interface : HciType → (ℕ → M Ret) → M Ret
on_interface pcie k = k 4
on_interface usb k = k 2
on_interface sdio k = k 1
on_interface undefine k = pure (err einval)

unfoldable pub pwr_seq_parser : Chip → List (List PwrSeqCmd) → M Ret
pwr_seq_parser chip tables =
    on_interface chip.hci
      (λ intf. each_table chip intf (cut_version_to_mask chip.cut_version) tables)
