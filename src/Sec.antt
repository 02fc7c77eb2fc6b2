-- ===== src/Sec.antt =====
-- core/sec.c: the session keys in the security CAM.
pub mod Cam
use rtl8821ce_mac_os.Base.{ℕ, zero, suc, ◌+◌, ◌-◌, ◌*◌, ◌^◌, bit_and, bit_or}
use rtl8821ce_mac_os.Base.{if◌then◌else◌, ltb, ◌==◌, List, [], ◌∷◌, get_or, length}
use Prim.{Unit, tt}
use rtl8821ce_mac_os.Hw.{M, ◌>>=◌, ◌>>◌, pure, read16, write16, write32, bit}

abbrev pub rtw_sec_cmd_reg : ℕ
rtw_sec_cmd_reg = 0x670

abbrev pub rtw_sec_write_reg : ℕ
rtw_sec_write_reg = 0x674

abbrev pub rtw_sec_config : ℕ
rtw_sec_config = 0x680

abbrev pub reg_cr : ℕ
reg_cr = 0x0100

abbrev pub rtw_cam_aes : ℕ
rtw_cam_aes = 4

-- RTW_SEC_CMD_WRITE_ENABLE | RTW_SEC_CMD_POLLING.
abbrev pub write_cmd : ℕ
write_cmd = 2 ^ 16 + 2 ^ 31

-- Four bytes as a little-endian word; as they do not overlap, the sum is their `|`.
abbrev pub le32_at : List ℕ → ℕ → ℕ
le32_at xs i =
    get_or xs i 0
    + get_or xs (i + 1) 0 * 2 ^ 8
    + get_or xs (i + 2) 0 * 2 ^ 16
    + get_or xs (i + 3) 0 * 2 ^ 24

-- The content of dword `i` of an entry. The fields of dword 0 do not overlap either.
unfoldable pub cam_content : ℕ → ℕ → List ℕ → List ℕ → ℕ → ℕ
cam_content keyidx group mac key i =
    if i == 0
    then bit_and keyidx 0x3
      + rtw_cam_aes * 2 ^ 2
      + group * 2 ^ 6
      + 2 ^ 15
      + get_or mac 0 0 * 2 ^ 16
      + get_or mac 1 0 * 2 ^ 24
    else if i == 1
    then le32_at mac 2
    else if ltb 5 i
    then 0
    else le32_at key ((i - 2) * 4)

-- The loop from `i = left - 1` down to 0.
unfoldable pub write_cam_from : ℕ → ℕ → ℕ → ℕ → List ℕ → List ℕ → M (Unit {0})
write_cam_from zero hw_key_idx keyidx group mac key = pure tt
write_cam_from (suc i) hw_key_idx keyidx group mac key =
    write32 rtw_sec_write_reg (cam_content keyidx group mac key i)
    >> write32 rtw_sec_cmd_reg (bit_or write_cmd (hw_key_idx * 2 ^ 3 + i))
    >> write_cam_from i hw_key_idx keyidx group mac key

unfoldable pub write_cam : ℕ → ℕ → ℕ → List ℕ → List ℕ → M (Unit {0})
write_cam hw_key_idx keyidx group mac key = write_cam_from 8 hw_key_idx keyidx group mac key

abbrev pub rtw_sec_default_key_num : ℕ
rtw_sec_default_key_num = 4

abbrev pub bcast : List ℕ
bcast = 0xff ∷ 0xff ∷ 0xff ∷ 0xff ∷ 0xff ∷ 0xff ∷ []

-- TX_DEC_EN, RX_DEC_EN, TX_UNI_USE_DK, RX_UNI_USE_DK, TX_BC_USE_DK and RX_BC_USE_DK.
abbrev pub sec_config_bits : ℕ
sec_config_bits = 2 ^ 2 + 2 ^ 3 + 2 ^ 0 + 2 ^ 1 + 2 ^ 6 + 2 ^ 7

-- The group key goes in only if it has 16 bytes at least.
abbrev pub install_group : ℕ → List ℕ → M (Unit {0})
install_group keyidx gtk =
    if ltb (length gtk) 16 then pure tt else write_cam keyidx keyidx 1 bcast gtk

unfoldable pub install_keys : List ℕ → List ℕ → ℕ → List ℕ → M (Unit {0})
install_keys bssid tk keyidx gtk =
    write_cam rtw_sec_default_key_num 0 0 bssid tk
    >> install_group keyidx gtk
    >> (read16 reg_cr >>= λ cr. write16 reg_cr (bit_or cr (bit 9)))
    >> (read16 rtw_sec_config >>= λ sc. write16 rtw_sec_config (bit_or sc sec_config_bits))
