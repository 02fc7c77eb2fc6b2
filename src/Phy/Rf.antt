-- ===== src/Phy/Rf.antt =====
-- The RF registers of core/phy.c: rtw_phy_read_rf, rtw_write_rf and rtw_phy_cfg_rf.
use rtl8821ce_mac_os.Base.{ℕ, ◌+◌, ◌*◌, ◌/◌, ◌%◌, ◌^◌, bit_and, bit_or}
use rtl8821ce_mac_os.Base.{Bool, true, false, if◌then◌else◌, ◌==◌, leb}
use Prim.{Unit}
use rtl8821ce_mac_os.Hw.{M, ◌>>=◌, ◌>>◌, pure, read32, write32, udelay, clear, ctz}
use rtl8821ce_mac_os.Phy.{Tile}

abbrev pub rfreg_mask : ℕ
rfreg_mask = 0xfffff

abbrev pub inv_rf_data : ℕ
inv_rf_data = 0xffffffff

-- rf_base_addr and rf_sipi_addr, for RF_PATH_A and RF_PATH_B.
abbrev pub rf_base_addr : ℕ → ℕ
rf_base_addr path = if path == 0 then 0x2800 else 0x2c00

abbrev pub rf_sipi_addr : ℕ → ℕ
rf_sipi_addr path = if path == 0 then 0x0c90 else 0x0e90

-- `phys` is hal->rf_phy_num.
unfoldable pub rtw_phy_read_rf : ℕ → ℕ → ℕ → ℕ → M ℕ
unfolding ctz
rtw_phy_read_rf phys path addr mask d t =
    let m = bit_and mask rfreg_mask in
    if leb phys path
    then (inv_rf_data, t)
    else (read32 (rf_base_addr path + addr % 256 * 2 ^ 2) >>= λ v.
          pure (bit_and v m / 2 ^ ctz 32 m))
        d t

abbrev pub sipi_write : ℕ → ℕ → ℕ → M Bool
sipi_write path addr value =
    write32 (rf_sipi_addr path)
      (bit_and (bit_or (addr * 2 ^ 20) (bit_and value 0x000fffff)) 0x0fffffff)
    >> udelay 13
    >> pure true

-- With the value of the register, of which the bits of the mask are replaced.
abbrev pub merge_rf : ℕ → ℕ → ℕ → ℕ → ℕ → M Bool
unfolding ctz
merge_rf path addr mask value old d t =
    if old == inv_rf_data
    then (false, t)
    else sipi_write path addr (bit_or (clear old mask) (value * 2 ^ ctz 32 mask % 2 ^ 32)) d t

unfoldable pub rtw_write_rf : ℕ → ℕ → ℕ → ℕ → ℕ → M Bool
unfolding rtw_phy_read_rf
rtw_write_rf phys path addr mask value d t =
    let m = bit_and mask rfreg_mask in
    if leb phys path
    then (false, t)
    else if m == rfreg_mask
    then sipi_write path (addr % 256) value d t
    else (rtw_phy_read_rf phys path (addr % 256) rfreg_mask >>= merge_rf path (addr % 256) m value)
        d t

-- The tables of the RF are those of one path.
unfoldable pub rtw_phy_cfg_rf : ℕ → ℕ → Tile → M (Unit {0})
unfolding rtw_write_rf
rtw_phy_cfg_rf phys path tile d t =
    if tile.addr == 0xffe
    then udelay 50000 d t
    else if tile.addr == 0xfe
    then udelay 100 d t
    else (rtw_write_rf phys path tile.addr rfreg_mask tile.data_word >>= λ done. udelay 1) d t
