-- ===== src/Mac/Chip.antt =====
-- core/macinit.c, the chip: rtw8821c_mac_init, rtw_drv_info_cfg and mac_init.
use rtl8821ce_mac_os.Base.{◌+◌, ◌*◌, ◌/◌, ◌^◌, bit_and, bit_or}
use Prim.{Unit}
use rtl8821ce_mac_os.Hw.{
  M, ◌>>=◌, ◌>>◌, pure, read8, write8, write16, write32, write8_set, write8_clr, write32_set,
  write32_clr, bit,
}
use rtl8821ce_mac_os.Mac.{MacRc, ok, ◌>>?◌, MacChip, init_trx_cfg}
use rtl8821ce_mac_os.Pwr.Seq.{when}

unfoldable pub drv_info_cfg : MacChip → M MacRc
drv_info_cfg chip =
    write8 0x60f 4
    >> when chip.wcpu_3081 (read8 0x115 >>= λ v. write8 0x115 (bit_or (bit_and v 0xf0) 0xf))
    >> write32_set 0x608 (bit 28)
    >> write32_clr 0x7d4 (bit 8 + bit 9)
    >> pure ok

abbrev pub protocol_cfg : M (Unit {0})
protocol_cfg =
    write8 0x455 0x70
    >> write8_set 0x45e (bit 2)
    >> write8 0x4e5 (bit_and (bit_or 0x1e4 (bit 11)) 0xff)
    >> write8 0x4e6 (bit_or 0x1e4 (bit 11) / 2 ^ 8)
    >> write32 0x4c8 (bit_or (bit_or (bit_or 0xff (0x08 * 2 ^ 8)) (0x20 * 2 ^ 16)) (0x20 * 2 ^ 24))
    >> write16 0x4ce (bit_or 0x01 (0x08 * 2 ^ 8))
    >> write8 0x1448 0x06
    >> write8 0x144a 0x06
    >> write8 0x144c 0x06
    >> write8 0x144e 0x06
    >> write8_set 0x480 (bit 5)

abbrev pub edca_cfg : M (Unit {0})
edca_cfg =
    write8_clr 0x5b4 (bit 4 + bit 5 + bit 6)
    >> write16 0x522 0
    >> write8 0x51b 0x09
    >> write8 0x512 0x19
    >> write32 0x514 (bit_or (bit_or (bit_or 0xa (0xe * 2 ^ 8)) (0x10 * 2 ^ 16)) (0x10 * 2 ^ 24))
    >> write16 0x502 0x186
    >> write16 0x506 0x3bc
    >> write32 0x544 (bit_or 0x05 (0x1b * 2 ^ 16))
    >> write16 0x55e (bit_or 0x30 (0x30 * 2 ^ 8))

abbrev pub beacon_cfg : M (Unit {0})
beacon_cfg =
    write8_set 0x550 (bit 3)
    >> write32 0x540 (bit_or 0x04 (0x64 * 2 ^ 8))
    >> write8 0x558 0x04
    >> write8 0x559 0x02
    >> write8_clr 0x521 (bit 4)

abbrev pub wmac_cfg : M (Unit {0})
wmac_cfg =
    write32 0x6a0 0x0fffffff
    >> write16 0x6a4 0xffff
    >> write32 0x608 0xe400220e
    >> write8 0x60c (12288 / 2 ^ 9)
    >> write8 0x606 0x30
    >> write8 0x605 0x30
    >> write8 0x639 0x40
    >> write8_set 0x66c (bit 1)
    >> write8_set 0x718 (bit 6)
    >> write32 0x7d8 0xb0810041
    >> write8 0x7d4 0x98

unfoldable pub chip_mac_init : M MacRc
chip_mac_init = protocol_cfg >> edca_cfg >> beacon_cfg >> wmac_cfg >> pure ok

unfoldable pub mac_init : MacChip → M MacRc
unfolding init_trx_cfg drv_info_cfg chip_mac_init
mac_init chip = init_trx_cfg chip >>? chip_mac_init >>? drv_info_cfg chip
