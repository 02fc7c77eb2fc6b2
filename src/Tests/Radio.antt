-- ===== src/Tests/Radio.antt =====
-- MAC, antenna grants, channels and H2C packets over a card that answers.
use rtl8821ce_mac_os.Base.{
  ◌%◌, ◌^◌, ◌≡◌, refl, arith, true, false, if◌then◌else◌, ◌==◌, List, [], ◌∷◌,
}
use rtl8821ce_mac_os.Channel.{Hal, Cache, Tune, set_channel, set_channels}
use rtl8821ce_mac_os.Channel.Filter.{filter_regs, set_channels-filter_regs}
use rtl8821ce_mac_os.Coex.{lte_coex_ctrl, indirect_write, coex_wifi_antenna}
use rtl8821ce_mac_os.Fifo.{set_trx_fifo_info}
use rtl8821ce_mac_os.H2c.{general_info, phydm_info}
use rtl8821ce_mac_os.H2c.Fields.{field, packets-fields}
use rtl8821ce_mac_os.Hw.{Device, written}
use rtl8821ce_mac_os.Mac.{MacChip, MacRc, ok, page_table_8821c, rqpn_table_8821c}
use rtl8821ce_mac_os.Mac.Chip.{mac_init}
use rtl8821ce_mac_os.Mac.Configured.{Fits, Configured, mac_init-Configured}
use rtl8821ce_mac_os.Pwr.Seq.{pcie, is_pcie}

-- Ready to be written, with the H2C pointers at the same place.
abbrev answers : Device
answers t width a = if a == 0x1700 then 2 ^ 29 else if a == 0x1708 then 0x12345678 else 0

abbrev chip : MacChip
chip = record {
  hci = pcie;
  wcpu_3081 = true;
  info = record { txff_size = 65536; page_size = 128; rsvd_drv_pg_num = 8; csi_buf_pg_num = 0 };
  rxff_size = 16384;
  page_table = page_table_8821c;
  rqpn = rqpn_table_8821c;
}

mac_starts : (mac_init chip answers []).0 ≡ ok
unfolding mac_init
mac_starts = refl

chip-Fits : Fits chip (set_trx_fifo_info chip.info)
unfolding set_trx_fifo_info
chip-Fits = omega arith

mac_init-Configured_example :
    (is_pcie chip.hci ≡ false → mac_init chip answers [] ≡ (MacRc.einval, []))
    × ((mac_init chip answers []).0 ≡ ok
        → Configured chip (set_trx_fifo_info chip.info) (mac_init chip answers []).1)
mac_init-Configured_example =
    mac_init-Configured chip answers [] (omega arith) (omega arith) chip-Fits

grant_word : written 0x1704 (indirect_write lte_coex_ctrl 0x3000 3 answers []).1 ≡ 0x12347678
unfolding indirect_write written
grant_word = refl

grants_end : written 0x1704 (coex_wifi_antenna answers []).1 ≡ 0x12345278
unfolding coex_wifi_antenna written
grants_end = refl

abbrev hal : Hal
hal = record { rfe_btg = false; rf_phy_num = 1 }

abbrev latched : Cache
latched = record { valid = true; txsf2 = 0x1000; txsf6 = 0x2000; txfilter = 0x3000 }

abbrev tour : List Tune
tour =
    record { channel = 14; bw = 0; primary = 0 } ∷ record { channel = 36; bw = 2; primary = 0 } ∷ []

on_14 : filter_regs (set_channels hal latched tour answers []).1 ≡ (0xb81c, 0x3667)
unfolding set_channels written
on_14 = refl

set_channels-filter_regs_example :
    (filter_regs
        (set_channel hal
          (set_channels hal latched tour answers []).0
          6
          0
          0
          answers
          (set_channels hal latched tour answers []).1).1
      ≡ (0x1000, 0x3000))
    × ((set_channel hal
          (set_channels hal latched tour answers []).0
          6
          0
          0
          answers
          (set_channels hal latched tour answers []).1).0
        ≡ latched)
set_channels-filter_regs_example =
    set_channels-filter_regs hal latched tour 6 0 0 answers [] refl (omega arith) (omega arith)
      (omega arith)

packets-fields_example :
    (field (general_info 452) 0 0 7 ≡ 1)
    × (field (general_info 452) 0 8 8 ≡ 0xff)
    × (field (general_info 452) 0 16 16 ≡ 0x0d)
    × (field (general_info 452) 1 0 16 ≡ 12)
    × (field (general_info 452) 2 16 8 ≡ 452 % 2 ^ 8)
    × (field (phydm_info 34 1) 0 0 7 ≡ 1)
    × (field (phydm_info 34 1) 0 8 8 ≡ 0xff)
    × (field (phydm_info 34 1) 0 16 16 ≡ 0x11)
    × (field (phydm_info 34 1) 1 0 16 ≡ 16)
    × (field (phydm_info 34 1) 2 0 8 ≡ 34 % 2 ^ 8)
    × (field (phydm_info 34 1) 2 8 8 ≡ 4)
    × (field (phydm_info 34 1) 2 16 8 ≡ 1 % 2 ^ 8)
    × (field (phydm_info 34 1) 2 24 4 ≡ 1)
    × (field (phydm_info 34 1) 2 28 4 ≡ 1)
packets-fields_example = packets-fields 452 34 1
