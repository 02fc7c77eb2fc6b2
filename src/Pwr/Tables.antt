-- ===== src/Pwr/Tables.antt =====
-- The power sequence tables of core/pwr.c with the layout of `struct rtw_pwr_seq_cmd`.
-- A row is the offset, the cut mask, the interface mask (1 SDIO, 2 USB, 4 PCI), the base, the
-- command, the mask and the value. The rows keep the order of the source and the END row.
use rtl8821ce_mac_os.Base.{ℕ, List, ◌∷◌, []}

pub record PwrSeqCmd : Type 0 where
  pub offset : ℕ
  pub cut_mask : ℕ
  pub intf_mask : ℕ
  pub base : ℕ
  pub cmd : ℕ
  pub mask : ℕ
  pub value : ℕ

abbrev pub row : (offset cut_mask intf_mask base cmd mask value : ℕ) → PwrSeqCmd
row offset cut_mask intf_mask base cmd mask value = record {
  offset = offset;
  cut_mask = cut_mask;
  intf_mask = intf_mask;
  base = base;
  cmd = cmd;
  mask = mask;
  value = value;
}

abbrev pub pwr_cmd_read : ℕ
pwr_cmd_read = 0

abbrev pub pwr_cmd_write : ℕ
pwr_cmd_write = 1

abbrev pub pwr_cmd_polling : ℕ
pwr_cmd_polling = 2

abbrev pub pwr_cmd_delay : ℕ
pwr_cmd_delay = 3

abbrev pub pwr_cmd_end : ℕ
pwr_cmd_end = 4

abbrev pub pwr_addr_mac : ℕ
pwr_addr_mac = 0

abbrev pub pwr_addr_sdio : ℕ
pwr_addr_sdio = 3

unfoldable pub trans_carddis_to_cardemu_8821c : List PwrSeqCmd
trans_carddis_to_cardemu_8821c =
    row 0x0086 0xff 0x1 pwr_addr_sdio pwr_cmd_write 0x01 0x00
    ∷ row 0x0086 0xff 0x1 pwr_addr_sdio pwr_cmd_polling 0x02 0x02
    ∷ row 0x004a 0xff 0x2 pwr_addr_mac pwr_cmd_write 0x01 0x00
    ∷ row 0x0005 0xff 0xf pwr_addr_mac pwr_cmd_write 0x98 0x00
    ∷ row 0x0300 0xff 0x4 pwr_addr_mac pwr_cmd_write 0xff 0x00
    ∷ row 0x0301 0xff 0x4 pwr_addr_mac pwr_cmd_write 0xff 0x00
    ∷ row 0xffff 0xff 0xf pwr_addr_mac pwr_cmd_end 0x00 0x00
    ∷ []

unfoldable pub trans_cardemu_to_act_8821c : List PwrSeqCmd
trans_cardemu_to_act_8821c =
    row 0x0020 0xff 0x3 pwr_addr_mac pwr_cmd_write 0x01 0x01
    ∷ row 0x0001 0xff 0x3 pwr_addr_mac pwr_cmd_delay 0x01 0x01
    ∷ row 0x0000 0xff 0x3 pwr_addr_mac pwr_cmd_write 0x20 0x00
    ∷ row 0x0005 0xff 0xf pwr_addr_mac pwr_cmd_write 0x1c 0x00
    ∷ row 0x0075 0xff 0x4 pwr_addr_mac pwr_cmd_write 0x01 0x01
    ∷ row 0x0006 0xff 0xf pwr_addr_mac pwr_cmd_polling 0x02 0x02
    ∷ row 0x0075 0xff 0x4 pwr_addr_mac pwr_cmd_write 0x01 0x00
    ∷ row 0x0006 0xff 0xf pwr_addr_mac pwr_cmd_write 0x01 0x01
    ∷ row 0x0005 0xff 0xf pwr_addr_mac pwr_cmd_write 0x80 0x00
    ∷ row 0x0005 0xff 0xf pwr_addr_mac pwr_cmd_write 0x18 0x00
    ∷ row 0x10c3 0xff 0x2 pwr_addr_mac pwr_cmd_write 0x01 0x01
    ∷ row 0x0005 0xff 0xf pwr_addr_mac pwr_cmd_write 0x01 0x01
    ∷ row 0x0005 0xff 0xf pwr_addr_mac pwr_cmd_polling 0x01 0x00
    ∷ row 0x0020 0xff 0xf pwr_addr_mac pwr_cmd_write 0x08 0x08
    ∷ row 0x0074 0xff 0x4 pwr_addr_mac pwr_cmd_write 0x20 0x20
    ∷ row 0x0022 0xff 0x4 pwr_addr_mac pwr_cmd_write 0x02 0x00
    ∷ row 0x0062 0xff 0x4 pwr_addr_mac pwr_cmd_write 0xe0 0xe0
    ∷ row 0x0061 0xff 0x4 pwr_addr_mac pwr_cmd_write 0xe0 0x00
    ∷ row 0x007c 0xff 0xf pwr_addr_mac pwr_cmd_write 0x02 0x00
    ∷ row 0xffff 0xff 0xf pwr_addr_mac pwr_cmd_end 0x00 0x00
    ∷ []

unfoldable pub trans_act_to_cardemu_8821c : List PwrSeqCmd
trans_act_to_cardemu_8821c =
    row 0x0093 0xff 0xf pwr_addr_mac pwr_cmd_write 0x08 0x00
    ∷ row 0x001f 0xff 0xf pwr_addr_mac pwr_cmd_write 0xff 0x00
    ∷ row 0x0049 0xff 0xf pwr_addr_mac pwr_cmd_write 0x02 0x00
    ∷ row 0x0006 0xff 0xf pwr_addr_mac pwr_cmd_write 0x01 0x01
    ∷ row 0x0002 0xff 0xf pwr_addr_mac pwr_cmd_write 0x02 0x00
    ∷ row 0x10c3 0xff 0x2 pwr_addr_mac pwr_cmd_write 0x01 0x00
    ∷ row 0x0005 0xff 0xf pwr_addr_mac pwr_cmd_write 0x02 0x02
    ∷ row 0x0005 0xff 0xf pwr_addr_mac pwr_cmd_polling 0x02 0x00
    ∷ row 0x0020 0xff 0xf pwr_addr_mac pwr_cmd_write 0x08 0x00
    ∷ row 0x0000 0xff 0x3 pwr_addr_mac pwr_cmd_write 0x20 0x20
    ∷ row 0xffff 0xff 0xf pwr_addr_mac pwr_cmd_end 0x00 0x00
    ∷ []

unfoldable pub trans_cardemu_to_carddis_8821c : List PwrSeqCmd
trans_cardemu_to_carddis_8821c =
    row 0x0007 0xff 0x3 pwr_addr_mac pwr_cmd_write 0xff 0x20
    ∷ row 0x0067 0xff 0xf pwr_addr_mac pwr_cmd_write 0x20 0x00
    ∷ row 0x0005 0xff 0x4 pwr_addr_mac pwr_cmd_write 0x04 0x04
    ∷ row 0x004a 0xff 0x2 pwr_addr_mac pwr_cmd_write 0x01 0x00
    ∷ row 0x0067 0xff 0x1 pwr_addr_mac pwr_cmd_write 0x20 0x00
    ∷ row 0x0067 0xff 0x1 pwr_addr_mac pwr_cmd_write 0x10 0x00
    ∷ row 0x004f 0xff 0x1 pwr_addr_mac pwr_cmd_write 0x01 0x00
    ∷ row 0x0067 0xff 0x1 pwr_addr_mac pwr_cmd_write 0x02 0x00
    ∷ row 0x0046 0xff 0x1 pwr_addr_mac pwr_cmd_write 0x40 0x40
    ∷ row 0x0067 0xff 0x1 pwr_addr_mac pwr_cmd_write 0x04 0x00
    ∷ row 0x0046 0xff 0x1 pwr_addr_mac pwr_cmd_write 0x80 0x80
    ∷ row 0x0062 0xff 0x1 pwr_addr_mac pwr_cmd_write 0x10 0x10
    ∷ row 0x0081 0xff 0xf pwr_addr_mac pwr_cmd_write 0xc0 0x00
    ∷ row 0x0005 0xff 0x3 pwr_addr_mac pwr_cmd_write 0x18 0x08
    ∷ row 0x0086 0xff 0x1 pwr_addr_sdio pwr_cmd_write 0x01 0x01
    ∷ row 0x0086 0xff 0x1 pwr_addr_sdio pwr_cmd_polling 0x02 0x00
    ∷ row 0x0090 0xff 0x6 pwr_addr_mac pwr_cmd_write 0x02 0x00
    ∷ row 0x0044 0xff 0x1 pwr_addr_sdio pwr_cmd_write 0xff 0x00
    ∷ row 0x0040 0xff 0x1 pwr_addr_sdio pwr_cmd_write 0xff 0x90
    ∷ row 0x0041 0xff 0x1 pwr_addr_sdio pwr_cmd_write 0xff 0x00
    ∷ row 0x0042 0xff 0x1 pwr_addr_sdio pwr_cmd_write 0xff 0x04
    ∷ row 0xffff 0xff 0xf pwr_addr_mac pwr_cmd_end 0x00 0x00
    ∷ []

unfoldable pub card_enable_flow_8821c : List (List PwrSeqCmd)
card_enable_flow_8821c = trans_carddis_to_cardemu_8821c ∷ trans_cardemu_to_act_8821c ∷ []

unfoldable pub card_disable_flow_8821c : List (List PwrSeqCmd)
card_disable_flow_8821c = trans_act_to_cardemu_8821c ∷ trans_cardemu_to_carddis_8821c ∷ []
