-- ===== src/Fw/Dma.antt =====
-- The on-chip DMA of core/fwdownload.c: iddma_*, check_fw_checksum and download_firmware_to_mem.
use rtl8821ce_mac_os.Base.{
  ℕ, zero, suc, ◌+◌, ◌-◌, ◌/◌, ◌%◌, ◌^◌, bit_and, bit_or, Bool, true, false, not, if◌then◌else◌,
  ◌==◌, ltb, leb, List, copy_out, Option,
}
use rtl8821ce_mac_os.Hw.{bit, clear}
use rtl8821ce_mac_os.Trx.{Log, D, ◌>>=◌, ◌>>◌, pure}
use rtl8821ce_mac_os.Trx.Init.{TrxChip}
use rtl8821ce_mac_os.Fw.{
  einval, ebusy, spent, Rc, ok, err, after_rc, ◌>>?◌, read8, read32, write8, write32,
  check_hw_ready, poll,
}
use rtl8821ce_mac_os.Fw.Page.{send_firmware_pkt}

abbrev pub reg_ddma_ch0sa : ℕ
reg_ddma_ch0sa = 0x1200

abbrev pub reg_ddma_ch0da : ℕ
reg_ddma_ch0da = 0x1204

abbrev pub reg_ddma_ch0ctrl : ℕ
reg_ddma_ch0ctrl = 0x1208

abbrev pub reg_mcufw_ctrl : ℕ
reg_mcufw_ctrl = 0x80

abbrev pub ready_or_busy : Bool → Rc
ready_or_busy true = ok
ready_or_busy false = err ebusy

-- `if (!check_hw_ready(REG_DDMA_CH0CTRL, BIT_DDMACH0_OWN, 0)) return -EBUSY;`
unfoldable pub ddma_free : D Rc
unfolding poll
ddma_free = check_hw_ready reg_ddma_ch0ctrl (bit 31) 0 >>= λ b. pure (ready_or_busy b)

unfoldable pub iddma_enable : ℕ → ℕ → ℕ → D Rc
unfolding ddma_free
iddma_enable src dst ctrl =
    write32 reg_ddma_ch0sa src
    >> write32 reg_ddma_ch0da dst
    >> write32 reg_ddma_ch0ctrl ctrl
    >> ddma_free

unfoldable pub ch0_ctrl : ℕ → Bool → ℕ
ch0_ctrl len first =
    let c = bit_or (bit_or (bit 29) (bit 31)) (bit_and len 0x3ffff) in
    if first then c else bit_or c (bit 24)

unfoldable pub iddma_download_firmware : ℕ → ℕ → ℕ → Bool → D Rc
unfolding iddma_enable ch0_ctrl
iddma_download_firmware src dst len first = ddma_free >>? iddma_enable src dst (ch0_ctrl len first)

abbrev pub ocpbase_dmem_88xx : ℕ
ocpbase_dmem_88xx = 0x00200000

-- The new value of MCUFW_CTRL: the download bit of the memory, and its checksum bit.
unfoldable pub checksum_bits : Bool → ℕ → ℕ → ℕ
checksum_bits bad addr fw_ctrl =
    let dw_ok = if ltb addr ocpbase_dmem_88xx then bit 3 else bit 5 in
    let chksum_ok = if ltb addr ocpbase_dmem_88xx then bit 4 else bit 6 in
    if bad then clear (bit_or fw_ctrl dw_ok) chksum_ok else bit_or fw_ctrl (bit_or dw_ok chksum_ok)

unfoldable pub check_fw_checksum : ℕ → D Bool
unfolding checksum_bits
check_fw_checksum addr = read8 reg_mcufw_ctrl >>= λ fw_ctrl. read32 reg_ddma_ch0ctrl >>= λ sts.
    write8 reg_mcufw_ctrl (checksum_bits (not (bit_and sts (bit 27) == 0)) addr fw_ctrl)
    >> pure (bit_and sts (bit 27) == 0)

abbrev pub max_size : ℕ
max_size = 0x1000

abbrev pub pkt_size_of : ℕ → ℕ
pkt_size_of residue = if leb max_size residue then max_size else residue

abbrev pub sum_checked : Bool → Rc
sum_checked true = ok
sum_checked false = err einval

module _ (malloc : ℕ → Log → Bool) (chip : TrxChip) where
  -- One packet of the image, from `at`, to `dst`, through the TX buffer of the chip.
  unfoldable pub load_part : ℕ → ℕ → ℕ → Bool → Option (List ℕ) → D Rc
  unfolding send_firmware_pkt iddma_download_firmware
  load_part src dst len first part =
      send_firmware_pkt malloc chip (src / 2 ^ 7 % 2 ^ 16) len part
      >>? iddma_download_firmware ((0x18780000 + src + chip.tx_pkt_desc_sz) % 2 ^ 32) dst len first

module _ (malloc : ℕ → Log → Bool) (chip : TrxChip) (image : List ℕ) where
  -- The loop, with the offset of the section in the image.
  unfoldable pub load_parts : ℕ → ℕ → ℕ → ℕ → ℕ → ℕ → Bool → D Rc
  unfolding load_part copy_out
  load_parts zero off src dst mem_offset residue first w s = (err spent, s)
  load_parts (suc n) off src dst mem_offset residue first w s =
      let len = pkt_size_of residue in
      let part =
        load_part malloc chip src ((dst + mem_offset) % 2 ^ 32) len first
          (copy_out (off + mem_offset) len image) w s in
      let rest =
        after_rc part (load_parts n off src dst (mem_offset + len) (residue - len) false w) in
      if residue == 0 then (ok, s) else rest

  unfoldable pub download_firmware_to_mem : ℕ → ℕ → ℕ → ℕ → D Rc
  unfolding load_parts check_fw_checksum
  download_firmware_to_mem off src dst size =
      (read32 reg_ddma_ch0ctrl >>= λ val. write32 reg_ddma_ch0ctrl (bit_or val (bit 25)))
      >> load_parts (size / 0x1000 + 2) off src dst 0 size true
      >>? (check_fw_checksum dst >>= λ b. pure (sum_checked b))
