-- ===== src/Mac.antt =====
-- core/macinit.c, the queues: txdma_queue_mapping, priority_queue_cfg, init_h2c, rtw_init_trx_cfg.
pub mod Chip
pub mod Pages
pub mod Configured
use rtl8821ce_mac_os.Base.{ℕ, ◌+◌, ◌-◌, ◌*◌, ◌%◌, ◌^◌, bit_and, bit_or}
use rtl8821ce_mac_os.Base.{Bool, true, false, if◌then◌else◌, ◌==◌, leb}
use Prim.{Unit}
use rtl8821ce_mac_os.Fifo.{
  ChipInfo, FifoConf, FifoResult, laid_out, rsvd_pg_h2cq_num, sub16, set_trx_fifo_info,
}
use rtl8821ce_mac_os.Hw.{
  Trace, Device, M, ◌>>=◌, ◌>>◌, pure, read8, read32, write8, write16, write32, write8_set,
  write32_set, bit, check_hw_ready, poll,
}
use rtl8821ce_mac_os.Pwr.Seq.{HciType, is_pcie, when}

-- 0, -EINVAL, -EBUSY and -ENOMEM.
pub data MacRc : Type 0 where
  ok einval ebusy enomem : MacRc

-- `if (ret) return ret;`
abbrev pub after_mac : MacRc × Trace → M MacRc → Device → MacRc × Trace
after_mac (ok, t) k d = k d t
after_mac (einval, t) k d = (einval, t)
after_mac (ebusy, t) k d = (ebusy, t)
after_mac (enomem, t) k d = (enomem, t)

infixl 5 ◌>>?◌
abbrev pub ◌>>?◌ : M MacRc → M MacRc → M MacRc
◌>>?◌ m k d t = after_mac (m d t) k d

-- struct rtw_page_table and struct rtw_rqpn.
pub record PageTable : Type 0 where
  pub hq_num : ℕ
  pub nq_num : ℕ
  pub lq_num : ℕ
  pub exq_num : ℕ
  pub gapq_num : ℕ

pub record Rqpn : Type 0 where
  pub dma_map_vo : ℕ
  pub dma_map_vi : ℕ
  pub dma_map_be : ℕ
  pub dma_map_bk : ℕ
  pub dma_map_mg : ℕ
  pub dma_map_hi : ℕ

-- Row 1 of page_table_8821c and of rqpn_table_8821c, which the code takes on PCIe.
abbrev pub page_table_8821c : PageTable
page_table_8821c = record { hq_num = 16; nq_num = 16; lq_num = 16; exq_num = 14; gapq_num = 1 }

abbrev pub rqpn_table_8821c : Rqpn
rqpn_table_8821c = record {
  dma_map_vo = 2;
  dma_map_vi = 2;
  dma_map_be = 1;
  dma_map_bk = 1;
  dma_map_mg = 0;
  dma_map_hi = 3;
}

-- What core/macinit.c reads of `struct rtw_dev`.
pub record MacChip : Type 0 where
  pub hci : HciType
  pub wcpu_3081 : Bool
  pub info : ChipInfo
  pub rxff_size : ℕ
  pub page_table : PageTable
  pub rqpn : Rqpn

-- BIT_TXDMA_*_MAP.
abbrev pub queue_map : ℕ → ℕ → ℕ
queue_map x shift = bit_and x 3 * 2 ^ shift

abbrev pub txdma_pq_map : Rqpn → ℕ
txdma_pq_map r =
    bit_or
      (bit_or
        (bit_or
          (bit_or (bit_or (queue_map r.dma_map_hi 14) (queue_map r.dma_map_mg 12))
            (queue_map r.dma_map_bk 10))
          (queue_map r.dma_map_be 8))
        (queue_map r.dma_map_vi 6))
      (queue_map r.dma_map_vo 4)

unfoldable pub txdma_queue_mapping : MacChip → M MacRc
txdma_queue_mapping chip d t =
    if is_pcie chip.hci
    then (write16 0x10c (txdma_pq_map chip.rqpn)
          >> write8 0x100 0
          >> write8 0x100 0xff
          >> when chip.wcpu_3081 (write32 0x1330 (bit 31))
          >> pure ok)
        d t
    else (einval, t)

abbrev pub reg_fifopage_info : ℕ → ℕ
reg_fifopage_info k = 0x22c + 4 * k

abbrev pub reg_fifopage_ctrl_2 : ℕ
reg_fifopage_ctrl_2 = 0x204

abbrev pub reg_bcnq_bdny_v1 : ℕ
reg_bcnq_bdny_v1 = 0x424

abbrev pub reg_bcnq1_bdny_v1 : ℕ
reg_bcnq1_bdny_v1 = 0x456

unfoldable pub llt_ready : Bool → M MacRc
llt_ready true = write8 0x103 0 >> pure ok
llt_ready false = pure ebusy

-- __priority_queue_cfg up to its poll.
unfoldable pub fill_pages : MacChip → FifoConf → ℕ → M (Unit {0})
fill_pages chip fifo pubq_num =
    write16 (reg_fifopage_info 1) chip.page_table.hq_num
    >> write16 (reg_fifopage_info 2) chip.page_table.lq_num
    >> write16 (reg_fifopage_info 3) chip.page_table.nq_num
    >> write16 (reg_fifopage_info 4) chip.page_table.exq_num
    >> write16 (reg_fifopage_info 5) pubq_num
    >> write32_set 0x22c (bit 31)
    >> write16 reg_fifopage_ctrl_2 fifo.rsvd_boundary
    >> write8_set 0x422 (bit 4)
    >> write16 reg_bcnq_bdny_v1 fifo.rsvd_boundary
    >> write16 (reg_fifopage_ctrl_2 + 2) fifo.rsvd_boundary
    >> write16 reg_bcnq1_bdny_v1 fifo.rsvd_boundary
    >> write32 0x11c (chip.rxff_size + 2 ^ 32 - 256 - 1)
    >> write8_set 0x208 (bit 0)

unfoldable pub queue_pages : MacChip → FifoConf → ℕ → M MacRc
unfolding fill_pages poll llt_ready
queue_pages chip fifo pubq_num =
    fill_pages chip fifo pubq_num >> check_hw_ready 0x208 (bit 0) 0 >>= llt_ready

abbrev pub pubq_num_of : PageTable → FifoConf → ℕ
pubq_num_of p f =
    sub16 (sub16 (sub16 (sub16 (sub16 f.acq_pg_num p.hq_num) p.lq_num) p.nq_num) p.exq_num)
      p.gapq_num

abbrev pub h2cq_size : ℕ
h2cq_size = rsvd_pg_h2cq_num * 2 ^ 7

-- `(value32 & 0xFFFC0000) | addr`
abbrev pub put_address : ℕ → ℕ → M (Unit {0})
put_address reg addr =
    read32 reg >>= λ value32. write32 reg (bit_or (bit_and value32 0xfffc0000) (addr % 2 ^ 32))

abbrev pub h2cq_free : ℕ → ℕ → ℕ
h2cq_free wp rp = if leb rp wp then (h2cq_size + 2 ^ 32 - (wp - rp)) % 2 ^ 32 else rp - wp

unfoldable pub init_h2c : FifoConf → M MacRc
init_h2c fifo =
    put_address 0x244 (fifo.rsvd_h2cq_addr * 2 ^ 7)
    >> put_address 0x24c (fifo.rsvd_h2cq_addr * 2 ^ 7)
    >> put_address 0x248 (fifo.rsvd_h2cq_addr * 2 ^ 7 + h2cq_size)
    >> (read8 0x254 >>= λ v. write8 0x254 (bit_or (bit_and v 0xfc) 0x01))
    >> (read8 0x254 >>= λ v. write8 0x254 (bit_or (bit_and v 0xfb) 0x04))
    >> (read8 0x20d >>= λ v. write8 0x20d (bit_or (bit_and v 0x7f) 0x80))
    >> read32 0x10d4
    >>= λ wp. read32 0x10d0 >>= λ rp.
        pure
          (if h2cq_free (bit_and wp 0x3ffff) (bit_and rp 0x3ffff) == h2cq_size then ok else einval)

-- priority_queue_cfg after rtw_set_trx_fifo_info.
unfoldable pub priority_queue_cfg : MacChip → FifoResult → M MacRc
unfolding queue_pages
priority_queue_cfg chip FifoResult.enomem d t = (enomem, t)
priority_queue_cfg chip FifoResult.einval d t = (einval, t)
priority_queue_cfg chip (laid_out f) d t =
    if is_pcie chip.hci then queue_pages chip f (pubq_num_of chip.page_table f) d t else (einval, t)

-- init_h2c reads the layout that priority_queue_cfg has left.
abbrev pub h2c_after : FifoResult → M MacRc
h2c_after (laid_out f) = init_h2c f
h2c_after FifoResult.enomem = pure enomem
h2c_after FifoResult.einval = pure einval

unfoldable pub init_trx_cfg : MacChip → M MacRc
unfolding txdma_queue_mapping priority_queue_cfg set_trx_fifo_info init_h2c
init_trx_cfg chip =
    txdma_queue_mapping chip
    >>? priority_queue_cfg chip (set_trx_fifo_info chip.info)
    >>? h2c_after (set_trx_fifo_info chip.info)
