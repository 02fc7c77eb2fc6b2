-- ===== src/Trx/Rx.antt =====
-- What core/trx.c lets the scan and the data path see of its rings.
use rtl8821ce_mac_os.Base.{ℕ, ◌*◌, ◌/◌, ◌%◌, ◌^◌}
use rtl8821ce_mac_os.Base.{Bool, if◌then◌else◌, Option, none, some}
use Prim.{Unit}
use rtl8821ce_mac_os.Trx.{Trx, D, ◌>>=◌, pure, emit, put, reg_read}
use rtl8821ce_mac_os.Trx.Init.{TrxChip, uscan_rx_buf_size, be_ring}

unfoldable pub trx_rx_ok : Trx → Bool
trx_rx_ok t = t.rx_ok

unfoldable pub trx_rx_count : Trx → ℕ
trx_rx_count t = t.rx_n

unfoldable pub trx_rx_hw_idx : D ℕ
trx_rx_hw_idx = reg_read 4 0x3b4 >>= λ v. pure (v / 2 ^ 16 % 2 ^ 12)

-- The offset of a slot in the RX data pool, if the pool is mapped.
unfoldable pub trx_rx_slot_buf : Trx → ℕ → Option ℕ
trx_rx_slot_buf t slot = if t.rxdata.vaddr then some (slot * uscan_rx_buf_size) else none

unfoldable pub trx_rx_set_host_idx : ℕ → D (Unit {0})
trx_rx_set_host_idx rp = emit (put 2 0x3b4 (rp % 2 ^ 12))

-- The fields of struct rtw_data_cfg that trx_fill_data_cfg fills in; the others it sets to 0.
pub record RingCfg : Type 0 where
  pub txbd_handle : ℕ
  pub txbd_be_off : ℕ
  pub be_len : ℕ
  pub bd_sz : ℕ
  pub desc_sz : ℕ
  pub rxdata_handle : ℕ
  pub rx_nslots : ℕ
  pub rx_buf_size : ℕ
  pub rx_desc_sz : ℕ
  pub txpool_handle : ℕ

unfoldable pub trx_fill_data_cfg : TrxChip → Trx → RingCfg
trx_fill_data_cfg chip t = record {
  txbd_handle = t.txbd.handle % 2 ^ 32;
  txbd_be_off = (be_ring t).bd_off % 2 ^ 32;
  be_len = (be_ring t).len;
  bd_sz = chip.tx_buf_desc_sz;
  desc_sz = chip.tx_pkt_desc_sz;
  rxdata_handle = t.rxdata.handle % 2 ^ 32;
  rx_nslots = t.rx_n;
  rx_buf_size = uscan_rx_buf_size;
  rx_desc_sz = 24;
  txpool_handle = t.txpool.handle % 2 ^ 32;
}
