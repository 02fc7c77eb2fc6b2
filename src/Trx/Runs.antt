-- ===== src/Trx/Runs.antt =====
-- Every sequence of calls into core/trx.c.
use rtl8821ce_mac_os.Base.{ℕ, ◌+◌, ◌^◌, ◌<◌, ◌≡◌, refl, sym, subst, arith}
use rtl8821ce_mac_os.Base.{Bool, true, false, List, [], length}
use Prim.{tt}
use rtl8821ce_mac_os.Trx.{World, Trx, State}
use rtl8821ce_mac_os.Trx.Init.{TrxChip, trx_init}
use rtl8821ce_mac_os.Trx.Layout.{set_bd-AllBd}
use rtl8821ce_mac_os.Trx.Memory.{IsSafe, IsFresh}
use rtl8821ce_mac_os.Trx.{queue_bcn}
use rtl8821ce_mac_os.Trx.Pool.{Inv}
use rtl8821ce_mac_os.Trx.Send.{
  ring_at, trx_tx_mgmt, trx_tx_data, trx_tx_h2c, trx_write_data_rsvd_page, mgmt_desc, data_desc,
  h2c_desc,
}
use rtl8821ce_mac_os.Trx.Init.{trx_free, trx_unload_reset, null_buf}
use rtl8821ce_mac_os.Trx.Once.{Started-Inv, trx_init-Started}
use rtl8821ce_mac_os.Trx.Packets.{send_on-Inv, trx_write_data_rsvd_page-Inv, page_refused}

-- The statics as the program starts with them.
abbrev pub boot_trx : Trx
boot_trx = record {
  txbd = null_buf;
  pkt = null_buf;
  rxbd = null_buf;
  rxdata = null_buf;
  txpool = null_buf;
  txbd_size = 0;
  pkt_size = 0;
  txpool_size = 0;
  rx_ok = false;
  rx_n = 64;
  alloced = false;
  rings = [];
}

-- The sizes of the chip descriptor that trx.c depends on.
pub record Fits (chip : TrxChip) : Type 0 where
  pub tx_bd : chip.tx_buf_desc_sz ≡ 16
  pub rx_bd : chip.rx_buf_desc_sz ≡ 8
  pub tx_desc : chip.tx_pkt_desc_sz ≡ 48

-- The states that calls lead to, with packets of any length that the u32 sum does not wrap. The
-- function of the reserved page tests g_pkt_size and no pointer: it is called when the rings are
-- there, or with a page that does not fit g_pkt_size, which is 0 before the first trx_init and after
-- an unload.
pub data Reach (w : World) (chip : TrxChip) : State → Type 0 where
  boot : Reach w chip (record { trx = boot_trx; log = [] })
  init : {s : State} → Reach w chip s → Reach w chip (trx_init chip w s).1
  halt : {s : State} → Reach w chip s → Reach w chip (trx_free w s).1
  unload : {s : State} → Reach w chip s → Reach w chip (trx_unload_reset w s).1
  mgmt :
      {s : State}
      → Reach w chip s
      → (frame : List ℕ) (rate : ℕ) (bmc : Bool) → length frame + 48 < 2 ^ 32
      → Reach w chip (trx_tx_mgmt chip frame rate bmc w s).1
  data_frame :
      {s : State}
      → Reach w chip s
      → (frame : List ℕ) (rate : ℕ) → length frame + 48 < 2 ^ 32
      → Reach w chip (trx_tx_data chip frame rate w s).1
  h2c :
      {s : State}
      → Reach w chip s
      → (pkt : List ℕ) → length pkt ≡ 32
      → Reach w chip (trx_tx_h2c chip pkt w s).1
  page :
      {s : State}
      → Reach w chip s
      → (buf : List ℕ) → length buf + 48 < 2 ^ 32
      → s.trx.alloced ≡ true
      → (ring_at s.trx queue_bcn).bd ≡ true
      → Reach w chip (trx_write_data_rsvd_page chip buf w s).1
  page_too_long :
      {s : State}
      → Reach w chip s
      → (buf : List ℕ) → length buf + 48 < 2 ^ 32
      → s.trx.pkt_size < length buf + 48
      → Reach w chip (trx_write_data_rsvd_page chip buf w s).1

halt-Inv : (w : World) (s : State) → Inv s.trx s.log → Inv (trx_free w s).1.trx (trx_free w s).1.log
unfolding trx_free
halt-Inv w s v = record {
  safe = (tt, (tt, (tt, (tt, (tt, v.safe)))));
  when_up = λ e.
      let r = v.when_up e in
      record {
        safe = (tt, (tt, (tt, (tt, (tt, r.safe)))));
        bd_live = r.bd_live;
        pkt_live = r.pkt_live;
        pkt_set = r.pkt_set;
        fits = r.fits;
        bds_set = r.bds_set;
        pkt_size_is = r.pkt_size_is;
      };
  when_down = v.when_down;
}

unload-Inv :
    (w : World) (s : State)
    → Inv s.trx s.log
    → Inv (trx_unload_reset w s).1.trx (trx_unload_reset w s).1.log
unfolding trx_unload_reset
unload-Inv w s v = record {
  safe = (tt, v.safe);
  when_up = λ e. cc;
  when_down = λ e. (refl, refl, refl, refl, refl, set_bd-AllBd false s.trx.rings);
}

Reach-Inv :
    {w : World} {chip : TrxChip} {s : State}
    → IsFresh w
    → Fits chip
    → Reach w chip s
    → Inv s.trx s.log
unfolding trx_tx_mgmt trx_tx_data trx_tx_h2c
Reach-Inv f c boot = record {
  safe = tt;
  when_up = λ e. cc;
  when_down = λ e. (refl, refl, refl, refl, refl, tt);
}
Reach-Inv {w} {chip} f c (init {s} r) =
    Started-Inv (trx_init chip w s).0 s.log (trx_init chip w s).1.trx (trx_init chip w s).1.log
      (trx_init-Started chip w s f c.tx_bd c.rx_bd (Reach-Inv f c r))
Reach-Inv {w} f c (halt {s} r) = halt-Inv w s (Reach-Inv f c r)
Reach-Inv {w} f c (unload {s} r) = unload-Inv w s (Reach-Inv f c r)
Reach-Inv {w} {chip} f c (mgmt {s} r frame rate bmc h) =
    send_on-Inv 5 0x3b0 chip.tx_pkt_desc_sz (mgmt_desc chip.tx_pkt_desc_sz (length frame) rate bmc)
      frame w s c.tx_desc h (Reach-Inv f c r)
Reach-Inv {w} {chip} f c (data_frame {s} r frame rate h) =
    send_on-Inv 1 0x3a8 chip.tx_pkt_desc_sz (data_desc chip.tx_pkt_desc_sz (length frame) rate)
      frame w s c.tx_desc h (Reach-Inv f c r)
Reach-Inv {w} {chip} f c (h2c {s} r pkt h) =
    send_on-Inv 7 0x132c chip.tx_pkt_desc_sz (h2c_desc chip.tx_pkt_desc_sz 32) pkt w s c.tx_desc
      (omega (arith, h)) (Reach-Inv f c r)
Reach-Inv {w} {chip} f c (page {s} r buf h up set) =
    trx_write_data_rsvd_page-Inv chip buf w s c.tx_desc h up set (Reach-Inv f c r)
Reach-Inv {w} {chip} f c (page_too_long {s} r buf h long) =
    subst (λ (x : Bool × State). Inv x.1.trx x.1.log)
      (sym (page_refused chip buf w s c.tx_desc h long)) (Reach-Inv f c r)

-- Over a DMA service that gives out no handle still in use, with the descriptor sizes of the chip:
-- in every sequence of calls, whatever is allocated or refused, every store into DMA memory stays
-- inside a buffer that is allocated, and every free is of one that is. One call is excepted:
-- trx_write_data_rsvd_page with a page that fits g_pkt_size while g_trx_alloced is 0 or the beacon
-- ring has no descriptors, as after a trx_init that failed past its first allocation.
pub Reach-IsMemorySafe :
    (w : World) (chip : TrxChip) (s : State) → IsFresh w → Fits chip → Reach w chip s → IsSafe s.log
Reach-IsMemorySafe w chip s f c r = (Reach-Inv f c r).safe
