-- ===== src/Trx/Init.antt =====
-- trx_init, trx_reset, trx_free and trx_unload_reset of core/trx.c.
use rtl8821ce_mac_os.Base.{ℕ, zero, suc, ◌+◌, ◌*◌, ◌%◌, ◌^◌, bit_or}
use rtl8821ce_mac_os.Base.{Bool, true, false, if◌then◌else◌, ◌==◌, Option, none, some}
use rtl8821ce_mac_os.Base.{List, [], ◌∷◌, ◌++◌, map, get_or}
use Prim.{Unit, tt}
use rtl8821ce_mac_os.Trx.{
  freed, released, cleared, stored, put, armed, powered, waited, Grant, Buf, TxRing, Trx, D, ◌>>=◌,
  ◌>>◌, pure, emit, modify, trx_of, hw_dma_alloc, reg_read, q_regs, queue_be, lay_out, keep_bd,
  set_bd, reset_ring, le16, le32,
}

-- The fields of `struct rtw_chip_info` that trx.c reads, and the CPU of the chip.
pub record TrxChip : Type 0 where
  pub tx_buf_desc_sz : ℕ
  pub rx_buf_desc_sz : ℕ
  pub tx_pkt_desc_sz : ℕ
  pub wcpu_3081 : Bool

-- USCAN_RX_BUF_SIZE and RTW_ETH_SLOT_SIZE.
abbrev pub uscan_rx_buf_size : ℕ
uscan_rx_buf_size = 11520

abbrev pub rtw_eth_slot_size : ℕ
rtw_eth_slot_size = 2048

abbrev pub null_buf : Buf
null_buf = record { handle = 0; paddr = 0; vaddr = false }

abbrev pub buf_of : Grant → Buf
buf_of g = record { handle = g.handle; paddr = g.paddr; vaddr = true }

abbrev pub drop_vaddr : Buf → Buf
drop_vaddr b = record b { vaddr = false }

-- The loop of trx_reset over the queues.
unfoldable pub program_rings : ℕ → List TxRing → D (Unit {0})
program_rings handle [] = pure tt
program_rings handle (r ∷ rs) =
    let rest = program_rings handle rs in
    (λ w s.
      (if r.num_reg == 0
          then emit (armed r.desa_reg handle r.bd_off)
          else emit (put 2 r.num_reg (r.len % 2 ^ 12)) >> emit (armed r.desa_reg handle r.bd_off))
        w s)
    >> rest

unfoldable pub program_rx : Trx → D (Unit {0})
program_rx t w s =
    if t.rx_ok
    then (emit (put 2 0x382 (t.rx_n % 2 ^ 12)) >> emit (armed 0x338 t.rxbd.handle 0)) w s
    else (tt, s)

unfoldable pub reset_h2c : Bool → D (Unit {0})
reset_h2c wcpu w s =
    if wcpu
    then (reg_read 4 0x1330 >>= λ v. emit (put 4 0x1330 (bit_or (bit_or v (2 ^ 16)) (2 ^ 8)))) w s
    else (tt, s)

unfoldable pub trx_reset : TrxChip → D (Unit {0})
unfolding program_rings program_rx reset_h2c
trx_reset chip = reg_read 1 0x303 >>= λ tmp.
    emit (put 1 0x303 (bit_or tmp 0xf7))
    >> modify (λ t. record t { rings = map reset_ring t.rings })
    >> trx_of
    >>= λ t.
        program_rings t.txbd.handle t.rings
        >> program_rx t
        >> emit (put 4 0x39c 0xffffffff)
        >> reset_h2c chip.wcpu_3081

-- The RX buffer descriptors `i` and following, `n` of them.
unfoldable pub fill_rx : ℕ → ℕ → ℕ → ℕ → ℕ → D (Unit {0})
fill_rx zero i handle bd_sz pool = pure tt
fill_rx (suc n) i handle bd_sz pool =
    let rest = fill_rx n (suc i) handle bd_sz pool in
    emit (
      stored handle (i * bd_sz)
        (le16 uscan_rx_buf_size ++ (le16 0 ++ le32 ((pool + i * uscan_rx_buf_size) % 2 ^ 32))))
    >> rest

-- The body of the RX loop at one depth; whether it succeeded.
unfoldable pub rx_pool : TrxChip → ℕ → Grant → Option Grant → D Bool
unfolding fill_rx
rx_pool chip n bds none =
    emit (freed bds.handle)
    >> modify (λ t. record t { rxbd = drop_vaddr (buf_of bds) })
    >> pure false
rx_pool chip n bds (some g) =
    modify (λ t. record t { rxdata = buf_of g; rx_n = n })
    >> emit (cleared bds.handle (n * chip.rx_buf_desc_sz))
    >> fill_rx n 0 bds.handle chip.rx_buf_desc_sz g.paddr
    >> modify (λ t. record t { rx_ok = true })
    >> pure true

unfoldable pub rx_bds : TrxChip → ℕ → Option Grant → D Bool
unfolding rx_pool
rx_bds chip n none = pure false
rx_bds chip n (some g) =
    modify (λ t. record t { rxbd = buf_of g })
    >> hw_dma_alloc (n * uscan_rx_buf_size)
    >>= rx_pool chip n g

-- The loop over rx_try, while g_rx_ok is 0.
unfoldable pub rx_loop : TrxChip → List ℕ → D (Unit {0})
unfolding rx_bds
rx_loop chip [] w s = (tt, s)
rx_loop chip (n ∷ ns) w s =
    let rest = rx_loop chip ns w in
    let r = (hw_dma_alloc (n * chip.rx_buf_desc_sz) >>= rx_bds chip n) w s in
    if r.0 then (tt, r.1) else rest r.1

abbrev pub rx_try : List ℕ
rx_try = 64 ∷ 48 ∷ 32 ∷ 16 ∷ 8 ∷ []

abbrev pub without_tx : Trx → Trx
without_tx t = record t { txbd = drop_vaddr t.txbd; rings = map (set_bd false) t.rings }

-- The rest of trx_init after the allocation of the TX pool; `false` is the result -1.
unfoldable pub with_pool : TrxChip → Grant → Grant → Option Grant → D Bool
unfolding rx_loop trx_reset
with_pool chip bds pkt none =
    emit (freed pkt.handle)
    >> modify (λ t. record t { pkt = drop_vaddr t.pkt })
    >> emit (freed bds.handle)
    >> modify without_tx
    >> pure false
with_pool chip bds pkt (some g) =
    modify (λ t. record t { txpool = buf_of g; rx_ok = false })
    >> (trx_of >>= λ t. emit (cleared g.handle t.txpool_size))
    >> rx_loop chip rx_try
    >> modify (λ t. record t { alloced = true })
    >> trx_reset chip
    >> pure true

abbrev pub be_ring : Trx → TxRing
be_ring t =
    get_or t.rings queue_be
      (record { bd = false; bd_off = 0; len = 0; wp = 0; rp = 0; desa_reg = 0; num_reg = 0 })

-- After the allocation of the packet buffer.
unfoldable pub with_pkt : TrxChip → Grant → Option Grant → D Bool
unfolding with_pool
with_pkt chip bds none = emit (freed bds.handle) >> modify without_tx >> pure false
with_pkt chip bds (some g) =
    modify (λ t. record t { pkt = buf_of g; txpool_size = (be_ring t).len * rtw_eth_slot_size })
    >> (trx_of >>= λ t. hw_dma_alloc t.txpool_size)
    >>= with_pool chip bds g

-- After the allocation of the TX buffer descriptors.
unfoldable pub with_txbd : TrxChip → Option Grant → D Bool
unfolding with_pkt
with_txbd chip none = pure false
with_txbd chip (some g) =
    (trx_of >>= λ t. emit (cleared g.handle t.txbd_size))
    >> modify
        (λ t. record t { txbd = buf_of g; rings = map (set_bd true) t.rings; pkt_size = 0x2000 })
    >> hw_dma_alloc 0x2000
    >>= with_pkt chip g

unfoldable pub first_init : TrxChip → D Bool
unfolding lay_out with_txbd
first_init chip =
    let plan = lay_out chip.tx_buf_desc_sz 0 q_regs in
    modify (λ t. record t { rings = keep_bd t.rings plan.0; txbd_size = plan.1 })
    >> hw_dma_alloc plan.1
    >>= with_txbd chip

unfoldable pub trx_init : TrxChip → D Bool
unfolding first_init trx_reset
trx_init chip w s = if s.trx.alloced then (trx_reset chip >> pure true) w s else first_init chip w s

unfoldable pub trx_free : D (Unit {0})
trx_free =
    emit (put 2 0x382 0)
    >> emit (put 4 0x338 0)
    >> emit (put 1 0x100 0)
    >> emit (powered true false)
    >> emit (waited 30000)

abbrev pub unloaded : Trx → Trx
unloaded t = record t {
  alloced = false;
  rx_ok = false;
  txbd = drop_vaddr (record t.txbd { handle = 0 });
  pkt = drop_vaddr (record t.pkt { handle = 0 });
  rxbd = drop_vaddr (record t.rxbd { handle = 0 });
  rxdata = drop_vaddr (record t.rxdata { handle = 0 });
  txpool = drop_vaddr (record t.txpool { handle = 0 });
  txbd_size = 0;
  pkt_size = 0;
  txpool_size = 0;
  rx_n = 0;
  rings = map (set_bd false) t.rings;
}

-- The server releases every buffer before the call.
unfoldable pub trx_unload_reset : D (Unit {0})
trx_unload_reset = emit released >> modify unloaded
