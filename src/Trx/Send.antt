-- ===== src/Trx/Send.antt =====
-- The functions of core/trx.c that hand a packet to the card.
use rtl8821ce_mac_os.Base.{ℕ, ◌+◌, ◌-◌, ◌*◌, ◌/◌, ◌%◌, ◌^◌, bit_or, bit_and}
use rtl8821ce_mac_os.Base.{Bool, true, false, if◌then◌else◌, ◌==◌, ◌||◌, not, ltb}
use rtl8821ce_mac_os.Base.{List, ◌++◌, get_or, set, length}
use Prim.{Unit}
use rtl8821ce_mac_os.Trx.{
  cleared, stored, put, TxRing, Trx, D, ◌>>=◌, ◌>>◌, pure, emit, modify, trx_of, reg_read,
  queue_bcn, le16, le32,
}
use rtl8821ce_mac_os.Trx.Init.{TrxChip}

-- le32_encode_bits(v, mask) of a mask with `width` bits from bit `low`.
abbrev pub encode_bits : ℕ → ℕ → ℕ → ℕ
encode_bits v low width = bit_and (v * 2 ^ low % 2 ^ 32) ((2 ^ width - 1) * 2 ^ low)

-- w[0], w[1], w[3], w[4] and w[8] of the TX descriptor; the others stay 0.
pub record Desc : Type 0 where
  pub w0 : ℕ
  pub w1 : ℕ
  pub w3 : ℕ
  pub w4 : ℕ
  pub w8 : ℕ

-- TXPKTSIZE, OFFSET and LS of the first word.
abbrev pub size_word : ℕ → ℕ → ℕ
size_word len desc_sz =
    bit_or (bit_or (encode_bits len 0 16) (encode_bits desc_sz 16 8)) (encode_bits 1 26 1)

abbrev pub pinned : ℕ
pinned = bit_or (encode_bits 1 8 1) (encode_bits 1 10 1)

abbrev pub bit_of : Bool → ℕ
bit_of true = 1
bit_of false = 0

unfoldable pub rsvd_desc : ℕ → ℕ → List ℕ → Desc
rsvd_desc desc_sz size buf = record {
  w0 =
      bit_or (bit_or (size_word size desc_sz) (encode_bits (get_or buf 0 0 % 2) 24 1))
        (encode_bits 1 31 1);
  w1 = encode_bits 16 8 5;
  w3 = 0;
  w4 = 0;
  w8 = encode_bits 1 15 1;
}

unfoldable pub mgmt_desc : ℕ → ℕ → ℕ → Bool → Desc
mgmt_desc desc_sz len rate bmc = record {
  w0 = bit_or (bit_or (size_word len desc_sz) (encode_bits (bit_of bmc) 24 1)) (encode_bits 1 31 1);
  w1 = bit_or (encode_bits 18 8 5) (encode_bits (if rate == 0 then 8 else 7) 16 5);
  w3 = pinned;
  w4 = encode_bits rate 0 7;
  w8 = encode_bits 1 15 1;
}

unfoldable pub data_desc : ℕ → ℕ → ℕ → Desc
data_desc desc_sz len rate = record {
  w0 = size_word len desc_sz;
  w1 = encode_bits (if ltb rate 4 then 8 else 7) 16 5;
  w3 = pinned;
  w4 = encode_bits rate 0 7;
  w8 = encode_bits 1 15 1;
}

unfoldable pub h2c_desc : ℕ → ℕ → Desc
h2c_desc desc_sz len = record {
  w0 = size_word len desc_sz;
  w1 = encode_bits 19 8 5;
  w3 = 0;
  w4 = 0;
  w8 = 0;
}

abbrev pub no_ring : TxRing
no_ring = record { bd = false; bd_off = 0; len = 1; wp = 0; rp = 0; desa_reg = 0; num_reg = 0 }

abbrev pub ring_at : Trx → ℕ → TxRing
ring_at t q = get_or t.rings q no_ring

-- The packet buffer: descriptor and frame. Words that stay 0 are not stored again.
unfoldable pub build : ℕ → Desc → List ℕ → D (Unit {0})
build desc_sz d frame = trx_of >>= λ t.
    emit (cleared t.pkt.handle desc_sz)
    >> emit (stored t.pkt.handle desc_sz frame)
    >> emit (stored t.pkt.handle 0 (le32 d.w0 ++ le32 d.w1))
    >> emit (stored t.pkt.handle 12 (le32 d.w3 ++ le32 d.w4))
    >> emit (stored t.pkt.handle 32 (le32 d.w8))

-- The two segments of a buffer descriptor.
unfoldable pub bd_bytes : ℕ → ℕ → ℕ → ℕ → List ℕ
bd_bytes desc_sz psb_len paddr len =
    le16 desc_sz
    ++ (le16 psb_len
        ++ (le32 (paddr % 2 ^ 32) ++ (le16 len ++ (le16 0 ++ le32 ((paddr + desc_sz) % 2 ^ 32)))))

abbrev pub psb_len_of : ℕ → ℕ
psb_len_of total = (total - 1) / 128 + 1

abbrev pub step_wp : TxRing → TxRing
step_wp r = record r { wp = (r.wp + 1) % r.len }

abbrev pub set_ring : ℕ → TxRing → Trx → Trx
set_ring q r t = record t { rings = set t.rings q r }

-- The descriptor at the write pointer, and the doorbell.
unfoldable pub submit : ℕ → ℕ → ℕ → ℕ → D (Unit {0})
unfolding bd_bytes
submit q idx_reg desc_sz len = trx_of >>= λ t.
    emit (
      stored t.txbd.handle ((ring_at t q).bd_off + (ring_at t q).wp * 16)
        (bd_bytes desc_sz (psb_len_of (len + desc_sz)) t.pkt.paddr len))
    >> modify (set_ring q (step_wp (ring_at t q)))
    >> emit (put 2 idx_reg ((step_wp (ring_at t q)).wp % 2 ^ 12))

-- What the three queues share: the checks, the packet, the descriptor; `false` is the result -1.
unfoldable pub send_on : ℕ → ℕ → ℕ → Desc → List ℕ → D Bool
unfolding build submit
send_on q idx_reg desc_sz d frame w s =
    let t = s.trx in
    if not t.pkt.vaddr || not (ring_at t q).bd
    then (false, s)
    else if ltb t.pkt_size ((length frame + desc_sz) % 2 ^ 32)
    then (false, s)
    else (build desc_sz d frame >> submit q idx_reg desc_sz (length frame) >> pure true) w s

unfoldable pub trx_tx_mgmt : TrxChip → List ℕ → ℕ → Bool → D Bool
unfolding send_on mgmt_desc
trx_tx_mgmt chip frame rate bmc =
    send_on 5 0x3b0 chip.tx_pkt_desc_sz (mgmt_desc chip.tx_pkt_desc_sz (length frame) rate bmc)
      frame

unfoldable pub trx_tx_data : TrxChip → List ℕ → ℕ → D Bool
unfolding send_on data_desc
trx_tx_data chip frame rate =
    send_on 1 0x3a8 chip.tx_pkt_desc_sz (data_desc chip.tx_pkt_desc_sz (length frame) rate) frame

-- `pkt` has the 32 bytes of an H2C packet.
unfoldable pub trx_tx_h2c : TrxChip → List ℕ → D Bool
unfolding send_on h2c_desc
trx_tx_h2c chip pkt = send_on 7 0x132c chip.tx_pkt_desc_sz (h2c_desc chip.tx_pkt_desc_sz 32) pkt

-- The reserved-page leaf of the firmware download. It does not look at the pointers.
unfoldable pub trx_write_data_rsvd_page : TrxChip → List ℕ → D Bool
unfolding build rsvd_desc bd_bytes
trx_write_data_rsvd_page chip buf w s =
    let t = s.trx in
    let size = length buf in
    let desc_sz = chip.tx_pkt_desc_sz in
    let total = (size + desc_sz) % 2 ^ 32 in
    if ltb t.pkt_size total
    then (false, s)
    else (build desc_sz (rsvd_desc desc_sz size buf) buf
          >> modify (set_ring queue_bcn (record (ring_at t queue_bcn) { wp = 0; rp = 0 }))
          >> emit (
              stored t.txbd.handle (ring_at t queue_bcn).bd_off
                (bd_bytes desc_sz (bit_or (psb_len_of total) (2 ^ 15)) t.pkt.paddr size))
          >> (reg_read 1 0x383 >>= λ work. emit (put 1 0x383 (bit_or work (2 ^ 4))))
          >> pure true)
        w s
