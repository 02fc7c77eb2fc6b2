-- ===== src/H2c.antt =====
-- core/h2c.c: the two packets that start the firmware, sent through the rings of core/trx.c.
pub mod Fields
use rtl8821ce_mac_os.Base.{ℕ, ◌+◌, ◌-◌, ◌*◌, ◌%◌, ◌^◌, bit_and, bit_or}
use rtl8821ce_mac_os.Base.{List, [], ◌∷◌, ◌++◌, get_or, set, replicate}
use Prim.{Unit}
use rtl8821ce_mac_os.Trx.{D, ◌>>◌, emit, waited, le32}
use rtl8821ce_mac_os.Trx.Init.{TrxChip}
use rtl8821ce_mac_os.Trx.Send.{trx_tx_h2c}

-- set_bits with the mask GENMASK(low + width - 1, low), on a packet as its eight words.
unfoldable pub set_bits : List ℕ → ℕ → ℕ → ℕ → ℕ → List ℕ
set_bits pkt word val low width =
    let mask = (2 ^ width - 1) * 2 ^ low in
    set pkt word (
      bit_or (bit_and (get_or pkt word 0) (2 ^ 32 - 1 - mask))
        (bit_and (val * 2 ^ low % 2 ^ 32) mask))

unfoldable pub set_header : List ℕ → ℕ → List ℕ
unfolding set_bits
set_header pkt sub_id = set_bits (set_bits (set_bits pkt 0 0x01 0 7) 0 0xff 8 8) 0 sub_id 16 16

abbrev pub h2c_pkt_hdr_size : ℕ
h2c_pkt_hdr_size = 8

-- The first packet, with the TX boundary of the firmware.
unfoldable pub general_info : ℕ → List ℕ
unfolding set_header
general_info fw_tx_boundary =
    let p = set_header (replicate 8 0) 0x0d in
    let p = set_bits p 1 (h2c_pkt_hdr_size + 4) 0 16 in
    let p = set_bits p 1 0 16 16 in set_bits p 2 fw_tx_boundary 16 8

-- The second packet, with the RFE option, the RF type, the cut and the antennas.
unfoldable pub phydm_info : ℕ → ℕ → List ℕ
unfolding set_header
phydm_info rfe_option cut_version =
    let p = set_header (replicate 8 0) 0x11 in
    let p = set_bits p 1 (h2c_pkt_hdr_size + 8) 0 16 in
    let p = set_bits p 1 1 16 16 in
    let p = set_bits p 2 rfe_option 0 8 in
    let p = set_bits p 2 4 8 8 in
    let p = set_bits p 2 cut_version 16 8 in let p = set_bits p 2 1 24 4 in set_bits p 2 1 28 4

-- The words in memory.
unfoldable pub pkt_bytes : List ℕ → List ℕ
pkt_bytes [] = []
pkt_bytes (w ∷ ws) = le32 w ++ pkt_bytes ws

-- `rsvd_fw_txbuf_addr - rsvd_boundary` as a u32.
abbrev pub fw_tx_boundary_of : ℕ → ℕ → ℕ
fw_tx_boundary_of rsvd_fw_txbuf_addr rsvd_boundary =
    (rsvd_fw_txbuf_addr + 2 ^ 32 - rsvd_boundary) % 2 ^ 32

-- The results of trx_tx_h2c are not looked at.
unfoldable pub fw_handshake : TrxChip → ℕ → ℕ → ℕ → ℕ → D (Unit {0})
unfolding general_info phydm_info pkt_bytes trx_tx_h2c
fw_handshake chip rsvd_fw_txbuf_addr rsvd_boundary rfe_option cut_version =
    trx_tx_h2c chip (pkt_bytes (general_info (fw_tx_boundary_of rsvd_fw_txbuf_addr rsvd_boundary)))
    >> emit (waited 2000)
    >> trx_tx_h2c chip (pkt_bytes (phydm_info rfe_option cut_version))
    >> emit (waited 2000)
