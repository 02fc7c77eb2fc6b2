-- ===== src/Efuse/Decode.antt =====
-- dump_logical_efuse_map of core/efuse.c. A read or write outside an array is a `fault`.
pub mod Safe
use rtl8821ce_mac_os.Base.{ℕ, zero, suc, ◌+◌, ◌-◌, ◌*◌, ◌/◌, ◌%◌, ◌^◌, bit_and, bit_or}
use rtl8821ce_mac_os.Base.{Bool, true, false, not, ◌&&◌, ◌||◌, if◌then◌else◌, ◌==◌, ltb}
use rtl8821ce_mac_os.Base.{Option, none, some, List, length, get_elem?, set}
use rtl8821ce_mac_os.Base.Bits.{u8, u32, ◌<<<◌, ◌>>>◌}

-- The EFUSE sizes of `struct rtw_chip_info`.
pub record Sizes : Type 0 where
  pub physical : ℕ
  pub logical : ℕ
  pub protected : ℕ

-- What the decoder returns: the map, -EINVAL, an access out of an array, or out of fuel.
pub data Decoded : Type 0 where
  decoded : List ℕ → Decoded
  invalid fault unfinished : Decoded

-- The state after the four words of one block.
pub data Copied : Type 0 where
  copied : ℕ → List ℕ → Copied
  invalid fault : Copied

-- What one block leads to.
pub data Block : Type 0 where
  more : ℕ → List ℕ → Block
  stop invalid fault : Block

abbrev pub and_then : Copied → (ℕ → List ℕ → Copied) → Copied
and_then (copied p l) k = k p l
and_then Copied.invalid k = Copied.invalid
and_then Copied.fault k = Copied.fault

abbrev pub of_copied : Copied → Block
of_copied (copied p l) = more p l
of_copied Copied.invalid = Block.invalid
of_copied Copied.fault = Block.fault

abbrev pub after_block : Block → List ℕ → (ℕ → List ℕ → Decoded) → Decoded
after_block (more p l) log_map k = k p l
after_block stop log_map k = decoded log_map
after_block Block.invalid log_map k = Decoded.invalid
after_block Block.fault log_map k = Decoded.fault

unfoldable pub invalid_efuse_header : ℕ → ℕ → Bool
invalid_efuse_header hdr1 hdr2 = hdr1 == 0xff || (bit_and hdr1 0x1f == 0xf && hdr2 == 0xff)

unfoldable pub invalid_efuse_content : ℕ → ℕ → Bool
invalid_efuse_content word_en i = not (bit_and word_en (2 ^ i) == 0)

unfoldable pub get_efuse_blk_idx_2_byte : ℕ → ℕ → ℕ
get_efuse_blk_idx_2_byte hdr1 hdr2 =
    u8 (bit_or (bit_and hdr2 0xf0 >>> 1) (bit_and (hdr1 >>> 5) 0x07))

unfoldable pub get_efuse_blk_idx_1_byte : ℕ → ℕ
get_efuse_blk_idx_1_byte hdr1 = u8 (bit_and hdr1 0xf0 >>> 4)

unfoldable pub block_idx_to_logical_idx : ℕ → ℕ → ℕ
block_idx_to_logical_idx blk_idx i = (blk_idx <<< 3) + (i <<< 1)

-- `physical_size - protect_size`, on u32.
unfoldable pub scan_limit : Sizes → ℕ
scan_limit s = u32 (s.physical + 2 ^ 32 - s.protected)

-- The header at `phy_idx`: the block, its word-enable bits, and where its data begin.
pub record Header : Type 0 where
  pub blk_idx : ℕ
  pub word_en : ℕ
  pub next : ℕ

unfoldable pub parse_header : ℕ → ℕ → ℕ → Header
parse_header hdr1 hdr2 phy_idx =
    if bit_and hdr1 0x1f == 0xf
    then record {
      blk_idx = get_efuse_blk_idx_2_byte hdr1 hdr2;
      word_en = bit_and hdr2 0xf;
      next = u32 (phy_idx + 2);
    }
    else record {
      blk_idx = get_efuse_blk_idx_1_byte hdr1;
      word_en = bit_and hdr1 0xf;
      next = u32 (phy_idx + 1);
    }

module _ (sizes : Sizes) (phy_map : List ℕ) where
  -- One word: two bytes go from the physical map to the logical one.
  unfoldable pub copy_word : ℕ → ℕ → List ℕ → Copied
  copy_word log_idx phy_idx log_map = elim (get_elem? phy_map phy_idx) [
    | none ↦ Copied.fault
    | some lo ↦ elim (get_elem? phy_map (u32 (phy_idx + 1))) [
      | none ↦ Copied.fault
      | some hi ↦
          if ltb (u32 (log_idx + 1)) (length log_map)
          then copied (u32 (phy_idx + 2)) (set (set log_map log_idx lo) (log_idx + 1) hi)
          else Copied.fault
    ]
  ]

  -- One round of the loop over `i`: an erased word is skipped, and a word that does not fit
  -- both maps is refused.
  unfoldable pub word_step : ℕ → ℕ → ℕ → ℕ → List ℕ → Copied
  unfolding copy_word
  word_step blk_idx word_en i phy_idx log_map =
      let log_idx = block_idx_to_logical_idx blk_idx i in
      if invalid_efuse_content word_en i
      then copied phy_idx log_map
      else if ltb (scan_limit sizes) (u32 (phy_idx + 1)) || ltb sizes.logical (u32 (log_idx + 1))
      then Copied.invalid
      else copy_word log_idx phy_idx log_map

  -- The loop over `i`, with `left` rounds to go.
  unfoldable pub copy_words : ℕ → ℕ → ℕ → ℕ → ℕ → List ℕ → Copied
  unfolding word_step
  copy_words blk_idx word_en zero i phy_idx log_map = copied phy_idx log_map
  copy_words blk_idx word_en (suc left) i phy_idx log_map =
      and_then (word_step blk_idx word_en i phy_idx log_map)
        (copy_words blk_idx word_en left (i + 1))

  -- The block whose header bytes are `hdr1` and `hdr2`. `stop` is the `break` at an erased header.
  unfoldable pub block_body : ℕ → ℕ → ℕ → List ℕ → Block
  unfolding copy_words
  block_body hdr1 hdr2 phy_idx log_map =
      let h = parse_header hdr1 hdr2 phy_idx in
      if invalid_efuse_header hdr1 hdr2
      then stop
      else of_copied (copy_words h.blk_idx h.word_en 4 0 h.next log_map)

  -- One round of the outer loop: read both header bytes, then the block.
  unfoldable pub block_step : ℕ → List ℕ → Block
  block_step phy_idx log_map = elim (get_elem? phy_map phy_idx) [
    | none ↦ Block.fault
    | some hdr1 ↦ elim (get_elem? phy_map (u32 (phy_idx + 1))) [
      | none ↦ Block.fault
      | some hdr2 ↦ block_body hdr1 hdr2 phy_idx log_map
    ]
  ]

  -- The loop over the blocks, on fuel.
  unfoldable pub decode_blocks : ℕ → ℕ → List ℕ → Decoded
  unfolding block_step block_body
  decode_blocks zero phy_idx log_map = unfinished
  decode_blocks (suc fuel) phy_idx log_map =
      let rest = λ (p : ℕ) (l : List ℕ). decode_blocks fuel p l in
      if ltb phy_idx (scan_limit sizes)
      then after_block (block_step phy_idx log_map) log_map rest
      else decoded log_map

  -- Every round moves `phy_idx` on, so one more round than there are bytes is enough.
  unfoldable pub dump_logical_efuse_map : List ℕ → Decoded
  unfolding decode_blocks
  dump_logical_efuse_map log_map = decode_blocks (scan_limit sizes + 1) 0 log_map
