-- ===== src/Efuse/Decode/Safe.antt =====
-- Memory safety and termination of the EFUSE decoder.
use rtl8821ce_mac_os.Base.{ℕ, zero, suc, ◌+◌, ◌*◌, ◌%◌, ◌^◌, ◌≤◌, ◌<◌, ◌≡◌, refl, arith, min}
use rtl8821ce_mac_os.Base.{Bool-cases, ltb→lt, inl, inr, ltb}
use rtl8821ce_mac_os.Base.{List, length, get_or, set, length-set}
use rtl8821ce_mac_os.Base.{get_elem?-eq-get_or}
use rtl8821ce_mac_os.Efuse.Decode.{
  Sizes, Decoded, decoded, unfinished, Copied, copied, parse_header, scan_limit,
  invalid_efuse_header, get_efuse_blk_idx_1_byte, get_efuse_blk_idx_2_byte,
  block_idx_to_logical_idx, word_step, block_body, block_step, Block, more, stop, and_then,
  of_copied, after_block, copy_word, copy_words, decode_blocks, dump_logical_efuse_map,
}

-- The sizes fit the arrays: some bytes are protected, and the logical map holds whole words.
pub record Fit (s : Sizes) (phy_map log_map : List ℕ) : Type 0 where
  pub physical : length phy_map ≡ s.physical
  pub logical : length log_map ≡ s.logical
  pub some_protected : 1 ≤ s.protected
  pub protected_fits : s.protected ≤ s.physical
  pub whole_words : s.logical % 2 ≡ 0
  pub small : s.physical < 2 ^ 31

scan_limit-lt : {s : Sizes} {phy log : List ℕ} → Fit s phy log → scan_limit s < length phy
unfolding scan_limit
scan_limit-lt f = omega arith

-- What a word or a block of words may do: move on within the scanned part, or be refused.
abbrev CopyStays : Sizes → ℕ → Copied → Type 0
CopyStays s start (copied p l) = (start ≤ p) × (p ≤ scan_limit s + 1) × (length l ≡ s.logical)
CopyStays s start Copied.invalid = Unit {0}
CopyStays s start Copied.fault = ⊥

-- What the whole decoder may do: deliver a map of the same size, or refuse.
abbrev pub DecodeStays : Sizes → Decoded → Type 0
DecodeStays s (decoded l) = length l ≡ s.logical
DecodeStays s Decoded.invalid = Unit {0}
DecodeStays s Decoded.fault = ⊥
DecodeStays s unfinished = ⊥

abbrev BlockStays : Sizes → ℕ → Block → Type 0
BlockStays s start (more p l) = (start < p) × (p ≤ scan_limit s + 1) × (length l ≡ s.logical)
BlockStays s start stop = Unit {0}
BlockStays s start Block.invalid = Unit {0}
BlockStays s start Block.fault = ⊥

CopyStays-weaken : (s : Sizes) (p q : ℕ) (c : Copied) → p ≤ q → CopyStays s q c → CopyStays s p c
CopyStays-weaken s p q (copied r l) h k = (omega arith, k.1, k.2)
CopyStays-weaken s p q Copied.invalid h k = tt
CopyStays-weaken s p q Copied.fault h k = k

and_then-stays :
    (s : Sizes) (p : ℕ) (c : Copied) (k : ℕ → List ℕ → Copied)
    → CopyStays s p c
    → ((q : ℕ) (l : List ℕ) → q ≤ scan_limit s + 1 → length l ≡ s.logical → CopyStays s q (k q l))
    → CopyStays s p (and_then c k)
and_then-stays s p (copied q l) k h rest = CopyStays-weaken s p q (k q l) h.0 (rest q l h.1 h.2)
and_then-stays s p Copied.invalid k h rest = tt
and_then-stays s p Copied.fault k h rest = h

of_copied-stays :
    (s : Sizes) (p q : ℕ) (c : Copied) → p < q → CopyStays s q c → BlockStays s p (of_copied c)
of_copied-stays s p q (copied r l) lt h = (omega arith, h.1, h.2)
of_copied-stays s p q Copied.invalid lt h = tt
of_copied-stays s p q Copied.fault lt h = h

parse_header-lem :
    (hdr1 hdr2 p : ℕ)
    → p < 2 ^ 31
    → (p < (parse_header hdr1 hdr2 p).next)
      × ((parse_header hdr1 hdr2 p).next ≤ p + 2)
      × ((parse_header hdr1 hdr2 p).blk_idx < 256)
unfolding parse_header get_efuse_blk_idx_1_byte get_efuse_blk_idx_2_byte
parse_header-lem hdr1 hdr2 p h = ground arith

after_block-stays :
    (s : Sizes) (p : ℕ) (log : List ℕ) (b : Block) (k : ℕ → List ℕ → Decoded)
    → length log ≡ s.logical
    → BlockStays s p b
    → ((q : ℕ) (l : List ℕ)
        → p < q
        → q ≤ scan_limit s + 1
        → length l ≡ s.logical
        → DecodeStays s (k q l))
    → DecodeStays s (after_block b log k)
after_block-stays s p log (more q l) k e h rest = rest q l h.0 h.1 h.2
after_block-stays s p log stop k e h rest = e
after_block-stays s p log Block.invalid k e h rest = tt
after_block-stays s p log Block.fault k e h rest = h

Fit-step :
    {s : Sizes} {phy log log' : List ℕ} → Fit s phy log → length log' ≡ s.logical → Fit s phy log'
Fit-step f e = record {
  physical = f.physical;
  logical = e;
  some_protected = f.some_protected;
  protected_fits = f.protected_fits;
  whole_words = f.whole_words;
  small = f.small;
}

module _ (s : Sizes) (phy : List ℕ) where
  copy_word-stays :
      (log_idx p : ℕ) (log : List ℕ)
      → Fit s phy log
      → p + 1 ≤ scan_limit s
      → log_idx + 1 < s.logical
      → log_idx < 2 ^ 31
      → CopyStays s p (copy_word s phy log_idx p log)
  unfolding copy_word
  copy_word-stays log_idx p log f hp hl hs = ground (
    arith,
    scan_limit-lt f,
    get_elem?-eq-get_or phy p 0,
    get_elem?-eq-get_or phy (p + 1) 0,
    length-set log log_idx (get_or phy p 0),
    length-set (set log log_idx (get_or phy p 0)) (log_idx + 1) (get_or phy (p + 1) 0),
  )

  word_step-stays :
      (blk word_en i p : ℕ) (log : List ℕ)
      → Fit s phy log
      → blk < 256
      → i < 4
      → p ≤ scan_limit s + 1
      → CopyStays s p (word_step s phy blk word_en i p log)
  unfolding word_step block_idx_to_logical_idx
  word_step-stays blk word_en i p log f hb hi hp =
      ground (arith, scan_limit-lt f, copy_word-stays (blk * 8 + i * 2) p log f)

  -- From a start within the scanned part, the words of a block stay within both maps.
  copy_words-stays :
      (blk word_en left i p : ℕ) (log : List ℕ)
      → Fit s phy log
      → blk < 256
      → i + left ≡ 4
      → p ≤ scan_limit s + 1
      → CopyStays s p (copy_words s phy blk word_en left i p log)
  unfolding copy_words
  copy_words-stays blk word_en zero i p log f hb hi hp = (omega arith, hp, f.logical)
  copy_words-stays blk word_en (suc left) i p log f hb hi hp =
      and_then-stays s p (word_step s phy blk word_en i p log) _
        (word_step-stays blk word_en i p log f hb (omega arith) hp)
        (λ q l hq e.
          copy_words-stays blk word_en left (i + 1) q l (Fit-step f e) hb (omega arith) hq)

  block_body-stays :
      (hdr1 hdr2 p : ℕ) (log : List ℕ)
      → Fit s phy log
      → p < scan_limit s
      → BlockStays s p (block_body s phy hdr1 hdr2 p log)
  unfolding block_body
  block_body-stays hdr1 hdr2 p log f hp =
      let h = parse_header-lem hdr1 hdr2 p (omega (arith, scan_limit-lt f)) in
      let words =
        of_copied-stays s p _ _ h.0 (copy_words-stays _ _ 4 0 _ log f h.2 refl (omega arith)) in
      elim (Bool-cases (invalid_efuse_header hdr1 hdr2)) [
        | inl bad ↦ rw bad tt
        | inr good ↦ rw good words
      ]

  block_step-stays :
      (p : ℕ) (log : List ℕ)
      → Fit s phy log
      → p < scan_limit s
      → BlockStays s p (block_step s phy p log)
  unfolding block_step
  block_step-stays p log f hp = ground (
    arith,
    scan_limit-lt f,
    get_elem?-eq-get_or phy p 0,
    get_elem?-eq-get_or phy (p + 1) 0,
    block_body-stays (get_or phy p 0) (get_or phy (p + 1) 0) p log f hp,
  )

  decode_blocks-safe :
      (fuel p : ℕ) (log : List ℕ)
      → Fit s phy log
      → scan_limit s < min p (scan_limit s) + fuel
      → p ≤ scan_limit s + 1
      → DecodeStays s (decode_blocks s phy fuel p log)
  unfolding decode_blocks
  decode_blocks-safe zero p log f enough hp = absurd (omega arith)
  decode_blocks-safe (suc fuel) p log f enough hp = elim (Bool-cases (ltb p (scan_limit s))) [
    | inl within ↦ rw within (
        after_block-stays s p log (block_step s phy p log) _ f.logical
          (block_step-stays p log f (ltb→lt _ _ within))
          (λ q l lt hq e.
            decode_blocks-safe fuel q l (Fit-step f e)
              (omega (arith, ltb→lt p (scan_limit s) within)) hq))
    | inr past ↦ rw past f.logical
  ]

-- For any contents of the EFUSE and any sizes that fit the arrays, the decoder ends, reads and
-- writes inside the two maps only, and either delivers a map of the same size or refuses.
pub dump_logical_efuse_map-safe :
    (s : Sizes) (phy_map log_map : List ℕ)
    → Fit s phy_map log_map
    → DecodeStays s (dump_logical_efuse_map s phy_map log_map)
unfolding dump_logical_efuse_map
dump_logical_efuse_map-safe s phy_map log_map f =
    decode_blocks-safe s phy_map (scan_limit s + 1) 0 log_map f (omega arith) (omega arith)
