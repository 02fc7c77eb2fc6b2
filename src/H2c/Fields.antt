-- ===== src/H2c/Fields.antt =====
-- What the two packets of core/h2c.c say, read back field by field.
use rtl8821ce_mac_os.Base.{
  ℕ, ◌+◌, ◌-◌, ◌*◌, ◌/◌, ◌%◌, ◌^◌, ◌<◌, ◌≡◌, refl, ap, ◌∙◌, arith, bit_and, bit_or,
}
use rtl8821ce_mac_os.Base.{List, [], ◌∷◌, get_or, set, replicate}
use rtl8821ce_mac_os.Base.Masks.{word_of, replace_field}
use rtl8821ce_mac_os.H2c.{set_bits, set_header, general_info, phydm_info}

-- `width` bits of a word from bit `low`.
abbrev pub field : List ℕ → ℕ → ℕ → ℕ → ℕ
field pkt word low width = get_or pkt word 0 / 2 ^ low % 2 ^ width

-- set_bits on a word that is known by its parts.
set_bits_lem :
    (l w s h m lo word v : ℕ) (pkt : List ℕ)
    → 2 ^ l * 2 ^ w * 2 ^ s ≡ 2 ^ 32
    → h < 2 ^ s
    → m < 2 ^ w
    → lo < 2 ^ l
    → get_or pkt word 0 ≡ word_of l w h m lo
    → set_bits pkt word v l w ≡ set pkt word (word_of l w h (v % 2 ^ w) lo)
unfolding set_bits
set_bits_lem l w s h m lo word v pkt e hh hm hl is =
    let mask = (2 ^ w - 1) * 2 ^ l in
    ap
      (λ x.
        set pkt word (bit_or (bit_and x (2 ^ 32 - 1 - mask)) (bit_and (v * 2 ^ l % 2 ^ 32) mask)))
      is
    ∙ ap (set pkt word) (replace_field l w s h m lo v e hh hm hl)

-- A packet with its header, its length and its third word.
abbrev packet : ℕ → ℕ → ℕ → List ℕ
packet sub_id len w2 = (sub_id * 2 ^ 16 + 0xff01) ∷ len ∷ w2 ∷ 0 ∷ 0 ∷ 0 ∷ 0 ∷ 0 ∷ []

general_info_lem : (b : ℕ) → general_info b ≡ packet 0x0d 12 (b % 2 ^ 8 * 2 ^ 16)
unfolding general_info set_header set_bits
general_info_lem b =
    set_bits_lem 16 8 8 0 0 0 2 b (packet 0x0d 12 0) refl (omega arith) (omega arith) (omega arith)
      refl
    ∙ ap (packet 0x0d 12) (omega arith)

-- The third word of the second packet, one field after the other.
step :
    (l w s h m lo v a b : ℕ)
    → 2 ^ l * 2 ^ w * 2 ^ s ≡ 2 ^ 32
    → h < 2 ^ s
    → m < 2 ^ w
    → lo < 2 ^ l
    → a ≡ word_of l w h m lo
    → word_of l w h (v % 2 ^ w) lo ≡ b
    → set_bits (packet 0x11 (16 + 2 ^ 16) a) 2 v l w ≡ packet 0x11 (16 + 2 ^ 16) b
step l w s h m lo v a b e hh hm hl ea eb =
    set_bits_lem l w s h m lo 2 v (packet 0x11 (16 + 2 ^ 16) a) e hh hm hl ea
    ∙ ap (packet 0x11 (16 + 2 ^ 16)) eb

start :
    set_bits (set_bits (set_header (replicate 8 0) 0x11) 1 16 0 16) 1 1 16 16
    ≡ packet 0x11 (16 + 2 ^ 16) 0
unfolding set_bits set_header
start = refl

phydm_info_lem :
    (rfe cut : ℕ)
    → phydm_info rfe cut
      ≡ packet 0x11 (16 + 2 ^ 16) (rfe % 2 ^ 8 + 4 * 2 ^ 8 + cut % 2 ^ 8 * 2 ^ 16 + 2 ^ 24 + 2 ^ 28)
unfolding phydm_info
phydm_info_lem rfe cut =
    let r = rfe % 2 ^ 8 in
    let c = cut % 2 ^ 8 in
    let w3 = r + 4 * 2 ^ 8 + c * 2 ^ 16 in
    let ant : List ℕ → List ℕ = λ p. set_bits (set_bits p 2 1 24 4) 2 1 28 4 in
    ap (λ p. ant (set_bits (set_bits (set_bits p 2 rfe 0 8) 2 4 8 8) 2 cut 16 8)) start
    ∙ ap (λ p. ant (set_bits (set_bits p 2 4 8 8) 2 cut 16 8))
        (step 0 8 24 0 0 0 rfe 0 r refl (omega arith) (omega arith) (omega arith) refl
          (omega arith))
    ∙ ap (λ p. ant (set_bits p 2 cut 16 8))
        (step 8 8 16 0 0 r 4 r (r + 4 * 2 ^ 8) refl (omega arith) (omega arith) (omega arith)
          (omega arith) (omega arith))
    ∙ ap ant (
        step 16 8 8 0 0 (r + 4 * 2 ^ 8) cut (r + 4 * 2 ^ 8) w3 refl (omega arith) (omega arith)
          (omega arith) (omega arith) (omega arith))
    ∙ ap (λ p. set_bits p 2 1 28 4)
        (step 24 4 4 0 0 w3 1 w3 (w3 + 2 ^ 24) refl (omega arith) (omega arith) (omega arith)
          (omega arith) (omega arith))
    ∙ step 28 4 0 0 0 (w3 + 2 ^ 24) 1 (w3 + 2 ^ 24) (w3 + 2 ^ 24 + 2 ^ 28) refl (omega arith)
        (omega arith) (omega arith) (omega arith) (omega arith)

-- Both packets, read back field by field, say what they were built from: the category, the command
-- and the sub-command of the header, and the length; the first the low byte of the TX boundary
-- of the firmware; the second the low bytes of the RFE option and of the cut, the RF type 1T1R and
-- one antenna each way.
pub packets-fields :
    (boundary rfe cut : ℕ)
    → let g = general_info boundary in
      let p = phydm_info rfe cut in
      (field g 0 0 7 ≡ 1)
      × (field g 0 8 8 ≡ 0xff)
      × (field g 0 16 16 ≡ 0x0d)
      × (field g 1 0 16 ≡ 12)
      × (field g 2 16 8 ≡ boundary % 2 ^ 8)
      × (field p 0 0 7 ≡ 1)
      × (field p 0 8 8 ≡ 0xff)
      × (field p 0 16 16 ≡ 0x11)
      × (field p 1 0 16 ≡ 16)
      × (field p 2 0 8 ≡ rfe % 2 ^ 8)
      × (field p 2 8 8 ≡ 4)
      × (field p 2 16 8 ≡ cut % 2 ^ 8)
      × (field p 2 24 4 ≡ 1)
      × (field p 2 28 4 ≡ 1)
packets-fields boundary rfe cut =
    let r = rfe % 2 ^ 8 in
    let c = cut % 2 ^ 8 in
    rw (general_info_lem boundary, phydm_info_lem rfe cut)
      (
        refl,
        refl,
        refl,
        refl,
        omega arith,
        refl,
        refl,
        refl,
        refl,
        omega arith,
        omega arith,
        omega arith,
        omega arith,
        omega arith,
      )
