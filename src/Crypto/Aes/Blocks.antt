-- ===== src/Crypto/Aes/Blocks.antt =====
-- The steps of a round of AES as functions on blocks of sixteen bytes, each with its inverse, and
-- the round keys as bytes.
use rtl8821ce_mac_os.Base.{ℕ, zero, suc, ◌-◌, ◌*◌, ◌/◌, ◌%◌, ◌<◌, ◌≡◌, refl, ap, ap₂, ◌∙◌, arith}
use rtl8821ce_mac_os.Base.{if◌then◌else◌, ◌==◌, Bool, true, false, List, [], ◌∷◌}
use rtl8821ce_mac_os.Base.{take, drop, get_or, length}
use rtl8821ce_mac_os.Base.Bits.{bit_xor-lt}
use rtl8821ce_mac_os.Base.Bytes.{
  AreBytes, are_bytes, are_bytes→AreBytes, tabulate, tabulate-get_or, take-all, get_or-lt,
  xor_into-AreBytes, AreBytes-append, take-AreBytes, drop-AreBytes,
}
use rtl8821ce_mac_os.Base.Xor.{agree_below, agree_below→eq}
use rtl8821ce_mac_os.Crypto.Aes.{
  sbox, rsbox, rcon, build_from, mix_columns, shift_rows, inv_shift_rows, sub_bytes, inv_sub_bytes,
  pick, shift_order, key_core, expand_step, expand_from, aes128_expand,
}
use rtl8821ce_mac_os.Crypto.Aes.Field.{mul-lt, xor4-lt}

-- The inverse S-box of FIPS 197.
abbrev fips_inv_sbox : List ℕ
fips_inv_sbox =
    0x52 ∷ 0x9 ∷ 0x6a ∷ 0xd5 ∷ 0x30 ∷ 0x36 ∷ 0xa5 ∷ 0x38 ∷ 0xbf ∷ 0x40 ∷ 0xa3 ∷ 0x9e ∷ 0x81 ∷ 0xf3
    ∷ 0xd7 ∷ 0xfb ∷ 0x7c ∷ 0xe3 ∷ 0x39 ∷ 0x82 ∷ 0x9b ∷ 0x2f ∷ 0xff ∷ 0x87 ∷ 0x34 ∷ 0x8e ∷ 0x43
    ∷ 0x44 ∷ 0xc4 ∷ 0xde ∷ 0xe9 ∷ 0xcb ∷ 0x54 ∷ 0x7b ∷ 0x94 ∷ 0x32 ∷ 0xa6 ∷ 0xc2 ∷ 0x23 ∷ 0x3d
    ∷ 0xee ∷ 0x4c ∷ 0x95 ∷ 0xb ∷ 0x42 ∷ 0xfa ∷ 0xc3 ∷ 0x4e ∷ 0x8 ∷ 0x2e ∷ 0xa1 ∷ 0x66 ∷ 0x28 ∷ 0xd9
    ∷ 0x24 ∷ 0xb2 ∷ 0x76 ∷ 0x5b ∷ 0xa2 ∷ 0x49 ∷ 0x6d ∷ 0x8b ∷ 0xd1 ∷ 0x25 ∷ 0x72 ∷ 0xf8 ∷ 0xf6
    ∷ 0x64 ∷ 0x86 ∷ 0x68 ∷ 0x98 ∷ 0x16 ∷ 0xd4 ∷ 0xa4 ∷ 0x5c ∷ 0xcc ∷ 0x5d ∷ 0x65 ∷ 0xb6 ∷ 0x92
    ∷ 0x6c ∷ 0x70 ∷ 0x48 ∷ 0x50 ∷ 0xfd ∷ 0xed ∷ 0xb9 ∷ 0xda ∷ 0x5e ∷ 0x15 ∷ 0x46 ∷ 0x57 ∷ 0xa7
    ∷ 0x8d ∷ 0x9d ∷ 0x84 ∷ 0x90 ∷ 0xd8 ∷ 0xab ∷ 0x0 ∷ 0x8c ∷ 0xbc ∷ 0xd3 ∷ 0xa ∷ 0xf7 ∷ 0xe4 ∷ 0x58
    ∷ 0x5 ∷ 0xb8 ∷ 0xb3 ∷ 0x45 ∷ 0x6 ∷ 0xd0 ∷ 0x2c ∷ 0x1e ∷ 0x8f ∷ 0xca ∷ 0x3f ∷ 0xf ∷ 0x2 ∷ 0xc1
    ∷ 0xaf ∷ 0xbd ∷ 0x3 ∷ 0x1 ∷ 0x13 ∷ 0x8a ∷ 0x6b ∷ 0x3a ∷ 0x91 ∷ 0x11 ∷ 0x41 ∷ 0x4f ∷ 0x67 ∷ 0xdc
    ∷ 0xea ∷ 0x97 ∷ 0xf2 ∷ 0xcf ∷ 0xce ∷ 0xf0 ∷ 0xb4 ∷ 0xe6 ∷ 0x73 ∷ 0x96 ∷ 0xac ∷ 0x74 ∷ 0x22
    ∷ 0xe7 ∷ 0xad ∷ 0x35 ∷ 0x85 ∷ 0xe2 ∷ 0xf9 ∷ 0x37 ∷ 0xe8 ∷ 0x1c ∷ 0x75 ∷ 0xdf ∷ 0x6e ∷ 0x47
    ∷ 0xf1 ∷ 0x1a ∷ 0x71 ∷ 0x1d ∷ 0x29 ∷ 0xc5 ∷ 0x89 ∷ 0x6f ∷ 0xb7 ∷ 0x62 ∷ 0xe ∷ 0xaa ∷ 0x18 ∷ 0xbe
    ∷ 0x1b ∷ 0xfc ∷ 0x56 ∷ 0x3e ∷ 0x4b ∷ 0xc6 ∷ 0xd2 ∷ 0x79 ∷ 0x20 ∷ 0x9a ∷ 0xdb ∷ 0xc0 ∷ 0xfe
    ∷ 0x78 ∷ 0xcd ∷ 0x5a ∷ 0xf4 ∷ 0x1f ∷ 0xdd ∷ 0xa8 ∷ 0x33 ∷ 0x88 ∷ 0x7 ∷ 0xc7 ∷ 0x31 ∷ 0xb1 ∷ 0x12
    ∷ 0x10 ∷ 0x59 ∷ 0x27 ∷ 0x80 ∷ 0xec ∷ 0x5f ∷ 0x60 ∷ 0x51 ∷ 0x7f ∷ 0xa9 ∷ 0x19 ∷ 0xb5 ∷ 0x4a ∷ 0xd
    ∷ 0x2d ∷ 0xe5 ∷ 0x7a ∷ 0x9f ∷ 0x93 ∷ 0xc9 ∷ 0x9c ∷ 0xef ∷ 0xa0 ∷ 0xe0 ∷ 0x3b ∷ 0x4d ∷ 0xae
    ∷ 0x2a ∷ 0xf5 ∷ 0xb0 ∷ 0xc8 ∷ 0xeb ∷ 0xbb ∷ 0x3c ∷ 0x83 ∷ 0x53 ∷ 0x99 ∷ 0x61 ∷ 0x17 ∷ 0x2b ∷ 0x4
    ∷ 0x7e ∷ 0xba ∷ 0x77 ∷ 0xd6 ∷ 0x26 ∷ 0xe1 ∷ 0x69 ∷ 0x14 ∷ 0x63 ∷ 0x55 ∷ 0x21 ∷ 0xc ∷ 0x7d ∷ []

pub rsbox-fips_inv_sbox : rsbox ≡ fips_inv_sbox
unfolding rsbox build_from
rsbox-fips_inv_sbox = refl

sbox_inverse : (x : ℕ) → x < 256 → get_or fips_inv_sbox (get_or sbox x 0) 0 ≡ x
unfolding agree_below
sbox_inverse = agree_below→eq (λ x. get_or fips_inv_sbox (get_or sbox x 0) 0) (λ x. x) 256 refl

pub inv_sub_bytes-sub_bytes : (s : List ℕ) → AreBytes s → inv_sub_bytes (sub_bytes s) ≡ s
unfolding inv_sub_bytes sub_bytes
inv_sub_bytes-sub_bytes [] h = refl
inv_sub_bytes-sub_bytes (x ∷ s) h =
    ap₂ ◌∷◌ (ap (λ t. get_or t (get_or sbox x 0) 0) rsbox-fips_inv_sbox ∙ sbox_inverse x h.0)
      (inv_sub_bytes-sub_bytes s h.1)

pub inv_shift_rows-shift_rows : (s : List ℕ) → length s ≡ 16 → inv_shift_rows (shift_rows s) ≡ s
unfolding inv_shift_rows shift_rows pick tabulate
inv_shift_rows-shift_rows s h = tabulate-get_or 16 s (omega arith) ∙ take-all 16 s (omega arith)

-- A block of the cipher.
abbrev pub IsBlock16 : List ℕ → Type 0
IsBlock16 s = (length s ≡ 16) × AreBytes s

pick-AreBytes : (is s : List ℕ) → AreBytes s → AreBytes (pick is s)
unfolding pick
pick-AreBytes [] s h = tt
pick-AreBytes (i ∷ is) s h = (get_or-lt s i h, pick-AreBytes is s h)

length-pick : (is s : List ℕ) → length (pick is s) ≡ length is
unfolding pick
length-pick [] s = refl
length-pick (i ∷ is) s = ap suc (length-pick is s)

pub shift_rows-IsBlock16 : (s : List ℕ) → AreBytes s → IsBlock16 (shift_rows s)
unfolding shift_rows
shift_rows-IsBlock16 s h = (length-pick shift_order s, pick-AreBytes shift_order s h)

sbox-AreBytes : AreBytes sbox
unfolding are_bytes
sbox-AreBytes = are_bytes→AreBytes sbox refl

rcon-AreBytes : AreBytes rcon
unfolding are_bytes
rcon-AreBytes = are_bytes→AreBytes rcon refl

pub sub_bytes-IsBlock : (s : List ℕ) → (length (sub_bytes s) ≡ length s) × AreBytes (sub_bytes s)
unfolding sub_bytes
sub_bytes-IsBlock [] = (refl, tt)
sub_bytes-IsBlock (x ∷ s) =
    let rest = sub_bytes-IsBlock s in (ap suc rest.0, (get_or-lt sbox x sbox-AreBytes, rest.1))

pub mix_columns-IsBlock :
    (s : List ℕ) → AreBytes s → (length (mix_columns s) ≡ length s) × AreBytes (mix_columns s)
unfolding mix_columns
mix_columns-IsBlock [] h = (refl, h)
mix_columns-IsBlock (a ∷ []) h = (refl, h)
mix_columns-IsBlock (a ∷ b ∷ []) h = (refl, h)
mix_columns-IsBlock (a ∷ b ∷ c ∷ []) h = (refl, h)
mix_columns-IsBlock (a ∷ b ∷ c ∷ d ∷ t) h =
    let rest = mix_columns-IsBlock t h.1.1.1.1 in
    let p = h.0 in
    let q = h.1.0 in
    let r = h.1.1.0 in
    let s = h.1.1.1.0 in
    (
      ap (λ n. suc (suc (suc (suc n)))) rest.0,
      (
        xor4-lt _ _ _ _ (mul-lt a 2 p) (mul-lt b 3 q) r s,
        (
          xor4-lt _ _ _ _ p (mul-lt b 2 q) (mul-lt c 3 r) s,
          (
            xor4-lt _ _ _ _ p q (mul-lt c 2 r) (mul-lt d 3 s),
            (xor4-lt _ _ _ _ (mul-lt a 3 p) q r (mul-lt d 2 s), rest.1),
          ),
        ),
      ),
    )

-- The round keys are bytes.
key_core-AreBytes : (i : ℕ) (t : List ℕ) → AreBytes (key_core i t)
unfolding key_core
key_core-AreBytes i t =
    let in_box : (k : ℕ) → get_or sbox k 0 < 256 = λ k. get_or-lt sbox k sbox-AreBytes in
    let in_rcon : get_or rcon (i / 4 - 1) 0 < 256 = get_or-lt rcon (i / 4 - 1) rcon-AreBytes in
    (
      bit_xor-lt 8 _ _ (in_box (get_or t 1 0)) in_rcon,
      (in_box (get_or t 2 0), (in_box (get_or t 3 0), (in_box (get_or t 0 0), tt))),
    )

choice-AreBytes :
    (b : Bool) (xs ys : List ℕ) → AreBytes xs → AreBytes ys → AreBytes (if b then xs else ys)
choice-AreBytes true xs ys p q = p
choice-AreBytes false xs ys p q = q

expand_step-AreBytes : (i : ℕ) (rk : List ℕ) → AreBytes rk → AreBytes (expand_step i rk)
unfolding expand_step
expand_step-AreBytes i rk h =
    let slice : (k : ℕ) → AreBytes (take 4 (drop (k * 4) rk)) =
      λ k. take-AreBytes 4 (drop (k * 4) rk) (drop-AreBytes (k * 4) rk h) in
    let t = take 4 (drop ((i - 1) * 4) rk) in
    AreBytes-append rk _ h (
      xor_into-AreBytes _ _ (slice (i - 4))
        (choice-AreBytes (i % 4 == 0) (key_core i t) t (key_core-AreBytes i t) (slice (i - 1))))

expand_from-AreBytes : (n i : ℕ) (rk : List ℕ) → AreBytes rk → AreBytes (expand_from n i rk)
unfolding expand_from
expand_from-AreBytes zero i rk h = h
expand_from-AreBytes (suc n) i rk h =
    expand_from-AreBytes n (suc i) (expand_step i rk) (expand_step-AreBytes i rk h)

pub aes128_expand-AreBytes : (key : List ℕ) → AreBytes key → AreBytes (aes128_expand key)
unfolding aes128_expand
aes128_expand-AreBytes key h = expand_from-AreBytes 40 4 (take 16 key) (take-AreBytes 16 key h)
