-- ===== src/Crypto/Aes.antt =====
-- AES-128 of crypto/rtw_crypto.c, one block at a time: the tables, the key expansion, encryption
-- and decryption. The arrays s, t and rk are lists.
mod Field
mod Columns
mod Blocks
pub mod Inverse
use rtl8821ce_mac_os.Base.{ℕ, zero, suc, ◌+◌, ◌-◌, ◌*◌, ◌/◌, ◌%◌, ◌^◌, bit_and, bit_xor}
use rtl8821ce_mac_os.Base.{if◌then◌else◌, ◌==◌, not, List, [], ◌∷◌, ◌++◌, map}
use rtl8821ce_mac_os.Base.{take, drop, get_or, set, replicate}
use rtl8821ce_mac_os.Base.Bits.{u8, ◌<<<◌, ◌>>>◌}
use rtl8821ce_mac_os.Base.Bytes.{xor_into}

abbrev pub sbox : List ℕ
sbox =
    0x63 ∷ 0x7c ∷ 0x77 ∷ 0x7b ∷ 0xf2 ∷ 0x6b ∷ 0x6f ∷ 0xc5 ∷ 0x30 ∷ 0x1 ∷ 0x67 ∷ 0x2b ∷ 0xfe ∷ 0xd7
    ∷ 0xab ∷ 0x76 ∷ 0xca ∷ 0x82 ∷ 0xc9 ∷ 0x7d ∷ 0xfa ∷ 0x59 ∷ 0x47 ∷ 0xf0 ∷ 0xad ∷ 0xd4 ∷ 0xa2
    ∷ 0xaf ∷ 0x9c ∷ 0xa4 ∷ 0x72 ∷ 0xc0 ∷ 0xb7 ∷ 0xfd ∷ 0x93 ∷ 0x26 ∷ 0x36 ∷ 0x3f ∷ 0xf7 ∷ 0xcc
    ∷ 0x34 ∷ 0xa5 ∷ 0xe5 ∷ 0xf1 ∷ 0x71 ∷ 0xd8 ∷ 0x31 ∷ 0x15 ∷ 0x4 ∷ 0xc7 ∷ 0x23 ∷ 0xc3 ∷ 0x18 ∷ 0x96
    ∷ 0x5 ∷ 0x9a ∷ 0x7 ∷ 0x12 ∷ 0x80 ∷ 0xe2 ∷ 0xeb ∷ 0x27 ∷ 0xb2 ∷ 0x75 ∷ 0x9 ∷ 0x83 ∷ 0x2c ∷ 0x1a
    ∷ 0x1b ∷ 0x6e ∷ 0x5a ∷ 0xa0 ∷ 0x52 ∷ 0x3b ∷ 0xd6 ∷ 0xb3 ∷ 0x29 ∷ 0xe3 ∷ 0x2f ∷ 0x84 ∷ 0x53
    ∷ 0xd1 ∷ 0x0 ∷ 0xed ∷ 0x20 ∷ 0xfc ∷ 0xb1 ∷ 0x5b ∷ 0x6a ∷ 0xcb ∷ 0xbe ∷ 0x39 ∷ 0x4a ∷ 0x4c ∷ 0x58
    ∷ 0xcf ∷ 0xd0 ∷ 0xef ∷ 0xaa ∷ 0xfb ∷ 0x43 ∷ 0x4d ∷ 0x33 ∷ 0x85 ∷ 0x45 ∷ 0xf9 ∷ 0x2 ∷ 0x7f ∷ 0x50
    ∷ 0x3c ∷ 0x9f ∷ 0xa8 ∷ 0x51 ∷ 0xa3 ∷ 0x40 ∷ 0x8f ∷ 0x92 ∷ 0x9d ∷ 0x38 ∷ 0xf5 ∷ 0xbc ∷ 0xb6
    ∷ 0xda ∷ 0x21 ∷ 0x10 ∷ 0xff ∷ 0xf3 ∷ 0xd2 ∷ 0xcd ∷ 0xc ∷ 0x13 ∷ 0xec ∷ 0x5f ∷ 0x97 ∷ 0x44 ∷ 0x17
    ∷ 0xc4 ∷ 0xa7 ∷ 0x7e ∷ 0x3d ∷ 0x64 ∷ 0x5d ∷ 0x19 ∷ 0x73 ∷ 0x60 ∷ 0x81 ∷ 0x4f ∷ 0xdc ∷ 0x22
    ∷ 0x2a ∷ 0x90 ∷ 0x88 ∷ 0x46 ∷ 0xee ∷ 0xb8 ∷ 0x14 ∷ 0xde ∷ 0x5e ∷ 0xb ∷ 0xdb ∷ 0xe0 ∷ 0x32 ∷ 0x3a
    ∷ 0xa ∷ 0x49 ∷ 0x6 ∷ 0x24 ∷ 0x5c ∷ 0xc2 ∷ 0xd3 ∷ 0xac ∷ 0x62 ∷ 0x91 ∷ 0x95 ∷ 0xe4 ∷ 0x79 ∷ 0xe7
    ∷ 0xc8 ∷ 0x37 ∷ 0x6d ∷ 0x8d ∷ 0xd5 ∷ 0x4e ∷ 0xa9 ∷ 0x6c ∷ 0x56 ∷ 0xf4 ∷ 0xea ∷ 0x65 ∷ 0x7a
    ∷ 0xae ∷ 0x8 ∷ 0xba ∷ 0x78 ∷ 0x25 ∷ 0x2e ∷ 0x1c ∷ 0xa6 ∷ 0xb4 ∷ 0xc6 ∷ 0xe8 ∷ 0xdd ∷ 0x74 ∷ 0x1f
    ∷ 0x4b ∷ 0xbd ∷ 0x8b ∷ 0x8a ∷ 0x70 ∷ 0x3e ∷ 0xb5 ∷ 0x66 ∷ 0x48 ∷ 0x3 ∷ 0xf6 ∷ 0xe ∷ 0x61 ∷ 0x35
    ∷ 0x57 ∷ 0xb9 ∷ 0x86 ∷ 0xc1 ∷ 0x1d ∷ 0x9e ∷ 0xe1 ∷ 0xf8 ∷ 0x98 ∷ 0x11 ∷ 0x69 ∷ 0xd9 ∷ 0x8e
    ∷ 0x94 ∷ 0x9b ∷ 0x1e ∷ 0x87 ∷ 0xe9 ∷ 0xce ∷ 0x55 ∷ 0x28 ∷ 0xdf ∷ 0x8c ∷ 0xa1 ∷ 0x89 ∷ 0xd ∷ 0xbf
    ∷ 0xe6 ∷ 0x42 ∷ 0x68 ∷ 0x41 ∷ 0x99 ∷ 0x2d ∷ 0xf ∷ 0xb0 ∷ 0x54 ∷ 0xbb ∷ 0x16 ∷ []

-- `for (int i = 0; i < 256; i++) rsbox[sbox[i]] = i`, at the `i` that the list of values starts
-- with. The flag rsbox_ready only saves a second run of the loop.
unfoldable pub build_from : ℕ → List ℕ → List ℕ → List ℕ
build_from i [] table = table
build_from i (v ∷ vs) table = build_from (suc i) vs (set table v (u8 i))

unfoldable pub rsbox : List ℕ
unfolding build_from
rsbox = build_from 0 sbox (replicate 256 0)

unfoldable pub xtime : ℕ → ℕ
xtime x = u8 (bit_xor (x <<< 1) ((x >>> 7) * 0x1b))

-- `while (b)`, with a bound on the bits of `b`.
unfoldable pub mul_loop : ℕ → ℕ → ℕ → ℕ → ℕ
unfolding xtime
mul_loop zero r a b = r
mul_loop (suc n) r a b =
    if b == 0
    then r
    else mul_loop n (if bit_and b 1 == 0 then r else bit_xor r a) (xtime a) (b >>> 1)

-- A byte has eight bits.
unfoldable pub mul : ℕ → ℕ → ℕ
unfolding mul_loop
mul a b = mul_loop 8 0 a b

abbrev pub rcon : List ℕ
rcon = 0x01 ∷ 0x02 ∷ 0x04 ∷ 0x08 ∷ 0x10 ∷ 0x20 ∷ 0x40 ∷ 0x80 ∷ 0x1b ∷ 0x36 ∷ []

-- The four bytes of `t` when `i % 4 == 0`.
unfoldable pub key_core : ℕ → List ℕ → List ℕ
key_core i t =
    bit_xor (get_or sbox (get_or t 1 0) 0) (get_or rcon (i / 4 - 1) 0)
    ∷ get_or sbox (get_or t 2 0) 0
    ∷ get_or sbox (get_or t 3 0) 0
    ∷ get_or sbox (get_or t 0 0) 0
    ∷ []

-- The body for one `i`. `rk` is as long as the loop has written it.
unfoldable pub expand_step : ℕ → List ℕ → List ℕ
unfolding key_core xor_into
expand_step i rk =
    let t = take 4 (drop ((i - 1) * 4) rk) in
    rk ++ xor_into (take 4 (drop ((i - 4) * 4) rk)) (if i % 4 == 0 then key_core i t else t)

-- `for (i = 4; i < 44; i++)`, from `i` with `n` rounds to go.
unfoldable pub expand_from : ℕ → ℕ → List ℕ → List ℕ
unfolding expand_step
expand_from zero i rk = rk
expand_from (suc n) i rk = expand_from n (suc i) (expand_step i rk)

unfoldable pub aes128_expand : List ℕ → List ℕ
unfolding expand_from
aes128_expand key = expand_from 40 4 (take 16 key)

-- `s[i] ^= rk[i]` with the round key at `rk + r*16`.
unfoldable pub add_rk : List ℕ → List ℕ → ℕ → List ℕ
unfolding xor_into
add_rk s rk r = xor_into s (take 16 (drop (r * 16) rk))

unfoldable pub sub_bytes : List ℕ → List ℕ
sub_bytes s = map (λ x. get_or sbox x 0) s

unfoldable pub inv_sub_bytes : List ℕ → List ℕ
unfolding rsbox
inv_sub_bytes t = map (λ x. get_or rsbox x 0) t

-- The new state as the bytes of the old one that it takes.
unfoldable pub pick : List ℕ → List ℕ → List ℕ
pick [] s = []
pick (i ∷ is) s = get_or s i 0 ∷ pick is s

abbrev pub shift_order : List ℕ
shift_order = 0 ∷ 5 ∷ 10 ∷ 15 ∷ 4 ∷ 9 ∷ 14 ∷ 3 ∷ 8 ∷ 13 ∷ 2 ∷ 7 ∷ 12 ∷ 1 ∷ 6 ∷ 11 ∷ []

unfoldable pub shift_rows : List ℕ → List ℕ
unfolding pick
shift_rows s = pick shift_order s

abbrev pub inv_shift_order : List ℕ
inv_shift_order = 0 ∷ 13 ∷ 10 ∷ 7 ∷ 4 ∷ 1 ∷ 14 ∷ 11 ∷ 8 ∷ 5 ∷ 2 ∷ 15 ∷ 12 ∷ 9 ∷ 6 ∷ 3 ∷ []

unfoldable pub inv_shift_rows : List ℕ → List ℕ
unfolding pick
inv_shift_rows s = pick inv_shift_order s

-- `a ^ b ^ c ^ d`
unfoldable pub xor4 : ℕ → ℕ → ℕ → ℕ → ℕ
xor4 a b c d = bit_xor (bit_xor (bit_xor a b) c) d

-- The loop over the four columns. A list that ends within a column, which no block does, keeps
-- its end.
unfoldable pub mix_columns : List ℕ → List ℕ
unfolding mul xor4
mix_columns [] = []
mix_columns (a ∷ []) = a ∷ []
mix_columns (a ∷ b ∷ []) = a ∷ b ∷ []
mix_columns (a ∷ b ∷ c ∷ []) = a ∷ b ∷ c ∷ []
mix_columns (a0 ∷ a1 ∷ a2 ∷ a3 ∷ t) =
    xor4 (mul a0 2) (mul a1 3) a2 a3
    ∷ xor4 a0 (mul a1 2) (mul a2 3) a3
    ∷ xor4 a0 a1 (mul a2 2) (mul a3 3)
    ∷ xor4 (mul a0 3) a1 a2 (mul a3 2)
    ∷ mix_columns t

unfoldable pub inv_mix_columns : List ℕ → List ℕ
unfolding mul xor4
inv_mix_columns [] = []
inv_mix_columns (a ∷ []) = a ∷ []
inv_mix_columns (a ∷ b ∷ []) = a ∷ b ∷ []
inv_mix_columns (a ∷ b ∷ c ∷ []) = a ∷ b ∷ c ∷ []
inv_mix_columns (a0 ∷ a1 ∷ a2 ∷ a3 ∷ t) =
    xor4 (mul a0 14) (mul a1 11) (mul a2 13) (mul a3 9)
    ∷ xor4 (mul a0 9) (mul a1 14) (mul a2 11) (mul a3 13)
    ∷ xor4 (mul a0 13) (mul a1 9) (mul a2 14) (mul a3 11)
    ∷ xor4 (mul a0 11) (mul a1 13) (mul a2 9) (mul a3 14)
    ∷ inv_mix_columns t

unfoldable pub encrypt_round : List ℕ → ℕ → List ℕ → List ℕ
unfolding shift_rows sub_bytes mix_columns add_rk
encrypt_round rk r s =
    let t = shift_rows (sub_bytes s) in add_rk (if not (r == 10) then mix_columns t else t) rk r

-- `for (r = 1; r <= n; r++)`
unfoldable pub encrypt_rounds : List ℕ → ℕ → List ℕ → List ℕ
unfolding encrypt_round
encrypt_rounds rk zero s = s
encrypt_rounds rk (suc n) s = encrypt_round rk (suc n) (encrypt_rounds rk n s)

unfoldable pub rtw_aes128_ecb_encrypt : List ℕ → List ℕ → List ℕ
unfolding aes128_expand encrypt_rounds add_rk
rtw_aes128_ecb_encrypt key input =
    let rk = aes128_expand key in encrypt_rounds rk 10 (add_rk input rk 0)

unfoldable pub decrypt_round : List ℕ → ℕ → List ℕ → List ℕ
unfolding inv_shift_rows inv_sub_bytes inv_mix_columns add_rk
decrypt_round rk r s =
    let t = add_rk (inv_sub_bytes (inv_shift_rows s)) rk r in
    if not (r == 0) then inv_mix_columns t else t

-- `for (r = n - 1; r >= 0; r--)`
unfoldable pub decrypt_rounds : List ℕ → ℕ → List ℕ → List ℕ
unfolding decrypt_round
decrypt_rounds rk zero s = s
decrypt_rounds rk (suc n) s = decrypt_rounds rk n (decrypt_round rk n s)

unfoldable pub rtw_aes128_ecb_decrypt : List ℕ → List ℕ → List ℕ
unfolding aes128_expand decrypt_rounds add_rk
rtw_aes128_ecb_decrypt key input =
    let rk = aes128_expand key in decrypt_rounds rk 10 (add_rk input rk 10)
