-- ===== src/Crypto/Sha1.antt =====
-- The SHA-1 of crypto/rtw_crypto.c. A `uint8_t` array is a list of numbers below 256; the context
-- keeps its 64-byte buffer with whatever stands beyond `n`.
pub mod Absorb
pub mod Feed
pub mod Blocks
use rtl8821ce_mac_os.Base.{
  ℕ, zero, suc, ◌+◌, ◌-◌, ◌*◌, ◌/◌, ◌%◌, ◌^◌, bit_and, bit_or, bit_xor, min,
}
use rtl8821ce_mac_os.Base.{if◌then◌else◌, ltb, ◌==◌, List, [], ◌∷◌, ◌++◌, length, get_or, set}
use rtl8821ce_mac_os.Base.{take, drop, replicate, map}
use rtl8821ce_mac_os.Base.Bits.{u8, u32, ◌<<<◌, ◌>>>◌}
use mathlib.Core.List.{reverse}

pub record Sha1Ctx : Type 0 where
  pub h : List ℕ
  pub bits : ℕ
  pub buf : List ℕ
  pub n : ℕ

unfoldable pub rol32 : ℕ → ℕ → ℕ
rol32 v s = bit_or (u32 (v <<< s)) (v >>> (32 - s))

-- Four bytes, big-endian.
unfoldable pub be32 : ℕ → ℕ → ℕ → ℕ → ℕ
be32 b0 b1 b2 b3 = bit_or (bit_or (bit_or (b0 <<< 24) (b1 <<< 16)) (b2 <<< 8)) b3

-- The first sixteen words of the schedule, the newest first; `left` words to go.
unfoldable pub load_words : ℕ → List ℕ → List ℕ → List ℕ
unfolding be32
load_words zero p w = w
load_words (suc left) p w =
    load_words left (drop 4 p)
      (be32 (get_or p 0 0) (get_or p 1 0) (get_or p 2 0) (get_or p 3 0) ∷ w)

-- w[i] = rol32(w[i-3] ^ w[i-8] ^ w[i-14] ^ w[i-16], 1), on a schedule that has the newest first.
unfoldable pub extend_words : ℕ → List ℕ → List ℕ
unfolding rol32
extend_words zero w = w
extend_words (suc left) w = extend_words left (
    rol32
      (bit_xor (bit_xor (bit_xor (get_or w 2 0) (get_or w 7 0)) (get_or w 13 0)) (get_or w 15 0)) 1
    ∷ w)

pub record Round : Type 0 where
  pub aa : ℕ
  pub bb : ℕ
  pub cc : ℕ
  pub dd : ℕ
  pub ee : ℕ

abbrev pub not32 : ℕ → ℕ
not32 x = 2 ^ 32 - 1 - x

-- `f` of round `i`.
unfoldable pub round_f : ℕ → Round → ℕ
round_f i r =
    if ltb i 20
    then bit_or (bit_and r.bb r.cc) (bit_and (not32 r.bb) r.dd)
    else if ltb i 40
    then bit_xor (bit_xor r.bb r.cc) r.dd
    else if ltb i 60
    then bit_or (bit_or (bit_and r.bb r.cc) (bit_and r.bb r.dd)) (bit_and r.cc r.dd)
    else bit_xor (bit_xor r.bb r.cc) r.dd

unfoldable pub round_k : ℕ → ℕ
round_k i =
    if ltb i 20
    then 0x5A827999
    else if ltb i 40
    then 0x6ED9EBA1
    else if ltb i 60
    then 0x8F1BBCDC
    else 0xCA62C1D6

unfoldable pub round : ℕ → ℕ → Round → Round
unfolding rol32 round_f round_k
round i w r = record {
  aa = u32 (rol32 r.aa 5 + round_f i r + r.ee + round_k i + w);
  bb = r.aa;
  cc = rol32 r.bb 30;
  dd = r.cc;
  ee = r.dd;
}

-- The 80 rounds, over the schedule in order.
unfoldable pub rounds : ℕ → List ℕ → Round → Round
unfolding round
rounds i [] r = r
rounds i (w ∷ ws) r = rounds (i + 1) ws (round i w r)

-- sha1_block, from the chaining value `h` and the block at `p`.
unfoldable pub sha1_block : List ℕ → List ℕ → List ℕ
unfolding rounds extend_words load_words
sha1_block h p =
    let a = get_or h 0 0 in
    let b = get_or h 1 0 in
    let d = get_or h 2 0 in
    let e = get_or h 3 0 in
    let f = get_or h 4 0 in
    let w = reverse (extend_words 64 (load_words 16 p [])) in
    let r = rounds 0 w (record { aa = a; bb = b; cc = d; dd = e; ee = f }) in
    u32 (a + r.aa) ∷ u32 (b + r.bb) ∷ u32 (d + r.cc) ∷ u32 (e + r.dd) ∷ u32 (f + r.ee) ∷ []

abbrev pub initial_h : List ℕ
initial_h = 0x67452301 ∷ 0xEFCDAB89 ∷ 0x98BADCFE ∷ 0x10325476 ∷ 0xC3D2E1F0 ∷ []

-- sha1_init leaves `buf` as it was on the stack.
abbrev pub sha1_init : List ℕ → Sha1Ctx
sha1_init stack = record { h = initial_h; bits = 0; buf = stack; n = 0 }

-- memcpy(dst + off, src, length src)
unfoldable pub memcpy : ℕ → List ℕ → List ℕ → List ℕ
memcpy off [] dst = dst
memcpy off (x ∷ src) dst = memcpy (off + 1) src (set dst off x)

-- `if (c->n == 64) { sha1_block(c, c->buf); c->n = 0; }`
unfoldable pub flush : Sha1Ctx → Sha1Ctx
flush c = if c.n == 64 then record c { h = sha1_block c.h c.buf; n = 0 } else c

-- `take`: the free part of the buffer, or all that is left.
unfoldable pub room : Sha1Ctx → ℕ → ℕ
room c len = let free = u32 (64 + 2 ^ 32 - c.n) in if ltb len free then len else free

-- The loop of sha1_update, on fuel.
unfoldable pub absorb : ℕ → Sha1Ctx → List ℕ → Sha1Ctx
unfolding memcpy flush room
absorb fuel c [] = c
absorb zero c (x ∷ p) = c
absorb (suc fuel) c (x ∷ p) =
    let k = room c (length (x ∷ p)) in
    absorb fuel (flush (record c { buf = memcpy c.n (take k (x ∷ p)) c.buf; n = u32 (c.n + k) }))
      (drop k (x ∷ p))

-- Every round takes at least one byte, so the length is fuel enough.
unfoldable pub sha1_update : Sha1Ctx → List ℕ → Sha1Ctx
unfolding absorb
sha1_update c p = absorb (length p) (record c { bits = (c.bits + length p * 8) % 2 ^ 64 }) p

-- `while (c->n != 56) sha1_update(c, &pad, 1)`, on fuel.
unfoldable pub pad_to_56 : ℕ → Sha1Ctx → Sha1Ctx
unfolding sha1_update
pad_to_56 zero c = c
pad_to_56 (suc fuel) c =
    let rest = pad_to_56 fuel (sha1_update c (0x00 ∷ [])) in if c.n == 56 then c else rest

-- The eight bytes of a uint64_t, the highest first.
abbrev pub be64 : ℕ → List ℕ
be64 v =
    u8 (v >>> 56)
    ∷ u8 (v >>> 48)
    ∷ u8 (v >>> 40)
    ∷ u8 (v >>> 32)
    ∷ u8 (v >>> 24)
    ∷ u8 (v >>> 16)
    ∷ u8 (v >>> 8)
    ∷ u8 v
    ∷ []

-- One sha1_update for each byte.
unfoldable pub update_each : List ℕ → Sha1Ctx → Sha1Ctx
unfolding sha1_update
update_each [] c = c
update_each (b ∷ bs) c = update_each bs (sha1_update c (b ∷ []))

unfoldable pub output : List ℕ → List ℕ
output [] = []
output (h ∷ hs) = u8 (h >>> 24) ∷ u8 (h >>> 16) ∷ u8 (h >>> 8) ∷ u8 h ∷ output hs

-- The context after the padding and the length, and the digest that sha1_final writes out.
unfoldable pub sha1_finish : Sha1Ctx → Sha1Ctx
unfolding pad_to_56 update_each
sha1_finish c = update_each (be64 c.bits) (pad_to_56 64 (sha1_update c (0x80 ∷ [])))

unfoldable pub sha1_final : Sha1Ctx → List ℕ
unfolding sha1_finish output
sha1_final c = output (sha1_finish c).h
