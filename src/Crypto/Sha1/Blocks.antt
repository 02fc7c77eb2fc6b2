-- ===== src/Crypto/Sha1/Blocks.antt =====
-- `sha1_final` and a whole digest against FIPS 180: the padded message, block by block.
use rtl8821ce_mac_os.Base.{
  ℕ, zero, suc, ◌+◌, ◌-◌, ◌*◌, ◌/◌, ◌%◌, ◌^◌, ◌<◌, ◌≡◌, refl, sym, ap, ap₂, ◌∙◌, arith,
}
use rtl8821ce_mac_os.Base.{
  List, [], ◌∷◌, ◌++◌, length, take, drop, replicate, length-append, length-replicate, length-set,
}
use rtl8821ce_mac_os.Crypto.Sha1.{
  Sha1Ctx, sha1_block, flush, sha1_update, sha1_final, sha1_finish, sha1_init, pad_to_56,
  update_each, output, be64, initial_h,
}
use rtl8821ce_mac_os.Crypto.Sha1.Absorb.{
  put_byte, feed, feed-append, feed-n, put_byte-n, sha1_update-feed, feed-bits, feed-keeps_bits,
  count_bits,
}
use rtl8821ce_mac_os.Crypto.Sha1.Feed.{
  compress_all, feed-blocks, put_byte-next, feed-next, sha1_update-byte, UpToBits, update_each-feed,
  pad_to_56-feed,
}

-- The zeros between the 0x80 and the length, after `n` bytes.
abbrev pub zeros_after : ℕ → ℕ
zeros_after n = (119 - n % 64) % 64

-- What follows the message: a one bit, zeros, and its length in bits.
abbrev tail_of : List ℕ → List ℕ
tail_of msg = 0x80 ∷ (replicate (zeros_after (length msg)) 0 ++ be64 (length msg * 8 % 2 ^ 64))

-- FIPS 180: the message, a one bit, zeros, and the length in bits.
abbrev pub padded : List ℕ → List ℕ
padded msg =
    msg ++ (0x80 ∷ (replicate (zeros_after (length msg)) 0 ++ be64 (length msg * 8 % 2 ^ 64)))

UpToBits-trans : {a : Sha1Ctx} (b c : Sha1Ctx) → UpToBits a b → UpToBits b c → UpToBits a c
UpToBits-trans b c p q = (p.0, p.1 ∙ ap (λ (r : Sha1Ctx). record r { bits = p.0 }) q.1)

UpToBits-feed :
    (xs : List ℕ) {a : Sha1Ctx} (b : Sha1Ctx) → UpToBits a b → UpToBits (feed xs a) (feed xs b)
UpToBits-feed xs b p = (p.0, ap (feed xs) p.1 ∙ feed-bits xs b p.0)

feed-cons :
    (b : ℕ) (xs ys : List ℕ) (c : Sha1Ctx)
    → feed (b ∷ (xs ++ ys)) c ≡ feed ys (feed xs (put_byte c b))
unfolding feed
feed-cons b xs ys c = feed-append xs ys (put_byte c b)

length-padded : (msg : List ℕ) → length (padded msg) ≡ 64 * ((length msg + 72) / 64)
length-padded msg = omega (
  arith,
  length-append {0} msg (tail_of msg),
  length-append {0} (replicate (zeros_after (length msg)) 0) (be64 (length msg * 8 % 2 ^ 64)),
  length-replicate {A = ℕ} (zeros_after (length msg)) 0,
)

-- The padding, as bytes fed to the context.
sha1_finish-feed :
    (c : Sha1Ctx)
    → c.n < 64
    → UpToBits (sha1_finish c) (feed (0x80 ∷ (replicate ((119 - c.n) % 64) 0 ++ be64 c.bits)) c)
unfolding sha1_finish
sha1_finish-feed c h =
    let w : ℕ = (c.bits + 8) % 2 ^ 64 in
    let c1 : Sha1Ctx = record (put_byte c 0x80) { bits = w } in
    let z : ℕ = (119 - c.n) % 64 in
    let zs : List ℕ = replicate z 0 in
    let bs : List ℕ = be64 c.bits in
    let c1_n = put_byte-n c 0x80 h in
    let padding =
      pad_to_56-feed 64 z c1 c1_n (omega (arith, put_byte-next c 0x80 h)) (omega arith)
        (omega arith) in
    let before : Sha1Ctx = record (feed zs c1) { bits = padding.0 } in
    let length_bytes = update_each-feed bs before (feed-n zs c1 c1_n) in
    let started : UpToBits c1 (put_byte c 0x80) = (w, refl) in
    let start : Sha1Ctx = put_byte c 0x80 in
    let mid : Sha1Ctx = feed zs start in
    let padded_zeros : UpToBits before mid =
      UpToBits-trans (feed zs c1) mid (padding.0, refl) (UpToBits-feed zs start started) in
    let all =
      UpToBits-trans (feed bs before) (feed bs mid) length_bytes
        (UpToBits-feed bs mid padded_zeros) in
    (
      all.0,
      ap (λ (r : Sha1Ctx). update_each bs (pad_to_56 64 r)) (sha1_update-byte c 0x80 h)
          ∙ (ap (update_each bs) padding.1
              ∙ (all.1
                  ∙ ap (λ (r : Sha1Ctx). record r { bits = all.0 })
                      (sym (feed-cons 0x80 zs bs c)))),
    )

-- The context after a whole message, from the start that `sha1_init` leaves.
abbrev pub hashed : List ℕ → List ℕ → Sha1Ctx
hashed stack msg = sha1_finish (sha1_update (sha1_init stack) msg)

hashed-feed :
    (stack msg : List ℕ)
    → length stack ≡ 64
    → UpToBits (hashed stack msg) (feed (padded msg) (sha1_init stack))
hashed-feed stack msg h =
    let start : Sha1Ctx = count_bits (sha1_init stack) (length msg) in
    let c1 : Sha1Ctx = feed msg start in
    let n_eq : c1.n ≡ length msg % 64 = omega (arith, feed-next msg start (omega arith)) in
    let bits_eq : c1.bits ≡ length msg * 8 % 2 ^ 64 =
      feed-keeps_bits msg start ∙ ap (λ (v : ℕ). v % 2 ^ 64) (omega arith) in
    let last = sha1_finish-feed c1 (feed-n msg start (omega arith)) in
    let whole : UpToBits (sha1_finish c1) (feed (padded msg) start) = (
      last.0,
      last.1
          ∙ (ap₂
                (λ (n v : ℕ). record (feed (0x80 ∷ (replicate ((119 - n) % 64) 0 ++ be64 v)) c1) {
                  bits = last.0;
                })
                n_eq bits_eq
              ∙ ap (λ (r : Sha1Ctx). record r { bits = last.0 })
                  (sym (feed-append msg (tail_of msg) start))),
    ) in
    let counted : UpToBits start (sha1_init stack) = (start.bits, refl) in
    let all =
      UpToBits-trans (feed (padded msg) start) (feed (padded msg) (sha1_init stack)) whole
        (UpToBits-feed (padded msg) (sha1_init stack) counted) in
    (all.0, ap sha1_finish (sha1_update-feed (sha1_init stack) msg (omega arith)) ∙ all.1)

-- The digest of FIPS 180: the compression over the blocks of the padded message.
unfoldable pub fips_sha1 : List ℕ → List ℕ
fips_sha1 msg = output (compress_all ((length msg + 72) / 64) initial_h (padded msg))

-- What `sha1_init`, `sha1_update` and `sha1_final` compute of a message is the digest that the
-- padding and the chain of blocks of FIPS 180 give over `sha1_block`, whatever stood in the 64 bytes
-- of the buffer that `sha1_init` leaves as they are.
pub sha1_final-fips_sha1 :
    (stack msg : List ℕ)
    → length stack ≡ 64
    → sha1_final (sha1_update (sha1_init stack) msg) ≡ fips_sha1 msg
unfolding sha1_final fips_sha1
sha1_final-fips_sha1 stack msg h =
    ap (λ (r : Sha1Ctx). output r.h) (hashed-feed stack msg h).1
    ∙ ap output (
        feed-blocks ((length msg + 72) / 64) (padded msg) (sha1_init stack) (length-padded msg) refl
          h)

put_byte-length : (c : Sha1Ctx) (b : ℕ) → length (put_byte c b).buf ≡ length c.buf
unfolding put_byte flush
put_byte-length c b = ground (arith, length-set c.buf c.n b)

feed-length : (xs : List ℕ) (c : Sha1Ctx) → length (feed xs c).buf ≡ length c.buf
unfolding feed
feed-length [] c = refl
feed-length (x ∷ xs) c = feed-length xs (put_byte c x) ∙ put_byte-length c x

-- A digest leaves a buffer of 64 bytes to the next `sha1_init`.
pub hashed-length : (stack msg : List ℕ) → length stack ≡ 64 → length (hashed stack msg).buf ≡ 64
hashed-length stack msg h =
    ap (λ (r : Sha1Ctx). length r.buf) (hashed-feed stack msg h).1
    ∙ (feed-length (padded msg) (sha1_init stack) ∙ h)

length-output : (h : List ℕ) → length (output h) ≡ 4 * length h
unfolding output
length-output [] = refl
length-output (x ∷ h) = omega (arith, length-output h)

length-compress_all : (k : ℕ) (h msg : List ℕ) → length h ≡ 5 → length (compress_all k h msg) ≡ 5
unfolding compress_all
length-compress_all zero h msg e = e
length-compress_all (suc k) h msg e =
    length-compress_all k (sha1_block h (take 64 msg)) (drop 64 msg) (unfold sha1_block in refl)

pub length-fips_sha1 : (msg : List ℕ) → length (fips_sha1 msg) ≡ 20
unfolding fips_sha1
length-fips_sha1 msg =
    let k : ℕ = (length msg + 72) / 64 in
    omega (
      arith,
      length-output (compress_all k initial_h (padded msg)),
      length-compress_all k initial_h (padded msg) refl,
    )
