-- ===== src/Crypto/Sha1/Feed.antt =====
-- SHA-1 byte by byte: whole blocks, and the padding.
use rtl8821ce_mac_os.Base.{
  ℕ, zero, suc, ◌+◌, ◌*◌, ◌%◌, ◌^◌, ◌≤◌, ◌<◌, ◌≡◌, refl, sym, ap, ap₂, ◌∙◌, arith,
}
use rtl8821ce_mac_os.Base.{
  ◌≢◌, List, [], ◌∷◌, ◌++◌, length, set, take, drop, replicate, length-append,
}
use rtl8821ce_mac_os.Base.{length-take, length-drop, take-append-drop}
use mathlib.Core.List.{append_assoc}
use rtl8821ce_mac_os.Crypto.Sha1.{
  Sha1Ctx, sha1_block, memcpy, flush, sha1_update, pad_to_56, update_each,
}
use rtl8821ce_mac_os.Crypto.Sha1.Absorb.{
  put_byte, feed, feed-append, put_byte-n, flush-memcpy, sha1_update-feed, feed-bits, put_byte-bits,
}

set-append : (pre ys : List ℕ) (y x : ℕ) → set (pre ++ (y ∷ ys)) (length pre) x ≡ pre ++ (x ∷ ys)
set-append [] ys y x = refl
set-append (p ∷ pre) ys y x = ap (◌∷◌ p) (set-append pre ys y x)

memcpy-append :
    (xs pre ys : List ℕ) → length ys ≡ length xs → memcpy (length pre) xs (pre ++ ys) ≡ pre ++ xs
unfolding memcpy
memcpy-append [] pre [] e = refl
memcpy-append [] pre (y ∷ ys) e = absurd (omega arith)
memcpy-append (x ∷ xs) pre [] e = absurd (omega arith)
memcpy-append (x ∷ xs) pre (y ∷ ys) e = rw (set-append pre ys y x) (
    ap₂ (λ (k : ℕ) (l : List ℕ). memcpy k xs l) (omega (arith, length-append {0} pre (x ∷ [])))
      (sym (append_assoc pre (x ∷ []) ys))
    ∙ (memcpy-append xs (pre ++ (x ∷ [])) ys (omega arith) ∙ append_assoc pre (x ∷ []) xs))

full :
    (c : Sha1Ctx) (xs : List ℕ)
    → flush (record c { buf = xs; n = 64 }) ≡ record c { h = sha1_block c.h xs; buf = xs; n = 0 }
unfolding flush
full c xs = refl

-- A full block from an empty buffer.
feed-block :
    (xs : List ℕ) (c : Sha1Ctx)
    → length xs ≡ 64
    → c.n ≡ 0
    → length c.buf ≡ 64
    → feed xs c ≡ record c { h = sha1_block c.h xs; buf = xs; n = 0 }
feed-block xs c hx hn hb =
    let copied : memcpy c.n xs c.buf ≡ xs =
      ap (λ (o : ℕ). memcpy o xs c.buf) hn ∙ memcpy-append xs [] c.buf (omega arith) in
    sym (flush-memcpy xs c (omega arith) (omega arith))
    ∙ (ap₂ (λ (l : List ℕ) (k : ℕ). flush (record c { buf = l; n = k })) copied (omega arith)
        ∙ full c xs)

-- The compression over `k` blocks.
unfoldable pub compress_all : ℕ → List ℕ → List ℕ → List ℕ
compress_all zero h msg = h
compress_all (suc k) h msg = compress_all k (sha1_block h (take 64 msg)) (drop 64 msg)

pub feed-blocks :
    (k : ℕ) (msg : List ℕ) (c : Sha1Ctx)
    → length msg ≡ 64 * k
    → c.n ≡ 0
    → length c.buf ≡ 64
    → (feed msg c).h ≡ compress_all k c.h msg
unfolding compress_all
feed-blocks zero [] c e hn hb = unfold feed in refl
feed-blocks zero (x ∷ msg) c e hn hb = absurd (omega arith)
feed-blocks (suc k) msg c e hn hb =
    let xs = take 64 msg in
    let ys = drop 64 msg in
    let c' : Sha1Ctx = record c { h = sha1_block c.h xs; buf = xs; n = 0 } in
    ap (λ (l : List ℕ). (feed l c).h) (sym (take-append-drop 64 msg))
    ∙ (ap (λ (r : Sha1Ctx). r.h) (feed-append xs ys c)
        ∙ (ap (λ (r : Sha1Ctx). (feed ys r).h)
              (feed-block xs c (omega (arith, length-take 64 msg)) hn hb)
            ∙ feed-blocks k ys c' (omega (arith, length-drop 64 msg)) refl
                (omega (arith, length-take 64 msg))))

pub put_byte-next : (c : Sha1Ctx) (b : ℕ) → c.n < 64 → (put_byte c b).n ≡ (c.n + 1) % 64
unfolding put_byte flush
put_byte-next c b h = ground arith

pub feed-next : (xs : List ℕ) (c : Sha1Ctx) → c.n < 64 → (feed xs c).n ≡ (c.n + length xs) % 64
unfolding feed
feed-next [] c h = omega arith
feed-next (x ∷ xs) c h =
    omega (arith, feed-next xs (put_byte c x) (put_byte-n c x h), put_byte-next c x h)

pub sha1_update-byte :
    (c : Sha1Ctx) (b : ℕ)
    → c.n < 64
    → sha1_update c (b ∷ []) ≡ record (put_byte c b) { bits = (c.bits + 8) % 2 ^ 64 }
unfolding feed
sha1_update-byte c b h = sha1_update-feed c (b ∷ []) h ∙ put_byte-bits c b _

-- The same context up to its bit count.
abbrev pub UpToBits : Sha1Ctx → Sha1Ctx → Type 0
UpToBits a b = (v : ℕ) × (a ≡ record b { bits = v })

pub update_each-feed :
    (bs : List ℕ) (c : Sha1Ctx) → c.n < 64 → UpToBits (update_each bs c) (feed bs c)
unfolding update_each feed
update_each-feed [] c h = (c.bits, refl)
update_each-feed (b ∷ bs) c h =
    let w : ℕ = (c.bits + 8) % 2 ^ 64 in
    let next : Sha1Ctx = record (put_byte c b) { bits = w } in
    let ih = update_each-feed bs next (put_byte-n c b h) in
    (
      ih.0,
      ap (update_each bs) (sha1_update-byte c b h)
          ∙ (ih.1 ∙ ap (λ (r : Sha1Ctx). record r { bits = ih.0 }) (feed-bits bs (put_byte c b) w)),
    )

-- The padding loop feeds the zeros that are missing to 56, and stops.
pub pad_to_56-feed :
    (fuel z : ℕ) (c : Sha1Ctx)
    → c.n < 64
    → (c.n + z) % 64 ≡ 56
    → z < fuel
    → fuel ≤ 64
    → UpToBits (pad_to_56 fuel c) (feed (replicate z 0) c)
unfolding pad_to_56 feed
pad_to_56-feed zero z c h e lt le = absurd (omega arith)
pad_to_56-feed (suc fuel) zero c h e lt le = (c.bits, ground arith)
pad_to_56-feed (suc fuel) (suc z) c h e lt le =
    let w : ℕ = (c.bits + 8) % 2 ^ 64 in
    let next : Sha1Ctx = record (put_byte c 0) { bits = w } in
    let ih =
      pad_to_56-feed fuel z next (put_byte-n c 0 h) (omega (arith, put_byte-next c 0 h))
        (omega arith) (omega arith) in
    (
      ih.0,
      more (omega arith)
          ∙ (ap (pad_to_56 fuel) (sha1_update-byte c 0 h)
              ∙ (ih.1
                  ∙ ap (λ (r : Sha1Ctx). record r { bits = ih.0 })
                      (feed-bits (replicate z 0) (put_byte c 0) w))),
    )
  where
    more : c.n ≢ 56 → pad_to_56 (suc fuel) c ≡ pad_to_56 fuel (sha1_update c (0 ∷ []))
    more ne = ground arith
