-- ===== src/Crypto/Sha1/Absorb.antt =====
-- `sha1_update` of crypto/rtw_crypto.c next to the bytes one at a time.
use rtl8821ce_mac_os.Base.{
  ℕ, zero, suc, ◌+◌, ◌-◌, ◌*◌, ◌%◌, ◌^◌, ◌≤◌, ◌<◌, ◌≡◌, refl, sym, ap, ap₂, ◌∙◌, min, arith,
}
use rtl8821ce_mac_os.Base.{List, [], ◌∷◌, ◌++◌, length, set, take, drop}
use rtl8821ce_mac_os.Base.{length-append, length-take, length-drop, take-append-drop}
use rtl8821ce_mac_os.Base.Bits.{u32}
use rtl8821ce_mac_os.Crypto.Sha1.{Sha1Ctx, memcpy, flush, room, absorb, sha1_update}

-- One byte: into the buffer, and on through the compression when it is full.
unfoldable pub put_byte : Sha1Ctx → ℕ → Sha1Ctx
unfolding flush
put_byte c b = flush (record c { buf = set c.buf c.n b; n = c.n + 1 })

unfoldable pub feed : List ℕ → Sha1Ctx → Sha1Ctx
unfolding put_byte
feed [] c = c
feed (b ∷ bs) c = feed bs (put_byte c b)

pub feed-append : (xs ys : List ℕ) (c : Sha1Ctx) → feed (xs ++ ys) c ≡ feed ys (feed xs c)
unfolding feed
feed-append [] ys c = refl
feed-append (x ∷ xs) ys c = feed-append xs ys (put_byte c x)

pub put_byte-n : (c : Sha1Ctx) (b : ℕ) → c.n < 64 → (put_byte c b).n < 64
unfolding put_byte flush
put_byte-n c b h = ground arith

pub feed-n : (xs : List ℕ) (c : Sha1Ctx) → c.n < 64 → (feed xs c).n < 64
unfolding feed
feed-n [] c h = h
feed-n (x ∷ xs) c h = feed-n xs (put_byte c x) (put_byte-n c x h)

put_byte-room :
    (c : Sha1Ctx) (b : ℕ)
    → c.n + 1 < 64
    → put_byte c b ≡ record c { buf = set c.buf c.n b; n = c.n + 1 }
unfolding put_byte flush
put_byte-room c b h = ground arith

-- A copy that fits the buffer, then the test for a full one, is a byte at a time.
pub flush-memcpy :
    (xs : List ℕ) (c : Sha1Ctx)
    → c.n < 64
    → c.n + length xs ≤ 64
    → flush (record c { buf = memcpy c.n xs c.buf; n = c.n + length xs }) ≡ feed xs c
unfolding memcpy feed
flush-memcpy [] c b h = unfold flush in ground arith
flush-memcpy (x ∷ []) c b h = unfold put_byte in refl
flush-memcpy (x ∷ y ∷ ys) c b h =
    let c' : Sha1Ctx = record c { buf = set c.buf c.n x; n = c.n + 1 } in
    rw (put_byte-room c x (omega arith)) (
      ap (λ (k : ℕ). flush (record c { buf = memcpy (c.n + 1) (y ∷ ys) c'.buf; n = k }))
        (omega arith)
      ∙ flush-memcpy (y ∷ ys) c' (omega arith) (omega arith))

-- What one round of the loop takes.
abbrev taken : Sha1Ctx → List ℕ → ℕ
taken c p = min (length p) (64 - c.n)

absorb-suc :
    (fuel : ℕ) (c : Sha1Ctx) (x : ℕ) (p : List ℕ)
    → c.n < 64
    → let k = taken c (x ∷ p) in
      absorb (suc fuel) c (x ∷ p)
      ≡ absorb fuel
          (flush (record c { buf = memcpy c.n (take k (x ∷ p)) c.buf; n = c.n + k }))
          (drop k (x ∷ p))
unfolding absorb room
absorb-suc fuel c x p h =
    let xs = x ∷ p in
    let same : room c (length xs) ≡ taken c xs = ground arith in
    let no_wrap : u32 (c.n + room c (length xs)) ≡ c.n + taken c xs = ground arith in
    ap₂
      (λ (k m : ℕ).
        absorb fuel (flush (record c { buf = memcpy c.n (take k xs) c.buf; n = m })) (drop k xs))
      same no_wrap

absorb-feed :
    (fuel : ℕ) (c : Sha1Ctx) (p : List ℕ) → c.n < 64 → length p ≤ fuel → absorb fuel c p ≡ feed p c
absorb-feed fuel c [] h enough = unfold absorb feed in refl
absorb-feed zero c (x ∷ p) h enough = absurd (omega arith)
absorb-feed (suc fuel) c (x ∷ p) h enough =
    let k = taken c (x ∷ p) in
    let xs = x ∷ p in
    let fit = length-take k xs in
    let chunk : flush (record c { buf = memcpy c.n (take k xs) c.buf; n = c.n + k })
        ≡ feed (take k xs) c =
      ap (λ (j : ℕ). flush (record c { buf = memcpy c.n (take k xs) c.buf; n = c.n + j }))
        (omega arith)
      ∙ flush-memcpy (take k xs) c h (omega arith) in
    absorb-suc fuel c x p h
    ∙ (ap (λ (c' : Sha1Ctx). absorb fuel c' (drop k xs)) chunk
        ∙ (absorb-feed fuel (feed (take k xs) c) (drop k xs) (feed-n (take k xs) c h)
              (omega (arith, length-drop k xs))
            ∙ (sym (feed-append (take k xs) (drop k xs) c)
                ∙ ap (λ (l : List ℕ). feed l c) (take-append-drop k xs))))

abbrev pub count_bits : Sha1Ctx → ℕ → Sha1Ctx
count_bits c len = record c { bits = (c.bits + len * 8) % 2 ^ 64 }

-- `sha1_update` is the bytes one at a time, after the bit count is brought up to date.
pub sha1_update-feed :
    (c : Sha1Ctx) (p : List ℕ)
    → c.n < 64
    → sha1_update c p ≡ feed p (record c { bits = (c.bits + length p * 8) % 2 ^ 64 })
unfolding sha1_update
sha1_update-feed c p h = absorb-feed (length p) (count_bits c (length p)) p h (omega arith)

-- Feeding bytes and counting bits do not meet.
pub put_byte-bits :
    (c : Sha1Ctx) (b v : ℕ)
    → put_byte (record c { bits = v }) b ≡ record (put_byte c b) { bits = v }
unfolding put_byte flush
put_byte-bits c b v = ground arith

pub feed-bits :
    (xs : List ℕ) (c : Sha1Ctx) (v : ℕ)
    → feed xs (record c { bits = v }) ≡ record (feed xs c) { bits = v }
unfolding feed
feed-bits [] c v = refl
feed-bits (x ∷ xs) c v = ap (feed xs) (put_byte-bits c x v) ∙ feed-bits xs (put_byte c x) v

pub feed-keeps_bits : (xs : List ℕ) (c : Sha1Ctx) → (feed xs c).bits ≡ c.bits
feed-keeps_bits xs c = ap (λ (r : Sha1Ctx). r.bits) (feed-bits xs c c.bits)

-- Two updates in a row are one update with the joined bytes: the chunks in which a message
-- arrives do not matter.
pub sha1_update-append :
    (c : Sha1Ctx) (p q : List ℕ)
    → c.n < 64
    → sha1_update (sha1_update c p) q ≡ sha1_update c (p ++ q)
sha1_update-append c p q h =
    let c1 = count_bits c (length p) in
    let b2 : ℕ = (c1.bits + length q * 8) % 2 ^ 64 in
    let same_count : (c.bits + length (p ++ q) * 8) % 2 ^ 64 ≡ b2 =
      omega (arith, length-append {0} p q) in
    ap (λ (r : Sha1Ctx). sha1_update r q) (sha1_update-feed c p h)
    ∙ (sha1_update-feed (feed p c1) q (feed-n p c1 h)
        ∙ (ap (λ (v : ℕ). feed q (record (feed p c1) { bits = (v + length q * 8) % 2 ^ 64 }))
              (feed-keeps_bits p c1)
            ∙ (ap (feed q) (sym (feed-bits p c1 b2))
                ∙ (sym (feed-append p q (record c { bits = b2 }))
                    ∙ (ap (λ (v : ℕ). feed (p ++ q) (record c { bits = v })) (sym same_count)
                        ∙ sym (sha1_update-feed c (p ++ q) h))))))
