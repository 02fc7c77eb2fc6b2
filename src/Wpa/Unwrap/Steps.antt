-- ===== src/Wpa/Unwrap/Steps.antt =====
-- The steps and rounds of the wrapping of RFC 3394 next to those of aes_unwrap.
use rtl8821ce_mac_os.Base.{ℕ, zero, suc, ◌+◌, ◌*◌, ◌≤◌, ◌<◌, ◌≡◌, refl, ap, ap₂, ◌∙◌, arith}
use rtl8821ce_mac_os.Base.{List, [], ◌∷◌, ◌++◌, length, take, drop, get_or, set}
use rtl8821ce_mac_os.Base.{
  length-append, length-take, length-drop, length-set, take-append, drop-append, take-append-drop,
}
use rtl8821ce_mac_os.Base.Bytes.{
  AreBytes, xor_into, length-xor_into, xor_into-AreBytes, xor_into_cancel, AreBytes-append,
  take-AreBytes, drop-AreBytes,
}
use rtl8821ce_mac_os.Crypto.Sha1.{be64}
use rtl8821ce_mac_os.Wpa.Unwrap.{
  Wrap, unwrap_step, unwrap_blocks, unwrap_rounds, wrap_step, wrap_blocks, wrap_rounds,
}

-- A block cipher and its inverse, on blocks of 16 bytes.
pub record Inverse (enc dec : List ℕ → List ℕ) : Type 0 where
  pub dec-enc : (b : List ℕ) → length b ≡ 16 → AreBytes b → dec (enc b) ≡ b
  pub length-enc : (b : List ℕ) → length b ≡ 16 → AreBytes b → length (enc b) ≡ 16
  pub enc-AreBytes : (b : List ℕ) → length b ≡ 16 → AreBytes b → AreBytes (enc b)

abbrev IsBlock : List ℕ → Type 0
IsBlock b = (length b ≡ 8) × AreBytes b

abbrev pub AreBlocks : List (List ℕ) → Type 0
AreBlocks [] = Unit {0}
AreBlocks (b ∷ bs) = IsBlock b × AreBlocks bs

pub record IsState (s : Wrap) : Type 0 where
  pub a_block : IsBlock s.a
  pub r_blocks : AreBlocks s.r

be64-IsBlock : (t : ℕ) → IsBlock (be64 t)
be64-IsBlock t = omega arith

get_or-IsBlock :
    (bs : List (List ℕ)) (k : ℕ) → k < length bs → AreBlocks bs → IsBlock (get_or bs k [])
get_or-IsBlock [] k h p = absurd (omega arith)
get_or-IsBlock (b ∷ bs) zero h p = p.0
get_or-IsBlock (b ∷ bs) (suc k) h p = get_or-IsBlock bs k (omega arith) p.1

set-AreBlocks :
    (bs : List (List ℕ)) (k : ℕ) (b : List ℕ) → IsBlock b → AreBlocks bs → AreBlocks (set bs k b)
set-AreBlocks [] k b q p = p
set-AreBlocks (c ∷ bs) zero b q p = (q, p.1)
set-AreBlocks (c ∷ bs) (suc k) b q p = (p.0, set-AreBlocks bs k b q p.1)

get_or-set_self :
    (bs : List (List ℕ)) (k : ℕ) (b : List ℕ) → k < length bs → get_or (set bs k b) k [] ≡ b
get_or-set_self [] k b h = absurd (omega arith)
get_or-set_self (c ∷ bs) zero b h = refl
get_or-set_self (c ∷ bs) (suc k) b h = get_or-set_self bs k b (omega arith)

set-set_self : (bs : List (List ℕ)) (k : ℕ) (b : List ℕ) → set (set bs k b) k (get_or bs k []) ≡ bs
set-set_self [] k b = refl
set-set_self (c ∷ bs) zero b = refl
set-set_self (c ∷ bs) (suc k) b = ap (◌∷◌ c) (set-set_self bs k b)

module _ (enc dec : List ℕ → List ℕ) (inverse : Inverse enc dec) where
  input-IsBlock :
      (k : ℕ) (s : Wrap)
      → IsState s
      → k < length s.r
      → (length (s.a ++ get_or s.r k []) ≡ 16) × AreBytes (s.a ++ get_or s.r k [])
  input-IsBlock k s v h =
      let b = get_or-IsBlock s.r k h v.r_blocks in
      (
        omega (arith, length-append {0} s.a (get_or s.r k []), v.a_block.0),
        AreBytes-append s.a (get_or s.r k []) v.a_block.1 b.1,
      )

  wrap_step-IsState :
      (t k : ℕ) (s : Wrap) → IsState s → k < length s.r → IsState (wrap_step enc t k s)
  unfolding wrap_step
  wrap_step-IsState t k s v h =
      let b = s.a ++ get_or s.r k [] in
      let p = input-IsBlock k s v h in
      let e_length = inverse.length-enc b p.0 p.1 in
      let e_bytes = inverse.enc-AreBytes b p.0 p.1 in
      record {
        a_block = (
          omega (arith, length-xor_into (take 8 (enc b)) (be64 t), length-take 8 (enc b)),
          xor_into-AreBytes (take 8 (enc b)) (be64 t) (take-AreBytes 8 (enc b) e_bytes)
              (be64-IsBlock t).1,
        );
        r_blocks =
            set-AreBlocks s.r k (drop 8 (enc b))
              (omega (arith, length-drop 8 (enc b)), drop-AreBytes 8 (enc b) e_bytes) v.r_blocks;
      }

  -- One round of unwrapping undoes the round of wrapping with the same counter.
  unwrap_step-wrap_step :
      (t k : ℕ) (s : Wrap)
      → IsState s
      → k < length s.r
      → unwrap_step dec t k (wrap_step enc t k s) ≡ s
  unfolding unwrap_step wrap_step
  unwrap_step-wrap_step t k s v h =
      let b = s.a ++ get_or s.r k [] in
      let p = input-IsBlock k s v h in
      let e = enc b in
      let s' : Wrap = wrap_step enc t k s in
      let joined : xor_into s'.a (be64 t) ++ get_or s'.r k [] ≡ e =
        ap₂ ◌++◌
          (xor_into_cancel (take 8 e) (be64 t) (take-AreBytes 8 e (inverse.enc-AreBytes b p.0 p.1))
            (be64-IsBlock t).1)
          (get_or-set_self s.r k (drop 8 e) h)
        ∙ take-append-drop 8 e in
      let decrypted : dec (xor_into s'.a (be64 t) ++ get_or s'.r k []) ≡ b =
        ap dec joined ∙ inverse.dec-enc b p.0 p.1 in
      ap (λ (l : List ℕ). record { a = take 8 l; r = set s'.r k (drop 8 l) }) decrypted
      ∙ ap₂ (λ (x : List ℕ) (y : List (List ℕ)). record { a = x; r = y })
          (take-append 8 s.a (get_or s.r k []) v.a_block.0)
          (ap (set s'.r k) (drop-append 8 s.a (get_or s.r k []) v.a_block.0)
            ∙ set-set_self s.r k (drop 8 e))

  length-wrap_blocks : (n j i : ℕ) (s : Wrap) → length (wrap_blocks enc n j i s).r ≡ length s.r
  unfolding wrap_blocks wrap_step
  length-wrap_blocks n j zero s = refl
  length-wrap_blocks n j (suc i) s =
      length-set (wrap_blocks enc n j i s).r i _ ∙ length-wrap_blocks n j i s

  wrap_blocks-IsState :
      (n j i : ℕ) (s : Wrap) → IsState s → i ≤ length s.r → IsState (wrap_blocks enc n j i s)
  unfolding wrap_blocks
  wrap_blocks-IsState n j zero s v h = v
  wrap_blocks-IsState n j (suc i) s v h =
      wrap_step-IsState (n * j + suc i) i (wrap_blocks enc n j i s)
        (wrap_blocks-IsState n j i s v (omega arith)) (omega (arith, length-wrap_blocks n j i s))

  unwrap_blocks-wrap_blocks :
      (n j i : ℕ) (s : Wrap)
      → IsState s
      → i ≤ length s.r
      → unwrap_blocks dec n j i (wrap_blocks enc n j i s) ≡ s
  unfolding unwrap_blocks wrap_blocks
  unwrap_blocks-wrap_blocks n j zero s v h = refl
  unwrap_blocks-wrap_blocks n j (suc i) s v h =
      let mid = wrap_blocks enc n j i s in
      ap (unwrap_blocks dec n j i) (
        unwrap_step-wrap_step (n * j + suc i) i mid (wrap_blocks-IsState n j i s v (omega arith))
          (omega (arith, length-wrap_blocks n j i s)))
      ∙ unwrap_blocks-wrap_blocks n j i s v (omega arith)

  pub wrap_rounds-IsState :
      (n j : ℕ) (s : Wrap)
      → IsState s
      → n ≡ length s.r
      → IsState (wrap_rounds enc n j s) × (length (wrap_rounds enc n j s).r ≡ n)
  unfolding wrap_rounds
  wrap_rounds-IsState n zero s v h = (v, omega arith)
  wrap_rounds-IsState n (suc j) s v h =
      let mid = wrap_rounds enc n j s in
      let ih = wrap_rounds-IsState n j s v h in
      (wrap_blocks-IsState n j n mid ih.0 (omega arith), length-wrap_blocks n j n mid ∙ ih.1)

  pub unwrap_rounds-wrap_rounds :
      (n j : ℕ) (s : Wrap)
      → IsState s
      → n ≡ length s.r
      → unwrap_rounds dec n j (wrap_rounds enc n j s) ≡ s
  unfolding unwrap_rounds wrap_rounds
  unwrap_rounds-wrap_rounds n zero s v h = refl
  unwrap_rounds-wrap_rounds n (suc j) s v h =
      let mid = wrap_rounds enc n j s in
      let ok = wrap_rounds-IsState n j s v h in
      ap (unwrap_rounds dec n j) (unwrap_blocks-wrap_blocks n j n mid ok.0 (omega arith))
      ∙ unwrap_rounds-wrap_rounds n j s v h
