-- ===== src/Assoc/Walk.antt =====
-- The loop over the elements of an association response in core/assoc.c.
use rtl8821ce_mac_os.Base.{ℕ, zero, suc, ◌+◌, ◌*◌, ◌<◌, ◌≤◌, ◌≡◌, refl, sym, ap, ap₂, ◌∙◌, arith}
use rtl8821ce_mac_os.Base.{
  Bool, true, false, if◌then◌else◌, ltb, ◌==◌, ◌||◌, List, [], ◌∷◌, ◌++◌, length, get_or, drop,
  length-drop, drop-append, drop-drop, length-append,
}
use Prim.{Unit}
use rtl8821ce_mac_os.Assoc.{Caps, learn, walk_caps, granted}

-- Information elements: a tag, and the bytes of its body.
abbrev pub Elements : Type 0
Elements = List (ℕ × List ℕ)

-- The elements on the air, with `tail` behind them.
abbrev pub on_air : Elements → List ℕ → List ℕ
on_air [] tail = tail
on_air ((t, v) ∷ es) tail = t ∷ length v ∷ (v ++ on_air es tail)

abbrev pub has_tag : ℕ → Elements → Bool
has_tag k [] = false
has_tag k ((t, v) ∷ es) = t == k || has_tag k es

-- Bytes that are no whole element: too few for a tag and a length, or for the length that they name.
abbrev pub IsCut : List ℕ → Type 0
IsCut [] = Unit {0}
IsCut (t ∷ []) = Unit {0}
IsCut (t ∷ l ∷ v) = length v < l

-- The tests of one round.
stops : (a b : Bool) (c x : Caps) → a ≡ true → (if a then c else if b then c else x) ≡ c
stops true b c x e = refl
stops false b c x e = cc

stops_short : (a b : Bool) (c x : Caps) → b ≡ true → (if a then c else if b then c else x) ≡ c
stops_short true b c x e = refl
stops_short false true c x e = refl
stops_short false false c x e = cc

goes_on :
    (a b : Bool) (c x : Caps) → a ≡ false → b ≡ false → (if a then c else if b then c else x) ≡ x
goes_on true b c x e f = cc
goes_on false true c x e f = cc
goes_on false false c x e f = refl

under : (n m : ℕ) → n < m → ltb n m ≡ true
under n m h = ground arith

not_under : (n m : ℕ) → m ≤ n → ltb n m ≡ false
not_under n m h = ground arith

get_or-drop : (xs : List ℕ) (i k : ℕ) → get_or xs (i + k) 0 ≡ get_or (drop i xs) k 0
get_or-drop xs zero k = ap (λ (j : ℕ). get_or xs j 0) {x = zero + k} {y = k} (omega arith)
get_or-drop [] (suc i) k = refl
get_or-drop (x ∷ xs) (suc i) k =
    ap (λ (j : ℕ). get_or (x ∷ xs) j 0) {x = suc i + k} {y = suc (i + k)} (omega arith)
    ∙ get_or-drop xs i k

or_false : (a : Bool) → a || false ≡ a
or_false a = ground arith

or_true : (a : Bool) (x : Bool) → a || (true || x) ≡ true
or_true a x = ground arith

-- What is known after the elements.
abbrev with_tags : Elements → Caps → Caps
with_tags es c = record {
  has_ht = c.has_ht || has_tag 45 es;
  has_vht = c.has_vht || has_tag 191 es;
}

caps_of : Bool → Bool → Caps
caps_of h v = record { has_ht = h; has_vht = v }

with_no_tags : (c : Caps) → c ≡ with_tags [] c
unfolding caps_of
with_no_tags c = ap₂ caps_of (sym (or_false c.has_ht)) (sym (or_false c.has_vht))

learned :
    (a b x y : Bool) (c : Caps)
    → (a ≡ true → b ≡ false)
    → let k : Caps =
        if a then record c { has_ht = true } else if b then record c { has_vht = true } else c in
      caps_of (k.has_ht || x) (k.has_vht || y)
      ≡ caps_of (c.has_ht || (a || x)) (c.has_vht || (b || y))
learned true true x y c n = cc (n refl)
learned true false x y c n =
    ap (λ (h : Bool). caps_of h (c.has_vht || y)) (sym (or_true c.has_ht x))
learned false true x y c n =
    ap (λ (v : Bool). caps_of (c.has_ht || x) v) (sym (or_true c.has_vht y))
learned false false x y c n = refl

one_tag : (t : ℕ) → t == 45 ≡ true → t == 191 ≡ false
one_tag t e = ground arith

with_tags-learn :
    (t : ℕ) (v : List ℕ) (es : Elements) (c : Caps)
    → with_tags es (learn c t) ≡ with_tags ((t, v) ∷ es) c
unfolding caps_of
with_tags-learn t v es c =
    learned (t == 45) (t == 191) (has_tag 45 es) (has_tag 191 es) c (one_tag t)

-- The two tests of a round, and what it goes on with.
abbrev no_header : List ℕ → ℕ → Bool
no_header body i = ltb (length body) (i + 2)

abbrev overruns : List ℕ → ℕ → Bool
overruns body i = ltb (length body) (i + 2 + get_or body (i + 1) 0)

abbrev next : ℕ → List ℕ → ℕ → Caps → Caps
next n body i c = walk_caps n body (i + 2 + get_or body (i + 1) 0) (learn c (get_or body i 0))

-- The loop at offset `i`, where the elements begin.
walk_caps-elements :
    (n : ℕ) (es : Elements) (tail body : List ℕ) (i : ℕ) (c : Caps)
    → drop i body ≡ on_air es tail
    → IsCut tail
    → length body < i + 2 + 2 * n
    → walk_caps n body i c ≡ with_tags es c
unfolding walk_caps
walk_caps-elements zero [] tail body i c e cut h = with_no_tags c
walk_caps-elements zero ((t, v) ∷ es) tail body i c e cut h =
    absurd (omega (arith, ap (λ (xs : List ℕ). length xs) e, length-drop i body))
walk_caps-elements (suc n) [] [] body i c e cut h =
    stops (no_header body i) (overruns body i) c (next n body i c) (
      under (length body) (i + 2)
        (omega (arith, ap (λ (xs : List ℕ). length xs) e, length-drop i body)))
    ∙ with_no_tags c
walk_caps-elements (suc n) [] (t ∷ []) body i c e cut h =
    stops (no_header body i) (overruns body i) c (next n body i c) (
      under (length body) (i + 2)
        (omega (arith, ap (λ (xs : List ℕ). length xs) e, length-drop i body)))
    ∙ with_no_tags c
walk_caps-elements (suc n) [] (t ∷ l ∷ v) body i c e cut h =
    let named = get_or-drop body i 1 ∙ ap (λ (xs : List ℕ). get_or xs 1 0) e in
    stops_short (no_header body i) (overruns body i) c (next n body i c) (
      under (length body) (i + 2 + get_or body (i + 1) 0)
        (omega (arith, ap (λ (xs : List ℕ). length xs) e, length-drop i body, named)))
    ∙ with_no_tags c
walk_caps-elements (suc n) ((t, v) ∷ es) tail body i c e cut h =
    let size = ap (λ (xs : List ℕ). length xs) e in
    let tag : get_or body i 0 ≡ t =
      ap (λ (j : ℕ). get_or body j 0) {x = i} {y = i + 0} (omega arith)
      ∙ get_or-drop body i 0
      ∙ ap (λ (xs : List ℕ). get_or xs 0 0) e in
    let named : get_or body (i + 1) 0 ≡ length v =
      get_or-drop body i 1 ∙ ap (λ (xs : List ℕ). get_or xs 1 0) e in
    let l = get_or body (i + 1) 0 in
    let rest : drop (i + 2 + l) body ≡ on_air es tail =
      ap (λ (j : ℕ). drop j body) {x = i + 2 + l} {y = i + (2 + length v)} (omega (arith, named))
      ∙ sym (drop-drop i (2 + length v) (i + (2 + length v)) body refl)
      ∙ ap (drop (2 + length v)) e
      ∙ ap (λ (j : ℕ). drop j (t ∷ length v ∷ (v ++ on_air es tail))) {x = 2 + length v}
          {y = suc (suc (length v))} (omega arith)
      ∙ drop-append (length v) v (on_air es tail) refl in
    let long = length-append {0} v (on_air es tail) in
    goes_on (no_header body i) (overruns body i) c (next n body i c)
      (not_under (length body) (i + 2) (omega (arith, size, length-drop i body)))
      (not_under (length body) (i + 2 + l) (omega (arith, size, length-drop i body, named, long)))
    ∙ walk_caps-elements n es tail body (i + 2 + l) (learn c (get_or body i 0)) rest cut
        (omega (arith, h))
    ∙ ap (λ (x : ℕ). with_tags es (learn c x)) tag
    ∙ with_tags-learn t v es c

-- A response whose six fixed bytes are followed by information elements of any tags and lengths, and
-- these by nothing or by bytes that are no whole element: the walk takes exactly the elements, and
-- finds HT if one of them has the tag 45, and VHT if one has the tag 191. Its bound does not cut it
-- short.
pub granted-elements :
    (fixed : List ℕ) (es : Elements) (tail : List ℕ)
    → length fixed ≡ 6
    → IsCut tail
    → ((granted (fixed ++ on_air es tail)).has_ht ≡ has_tag 45 es)
      × ((granted (fixed ++ on_air es tail)).has_vht ≡ has_tag 191 es)
granted-elements fixed es tail six cut =
    let body = fixed ++ on_air es tail in
    let e =
      walk_caps-elements (length body) es tail body 6 (record { has_ht = false; has_vht = false })
        (drop-append 6 fixed (on_air es tail) six) cut (omega arith) in
    (ap (λ (c : Caps). c.has_ht) e, ap (λ (c : Caps). c.has_vht) e)
