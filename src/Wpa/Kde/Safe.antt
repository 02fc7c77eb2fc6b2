-- ===== src/Wpa/Kde/Safe.antt =====
-- The bounds of the walk over the key data in core/wpa.c.
use rtl8821ce_mac_os.Base.{ℕ, zero, suc, ◌+◌, ◌-◌, ◌≤◌, ◌<◌, ◌≡◌, arith, min}
use rtl8821ce_mac_os.Base.{
  Bool-cases, inl, inr, List, length, get_elem?, get_or, get_elem?-eq-get_or, copy_out,
  copy_out_lem,
}
use rtl8821ce_mac_os.Base.{leb, leb→le}
use rtl8821ce_mac_os.Base.Bits.{bit_and-le}
use rtl8821ce_mac_os.Wpa.Kde.{
  Kde, found, nothing, fault, unfinished, KdeStep, ends, moves_to, take_gtk, skip_element,
  vendor_element, element_body, after_element, ◌>>=◌, kde_element, walk_kdes, parse_gtk_kde,
}

-- A result that is no fault: nothing, or a key index of the group region with at most 32 bytes.
abbrev pub IsGtkResult : Kde → Type 0
IsGtkResult (found keyidx gtk) = (keyidx < 4) × (length gtk ≤ 32)
IsGtkResult nothing = Unit {0}
IsGtkResult fault = ⊥
IsGtkResult unfinished = ⊥

abbrev StepStays : ℕ → KdeStep → Type 0
StepStays i (ends r) = IsGtkResult r
StepStays i (moves_to next) = i + 2 ≤ next

-- A read in bounds goes on with some value.
read_stays :
    (kd : List ℕ) (i at : ℕ) (k : ℕ → KdeStep)
    → at < length kd
    → ((v : ℕ) → StepStays i (k v))
    → StepStays i (get_elem? kd at >>= k)
read_stays kd i at k h rest = rw (get_elem?-eq-get_or kd at 0 h) (rest (get_or kd at 0))

copy_stays :
    (kd : List ℕ) (i off n : ℕ) (k : List ℕ → KdeStep)
    → off + n ≤ length kd
    → ((g : List ℕ) → length g ≡ n → StepStays i (k g))
    → StepStays i (copy_out off n kd >>= k)
copy_stays kd i off n k h rest = let c = copy_out_lem off n kd h in rw c.1 (rest c.0 c.2)

take_gtk-stays :
    (kd : List ℕ) (i dlen : ℕ)
    → 6 ≤ dlen
    → i + 2 + dlen ≤ length kd
    → StepStays i (take_gtk kd i dlen)
unfolding take_gtk
take_gtk-stays kd i dlen h k = read_stays kd i (i + 6) _ (omega arith) λ flags.
    copy_stays kd i (i + 8) (min (dlen - 6) 32) _ (omega arith)
      λ g e. (omega (arith, bit_and-le 2 flags 3 (omega arith)), omega arith)

skip_element-stays : (type dlen i : ℕ) → StepStays i (skip_element type dlen i)
unfolding skip_element
skip_element-stays type dlen i = ground arith

vendor_element-stays :
    (kd : List ℕ) (type dlen i : ℕ)
    → 6 ≤ dlen
    → i + 2 + dlen ≤ length kd
    → StepStays i (vendor_element kd type dlen i)
unfolding vendor_element
vendor_element-stays kd type dlen i h k = read_stays kd i (i + 2) _ (omega arith) λ o0.
    read_stays kd i (i + 3) _ (omega arith) λ o1. read_stays kd i (i + 4) _ (omega arith) λ o2.
      read_stays kd i (i + 5) _ (omega arith)
        λ kind. ground (arith, take_gtk-stays kd i dlen h k, skip_element-stays type dlen i)

element_body-stays : (kd : List ℕ) (type dlen i : ℕ) → StepStays i (element_body kd type dlen i)
unfolding element_body
element_body-stays kd type dlen i =
    ground (arith, vendor_element-stays kd type dlen i, skip_element-stays type dlen i)

kde_element-stays : (kd : List ℕ) (i : ℕ) → i + 2 ≤ length kd → StepStays i (kde_element kd i)
unfolding kde_element
kde_element-stays kd i h =
    read_stays kd i i _ (omega arith)
      λ type. read_stays kd i (i + 1) _ (omega arith) λ dlen. element_body-stays kd type dlen i

after_element-stays :
    (i : ℕ) (s : KdeStep) (k : ℕ → Kde)
    → StepStays i s
    → ((next : ℕ) → i + 2 ≤ next → IsGtkResult (k next))
    → IsGtkResult (after_element s k)
after_element-stays i (ends r) k h rest = h
after_element-stays i (moves_to next) k h rest = rest next h

walk_kdes-stays :
    (kd : List ℕ) (fuel i : ℕ) → length kd < i + fuel → 1 ≤ fuel → IsGtkResult (walk_kdes kd fuel i)
unfolding walk_kdes
walk_kdes-stays kd zero i h p = absurd (omega arith)
walk_kdes-stays kd (suc fuel) i h p = elim (Bool-cases (leb (i + 2) (length kd))) [
  | inl inside ↦ rw inside (
      after_element-stays i (kde_element kd i) (walk_kdes kd fuel)
        (kde_element-stays kd i (leb→le _ _ inside))
        (λ next far.
          walk_kdes-stays kd fuel next (omega arith)
            (omega (arith, leb→le (i + 2) (length kd) inside))))
  | inr outside ↦ rw outside tt
]

-- On any key data the walk ends, reads nothing outside the data, and finds either nothing or a
-- key index below 4 with at most 32 bytes of key.
pub parse_gtk_kde-IsGtkResult : (kd : List ℕ) → IsGtkResult (parse_gtk_kde kd)
unfolding parse_gtk_kde
parse_gtk_kde-IsGtkResult kd = walk_kdes-stays kd (length kd + 1) 0 (omega arith) (omega arith)
