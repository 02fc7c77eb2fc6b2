-- ===== src/Wpa/Kde.antt =====
-- parse_gtk_kde of core/wpa.c: the walk over the key data for the GTK. The list is exactly the
-- `len` bytes that may be read, and a read beyond it is a `fault`.
pub mod Safe
use rtl8821ce_mac_os.Base.{ℕ, zero, suc, ◌+◌, ◌-◌, min, bit_and}
use rtl8821ce_mac_os.Base.{Bool, true, false, ◌&&◌, if◌then◌else◌, ltb, leb, ◌==◌}
use rtl8821ce_mac_os.Base.{Option, none, some, List, length, get_elem?, copy_out}

-- The key index with the GTK, the result 0, a read out of the data, or out of fuel.
pub data Kde : Type 0 where
  found : ℕ → List ℕ → Kde
  nothing fault unfinished : Kde

-- One round ends the walk, or moves on to an offset.
pub data KdeStep : Type 0 where
  ends : Kde → KdeStep
  moves_to : ℕ → KdeStep

abbrev pub after_element : KdeStep → (ℕ → Kde) → Kde
after_element (ends r) k = r
after_element (moves_to next) k = k next

infixl 5 ◌>>=◌
abbrev pub ◌>>=◌ {ℓ} : {A : Type ℓ} → Option A → (A → KdeStep) → KdeStep
none >>= k = ends fault
some x >>= k = k x

-- `memcmp(kd + i + 2, oui, 3) == 0 && kd[i + 5] == 0x01`
unfoldable pub is_gtk_kde : ℕ → ℕ → ℕ → ℕ → Bool
is_gtk_kde o0 o1 o2 kind = o0 == 0x00 && (o1 == 0x0f && (o2 == 0xac && kind == 0x01))

-- `if (type == 0) break; i += 2 + dlen;`
unfoldable pub skip_element : ℕ → ℕ → ℕ → KdeStep
skip_element type dlen i = if type == 0 then ends nothing else moves_to (i + (2 + dlen))

module _ (kd : List ℕ) where
  -- The copy of the GTK out of the element at `i`.
  unfoldable pub take_gtk : ℕ → ℕ → KdeStep
  take_gtk i dlen = do
    flags ← get_elem? kd (i + 6)
    gtk ← copy_out (i + 8) (min (dlen - 6) 32) kd
    ends (found (bit_and flags 0x03) gtk)

  -- The test for the GTK element, and what follows it.
  unfoldable pub vendor_element : ℕ → ℕ → ℕ → KdeStep
  unfolding take_gtk skip_element
  vendor_element type dlen i = do
    o0 ← get_elem? kd (i + 2)
    o1 ← get_elem? kd (i + 3)
    o2 ← get_elem? kd (i + 4)
    kind ← get_elem? kd (i + 5)
    if is_gtk_kde o0 o1 o2 kind then take_gtk i dlen else skip_element type dlen i

  -- The element of type `type` and length `dlen` at `i`; a truncated one ends the walk.
  unfoldable pub element_body : ℕ → ℕ → ℕ → KdeStep
  unfolding vendor_element
  element_body type dlen i =
      if ltb (length kd) (i + 2 + dlen)
      then ends nothing
      else if type == 0xdd && leb 6 dlen
      then vendor_element type dlen i
      else skip_element type dlen i

  unfoldable pub kde_element : ℕ → KdeStep
  kde_element i = do type ← get_elem? kd i; dlen ← get_elem? kd (i + 1); element_body type dlen i

  -- `while (i + 2 <= len)`, on fuel.
  unfoldable pub walk_kdes : ℕ → ℕ → Kde
  walk_kdes zero i = unfinished
  walk_kdes (suc fuel) i =
      let rest = after_element (kde_element i) (walk_kdes fuel) in
      if leb (i + 2) (length kd) then rest else nothing

  -- Each round moves on by two bytes or more.
  unfoldable pub parse_gtk_kde : Kde
  unfolding walk_kdes kde_element element_body
  parse_gtk_kde = walk_kdes (length kd + 1) 0
