-- ===== src/Config/Lookup.antt =====
-- What a later lookup finds after the known networks were changed.
use rtl8821ce_mac_os.Base.{ℕ, ◌≡◌, ◌≢◌, refl, sym, arith, subst, ◌∙◌}
use rtl8821ce_mac_os.Base.{Bool, true, false, if◌then◌else◌, Bool-cases, inl, inr}
use rtl8821ce_mac_os.Base.{none, List, [], ◌∷◌}
use Prim.{Unit, tt}
use rtl8821ce_mac_os.Base.Bytes.{eq_bytes, eq_bytes_eq}
use rtl8821ce_mac_os.Config.{Network, network_match, after_kept, forget_network}

-- No entry has the name.
abbrev pub IsUnknown : List ℕ → List Network → Type 0
IsUnknown s [] = Unit {0}
IsUnknown s (n ∷ ns) = (n.ssid ≢ s) × IsUnknown s ns

abbrev pub AreDistinct : List Network → Type 0
AreDistinct [] = Unit {0}
AreDistinct (n ∷ ns) = IsUnknown n.ssid ns × AreDistinct ns

pub same_lem : (a b : List ℕ) → a ≢ b → eq_bytes a b ≡ false
same_lem a b h = elim (Bool-cases (eq_bytes a b)) [
  | inl e ↦ absurd (h (eq_bytes_eq a b e))
  | inr e ↦ e
]

unknown-match : (ns : List Network) (s : List ℕ) → IsUnknown s ns → network_match ns s ≡ none
unfolding network_match
unknown-match [] s h = refl
unknown-match (n ∷ ns) s h = ground (arith, same_lem n.ssid s h.0, unknown-match ns s h.1)

-- The head of a list, whichever way the comparison goes.
head_forgotten :
    (n : Network) (ns : List Network) (s : List ℕ) (b : Bool)
    → eq_bytes n.ssid s ≡ b
    → AreDistinct (n ∷ ns)
    → network_match (forget_network ns s).state s ≡ none
    → network_match
        (if b
          then record { is_ok = true; state = ns }
          else after_kept n (forget_network ns s)).state
        s
      ≡ none
unfolding network_match
head_forgotten n ns s true e d h =
    unknown-match ns s (subst (λ x. IsUnknown x ns) (eq_bytes_eq n.ssid s e) d.0)
head_forgotten n ns s false e d h = ground (arith, e, h)

-- A forgotten network is not found again, where every name has one entry.
forget_network-match :
    (ns : List Network) (s : List ℕ)
    → AreDistinct ns
    → network_match (forget_network ns s).state s ≡ none
unfolding forget_network
forget_network-match [] s d = unknown-match [] s tt
forget_network-match (n ∷ ns) s d =
    head_forgotten n ns s (eq_bytes n.ssid s) refl d (forget_network-match ns s d.1)

-- Any other network is found as before.
head_other :
    (n : Network) (ns : List Network) (s o : List ℕ) (b : Bool)
    → eq_bytes n.ssid s ≡ b
    → s ≢ o
    → network_match (forget_network ns s).state o ≡ network_match ns o
    → network_match
        (if b
          then record { is_ok = true; state = ns }
          else after_kept n (forget_network ns s)).state
        o
      ≡ network_match (n ∷ ns) o
unfolding network_match
head_other n ns s o true e h k =
    ground (arith, same_lem n.ssid o (λ x. h (sym (eq_bytes_eq n.ssid s e) ∙ x)))
head_other n ns s o false e h k = ground (arith, k)

forget_network-other :
    (ns : List Network) (s o : List ℕ)
    → s ≢ o
    → network_match (forget_network ns s).state o ≡ network_match ns o
unfolding forget_network
forget_network-other [] s o h = refl
forget_network-other (n ∷ ns) s o h =
    head_other n ns s o (eq_bytes n.ssid s) refl h (forget_network-other ns s o h)

-- Where every name has one entry, config_forget_network removes the network: a lookup of its name
-- finds nothing afterwards, and a lookup of any other name finds what it found before.
pub forget_network-network_match :
    (ns : List Network) (s o : List ℕ)
    → AreDistinct ns
    → s ≢ o
    → (network_match (forget_network ns s).state s ≡ none)
      × (network_match (forget_network ns s).state o ≡ network_match ns o)
forget_network-network_match ns s o d h =
    (forget_network-match ns s d, forget_network-other ns s o h)
