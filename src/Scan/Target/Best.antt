-- ===== src/Scan/Target/Best.antt =====
-- What the chosen network is.
use rtl8821ce_mac_os.Base.{
  ℕ, ◌≤◌, ◌≡◌, ◌⊎◌, inl, inr, refl, arith, Bool, true, false, not, if◌then◌else◌, ltb, Bool-cases,
}
use rtl8821ce_mac_os.Base.{Option, none, some, List, [], ◌∷◌}
use Prim.{Unit, tt}
use rtl8821ce_mac_os.Scan.Nets.{Net}
use rtl8821ce_mac_os.Scan.Target.{better, best_from, best_target}

-- A visible network of the configuration.
abbrev pub IsCandidate : (List ℕ → Bool) → Net → Type 0
IsCandidate known n = (n.hidden ≡ false) × (known n.ssid ≡ true)

-- A choice that has at least so many beacons.
abbrev pub Reaches : ℕ → Option Net → Type 0
Reaches b none = ⊥
Reaches b (some m) = b ≤ m.beacons

abbrev pub AllReach : (List ℕ → Bool) → List Net → Option Net → Type 0
AllReach known [] r = Unit {0}
AllReach known (n ∷ ns) r = (IsCandidate known n → Reaches n.beacons r) × AllReach known ns r

-- The choice is one of the candidates of the list.
abbrev pub IsFrom : (List ℕ → Bool) → List Net → Net → Type 0
IsFrom known [] m = ⊥
IsFrom known (n ∷ ns) m = ((m ≡ n) × IsCandidate known n) ⊎ IsFrom known ns m

Reaches-better : (b : ℕ) (n : Net) (best : Option Net) → Reaches b best → Reaches b (better n best)
unfolding better
Reaches-better b n none h = absurd h
Reaches-better b n (some m) h = ground arith

better-Reaches : (n : Net) (best : Option Net) → Reaches n.beacons (better n best)
unfolding better
better-Reaches n none = omega arith
better-Reaches n (some m) = ground arith

-- The test that `best_from` makes of a network, for any property of the choice.
test_lem :
    (P : Option Net → Type 0) (known : List ℕ → Bool) (n : Net) (x y : Option Net) (hidden k : Bool)
    → n.hidden ≡ hidden
    → known n.ssid ≡ k
    → P x
    → (IsCandidate known n → P y)
    → P (if hidden then x else if not k then x else y)
test_lem P known n x y true k eh ek hx hy = hx
test_lem P known n x y false true eh ek hx hy = hy (eh, ek)
test_lem P known n x y false false eh ek hx hy = hx

best_from-Reaches :
    (known : List ℕ → Bool) (ns : List Net) (best : Option Net) (b : ℕ)
    → Reaches b best
    → Reaches b (best_from known ns best)
unfolding best_from
best_from-Reaches known [] best b h = h
best_from-Reaches known (n ∷ ns) best b h =
    test_lem (Reaches b) known n _ _ n.hidden (known n.ssid) refl refl
      (best_from-Reaches known ns best b h)
      (λ c. best_from-Reaches known ns (better n best) b (Reaches-better b n best h))

-- A candidate at the head of the list is reached.
head_lem :
    (known : List ℕ → Bool) (n : Net) (x y : Option Net) (hidden k : Bool)
    → n.hidden ≡ hidden
    → known n.ssid ≡ k
    → Reaches n.beacons y
    → IsCandidate known n
    → Reaches n.beacons (if hidden then x else if not k then x else y)
head_lem known n x y true k eh ek h c = cc
head_lem known n x y false true eh ek h c = h
head_lem known n x y false false eh ek h c = cc

best_from-AllReach :
    (known : List ℕ → Bool) (ns : List Net) (best : Option Net)
    → AllReach known ns (best_from known ns best)
unfolding best_from
best_from-AllReach known [] best = tt
best_from-AllReach known (n ∷ ns) best = (
  head_lem known n _ _ n.hidden (known n.ssid) refl refl
      (best_from-Reaches known ns (better n best) n.beacons (better-Reaches n best)),
  test_lem (AllReach known ns) known n _ _ n.hidden (known n.ssid) refl refl
      (best_from-AllReach known ns best) (λ c. best_from-AllReach known ns (better n best)),
)

better-some :
    (n : Net) (best : Option Net) (m : Net) → better n best ≡ some m → (best ≡ some m) ⊎ (m ≡ n)
unfolding better
better-some n none m h = inr cc
better-some n (some b) m h = elim (Bool-cases (ltb b.beacons n.beacons)) [
  | inl e ↦ inr (ground arith)
  | inr e ↦ inl (ground arith)
]

-- Where the choice starts from, or comes from.
abbrev Origin : (List ℕ → Bool) → List Net → Option Net → Net → Type 0
Origin known ns best m = (best ≡ some m) ⊎ IsFrom known ns m

Origin-tail :
    (known : List ℕ → Bool) (n : Net) (ns : List Net) (best : Option Net) (m : Net)
    → Origin known ns best m
    → Origin known (n ∷ ns) best m
Origin-tail known n ns best m (inl e) = inl e
Origin-tail known n ns best m (inr f) = inr (inr f)

Origin-head :
    (known : List ℕ → Bool) (n : Net) (best : Option Net) (m : Net) (ns : List Net)
    → IsCandidate known n
    → (best ≡ some m) ⊎ (m ≡ n)
    → Origin known (n ∷ ns) best m
Origin-head known n best m ns c (inl e) = inl e
Origin-head known n best m ns c (inr e) = inr (inl (e, c))

Origin-better :
    (known : List ℕ → Bool) (n : Net) (ns : List Net) (best : Option Net) (m : Net)
    → IsCandidate known n
    → Origin known ns (better n best) m
    → Origin known (n ∷ ns) best m
Origin-better known n ns best m c (inl e) = Origin-head known n best m ns c (better-some n best m e)
Origin-better known n ns best m c (inr f) = inr (inr f)

best_from-Origin :
    (known : List ℕ → Bool) (ns : List Net) (best : Option Net) (m : Net)
    → best_from known ns best ≡ some m
    → Origin known ns best m
unfolding best_from
best_from-Origin known [] best m h = inl h
best_from-Origin known (n ∷ ns) best m h =
    test_lem (λ r. r ≡ some m → Origin known (n ∷ ns) best m) known n _ _ n.hidden (known n.ssid)
      refl refl (λ e. Origin-tail known n ns best m (best_from-Origin known ns best m e))
      (λ c e. Origin-better known n ns best m c (best_from-Origin known ns (better n best) m e)) h

not_start :
    (known : List ℕ → Bool) (ns : List Net) (m : Net) → Origin known ns none m → IsFrom known ns m
not_start known ns m (inl e) = cc
not_start known ns m (inr f) = f

-- best_target picks a visible network of the configuration with the most beacons of all such
-- networks, and picks none only where the scan list has no such network.
pub best_target-IsFrom :
    (known : List ℕ → Bool) (nets : List Net)
    → ((m : Net) → best_target known nets ≡ some m → IsFrom known nets m)
      × AllReach known nets (best_target known nets)
unfolding best_target
best_target-IsFrom known nets = (
  λ m h. not_start known nets m (best_from-Origin known nets none m h),
  best_from-AllReach known nets none,
)
