-- ===== src/Config/Update.antt =====
-- What a later lookup finds after config_set_network.
use rtl8821ce_mac_os.Base.{ℕ, zero, suc, ◌≤◌, ◌≡◌, ◌≢◌, refl, sym, ap, arith, subst, ◌∙◌}
use rtl8821ce_mac_os.Base.{Bool, true, false, if◌then◌else◌, leb}
use rtl8821ce_mac_os.Base.{Option, none, some, List, [], ◌∷◌, ◌++◌, length, take}
use Prim.{tt}
use rtl8821ce_mac_os.Base.Bytes.{eq_bytes, eq_bytes_refl, eq_bytes_eq, differ}
use rtl8821ce_mac_os.Config.{
  Network, max_networks, network_match, next, find_network, append_network, add_network,
  set_password, with_password, set_network,
}
use rtl8821ce_mac_os.Config.Lookup.{IsUnknown, same_lem}

abbrev pub entry : List ℕ → List ℕ → Network
entry s p = record { ssid = s; password = take 63 p }

-- The lookup after the password of one entry was set: the name has it, other names are untouched.
abbrev pub IsUpdated : List Network → List ℕ → List ℕ → List Network → Type 0
IsUpdated ns s p ms =
    (network_match ms s ≡ some (entry s p))
    × ((o : List ℕ) → s ≢ o → network_match ms o ≡ network_match ns o)

abbrev Found : List Network → List ℕ → Option ℕ → Type 0
Found ns s none = IsUnknown s ns
Found ns s (some i) = (p : List ℕ) → IsUpdated ns s p (set_password ns i p)

match-head :
    (n : Network) (ns : List Network) (s : List ℕ) → n.ssid ≡ s → network_match (n ∷ ns) s ≡ some n
unfolding network_match
match-head n ns s h = ground (arith, ap (λ x. eq_bytes x s) h, eq_bytes_refl s)

match-tail :
    (n : Network) (ns : List Network) (s : List ℕ)
    → n.ssid ≢ s
    → network_match (n ∷ ns) s ≡ network_match ns s
unfolding network_match
match-tail n ns s h = ground (arith, same_lem n.ssid s h)

-- Setting the password of the head.
set_head :
    (n : Network) (ns : List Network) (s p : List ℕ)
    → n.ssid ≡ s
    → IsUpdated (n ∷ ns) s p (record n { password = take 63 p } ∷ ns)
set_head n ns s p h = (
  match-head (record n { password = take 63 p }) ns s h
      ∙ ap (λ x. some (record { ssid = x; password = take 63 p })) h,
  λ o d.
      match-tail (record n { password = take 63 p }) ns o (λ e. d (sym h ∙ e))
      ∙ sym (match-tail n ns o (λ e. d (sym h ∙ e))),
)

match_cong :
    (n : Network) (ns ms : List Network) (o : List ℕ)
    → network_match ms o ≡ network_match ns o
    → network_match (n ∷ ms) o ≡ network_match (n ∷ ns) o
unfolding network_match
match_cong n ns ms o h = ap (λ r. if eq_bytes n.ssid o then some n else r) h

set_tail :
    (n : Network) (ns ms : List Network) (s p : List ℕ)
    → n.ssid ≢ s
    → IsUpdated ns s p ms
    → IsUpdated (n ∷ ns) s p (n ∷ ms)
set_tail n ns ms s p h k = (match-tail n ms s h ∙ k.0, λ o d. match_cong n ns ms o (k.1 o d))

next-Found :
    (n : Network) (ns : List Network) (s : List ℕ) (r : Option ℕ)
    → n.ssid ≢ s
    → Found ns s r
    → Found (n ∷ ns) s (next r)
unfolding set_password
next-Found n ns s none h f = (h, f)
next-Found n ns s (some i) h f = λ p. set_tail n ns (set_password ns i p) s p h (f p)

head-Found :
    (n : Network) (ns : List Network) (s : List ℕ) (b : Bool)
    → eq_bytes n.ssid s ≡ b
    → Found ns s (find_network ns s)
    → Found (n ∷ ns) s (if b then some 0 else next (find_network ns s))
unfolding set_password
head-Found n ns s true e f = λ p. set_head n ns s p (eq_bytes_eq n.ssid s e)
head-Found n ns s false e f = next-Found n ns s (find_network ns s) (differ n.ssid s e) f

find_network-Found : (ns : List Network) (s : List ℕ) → Found ns s (find_network ns s)
unfolding find_network
find_network-Found [] s = tt
find_network-Found (n ∷ ns) s = head-Found n ns s (eq_bytes n.ssid s) refl (find_network-Found ns s)

-- The entry that add_network appends.
append-IsUpdated :
    (ns : List Network) (s p : List ℕ)
    → IsUnknown s ns
    → IsUpdated ns s p
        (set_password (ns ++ (record { ssid = s; password = [] } ∷ [])) (length ns) p)
unfolding set_password
append-IsUpdated [] s p u = (match-head (entry s p) [] s refl, λ o d. match-tail (entry s p) [] o d)
append-IsUpdated (n ∷ ns) s p u = set_tail n ns _ s p u.0 (append-IsUpdated ns s p u.1)

no_room : (xs : List ℕ) → ¬ (suc (length xs) ≤ 0)
no_room xs h = omega arith

take_all : (k : ℕ) (xs : List ℕ) → length xs ≤ k → take k xs ≡ xs
take_all zero [] h = refl
take_all zero (x ∷ xs) h = absurd (no_room xs h)
take_all (suc k) [] h = refl
take_all (suc k) (x ∷ xs) h = ap (λ ys. x ∷ ys) (take_all k xs (omega arith))

full-IsUpdated :
    (ns : List Network) (s p : List ℕ) (b : Bool)
    → leb max_networks (length ns) ≡ b
    → length s ≤ 32
    → IsUnknown s ns
    → (with_password
        (if b then record { nets = ns; index = none } else record {
          nets = ns ++ (record { ssid = take 32 s; password = [] } ∷ []);
          index = some (length ns);
        })
        p).is_ok
      ≡ true
    → IsUpdated ns s p
        (with_password
          (if b then record { nets = ns; index = none } else record {
            nets = ns ++ (record { ssid = take 32 s; password = [] } ∷ []);
            index = some (length ns);
          })
          p).state
full-IsUpdated ns s p true e l u h = cc
full-IsUpdated ns s p false e l u h =
    subst
      (λ x.
        IsUpdated ns s p
          (set_password (ns ++ (record { ssid = x; password = [] } ∷ [])) (length ns) p))
      (sym (take_all 32 s l)) (append-IsUpdated ns s p u)

added-IsUpdated :
    (ns : List Network) (s p : List ℕ) (r : Option ℕ)
    → length s ≤ 32
    → Found ns s r
    → (with_password (append_network ns s r) p).is_ok ≡ true
    → IsUpdated ns s p (with_password (append_network ns s r) p).state
added-IsUpdated ns s p none l f h = full-IsUpdated ns s p (leb max_networks (length ns)) refl l f h
added-IsUpdated ns s p (some i) l f h = f p

-- A name of 1 to 32 bytes that config_set_network accepts is found afterwards with the given
-- password, cut to 63 bytes, whether it was known before or not; a lookup of any other name finds
-- what it found before.
pub set_network-IsUpdated :
    (ns : List Network) (c : ℕ) (s p : List ℕ)
    → length (c ∷ s) ≤ 32
    → (set_network ns (c ∷ s) p).is_ok ≡ true
    → IsUpdated ns (c ∷ s) p (set_network ns (c ∷ s) p).state
unfolding set_network add_network
set_network-IsUpdated ns c s p l h =
    added-IsUpdated ns (c ∷ s) p (find_network ns (c ∷ s)) l (find_network-Found ns (c ∷ s)) h
