-- ===== src/Scan/Parse/Inv.antt =====
-- The well-formed scan lists of core/scan.c.
use rtl8821ce_mac_os.Base.{ℕ, zero, suc, ◌+◌, ◌≤◌, ◌≡◌, ◌≢◌, refl, sym, ap, subst, arith}
use rtl8821ce_mac_os.Base.{Bool, true, false, if◌then◌else◌, leb}
use rtl8821ce_mac_os.Base.{
  Option, none, some, List, [], ◌∷◌, ◌++◌, length, take, drop, length-append,
}
use Prim.{Unit, tt}
use rtl8821ce_mac_os.Base.Bytes.{eq_bytes, differ}
use rtl8821ce_mac_os.Scan.Nets.{
  Net, no_zero, hidden_name, max_nets, is_printable, new_net, onto, count_beacon, append_net,
  add_net,
}
use rtl8821ce_mac_os.Scan.Parse.{Scan, add_frame, parse_frame, drain}

-- No entry has the BSSID.
abbrev pub IsFresh : List ℕ → List Net → Type 0
IsFresh b [] = Unit {0}
IsFresh b (n ∷ ns) = (n.bssid ≢ b) × IsFresh b ns

-- One entry for each access point.
abbrev pub AreDistinct : List Net → Type 0
AreDistinct [] = Unit {0}
AreDistinct (n ∷ ns) = IsFresh n.bssid ns × AreDistinct ns

-- An entry that was heard, with a C string that fits `char ssid[33]`.
abbrev pub IsShown : Net → Type 0
IsShown n = (length n.ssid ≤ 32) × (no_zero n.ssid ≡ true) × (1 ≤ n.beacons)

abbrev pub AreShown : List Net → Type 0
AreShown [] = Unit {0}
AreShown (n ∷ ns) = IsShown n × AreShown ns

pub record IsWellFormed (ns : List Net) : Type 0 where
  pub few : length ns ≤ max_nets
  pub distinct : AreDistinct ns
  pub shown : AreShown ns

take_le : (k : ℕ) (xs : List ℕ) → length (take k xs) ≤ k
take_le zero xs = omega arith
take_le (suc k) [] = omega arith
take_le (suc k) (x ∷ xs) = omega (arith, take_le k xs)

is_printable-no_zero : (xs : List ℕ) → is_printable xs ≡ true → no_zero xs ≡ true
is_printable-no_zero [] h = cc
is_printable-no_zero (x ∷ xs) h = h

shown_name :
    (ssid : List ℕ) (p : Bool)
    → is_printable (take 32 ssid) ≡ p
    → (length (if p then take 32 ssid else hidden_name) ≤ 32)
      × (no_zero (if p then take 32 ssid else hidden_name) ≡ true)
unfolding no_zero
shown_name ssid true e = (take_le 32 ssid, is_printable-no_zero (take 32 ssid) e)
shown_name ssid false e = (omega arith, refl)

new_net-IsShown :
    (bssid ssid : List ℕ) (channel privacy : ℕ) → IsShown (new_net bssid ssid channel privacy)
unfolding new_net
new_net-IsShown bssid ssid channel privacy =
    let s = shown_name ssid (is_printable (take 32 ssid)) refl in (s.0, s.1, omega arith)

new_net-bssid :
    (bssid ssid : List ℕ) (channel privacy : ℕ) → (new_net bssid ssid channel privacy).bssid ≡ bssid
unfolding new_net
new_net-bssid bssid ssid channel privacy = refl

-- What counting a beacon does: the same access points in the same places, or the BSSID is new.
abbrev Counted : List ℕ → List Net → Option (List Net) → Type 0
Counted bssid ns none = IsFresh bssid ns
Counted bssid ns (some ms) =
    (length ms ≡ length ns)
    × (AreShown ns → AreShown ms)
    × (AreDistinct ns → AreDistinct ms)
    × ((b : List ℕ) → IsFresh b ns → IsFresh b ms)

onto-Counted :
    (bssid : List ℕ) (n : Net) (ns : List Net) (r : Option (List Net))
    → eq_bytes n.bssid bssid ≡ false
    → Counted bssid ns r
    → Counted bssid (n ∷ ns) (onto n r)
onto-Counted bssid n ns none e h = (differ n.bssid bssid e, h)
onto-Counted bssid n ns (some ms) e h =
    (ap suc h.0, (λ s. (s.0, h.1 s.1)), (λ d. (h.3 n.bssid d.0, h.2 d.1)), λ b f. (f.0, h.3 b f.1))

count_beacon-head :
    (bssid : List ℕ) (n : Net) (ns : List Net) (b : Bool)
    → eq_bytes n.bssid bssid ≡ b
    → Counted bssid ns (count_beacon bssid ns)
    → Counted bssid (n ∷ ns) (
        if b
        then some (record n { beacons = n.beacons + 1 } ∷ ns)
        else onto n (count_beacon bssid ns))
count_beacon-head bssid n ns true e h =
    (refl, (λ s. ((s.0.0, s.0.1, omega arith), s.1)), (λ d. d), λ b f. f)
count_beacon-head bssid n ns false e h = onto-Counted bssid n ns (count_beacon bssid ns) e h

count_beacon-Counted : (bssid : List ℕ) (ns : List Net) → Counted bssid ns (count_beacon bssid ns)
unfolding count_beacon
count_beacon-Counted bssid [] = tt
count_beacon-Counted bssid (n ∷ ns) =
    count_beacon-head bssid n ns (eq_bytes n.bssid bssid) refl (count_beacon-Counted bssid ns)

IsFresh-append :
    (b : List ℕ) (ns : List Net) (n : Net) → IsFresh b ns → n.bssid ≢ b → IsFresh b (ns ++ (n ∷ []))
IsFresh-append b [] n f h = (h, tt)
IsFresh-append b (m ∷ ns) n f h = (f.0, IsFresh-append b ns n f.1 h)

AreDistinct-append :
    (ns : List Net) (n : Net) → AreDistinct ns → IsFresh n.bssid ns → AreDistinct (ns ++ (n ∷ []))
AreDistinct-append [] n d f = (tt, tt)
AreDistinct-append (m ∷ ns) n d f =
    (IsFresh-append m.bssid ns n d.0 (λ e. f.0 (sym e)), AreDistinct-append ns n d.1 f.1)

AreShown-append : (ns : List Net) (n : Net) → AreShown ns → IsShown n → AreShown (ns ++ (n ∷ []))
AreShown-append [] n s h = (h, tt)
AreShown-append (m ∷ ns) n s h = (s.0, AreShown-append ns n s.1 h)

full_or_append :
    (ns : List Net) (n : Net) (b : Bool)
    → leb max_nets (length ns) ≡ b
    → IsFresh n.bssid ns
    → IsShown n
    → IsWellFormed ns
    → IsWellFormed (if b then ns else ns ++ (n ∷ []))
full_or_append ns n true e f s w = w
full_or_append ns n false e f s w = record {
  few = ground (arith, length-append ns (n ∷ []));
  distinct = AreDistinct-append ns n w.distinct f;
  shown = AreShown-append ns n w.shown s;
}

append_net-IsWellFormed :
    (ns : List Net) (n : Net) (r : Option (List Net))
    → Counted n.bssid ns r
    → IsShown n
    → IsWellFormed ns
    → IsWellFormed (append_net ns n r)
append_net-IsWellFormed ns n none c s w = full_or_append ns n (leb max_nets (length ns)) refl c s w
append_net-IsWellFormed ns n (some ms) c s w = record {
  few = omega (arith, w.few, c.0);
  distinct = c.2 w.distinct;
  shown = c.1 w.shown;
}

add_net-IsWellFormed :
    (ns : List Net) (bssid ssid : List ℕ) (channel privacy : ℕ)
    → IsWellFormed ns
    → IsWellFormed (add_net ns bssid ssid channel privacy)
unfolding add_net
add_net-IsWellFormed ns bssid ssid channel privacy w =
    append_net-IsWellFormed ns (new_net bssid ssid channel privacy) (count_beacon bssid ns)
      (subst (λ b. Counted b ns (count_beacon bssid ns))
        (sym (new_net-bssid bssid ssid channel privacy)) (count_beacon-Counted bssid ns))
      (new_net-IsShown bssid ssid channel privacy) w

-- A test between two results that are both well formed.
either :
    (b : Bool) (s t : Scan)
    → IsWellFormed s.nets
    → IsWellFormed t.nets
    → IsWellFormed (if b then s else t).nets
either true s t hs ht = hs
either false s t hs ht = ht

add_frame-IsWellFormed :
    (s : Scan) (f : List ℕ) (size channel : ℕ)
    → IsWellFormed s.nets
    → IsWellFormed (add_frame s f size channel).nets
unfolding add_frame
add_frame-IsWellFormed s f size channel w =
    either _ s _ w (either _ s _ w (add_net-IsWellFormed s.nets (take 6 (drop 16 f)) _ channel _ w))

parse_frame-IsWellFormed :
    (s : Scan) (buf : List ℕ) (channel : ℕ)
    → IsWellFormed s.nets
    → IsWellFormed (parse_frame s buf channel).nets
unfolding parse_frame
parse_frame-IsWellFormed s buf channel w =
    either _ s _ w (either _ s _ w (add_frame-IsWellFormed s _ _ channel w))

-- Whatever bytes the receive ring holds, draining it keeps the scan list within its 128 entries,
-- with one entry for each BSSID, and every name within 32 bytes without a 0 byte, so that it and
-- its terminator fit `char ssid[33]`; every entry has been heard at least once.
pub drain-IsWellFormed :
    (s : Scan) (slots : List (Option (List ℕ))) (channel : ℕ)
    → IsWellFormed s.nets
    → IsWellFormed (drain s slots channel).nets
unfolding drain
drain-IsWellFormed s [] channel w = w
drain-IsWellFormed s (none ∷ slots) channel w = drain-IsWellFormed s slots channel w
drain-IsWellFormed s (some buf ∷ slots) channel w =
    drain-IsWellFormed (parse_frame s buf channel) slots channel
      (parse_frame-IsWellFormed s buf channel w)
