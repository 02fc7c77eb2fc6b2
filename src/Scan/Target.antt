-- ===== src/Scan/Target.antt =====
-- find_by_ssid and best_target of core/scan.c. `known` is network_match of the configuration.
pub mod Best
use rtl8821ce_mac_os.Base.{ℕ, zero, suc, Bool, true, false, ◌||◌, ◌&&◌, not, if◌then◌else◌, ltb}
use rtl8821ce_mac_os.Base.{Option, none, some, List, [], ◌∷◌}
use rtl8821ce_mac_os.Base.Bytes.{eq_bytes}
use rtl8821ce_mac_os.Scan.Nets.{Net}

unfoldable pub find_by_ssid : List ℕ → List Net → Option Net
unfolding eq_bytes
find_by_ssid ssid [] = none
find_by_ssid ssid (n ∷ ns) =
    let rest = find_by_ssid ssid ns in if not n.hidden && eq_bytes n.ssid ssid then some n else rest

-- `if (!best || n->beacons > best->beacons) best = n`.
unfoldable pub better : Net → Option Net → Option Net
better n none = some n
better n (some best) = if ltb best.beacons n.beacons then some n else some best

unfoldable pub best_from : (List ℕ → Bool) → List Net → Option Net → Option Net
unfolding better
best_from known [] best = best
best_from known (n ∷ ns) best =
    let passed = best_from known ns best in
    if n.hidden
    then passed
    else if not (known n.ssid)
    then passed
    else best_from known ns (better n best)

unfoldable pub best_target : (List ℕ → Bool) → List Net → Option Net
best_target known nets = best_from known nets none
