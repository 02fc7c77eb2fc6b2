-- ===== src/Wpa/Gtk.antt =====
-- extract_gtk of core/wpa.c: the group key out of the key data of M3. `dec` is the AES decryption
-- under the KEK.
use rtl8821ce_mac_os.Base.{ℕ, ◌+◌, ◌*◌, ◌%◌, ◌^◌, ◌≤◌, ◌<◌, arith, bit_or}
use rtl8821ce_mac_os.Base.{◌||◌, not, if◌then◌else◌, ltb, ◌==◌, Option, none, some}
use rtl8821ce_mac_os.Base.{
  List, length, get_elem?, copy_out, copy_out_lem, get_or, get_elem?-eq-get_or,
}
use rtl8821ce_mac_os.Base.Bits.{u16}
use rtl8821ce_mac_os.Wpa.Unwrap.{aes_unwrap}
use rtl8821ce_mac_os.Wpa.Kde.{Kde, found, nothing, unfinished, parse_gtk_kde}
use rtl8821ce_mac_os.Wpa.Kde.Safe.{IsGtkResult, parse_gtk_kde-IsGtkResult}

-- A usable key with its index, the result 0, or a read outside the received bytes.
pub data Gtk : Type 0 where
  usable : ℕ → List ℕ → Gtk
  unusable fault : Gtk

unfoldable pub get_be16 : ℕ → ℕ → ℕ
get_be16 hi lo = u16 (bit_or (hi * 2 ^ 8) lo)

-- `if (glen >= 16)`
abbrev pub long_enough : Kde → Gtk
long_enough (found keyidx gtk) = if ltb (length gtk) 16 then unusable else usable keyidx gtk
long_enough nothing = unusable
long_enough Kde.fault = Gtk.fault
long_enough unfinished = Gtk.fault

abbrev pub unwrapped_gtk : Option (List ℕ) → Gtk
unwrapped_gtk none = unusable
unwrapped_gtk (some plain) = long_enough (parse_gtk_kde plain)

infixl 5 ◌>>=◌
abbrev ◌>>=◌ {ℓ} : {A : Type ℓ} → Option A → (A → Gtk) → Gtk
none >>= k = Gtk.fault
some x >>= k = k x

unfoldable pub received_gtk : (List ℕ → List ℕ) → List ℕ → ℕ → Gtk
received_gtk dec eapol data_len =
    copy_out 99 data_len eapol >>= λ cipher. unwrapped_gtk (aes_unwrap dec cipher)

-- The key data of `data_len` bytes, once the length fits what was received.
unfoldable pub key_data_gtk : (List ℕ → List ℕ) → List ℕ → ℕ → Gtk
key_data_gtk dec eapol data_len =
    if ltb data_len 16 || (ltb 256 data_len || not (data_len % 8 == 0))
    then unusable
    else if ltb (length eapol) (4 + 95 + data_len)
    then unusable
    else received_gtk dec eapol data_len

-- `eapol` is the received frame, of `elen` bytes.
unfoldable pub extract_gtk : (List ℕ → List ℕ) → List ℕ → Gtk
unfolding received_gtk key_data_gtk get_be16
extract_gtk dec eapol = do
  hi ← get_elem? eapol 97
  lo ← get_elem? eapol 98
  key_data_gtk dec eapol (get_be16 hi lo)

abbrev pub IsInstallable : Gtk → Type 0
IsInstallable (usable keyidx gtk) = (keyidx < 4) × (16 ≤ length gtk) × (length gtk ≤ 32)
IsInstallable unusable = Unit {0}
IsInstallable Gtk.fault = ⊥

long_enough-IsInstallable : (k : Kde) → IsGtkResult k → IsInstallable (long_enough k)
long_enough-IsInstallable (found keyidx gtk) h = ground arith
long_enough-IsInstallable nothing h = tt
long_enough-IsInstallable Kde.fault h = h
long_enough-IsInstallable unfinished h = h

unwrapped_gtk-IsInstallable : (o : Option (List ℕ)) → IsInstallable (unwrapped_gtk o)
unwrapped_gtk-IsInstallable none = tt
unwrapped_gtk-IsInstallable (some plain) =
    long_enough-IsInstallable (parse_gtk_kde plain) (parse_gtk_kde-IsGtkResult plain)

received_gtk-IsInstallable :
    (dec : List ℕ → List ℕ) (eapol : List ℕ) (data_len : ℕ)
    → 99 + data_len ≤ length eapol
    → IsInstallable (received_gtk dec eapol data_len)
unfolding received_gtk
received_gtk-IsInstallable dec eapol data_len h =
    let c = copy_out_lem 99 data_len eapol h in
    rw c.1 (unwrapped_gtk-IsInstallable (aes_unwrap dec c.0))

key_data_gtk-IsInstallable :
    (dec : List ℕ → List ℕ) (eapol : List ℕ) (data_len : ℕ)
    → IsInstallable (key_data_gtk dec eapol data_len)
unfolding key_data_gtk
key_data_gtk-IsInstallable dec eapol data_len =
    ground (arith, received_gtk-IsInstallable dec eapol data_len)

-- On every received frame of at least 99 bytes, whatever its length fields claim, `extract_gtk`
-- reads received bytes only, and a key that it accepts has 16 to 32 bytes and an index below 4.
pub extract_gtk-IsInstallable :
    (dec : List ℕ → List ℕ) (eapol : List ℕ)
    → 99 ≤ length eapol
    → IsInstallable (extract_gtk dec eapol)
unfolding extract_gtk
extract_gtk-IsInstallable dec eapol h =
    rw (get_elem?-eq-get_or eapol 97 0 (omega arith), get_elem?-eq-get_or eapol 98 0 (omega arith))
      (key_data_gtk-IsInstallable dec eapol (get_be16 (get_or eapol 97 0) (get_or eapol 98 0)))
