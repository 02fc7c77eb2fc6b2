-- ===== src/Sec/Cam.antt =====
-- The security CAM that the card holds after install_keys of core/sec.c.
use rtl8821ce_mac_os.Base.{
  ℕ, zero, suc, ◌+◌, ◌*◌, ◌/◌, ◌%◌, ◌^◌, ◌≤◌, ◌<◌, ◌≡◌, refl, ap, ap₂, ◌∙◌, arith, bit_or, bit_and,
}
use rtl8821ce_mac_os.Base.{
  if◌then◌else◌, ltb, ◌==◌, ◌&&◌, true, false, Bool, List, [], ◌∷◌, ◌++◌, get_or, length, take,
}
use rtl8821ce_mac_os.Base.Bytes.{
  AreBytes, are_bytes, are_bytes→AreBytes, get_or-lt, tabulate, tabulate-get_or, take-all,
}
use Prim.{tt}
use rtl8821ce_mac_os.Hw.{get, put, delay, Trace, Device, ◌>>=◌, pure, read16, write16, bit}
use rtl8821ce_mac_os.Sec.{
  rtw_sec_cmd_reg, rtw_sec_write_reg, write_cmd, le32_at, cam_content, write_cam_from, write_cam,
  bcast, install_keys, reg_cr, rtw_sec_config, sec_config_bits,
}

-- The word that the card takes with the next command.
abbrev pending : Trace → ℕ
pending [] = 0
pending (get width a v ∷ t) = pending t
pending (delay us ∷ t) = pending t
pending (put width a v ∷ t) = if a == rtw_sec_write_reg then v else pending t

-- The word at an address of the CAM: a command with the two command bits stores the pending word.
abbrev pub cam : Trace → ℕ → ℕ
cam [] n = 0
cam (get width a v ∷ t) n = cam t n
cam (delay us ∷ t) n = cam t n
cam (put width a v ∷ t) n =
    let old = cam t n in if a == rtw_sec_cmd_reg && v == write_cmd + n then pending t else old

abbrev bytes_of : ℕ → List ℕ
bytes_of w = w % 2 ^ 8 ∷ w / 2 ^ 8 % 2 ^ 8 ∷ w / 2 ^ 16 % 2 ^ 8 ∷ w / 2 ^ 24 % 2 ^ 8 ∷ []

-- An entry as the card reads it: the key and the MAC address.
abbrev pub cam_key : Trace → ℕ → List ℕ
cam_key t k =
    bytes_of (cam t (k * 8 + 2))
    ++ (bytes_of (cam t (k * 8 + 3))
        ++ (bytes_of (cam t (k * 8 + 4)) ++ bytes_of (cam t (k * 8 + 5))))

abbrev pub cam_mac : Trace → ℕ → List ℕ
cam_mac t k =
    cam t (k * 8) / 2 ^ 16 % 2 ^ 8 ∷ cam t (k * 8) / 2 ^ 24 % 2 ^ 8 ∷ bytes_of (cam t (k * 8 + 1))

-- The low half of the first word: the key index, the cipher, the group bit and the valid bit.
abbrev pub cam_control : Trace → ℕ → ℕ
cam_control t k = cam t (k * 8) % 2 ^ 16

-- An entry with a key, for a MAC address, under the low bits of its first word.
pub record Holds (t : Trace) (k control : ℕ) (mac key : List ℕ) : Type 0 where
  pub key_is : cam_key t k ≡ key
  pub mac_is : cam_mac t k ≡ mac
  pub control_is : cam_control t k ≡ control

-- The words of an entry as write_cam writes them.
abbrev WordIs : Trace → ℕ → (ℕ → ℕ) → ℕ → Type 0
WordIs t k content i = cam t (k * 8 + i) ≡ content i % 2 ^ 32

abbrev Written : Trace → ℕ → (ℕ → ℕ) → Type 0
Written t k content =
    (cam t (k * 8) ≡ content 0 % 2 ^ 32)
    × WordIs t k content 1
    × WordIs t k content 2
    × WordIs t k content 3
    × WordIs t k content 4
    × WordIs t k content 5

bytes_of-le32_at :
    (xs : List ℕ) (i : ℕ)
    → AreBytes xs
    → bytes_of (le32_at xs i % 2 ^ 32)
      ≡ get_or xs i 0 ∷ get_or xs (i + 1) 0 ∷ get_or xs (i + 2) 0 ∷ get_or xs (i + 3) 0 ∷ []
bytes_of-le32_at xs i h =
    let a = get_or-lt xs i h in
    let b = get_or-lt xs (i + 1) h in
    let c = get_or-lt xs (i + 2) h in
    let d = get_or-lt xs (i + 3) h in
    ap₂ ◌∷◌ (omega arith)
      (ap₂ ◌∷◌ (omega arith) (ap₂ ◌∷◌ (omega arith) (ap₂ ◌∷◌ (omega arith) refl)))

first_word :
    (keyidx group a b : ℕ)
    → keyidx < 4
    → group < 2
    → a < 256
    → b < 256
    → let w = (keyidx + 4 * 2 ^ 2 + group * 2 ^ 6 + 2 ^ 15 + a * 2 ^ 16 + b * 2 ^ 24) % 2 ^ 32 in
      (w / 2 ^ 16 % 2 ^ 8 ≡ a)
      × (w / 2 ^ 24 % 2 ^ 8 ≡ b)
      × (w % 2 ^ 16 ≡ keyidx + 4 * 2 ^ 2 + group * 2 ^ 6 + 2 ^ 15)
first_word keyidx group a b hk hg ha hb = (omega arith, omega arith, omega arith)

low_two : (k : ℕ) → k < 4 → bit_and k 3 ≡ k
low_two zero h = refl
low_two (suc zero) h = refl
low_two (suc (suc zero)) h = refl
low_two (suc (suc (suc zero))) h = refl
low_two (suc (suc (suc (suc k)))) h = absurd (omega arith)

-- What an entry holds is read off its words.
Written-Holds :
    (t : Trace) (k keyidx group : ℕ) (mac key : List ℕ)
    → keyidx < 4
    → group < 2
    → length mac ≡ 6
    → AreBytes mac
    → 16 ≤ length key
    → AreBytes key
    → Written t k (cam_content keyidx group mac key)
    → Holds t k (keyidx + 4 * 2 ^ 2 + group * 2 ^ 6 + 2 ^ 15) mac (take 16 key)
unfolding cam_content tabulate
Written-Holds t k keyidx group mac key hk hg lm bm lk bk e =
    let idx : bit_and keyidx 3 ≡ keyidx = low_two keyidx hk in
    let f =
      first_word keyidx group (get_or mac 0 0) (get_or mac 1 0) hk hg (get_or-lt mac 0 bm)
        (get_or-lt mac 1 bm) in
    let w0 : cam t (k * 8)
        ≡ (keyidx
            + 4 * 2 ^ 2
            + group * 2 ^ 6
            + 2 ^ 15
            + get_or mac 0 0 * 2 ^ 16
            + get_or mac 1 0 * 2 ^ 24)
          % 2 ^ 32 =
      e.0
      ∙ ap
          (λ x.
            (x
              + 4 * 2 ^ 2
              + group * 2 ^ 6
              + 2 ^ 15
              + get_or mac 0 0 * 2 ^ 16
              + get_or mac 1 0 * 2 ^ 24)
            % 2 ^ 32)
          idx in
    let bytes : (i j : ℕ)
        → cam t (k * 8 + i) ≡ le32_at key j % 2 ^ 32
        → bytes_of (cam t (k * 8 + i))
          ≡ get_or key j 0
            ∷ get_or key (j + 1) 0
            ∷ get_or key (j + 2) 0
            ∷ get_or key (j + 3) 0
            ∷ [] =
      λ i j p. ap bytes_of p ∙ bytes_of-le32_at key j bk in
    record {
      key_is =
          ap₂ ◌++◌ (bytes 2 0 e.2)
            (ap₂ ◌++◌ (bytes 3 4 e.3) (ap₂ ◌++◌ (bytes 4 8 e.4) (bytes 5 12 e.5)))
          ∙ tabulate-get_or 16 key lk;
      mac_is =
          ap₂ ◌∷◌ (ap (λ w. w / 2 ^ 16 % 2 ^ 8) w0 ∙ f.0) (
            ap₂ ◌∷◌ (ap (λ w. w / 2 ^ 24 % 2 ^ 8) w0 ∙ f.1)
              (ap bytes_of e.1 ∙ bytes_of-le32_at mac 2 bm))
          ∙ tabulate-get_or 6 mac (omega arith)
          ∙ take-all 6 mac (omega arith);
      control_is = ap (λ w. w % 2 ^ 16) w0 ∙ f.2;
    }

module _ (d : Device) (t : Trace) (bssid tk gtk : List ℕ) where
  -- install_keys at the test of the GTK's length.
  installed : Bool → ℕ → Trace
  installed short keyidx =
      let r1 = write_cam 4 0 0 bssid tk d t in
      let r2 = (if short then pure tt else write_cam keyidx keyidx 1 bcast gtk) d r1.1 in
      let r3 = (read16 reg_cr >>= λ cr. write16 reg_cr (bit_or cr (bit 9))) d r2.1 in
      ((read16 rtw_sec_config >>= λ sc. write16 rtw_sec_config (bit_or sc sec_config_bits)) d
        r3.1).1

  pairwise :
      (keyidx : ℕ) → keyidx < 4 → Written (installed false keyidx) 4 (cam_content 0 0 bssid tk)
  unfolding installed write_cam write_cam_from cam_content
  pairwise zero h = (refl, refl, refl, refl, refl, refl)
  pairwise (suc zero) h = (refl, refl, refl, refl, refl, refl)
  pairwise (suc (suc zero)) h = (refl, refl, refl, refl, refl, refl)
  pairwise (suc (suc (suc zero))) h = (refl, refl, refl, refl, refl, refl)
  pairwise (suc (suc (suc (suc k)))) h = absurd (omega arith)

  grouped :
      (keyidx : ℕ)
      → keyidx < 4
      → Written (installed false keyidx) keyidx (cam_content keyidx 1 bcast gtk)
  unfolding installed write_cam write_cam_from cam_content
  grouped zero h = (refl, refl, refl, refl, refl, refl)
  grouped (suc zero) h = (refl, refl, refl, refl, refl, refl)
  grouped (suc (suc zero)) h = (refl, refl, refl, refl, refl, refl)
  grouped (suc (suc (suc zero))) h = (refl, refl, refl, refl, refl, refl)
  grouped (suc (suc (suc (suc k)))) h = absurd (omega arith)

  alone : (keyidx : ℕ) → Written (installed true keyidx) 4 (cam_content 0 0 bssid tk)
  unfolding installed write_cam write_cam_from cam_content
  alone keyidx = (refl, refl, refl, refl, refl, refl)

-- The pairwise entry of the CAM, and the group entry if there is a GTK.
abbrev pub Installed : Trace → List ℕ → List ℕ → ℕ → List ℕ → Type 0
Installed t bssid tk keyidx gtk =
    Holds t 4 (4 * 2 ^ 2 + 2 ^ 15) bssid (take 16 tk)
    × (16 ≤ length gtk → Holds t keyidx (keyidx + 4 * 2 ^ 2 + 2 ^ 6 + 2 ^ 15) bcast (take 16 gtk))

installed-Installed :
    (short : Bool) (d : Device) (t : Trace) (bssid tk gtk : List ℕ) (keyidx : ℕ)
    → ltb (length gtk) 16 ≡ short
    → length bssid ≡ 6
    → AreBytes bssid
    → 16 ≤ length tk
    → AreBytes tk
    → keyidx < 4
    → AreBytes gtk
    → Installed (installed d t bssid tk gtk short keyidx) bssid tk keyidx gtk
unfolding are_bytes
installed-Installed true d t bssid tk gtk keyidx s lb bb lt bt hk bg = (
  Written-Holds (installed d t bssid tk gtk true keyidx) 4 0 0 bssid tk (omega arith) (omega arith)
      lb bb lt bt (alone d t bssid tk gtk keyidx),
  λ long. absurd (ground (arith, s, long)),
)
installed-Installed false d t bssid tk gtk keyidx s lb bb lt bt hk bg = (
  Written-Holds (installed d t bssid tk gtk false keyidx) 4 0 0 bssid tk (omega arith) (omega arith)
      lb bb lt bt (pairwise d t bssid tk gtk keyidx hk),
  λ long.
      Written-Holds (installed d t bssid tk gtk false keyidx) keyidx keyidx 1 bcast gtk hk
        (omega arith) refl (are_bytes→AreBytes bcast refl) long bg
        (grouped d t bssid tk gtk keyidx hk),
)

-- After install_keys with a TK of 16 bytes and a group key index below 4, whatever the card
-- answered: entry 4 of the CAM holds the TK for the AP's address as pairwise key, and the entry of
-- the index holds the first 16 bytes of the GTK as group key if the GTK has that many, and the one
-- does not overwrite the other.
pub install_keys-Installed :
    (d : Device) (t : Trace) (bssid tk gtk : List ℕ) (keyidx : ℕ)
    → length bssid ≡ 6
    → AreBytes bssid
    → 16 ≤ length tk
    → AreBytes tk
    → keyidx < 4
    → AreBytes gtk
    → Installed (install_keys bssid tk keyidx gtk d t).1 bssid tk keyidx gtk
unfolding install_keys installed
install_keys-Installed d t bssid tk gtk keyidx lb bb lt bt hk bg =
    installed-Installed (ltb (length gtk) 16) d t bssid tk gtk keyidx refl lb bb lt bt hk bg
