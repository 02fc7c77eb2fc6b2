-- ===== src/Fw/Bounds.antt =====
-- The image reads and the loops of a whole firmware download of core/fwdownload.c.
use rtl8821ce_mac_os.Base.{
  ℕ, zero, suc, ◌==◌, [], ◌∷◌, ◌++◌, get_or, bit_and, ◌*◌, ◌+◌, ◌^◌, ◌≤◌, ◌<◌, ◌≡◌, refl, arith,
}
use rtl8821ce_mac_os.Base.{Bool, true, false, if◌then◌else◌, List, length}
use Prim.{Unit}
use rtl8821ce_mac_os.Trx.{Log, World, State, D, ◌>>=◌, ◌>>◌}
use rtl8821ce_mac_os.Trx.Init.{TrxChip}
use rtl8821ce_mac_os.Fw.{
  einval, Rc, ok, err, Sections, le32_to_cpu, with_chksum, load_address, sections,
  check_firmware_size, fw_hdr_size, wlan_cpu_enable, download_firmware_reg_backup, restore_reg,
  download_firmware_reset_platform,
}
use rtl8821ce_mac_os.Fw.Run.{
  Loaded, start_download_firmware, dlfw_fail, validated, started, download_firmware_end_flow,
  download_firmware_validate, download_firmware,
}
use rtl8821ce_mac_os.Fw.Honest.{
  IsHonest, ok-IsHonest, einval-IsHonest, choice-IsHonest, start-IsHonest,
}

validate-IsHonest : (w : World) (s : State) → IsHonest (download_firmware_validate w s).0
unfolding download_firmware_validate
validate-IsHonest w s = choice-IsHonest _ _ _ ok-IsHonest einval-IsHonest

validated-IsHonest :
    (chip : TrxChip) (running : Bool) (rc : Rc) (w : World) (s : State)
    → IsHonest rc
    → IsHonest (validated chip running rc w s).0.ret
unfolding validated dlfw_fail
validated-IsHonest chip running ok w s h = ok-IsHonest
validated-IsHonest chip running (err e) w s h = h

started-IsHonest :
    (chip : TrxChip) (running : Bool) (rc : Rc) (restore : D (Unit {0})) (w : World) (s : State)
    → IsHonest rc
    → IsHonest (started chip running rc restore w s).0.ret
unfolding started dlfw_fail
started-IsHonest chip running (err e) restore w s h = h
started-IsHonest chip running ok restore w s h =
    let t = ((restore >> download_firmware_end_flow >> wlan_cpu_enable true) w s).1 in
    let v = download_firmware_validate w t in
    validated-IsHonest chip running v.0 w v.1 (validate-IsHonest w t)

checked-IsHonest :
    (b : Bool) (malloc : ℕ → Log → Bool) (chip : TrxChip) (image : List ℕ) (running : Bool)
    (w : World) (s : State)
    → (b ≡ true
        → fw_hdr_size
            + (sections image).dmem_size
            + (sections image).imem_size
            + (sections image).emem_size
          ≤ length image)
    → let r : Loaded × State =
        if b
        then (wlan_cpu_enable false >> download_firmware_reg_backup >>= λ bckp.
              download_firmware_reset_platform
              >> start_download_firmware malloc chip image
              >>= λ ret. started chip running ret (restore_reg bckp))
            w s
        else (record { ret = err einval; running = running }, s) in
      IsHonest r.0.ret
checked-IsHonest false malloc chip image running w s i = (λ e. cc, λ e. cc)
checked-IsHonest true malloc chip image running w s i =
    let off = (wlan_cpu_enable false w s).1 in
    let saved = download_firmware_reg_backup w off in
    let t = (download_firmware_reset_platform w saved.1).1 in
    let load = start_download_firmware malloc chip image w t in
    started-IsHonest chip running load.0 (restore_reg saved.0) w load.1
      (start-IsHonest malloc chip image w t (i refl))

unwrapped :
    (image : List ℕ) (n : ℕ)
    → fw_hdr_size
        + (sections image).dmem_size
        + (sections image).imem_size
        + (sections image).emem_size
      < 2 ^ 32
    → check_firmware_size image n ≡ true
    → n ≡ length image
    → fw_hdr_size
        + (sections image).dmem_size
        + (sections image).imem_size
        + (sections image).emem_size
      ≤ length image
unfolding check_firmware_size
unwrapped image n short c e = ground arith

-- The bytes of the header, in an image that goes on.
get_or-append : (xs ys : List ℕ) (i : ℕ) → i < length xs → get_or (xs ++ ys) i 0 ≡ get_or xs i 0
get_or-append [] ys i h = absurd (omega arith)
get_or-append (x ∷ xs) ys zero h = refl
get_or-append (x ∷ xs) ys (suc i) h = get_or-append xs ys i (omega arith)

le32_to_cpu-append :
    (xs ys : List ℕ) (i : ℕ) → i + 4 ≤ length xs → le32_to_cpu (xs ++ ys) i ≡ le32_to_cpu xs i
le32_to_cpu-append xs ys i h =
    let b0 = get_or-append xs ys i (omega arith) in
    let b1 = get_or-append xs ys (i + 1) (omega arith) in
    let b2 = get_or-append xs ys (i + 2) (omega arith) in
    let b3 = get_or-append xs ys (i + 3) (omega arith) in
    λ j. b0 j + b1 j * 2 ^ 8 + b2 j * 2 ^ 16 + b3 j * 2 ^ 24

-- The sections by the fields of the header.
abbrev by_fields : ℕ → ℕ → ℕ → ℕ → ℕ → ℕ → ℕ → Sections
by_fields usage emem_at dmem imem dmem_at imem_at emem_to =
    let emem = if bit_and usage 16 == 0 then 0 else emem_at in
    record {
      dmem_size = with_chksum dmem;
      imem_size = with_chksum imem;
      emem_size = if emem == 0 then 0 else with_chksum emem;
      dmem_addr = load_address dmem_at;
      imem_addr = load_address imem_at;
      emem_addr = load_address emem_to;
    }

sections-append : (xs ys : List ℕ) → fw_hdr_size ≤ length xs → sections (xs ++ ys) ≡ sections xs
unfolding sections
sections-append xs ys h =
    let u = get_or-append xs ys 24 (omega arith) in
    let e = le32_to_cpu-append xs ys 52 (omega arith) in
    let d = le32_to_cpu-append xs ys 36 (omega arith) in
    let i = le32_to_cpu-append xs ys 48 (omega arith) in
    let da = le32_to_cpu-append xs ys 32 (omega arith) in
    let ia = le32_to_cpu-append xs ys 60 (omega arith) in
    let ea = le32_to_cpu-append xs ys 56 (omega arith) in
    λ j. by_fields (u j) (e j) (d j) (i j) (da j) (ia j) (ea j)

-- On an image that has its whole header, of the size that is passed, and whose section sizes do not
-- wrap a u32 when they are added up: whatever the card, malloc and the rings do, the header is read
-- inside the image, so that the sections do not depend on what stands behind it in memory; no copy
-- of the download reads past the image; and its loops end within their rounds.
pub download_firmware-IsHonest :
    (malloc : ℕ → Log → Bool) (chip : TrxChip) (image behind : List ℕ) (running : Bool) (w : World)
    (s : State)
    → fw_hdr_size ≤ length image
    → fw_hdr_size
        + (sections image).dmem_size
        + (sections image).imem_size
        + (sections image).emem_size
      < 2 ^ 32
    → (sections (image ++ behind) ≡ sections image)
      × IsHonest (download_firmware malloc chip image (length image) running w s).0.ret
unfolding download_firmware
download_firmware-IsHonest malloc chip image behind running w s header short = (
  sections-append image behind header,
  checked-IsHonest (check_firmware_size image (length image)) malloc chip image running w s
      (λ c. unwrapped image (length image) short c refl),
)
