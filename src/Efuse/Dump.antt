-- ===== src/Efuse/Dump.antt =====
-- dump_physical_efuse_map of core/efuse.c and its register helpers.
use rtl8821ce_mac_os.Base.{ℕ, zero, suc, ◌+◌, ◌*◌, ◌%◌, ◌^◌, ◌<◌, ◌≡◌, refl, bit_and, bit_or, arith}
use rtl8821ce_mac_os.Base.{Bool, false, if◌then◌else◌, ◌==◌}
use rtl8821ce_mac_os.Base.{Option, none, some, List, [], ◌∷◌, length, ap}
use rtl8821ce_mac_os.Base.Bytes.{AreBytes}
use rtl8821ce_mac_os.Hw.{
  get, put, delay, Trace, Device, M, ◌>>=◌, ◌>>◌, read8, read32, write8, write32_mask, bit, clear,
  ctz,
}

abbrev pub reg_efuse_ctrl : ℕ
reg_efuse_ctrl = 0x30

abbrev pub reg_ldo_efuse_ctrl : ℕ
reg_ldo_efuse_ctrl = 0x34

abbrev pub reg_efuse_access : ℕ
reg_efuse_access = 0xcf

abbrev pub bit_mask_ef_data : ℕ
bit_mask_ef_data = 0xff

abbrev pub bits_ef_addr : ℕ
bits_ef_addr = 0x3ff * 2 ^ 8

abbrev pub cfg_ldo25 : Bool → M (Unit {0})
cfg_ldo25 enable = do
  ldo_pwr ← read8 (reg_ldo_efuse_ctrl + 3)
  write8 (reg_ldo_efuse_ctrl + 3) (if enable then bit_or ldo_pwr (bit 7) else clear ldo_pwr (bit 7))

abbrev pub grant_on : M (Unit {0})
grant_on = write8 reg_efuse_access 0x69

abbrev pub grant_off : M (Unit {0})
grant_off = write8 reg_efuse_access 0x00

abbrev pub switch_efuse_bank : M (Unit {0})
switch_efuse_bank = write32_mask reg_ldo_efuse_ctrl (bit_or (bit 8) (bit 9)) 0

-- The `do { } while` that waits for BIT_EF_FLAG, with `cnt` at its top. `none` is the way out
-- at `--cnt == 0`, before the flag is looked at.
unfoldable pub wait_flag : ℕ → M (Option ℕ)
wait_flag zero d t = (none, t)
wait_flag (suc cnt) d t =
    let t' = delay 1 ∷ t in
    let ctl = d t' 4 reg_efuse_ctrl % 2 ^ 32 in
    let t'' = get 4 reg_efuse_ctrl ctl ∷ t' in
    let again = wait_flag cnt d t'' in
    if cnt == 0 then (none, t'') else if bit_and ctl (bit 31) == 0 then again else (some ctl, t'')

-- The word written to REG_EFUSE_CTRL to ask for the byte at `addr`, before the flag is cleared.
abbrev pub request_word : ℕ → ℕ → ℕ
request_word efuse_ctl addr =
    bit_or (clear efuse_ctl (bit_or bit_mask_ef_data bits_ef_addr)) (bit_and addr 0x3ff * 2 ^ 8)

abbrev pub poll_budget : ℕ
poll_budget = 1000000

-- `*(map + addr) = byte`, in front of the bytes that the later rounds store.
abbrev pub store_byte : ℕ → Option (List ℕ) × Trace → Option (List ℕ) × Trace
store_byte b (none, t) = (none, t)
store_byte b (some bytes, t) = (some (b ∷ bytes), t)

-- What follows the wait: the grant is withdrawn and the dump fails, or the byte is stored.
abbrev pub after_poll :
    Option ℕ × Trace → (ℕ → M (Option (List ℕ))) → Device → Option (List ℕ) × Trace
after_poll (none, t) k d = (none, put 1 reg_efuse_access 0 ∷ t)
after_poll (some ctl, t) k d = store_byte (bit_and ctl bit_mask_ef_data % 256) (k ctl d t)

-- The loop over `addr` with `left` bytes to go. A poll that runs out gives the grant back and ends.
unfoldable pub dump_bytes : ℕ → ℕ → ℕ → ℕ → M (Option (List ℕ))
unfolding wait_flag
dump_bytes budget zero addr efuse_ctl d t = (some [], put 1 reg_efuse_access 0 ∷ t)
dump_bytes budget (suc left) addr efuse_ctl d t =
    let word = clear (request_word efuse_ctl addr) (bit 31) % 2 ^ 32 in
    let rest = λ (ctl : ℕ). dump_bytes budget left (addr + 1) ctl in
    after_poll (wait_flag budget d (put 4 reg_efuse_ctrl word ∷ t)) rest d

unfoldable pub dump_physical_efuse_map : ℕ → M (Option (List ℕ))
unfolding ctz dump_bytes
dump_physical_efuse_map size = do
  grant_on
  switch_efuse_bank
  cfg_ldo25 false
  efuse_ctl ← read32 reg_efuse_ctrl
  dump_bytes poll_budget size 0 efuse_ctl

-- A dump that ended: the grant is withdrawn by the last access, and a map has `size` bytes.
abbrev pub Whole : ℕ → Option (List ℕ) → Type 0
Whole size none = Unit {0}
Whole size (some bytes) = (length bytes ≡ size) × AreBytes bytes

abbrev pub Dumped : ℕ → Option (List ℕ) × Trace → Type 0
Dumped size r = ((before : Trace) × (r.1 ≡ put 1 reg_efuse_access 0 ∷ before)) × Whole size r.0

store_byte-Dumped :
    (size c : ℕ) (r : Option (List ℕ) × Trace)
    → c < 256
    → Dumped size r
    → Dumped (suc size) (store_byte c r)
store_byte-Dumped size c (none, t) h w = (w.0, tt)
store_byte-Dumped size c (some bytes, t) h w = (w.0, (ap suc w.1.0, (h, w.1.1)))

after_poll-Dumped :
    (size : ℕ) (w : Option ℕ × Trace) (k : ℕ → M (Option (List ℕ))) (d : Device)
    → ((ctl : ℕ) (t : Trace) → Dumped size (k ctl d t))
    → Dumped (suc size) (after_poll w k d)
after_poll-Dumped size (none, t) k d h = ((t, refl), tt)
after_poll-Dumped size (some ctl, t) k d h =
    store_byte-Dumped size (bit_and ctl bit_mask_ef_data % 256) (k ctl d t) (omega arith) (h ctl t)

dump_bytes-Dumped :
    (budget left addr ctl : ℕ) (d : Device) (t : Trace)
    → Dumped left (dump_bytes budget left addr ctl d t)
unfolding dump_bytes
dump_bytes-Dumped budget zero addr ctl d t = ((t, refl), (refl, tt))
dump_bytes-Dumped budget (suc left) addr ctl d t =
    after_poll-Dumped left
      (wait_flag budget d
        (put 4 reg_efuse_ctrl (clear (request_word ctl addr) (bit 31) % 2 ^ 32) ∷ t))
      (dump_bytes budget left (addr + 1)) d
      (λ ctl' t'. dump_bytes-Dumped budget left (addr + 1) ctl' d t')

-- On every device the dump of the physical map ends; its last access withdraws the access grant,
-- on success and on a timeout alike, and a map that it delivers has `size` bytes below 256.
pub dump_physical_efuse_map-Dumped :
    (size : ℕ) (d : Device) (t : Trace) → Dumped size (dump_physical_efuse_map size d t)
unfolding dump_physical_efuse_map
dump_physical_efuse_map-Dumped size d t = dump_bytes-Dumped poll_budget size 0 _ d _
