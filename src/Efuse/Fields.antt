-- ===== src/Efuse/Fields.antt =====
-- efuse_read of core/efuse.c: dump, decode, and the fields of `struct rtw_efuse`.
use rtl8821ce_mac_os.Base.{ℕ, ◌*◌, ◌%◌, ◌^◌, ◌≢◌, ◌≤◌, ◌<◌, ◌≡◌, bit_and, bit_or, arith}
use rtl8821ce_mac_os.Base.{Bool, true, false, ◌||◌, ◌&&◌, if◌then◌else◌, ◌==◌}
use rtl8821ce_mac_os.Base.{Option, none, some, List, length, get_elem?, replicate}
use rtl8821ce_mac_os.Base.{get_or, get_elem?-eq-get_or}
use rtl8821ce_mac_os.Base.Bits.{u16}
use rtl8821ce_mac_os.Hw.{Device, Trace}
use rtl8821ce_mac_os.Efuse.Decode.{Sizes, Decoded, decoded, unfinished, dump_logical_efuse_map}
use rtl8821ce_mac_os.Efuse.Dump.{dump_physical_efuse_map, dump_physical_efuse_map-Dumped, Whole}
use rtl8821ce_mac_os.Efuse.Decode.Safe.{DecodeStays, dump_logical_efuse_map-safe}
use rtl8821ce_mac_os.Base.{length-replicate, copy_out, copy_out_lem}

-- `struct rtw_efuse` with `rfe_btg` of the hal.
pub record Fields : Type 0 where
  pub rtl_id : ℕ
  pub addr : List ℕ
  pub rfe_option : ℕ
  pub crystal_cap : ℕ
  pub rf_board_option : ℕ
  pub channel_plan : ℕ
  pub btcoex : Bool
  pub rfe_btg : Bool

pub data Read : Type 0 where
  ok : Fields → Read
  enomem ebusy einval fault : Read

-- A byte that reads EFUSE_READ_FAIL is replaced by a default.
unfoldable or_default : ℕ → ℕ → ℕ
or_default fallback v = if v == 0xff then fallback else v

-- The RFE module types that send 2.4 GHz through the front end shared with Bluetooth.
unfoldable is_btg : ℕ → Bool
is_btg rfe =
    rfe == 0x2 || (rfe == 0x4 || (rfe == 0x7 || (rfe == 0xa || (rfe == 0xc || rfe == 0xf))))

infixl 5 ◌>>=◌
abbrev ◌>>=◌ : {A B : Type 0} → Option A → (A → Option B) → Option B
none >>= k = none
some x >>= k = k x

-- The extraction out of the logical map; `none` is a read past its end.
unfoldable extract : List ℕ → Option Fields
unfolding copy_out or_default is_btg
extract log_map = do
  id_lo ← get_elem? log_map 0
  id_hi ← get_elem? log_map 1
  mac ← copy_out 0xd0 6 log_map
  rfe ← get_elem? log_map 0xca
  xtal ← get_elem? log_map 0xb9
  board ← get_elem? log_map 0xc1
  plan ← get_elem? log_map 0xb8
  some (record {
    rtl_id = u16 (bit_or id_lo (id_hi * 2 ^ 8));
    addr = mac;
    rfe_option = bit_and rfe 0x1f;
    crystal_cap = or_default 0 xtal;
    rf_board_option = or_default 0 board;
    channel_plan = or_default 0x7f plan;
    btcoex = bit_and (or_default 0 board) 0xe0 == 0x20;
    rfe_btg = is_btg (bit_and rfe 0x1f);
  })

abbrev extracted : Option Fields → Read
extracted none = fault
extracted (some f) = ok f

abbrev decoded_map : Decoded → Read
decoded_map (decoded log_map) = extracted (extract log_map)
decoded_map Decoded.invalid = einval
decoded_map Decoded.fault = fault
decoded_map unfinished = fault

abbrev dumped_map : Sizes → Option (List ℕ) → Read
dumped_map s none = ebusy
dumped_map s (some phy_map) =
    decoded_map (dump_logical_efuse_map s phy_map (replicate s.logical 0xff))

-- The two flags say whether each `malloc` succeeds.
unfoldable pub efuse_read : Sizes → Bool → Bool → Device → Trace → Read × Trace
unfolding extract
efuse_read s phy_ok log_ok d t =
    if phy_ok && log_ok
    then (let r = dump_physical_efuse_map s.physical d t in (dumped_map s r.0, r.1))
    else (enomem, t)

-- Fields in which no marker of a failed read is left, with a whole MAC address.
pub record IsUsable (f : Fields) : Type 0 where
  pub mac : length f.addr ≡ 6
  pub xtal : f.crystal_cap ≢ 0xff
  pub board : f.rf_board_option ≢ 0xff
  pub plan : f.channel_plan ≢ 0xff

abbrev pub ReadStays : Read → Type 0
ReadStays (ok f) = IsUsable f
ReadStays fault = ⊥
ReadStays r = Unit {0}

or_default-ne : (fallback v : ℕ) → fallback ≢ 0xff → or_default fallback v ≢ 0xff
unfolding or_default
or_default-ne fallback v h = ground arith

read_at : (xs : List ℕ) (i : ℕ) → i < length xs → (v : ℕ) × (get_elem? xs i ≡ some v)
read_at xs i h = (get_or xs i 0, get_elem?-eq-get_or xs i 0 h)

extract-IsUsable :
    (log_map : List ℕ) → 512 ≤ length log_map → ReadStays (extracted (extract log_map))
unfolding extract
extract-IsUsable log_map h =
    let mac = copy_out_lem 0xd0 6 log_map (omega arith) in
    let id_lo = read_at log_map 0 (omega arith) in
    let id_hi = read_at log_map 1 (omega arith) in
    let rfe = read_at log_map 0xca (omega arith) in
    let xtal = read_at log_map 0xb9 (omega arith) in
    let board = read_at log_map 0xc1 (omega arith) in
    let plan = read_at log_map 0xb8 (omega arith) in
    rw (id_lo.1, id_hi.1, mac.1, rfe.1, xtal.1, board.1, plan.1)
      (record {
        mac = mac.2;
        xtal = or_default-ne 0 xtal.0 (omega arith);
        board = or_default-ne 0 board.0 (omega arith);
        plan = or_default-ne 0x7f plan.0 (omega arith);
      })

decoded_map-stays :
    (s : Sizes) (r : Decoded) → 512 ≤ s.logical → DecodeStays s r → ReadStays (decoded_map r)
decoded_map-stays s (decoded log_map) h e = extract-IsUsable log_map (omega arith)
decoded_map-stays s Decoded.invalid h e = tt
decoded_map-stays s Decoded.fault h e = e
decoded_map-stays s unfinished h e = e

-- EFUSE sizes that the fields and the decoder can work with, as the chip's 512, 512 and 96 are.
pub record IsSound (s : Sizes) : Type 0 where
  pub fields_fit : 512 ≤ s.logical
  pub whole_words : s.logical % 2 ≡ 0
  pub some_protected : 1 ≤ s.protected
  pub protected_fits : s.protected ≤ s.physical
  pub small : s.physical < 2 ^ 31

dumped_map-stays :
    (s : Sizes) (o : Option (List ℕ)) → IsSound s → Whole s.physical o → ReadStays (dumped_map s o)
dumped_map-stays s none v h = tt
dumped_map-stays s (some phy_map) v h = decoded_map-stays s _ v.fields_fit (
    dump_logical_efuse_map-safe s phy_map (replicate s.logical 0xff) (record {
      physical = h.0;
      logical = length-replicate s.logical 0xff;
      some_protected = v.some_protected;
      protected_fits = v.protected_fits;
      whole_words = v.whole_words;
      small = v.small;
    }))

-- On every device and whatever `malloc` returns, `efuse_read` touches nothing outside its maps.
-- It fails with an error code, or delivers a MAC address of six bytes and fields in which the
-- marker 0xff of a failed read has been replaced.
pub efuse_read-ReadStays :
    (s : Sizes) (phy_ok log_ok : Bool) (d : Device) (t : Trace)
    → IsSound s
    → ReadStays (efuse_read s phy_ok log_ok d t).0
unfolding efuse_read
efuse_read-ReadStays s true true d t v =
    dumped_map-stays s (dump_physical_efuse_map s.physical d t).0 v
      (dump_physical_efuse_map-Dumped s.physical d t).1
efuse_read-ReadStays s true false d t v = tt
efuse_read-ReadStays s false log_ok d t v = tt
