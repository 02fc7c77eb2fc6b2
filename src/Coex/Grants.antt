-- ===== src/Coex/Grants.antt =====
-- What core/coex.c writes to update one field of the antenna grants.
use rtl8821ce_mac_os.Base.{ℕ, ◌-◌, ◌*◌, ◌%◌, ◌^◌, ◌<◌, ◌≡◌, bit_or}
use rtl8821ce_mac_os.Base.{true, false, if◌then◌else◌, ◌==◌, [], ◌∷◌}
use rtl8821ce_mac_os.Base.Masks.{word_of}
use rtl8821ce_mac_os.Hw.{get, put, delay, Trace, Device, written}
use rtl8821ce_mac_os.Coex.{ltecoex_ctrl, ltecoex_wdata, ltecoex_rdata, ltecoex_ready}

-- The value that RDATA showed last.
unfoldable pub shown : Trace → ℕ
shown [] = 0
shown (get w a v ∷ t) = let old = shown t in if a == ltecoex_rdata then v else old
shown (put w a v ∷ t) = shown t
shown (delay us ∷ t) = shown t

-- The accesses when the first poll has found the interface ready and the register has been read.
abbrev pub word_read : ℕ → Device → Trace → Trace
word_read addr d t =
    let asked = put 4 ltecoex_ctrl (bit_or 0x800f0000 addr % 2 ^ 32) ∷ (ltecoex_ready d t).1 in
    get 4 ltecoex_rdata (d asked 4 ltecoex_rdata % 2 ^ 32) ∷ asked

-- The update of a field of `w` bits at `l`, with `s` bits above, of the indirect register `addr`.
pub data GrantFate (addr l w s val : ℕ) (d : Device) (t t' : Trace) : Type 0 where
  -- Not ready: no access but the poll, and no write at all.
  skipped :
      (ltecoex_ready d t).0 ≡ false
      → t' ≡ (ltecoex_ready d t).1
      → ((a : ℕ) → written a t' ≡ written a t)
      → GrantFate addr l w s val d t t'
  -- Not ready after the read: nothing was written but the read command.
  dropped :
      (ltecoex_ready d t).0 ≡ true
      → (ltecoex_ready d (word_read addr d t)).0 ≡ false
      → ((a : ℕ) → ltecoex_ctrl == a ≡ false → written a t' ≡ written a t)
      → GrantFate addr l w s val d t t'
  -- Ready both times.
  updated :
      (h m lo : ℕ)
      → (ltecoex_ready d t).0 ≡ true
      → (ltecoex_ready d (word_read addr d t)).0 ≡ true
      → shown t' ≡ word_of l w h m lo
      → m < 2 ^ w
      → lo < 2 ^ l
      → written ltecoex_wdata t' ≡ word_of l w h (val % 2 ^ w) lo % 2 ^ 32
      → written ltecoex_ctrl t' ≡ bit_or 0xc00f0000 addr % 2 ^ 32
      → GrantFate addr l w s val d t t'

module _ (l w s : ℕ) (e : 2 ^ l * 2 ^ w * 2 ^ s ≡ 2 ^ 32) where
  abbrev mask_of : ℕ
  mask_of = (2 ^ w - 1) * 2 ^ l
