-- ===== src/Hw.antt =====
-- Register access as the driver sees it: core/rtw_hw.h and the accessors of core/rtw_shim.h.
-- The card is not part of the program. It is a function from the history of accesses to the
-- value of the next read, so a theorem over every `Device` holds for every behaviour of a card.
use rtl8821ce_mac_os.Base.{
  ℕ, zero, suc, ◌+◌, ◌-◌, ◌*◌, ◌/◌, ◌%◌, ◌^◌, bit_and, bit_or, List, [], ◌∷◌,
}
use rtl8821ce_mac_os.Base.{Bool, true, false, if◌then◌else◌, ◌==◌, ◌≡◌, refl}
use Prim.{Unit, tt}

-- One access: a width in bytes, an address and the value read or written; or a busy wait.
pub data Access : Type 0 where
  get : ℕ → ℕ → ℕ → Access
  put : ℕ → ℕ → ℕ → Access
  delay : ℕ → Access

-- The accesses made so far, the newest first.
abbrev pub Trace : Type 0
Trace = List Access

abbrev pub Device : Type 0
Device = Trace → ℕ → ℕ → ℕ

-- A piece of driver code: it runs against a device and extends the trace.
abbrev pub M : Type 0 → Type 0
M A = Device → Trace → A × Trace

infixl 5 ◌>>=◌ ◌>>◌
abbrev pub ◌>>=◌ : {A B : Type 0} → M A → (A → M B) → M B
◌>>=◌ m f d t = let r = m d t in f r.0 d r.1

abbrev pub ◌>>◌ : {B : Type 0} → M (Unit {0}) → M B → M B
◌>>◌ m k d t = k d (m d t).1

abbrev pub pure : {A : Type 0} → A → M A
pure a d t = (a, t)

abbrev pub read8 : ℕ → M ℕ
read8 a d t = let v = d t 1 a % 256 in (v, get 1 a v ∷ t)

abbrev pub read16 : ℕ → M ℕ
read16 a d t = let v = d t 2 a % 2 ^ 16 in (v, get 2 a v ∷ t)

abbrev pub read32 : ℕ → M ℕ
read32 a d t = let v = d t 4 a % 2 ^ 32 in (v, get 4 a v ∷ t)

abbrev pub write8 : ℕ → ℕ → M (Unit {0})
write8 a v d t = (tt, put 1 a (v % 256) ∷ t)

abbrev pub write16 : ℕ → ℕ → M (Unit {0})
write16 a v d t = (tt, put 2 a (v % 2 ^ 16) ∷ t)

abbrev pub write32 : ℕ → ℕ → M (Unit {0})
write32 a v d t = (tt, put 4 a (v % 2 ^ 32) ∷ t)

abbrev pub udelay : ℕ → M (Unit {0})
udelay us d t = (tt, delay us ∷ t)

-- BIT(n), and x & ~mask on 32 bits.
abbrev pub bit : ℕ → ℕ
bit n = 2 ^ n

abbrev pub clear : ℕ → ℕ → ℕ
clear x mask = bit_and x (2 ^ 32 - 1 - mask)

-- __builtin_ctz, of a word that is not 0.
unfoldable pub ctz : ℕ → ℕ → ℕ
ctz zero m = 0
ctz (suc w) m = if m % 2 == 1 then 0 else ctz w (m / 2) + 1

-- rtw_write8_set, rtw_write8_clr and their wider versions; rtw_write32_mask.
abbrev pub write8_set : ℕ → ℕ → M (Unit {0})
write8_set a bits = read8 a >>= λ v. write8 a (bit_or v (bits % 256))

abbrev pub write8_clr : ℕ → ℕ → M (Unit {0})
write8_clr a bits = read8 a >>= λ v. write8 a (clear v (bits % 256))

abbrev pub write16_set : ℕ → ℕ → M (Unit {0})
write16_set a bits = read16 a >>= λ v. write16 a (bit_or v (bits % 2 ^ 16))

abbrev pub write32_set : ℕ → ℕ → M (Unit {0})
write32_set a bits = read32 a >>= λ v. write32 a (bit_or v (bits % 2 ^ 32))

abbrev pub write32_mask : ℕ → ℕ → ℕ → M (Unit {0})
unfolding ctz
write32_mask a mask v =
    read32 a >>= λ old. write32 a (bit_or (clear old mask) (bit_and (v * 2 ^ ctz 32 mask) mask))

abbrev pub write32_clr : ℕ → ℕ → M (Unit {0})
write32_clr a bits = read32 a >>= λ v. write32 a (clear v (bits % 2 ^ 32))

-- check_hw_ready of core/trx_regs.h with `left` rounds to go.
unfoldable pub poll : ℕ → ℕ → ℕ → ℕ → M Bool
unfolding ctz
poll zero a mask target d t = (false, t)
poll (suc left) a mask target d t =
    let v = d t 4 a % 2 ^ 32 in
    let again = poll left a mask target d (delay 10 ∷ get 4 a v ∷ t) in
    if bit_and v mask / 2 ^ ctz 32 mask == target then (true, get 4 a v ∷ t) else again

abbrev pub check_hw_ready : ℕ → ℕ → ℕ → M Bool
check_hw_ready a mask target = poll 1000 a mask target

abbrev pub write8_mask : ℕ → ℕ → ℕ → M (Unit {0})
unfolding ctz
write8_mask a mask v = read8 a >>= λ old.
    write8 a (bit_or (clear old (mask % 256)) (bit_and (v % 256 * 2 ^ ctz 32 mask) (mask % 256)))

-- The value written last to an address.
unfoldable pub written : ℕ → Trace → ℕ
written a [] = 0
written a (put w b v ∷ t) = let old = written a t in if b == a then v else old
written a (get w b v ∷ t) = written a t
written a (delay us ∷ t) = written a t

choice_written :
    (a : ℕ) (c : Bool) (x y : Bool × Trace) (t : Trace)
    → written a x.1 ≡ written a t
    → written a y.1 ≡ written a t
    → written a (if c then x else y).1 ≡ written a t
choice_written a true x y t p q = p
choice_written a false x y t p q = q

-- A poll writes nothing.
pub written-poll :
    (a n b mask target : ℕ) (d : Device) (t : Trace)
    → written a (poll n b mask target d t).1 ≡ written a t
unfolding poll written
written-poll a zero b mask target d t = refl
written-poll a (suc n) b mask target d t =
    let v = d t 4 b % 2 ^ 32 in
    choice_written a (bit_and v mask / 2 ^ ctz 32 mask == target) (true, get 4 b v ∷ t)
      (poll n b mask target d (delay 10 ∷ get 4 b v ∷ t)) t refl
      (written-poll a n b mask target d (delay 10 ∷ get 4 b v ∷ t))
