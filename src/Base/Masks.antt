-- ===== src/Base/Masks.antt =====
-- `&` and `|` of words whose fields do not overlap, and single bits of a word.
use Prim.Native.Nat.{ℕ, zero, suc, ◌+◌, ◌-◌, ◌*◌, ◌/◌, ◌%◌, ◌^◌, ◌≤◌, ◌<◌, bit_and, bit_or}
use native.Mathlib.Nat.{
  pow-suc, le_refl, mod-lt, div-add-mod', mul-add-mod_self_right, mod-eq_of_lt,
  mul-lt-mul_of_pos_right, mul_comm, mul_assoc,
}
use mathlib.Core.Path.{◌≡◌, refl, sym, ap, ap₂, ◌∙◌}
use native.Mathlib.Omega.{arith}
use rtl8821ce_mac_os.Base.Bits.{bit_and_digit, bit_or_digit, bit_and_zero}

pow_times : (k a : ℕ) → a * 2 ^ suc k ≡ a * 2 ^ k * 2
pow_times k a = rw (pow-suc 2 k) (grind arith)

-- `|` works on the high and on the low parts.
pub bit_or-split :
    (k a b x y : ℕ)
    → x < 2 ^ k
    → y < 2 ^ k
    → bit_or (a * 2 ^ k + x) (b * 2 ^ k + y) ≡ bit_or a b * 2 ^ k + bit_or x y
bit_or-split zero a b zero zero hx hy =
    let ea : a * 1 + 0 ≡ a = omega arith in
    let eb : b * 1 + 0 ≡ b = omega arith in rw (ea, eb) (omega arith)
bit_or-split zero a b (suc x) y hx hy = absurd (omega arith)
bit_or-split zero a b zero (suc y) hx hy = absurd (omega arith)
bit_or-split (suc k) a b x y hx hy =
    let wa = pow_times k a in
    let wb = pow_times k b in
    let ha : (a * 2 ^ suc k + x) / 2 ≡ a * 2 ^ k + x / 2 = omega arith in
    let hb : (b * 2 ^ suc k + y) / 2 ≡ b * 2 ^ k + y / 2 = omega arith in
    let la : (a * 2 ^ suc k + x) % 2 ≡ x % 2 = omega arith in
    let lb : (b * 2 ^ suc k + y) % 2 ≡ y % 2 = omega arith in
    let half : (z : ℕ) → z < 2 ^ suc k → z / 2 < 2 ^ k = λ z h. omega (arith, pow-suc 2 k) in
    let ih = bit_or-split k a b (x / 2) (y / 2) (half x hx) (half y hy) in
    rw (bit_or_digit (a * 2 ^ suc k + x) (b * 2 ^ suc k + y), ha, hb, la, lb, ih)
      (omega (arith, bit_or_digit x y, pow_times k (bit_or a b)))

pub pow_pos : (k : ℕ) → 0 < 2 ^ k
pow_pos zero = omega arith
pow_pos (suc k) = omega (arith, pow-suc 2 k, pow_pos k)

-- `& (2 ^ k - 1)` is the remainder.
pub bit_and-low : (k x : ℕ) → bit_and x (2 ^ k - 1) ≡ x % 2 ^ k
bit_and-low zero x = omega (arith, bit_and_zero x x (le_refl x))
bit_and-low (suc k) x =
    let e : (2 ^ suc k - 1) / 2 ≡ 2 ^ k - 1 = omega (arith, pow-suc 2 k, pow_pos k) in
    let o : (2 ^ suc k - 1) % 2 ≡ 1 = omega (arith, pow-suc 2 k, pow_pos k) in
    let q = x / 2 / 2 ^ k in
    let r = x / 2 % 2 ^ k * 2 + x % 2 in
    let small : r < 2 ^ suc k = omega (arith, mod-lt (x / 2) (pow_pos k), pow-suc 2 k) in
    let parts : x ≡ q * 2 ^ suc k + r =
      omega (arith, div-add-mod' (x / 2) (2 ^ k), pow_times k q) in
    let rem : x % 2 ^ suc k ≡ r =
      ap (λ z. z % 2 ^ suc k) parts ∙ mul-add-mod_self_right q (2 ^ suc k) r ∙ mod-eq_of_lt small in
    rw (bit_and_digit x (2 ^ suc k - 1), e, o, bit_and-low k (x / 2), rem) (omega arith)

pub bit_or_zero : (k a : ℕ) → a ≤ k → bit_or a 0 ≡ a
bit_or_zero k zero h = refl
bit_or_zero zero (suc a) h = absurd (omega arith)
bit_or_zero (suc k) (suc a) h =
    omega (arith, bit_or_digit (suc a) 0, bit_or_zero k (suc a / 2) (omega arith))

pub zero_bit_or : (k a : ℕ) → a ≤ k → bit_or 0 a ≡ a
zero_bit_or k zero h = refl
zero_bit_or zero (suc a) h = absurd (omega arith)
zero_bit_or (suc k) (suc a) h =
    omega (arith, bit_or_digit 0 (suc a), zero_bit_or k (suc a / 2) (omega arith))

pub bit_and-split :
    (k a b x y : ℕ)
    → x < 2 ^ k
    → y < 2 ^ k
    → bit_and (a * 2 ^ k + x) (b * 2 ^ k + y) ≡ bit_and a b * 2 ^ k + bit_and x y
bit_and-split zero a b zero zero hx hy =
    let ea : a * 1 + 0 ≡ a = omega arith in
    let eb : b * 1 + 0 ≡ b = omega arith in rw (ea, eb) (omega arith)
bit_and-split zero a b (suc x) y hx hy = absurd (omega arith)
bit_and-split zero a b zero (suc y) hx hy = absurd (omega arith)
bit_and-split (suc k) a b x y hx hy =
    let wa = pow_times k a in
    let wb = pow_times k b in
    let ha : (a * 2 ^ suc k + x) / 2 ≡ a * 2 ^ k + x / 2 = omega arith in
    let hb : (b * 2 ^ suc k + y) / 2 ≡ b * 2 ^ k + y / 2 = omega arith in
    let la : (a * 2 ^ suc k + x) % 2 ≡ x % 2 = omega arith in
    let lb : (b * 2 ^ suc k + y) % 2 ≡ y % 2 = omega arith in
    let half : (z : ℕ) → z < 2 ^ suc k → z / 2 < 2 ^ k = λ z h. omega (arith, pow-suc 2 k) in
    let ih = bit_and-split k a b (x / 2) (y / 2) (half x hx) (half y hy) in
    rw (bit_and_digit (a * 2 ^ suc k + x) (b * 2 ^ suc k + y), ha, hb, la, lb, ih)
      (omega (arith, bit_and_digit x y, pow_times k (bit_and a b)))

-- The complement of a mask of `w` bits from bit `l`, where `s` bits are above.
complement :
    (p q r t : ℕ)
    → 0 < p
    → 0 < q
    → 0 < r
    → p * q * r ≡ t
    → t - 1 - (q - 1) * p ≡ ((r - 1) * q + 0) * p + (p - 1)
complement zero q r t hp hq hr e = absurd (omega arith)
complement (suc p) zero r t hp hq hr e = absurd (omega arith)
complement (suc p) (suc q) zero t hp hq hr e = absurd (omega arith)
complement (suc p) (suc q) (suc r) t hp hq hr e =
    let field : (suc q - 1) * suc p ≡ q * suc p =
      ap (λ (x : ℕ). x * suc p) {x = suc q - 1} {y = q} (omega arith) in
    let top : ((suc r - 1) * suc q + 0) * suc p ≡ (r * suc q + 0) * suc p =
      ap (λ (x : ℕ). (x * suc q + 0) * suc p) {x = suc r - 1} {y = r} (omega arith) in
    let above : suc p * suc q * suc r ≡ (r * suc q + 0) * suc p + (q * suc p + suc p) =
      grind arith in
    omega arith

distribute : (a n b p : ℕ) → (a * n + b) * p ≡ a * (n * p) + b * p
distribute a n b p = grind arith

shifted_mod : (v p n t : ℕ) → 0 < n → 0 < p → n * p ≡ t → v * p % t ≡ v % n * p
shifted_mod v p n t hn hp e =
    let split : v * p ≡ v / n * t + v % n * p =
      rw (← e) (ap (λ (z : ℕ). z * p) (sym (div-add-mod' v n)) ∙ distribute (v / n) n (v % n) p) in
    let less : v % n * p < t = rw (← e) (mul-lt-mul_of_pos_right (mod-lt v hn) hp) in
    ap (λ z. z % t) split ∙ mul-add-mod_self_right (v / n) t (v % n * p) ∙ mod-eq_of_lt less

-- A word of three parts: `l` bits, a field of `w` bits, and `s` bits above.
abbrev pub word_of : ℕ → ℕ → ℕ → ℕ → ℕ → ℕ
word_of l w above field below = (above * 2 ^ w + field) * 2 ^ l + below

-- `v << l & mask` on 32 bits.
masked_field :
    (l w n v : ℕ)
    → 0 < n
    → n * 2 ^ l ≡ 2 ^ 32
    → (r : ℕ) → n ≡ 2 ^ w * r
    → bit_and (v * 2 ^ l % 2 ^ 32) ((2 ^ w - 1) * 2 ^ l) ≡ word_of l w 0 (v % 2 ^ w) 0
masked_field l w n v hn e r f =
    let a = v % n in
    let low : a % 2 ^ w ≡ v % 2 ^ w = sym (
      ap (λ z. z % 2 ^ w)
        (sym (div-add-mod' v n) ∙ ap (λ z. v / n * z + a) f ∙ regroup (v / n) (2 ^ w) r a)
      ∙ mul-add-mod_self_right (v / n * r) (2 ^ w) a) in
    rw (shifted_mod v (2 ^ l) n (2 ^ 32) hn (pow_pos l) e) (
      ap₂ bit_and (plus_zero (a * 2 ^ l)) (plus_zero ((2 ^ w - 1) * 2 ^ l))
      ∙ bit_and-split l a (2 ^ w - 1) 0 0 (pow_pos l) (pow_pos l)
      ∙ ap (λ z. z * 2 ^ l + 0) (bit_and-low w a ∙ low ∙ omega arith))
  where
    plus_zero : (x : ℕ) → x ≡ x + 0
    plus_zero x = omega arith

    regroup : (k q r a : ℕ) → k * (q * r) + a ≡ k * r * q + a
    regroup k q r a = grind arith

-- `(x & ~mask) | (v << l & mask)` replaces the field of the mask and nothing else.
pub replace_field :
    (l w s h m lo v : ℕ)
    → 2 ^ l * 2 ^ w * 2 ^ s ≡ 2 ^ 32
    → h < 2 ^ s
    → m < 2 ^ w
    → lo < 2 ^ l
    → let mask = (2 ^ w - 1) * 2 ^ l in
      bit_or (bit_and (word_of l w h m lo) (2 ^ 32 - 1 - mask)) (bit_and (v * 2 ^ l % 2 ^ 32) mask)
      ≡ word_of l w h (v % 2 ^ w) lo
replace_field l w s h m lo v e hh hm hl =
    let pl = pow_pos l in
    let pw = pow_pos w in
    let ps = pow_pos s in
    let mask = (2 ^ w - 1) * 2 ^ l in
    let kept : bit_and (word_of l w h m lo) (2 ^ 32 - 1 - mask) ≡ word_of l w h 0 lo =
      rw (complement (2 ^ l) (2 ^ w) (2 ^ s) (2 ^ 32) pl pw ps e) (
        bit_and-split l (h * 2 ^ w + m) ((2 ^ s - 1) * 2 ^ w + 0) lo (2 ^ l - 1) hl (omega arith)
        ∙ ap₂ (λ a b. a * 2 ^ l + b)
            (bit_and-split w h (2 ^ s - 1) m 0 hm pw
              ∙ ap₂ (λ a b. a * 2 ^ w + b) (bit_and-low s h ∙ mod-eq_of_lt hh)
                  (bit_and_zero m m (le_refl m)))
            (bit_and-low l lo ∙ mod-eq_of_lt hl)) in
    let placed : bit_and (v * 2 ^ l % 2 ^ 32) mask ≡ word_of l w 0 (v % 2 ^ w) 0 =
      masked_field l w (2 ^ w * 2 ^ s) v (grind (arith, pl, pw, ps))
        (mul_comm (2 ^ w * 2 ^ s) (2 ^ l) ∙ sym (mul_assoc (2 ^ l) (2 ^ w) (2 ^ s)) ∙ e) (2 ^ s)
        refl in
    rw (kept, placed)
      (bit_or-split l (h * 2 ^ w + 0) (0 * 2 ^ w + v % 2 ^ w) lo 0 hl pl
        ∙ ap₂ (λ a b. a * 2 ^ l + b)
            (bit_or-split w h 0 0 (v % 2 ^ w) pw (mod-lt v pw)
              ∙ ap₂ (λ a b. a * 2 ^ w + b) (bit_or_zero h h (le_refl h))
                  (zero_bit_or (v % 2 ^ w) (v % 2 ^ w) (le_refl (v % 2 ^ w))))
            (bit_or_zero lo lo (le_refl lo)))
