-- ===== src/Channel/Filter.antt =====
-- The registers of the CCK filter under core/channel.c, channel 14 included.
use rtl8821ce_mac_os.Base.{ℕ, ◌*◌, ◌%◌, ◌^◌, ◌<◌, ◌≡◌, refl, ap, ap₂, ◌∙◌, arith, bit_and, bit_or}
use rtl8821ce_mac_os.Base.{Bool, true, false, if◌then◌else◌, ◌==◌, leb, List, [], ◌∷◌}
use rtl8821ce_mac_os.Base.Bits.{bit_and_zero}
use rtl8821ce_mac_os.Base.Masks.{bit_and-low, zero_bit_or}
use native.Mathlib.Nat.{le_refl}
use Prim.{Unit}
use rtl8821ce_mac_os.Hw.{Trace, Device, bit, clear, ctz, written, write32_mask}
use rtl8821ce_mac_os.Channel.{
  Hal, Cache, reg_txsf2, reg_txfilter, maskdword, width_40, RfSet, switch_to_btg, switch_to_wlg,
  switch_to_wla, switch_to_bt, is_2g, switch_rf_set, rf_band, rf_write, rf_reg18, set_channel_rf,
  set_channel_rxdfir, cck_filter, bb_band, bb_width, refresh, usable_width, tune, set_channel, Tune,
  set_channels,
}
use rtl8821ce_mac_os.Phy.Rf.{rfreg_mask, rtw_phy_read_rf, rtw_write_rf}

-- The two 32-bit registers of the filter, as last written.
abbrev pub filter_regs : Trace → ℕ × ℕ
filter_regs t = (written reg_txsf2 t, written reg_txfilter t)

choice-filter_regs :
    {A : Type 0} (b : Bool) (x y : A × Trace) (t : Trace)
    → filter_regs x.1 ≡ filter_regs t
    → filter_regs y.1 ≡ filter_regs t
    → filter_regs (if b then x else y).1 ≡ filter_regs t
choice-filter_regs true x y t p q = p
choice-filter_regs false x y t p q = q

bb_width-filter_regs :
    (bw primary : ℕ) (d : Device) (t : Trace)
    → filter_regs (bb_width bw primary d t).1 ≡ filter_regs t
unfolding bb_width written
bb_width-filter_regs bw primary d t =
    choice-filter_regs (bw == width_40) _ _ t (choice-filter_regs (primary == 1) _ _ t refl refl)
      refl

read_rf-filter_regs :
    (phys addr mask : ℕ) (d : Device) (t : Trace)
    → filter_regs (rtw_phy_read_rf phys 0 addr mask d t).1 ≡ filter_regs t
unfolding rtw_phy_read_rf written
read_rf-filter_regs phys addr mask d t = choice-filter_regs (leb phys 0) _ _ t refl refl

write_rf-filter_regs :
    (phys addr mask value : ℕ) (d : Device) (t : Trace)
    → filter_regs (rtw_write_rf phys 0 addr mask value d t).1 ≡ filter_regs t
unfolding rtw_write_rf written
write_rf-filter_regs phys addr mask value d t =
    let r = rtw_phy_read_rf phys 0 (addr % 256) rfreg_mask d t in
    choice-filter_regs (leb phys 0) _ _ t refl (
      choice-filter_regs (bit_and mask rfreg_mask == rfreg_mask) _ _ t refl (
        choice-filter_regs (r.0 == 0xffffffff) (false, r.1) _ t
          (read_rf-filter_regs phys (addr % 256) rfreg_mask d t)
          (read_rf-filter_regs phys (addr % 256) rfreg_mask d t)))

switch_rf_set-filter_regs :
    (set : RfSet) (d : Device) (t : Trace) → filter_regs (switch_rf_set set d t).1 ≡ filter_regs t
unfolding switch_rf_set written
switch_rf_set-filter_regs switch_to_btg d t = refl
switch_rf_set-filter_regs switch_to_wlg d t = refl
switch_rf_set-filter_regs switch_to_wla d t = refl
switch_rf_set-filter_regs switch_to_bt d t = refl

rf_band-filter_regs :
    (hal : Hal) (channel : ℕ) (d : Device) (t : Trace)
    → filter_regs (rf_band hal channel d t).1 ≡ filter_regs t
rf_band-filter_regs hal channel d t =
    let write = write_rf-filter_regs hal.rf_phy_num in
    let set = if hal.rfe_btg then switch_to_btg else switch_to_wlg in
    let u = (switch_rf_set set d t).1 in
    let v = (rf_write hal 0xdf (bit 6) 1 d u).1 in
    choice-filter_regs (is_2g channel) _ _ t
      (write 0x64 0xf 0xf d v ∙ write 0xdf (bit 6) 1 d u ∙ switch_rf_set-filter_regs set d t)
      (write 0xdf (bit 6) 0 d (switch_rf_set switch_to_wla d t).1
        ∙ switch_rf_set-filter_regs switch_to_wla d t)

set_channel_rf-filter_regs :
    (hal : Hal) (channel bw : ℕ) (d : Device) (t : Trace)
    → filter_regs (set_channel_rf hal channel bw d t).1 ≡ filter_regs t
unfolding set_channel_rf
set_channel_rf-filter_regs hal channel bw d t =
    let write = write_rf-filter_regs hal.rf_phy_num in
    let r = rtw_phy_read_rf hal.rf_phy_num 0 0x18 rfreg_mask d t in
    let u = (rf_band hal channel d r.1).1 in
    let v = (rf_write hal 0x18 rfreg_mask (rf_reg18 channel bw r.0) d u).1 in
    let x = (rf_write hal 0xb8 (bit 19) 0 d v).1 in
    write 0xb8 (bit 19) 1 d x
    ∙ write 0xb8 (bit 19) 0 d v
    ∙ write 0x18 rfreg_mask (rf_reg18 channel bw r.0) d u
    ∙ rf_band-filter_regs hal channel d r.1
    ∙ read_rf-filter_regs hal.rf_phy_num 0x18 rfreg_mask d t

set_channel_rxdfir-filter_regs :
    (bw : ℕ) (d : Device) (t : Trace) → filter_regs (set_channel_rxdfir bw d t).1 ≡ filter_regs t
unfolding set_channel_rxdfir written
set_channel_rxdfir-filter_regs bw d t = refl

-- A masked write of all 32 bits.
whole_word :
    (old v : ℕ)
    → v < 2 ^ 32
    → bit_or (clear old maskdword) (bit_and (v * 2 ^ 0) maskdword) % 2 ^ 32 ≡ v
whole_word old v h =
    let kept : clear old maskdword ≡ 0 = bit_and_zero old old (le_refl old) in
    let placed : bit_and (v * 1) maskdword ≡ v = bit_and-low 32 (v * 1) ∙ omega arith in
    rw (kept, placed) (omega (arith, zero_bit_or v v (le_refl v)))

second :
    (b : Bool) (x y : Unit {0} × Trace)
    → b ≡ false
    → filter_regs (if b then x else y).1 ≡ filter_regs y.1
second b x y e = rw e

first :
    (b : Bool) (x y : Unit {0} × Trace)
    → b ≡ true
    → filter_regs (if b then x else y).1 ≡ filter_regs x.1
first b x y e = rw e

module _ (hal : Hal) (c : Cache) (ha : c.txsf2 < 2 ^ 32) (hf : c.txfilter < 2 ^ 32) where
  -- The cached values reach the filter on every 2.4 GHz channel but 14.
  cck_filter-filter_regs :
      (channel : ℕ) (d : Device) (t : Trace)
      → channel == 14 ≡ false
      → filter_regs (cck_filter c channel d t).1 ≡ (c.txsf2, c.txfilter)
  unfolding cck_filter written ctz
  cck_filter-filter_regs channel d t e =
      second (channel == 14) _ _ e
      ∙ ap₂ (λ (x y : ℕ). (x, y)) (whole_word _ c.txsf2 ha) (whole_word _ c.txfilter hf)

  bb_band-filter_regs :
      (channel : ℕ) (d : Device) (t : Trace)
      → is_2g channel ≡ true
      → channel == 14 ≡ false
      → filter_regs (bb_band c channel d t).1 ≡ (c.txsf2, c.txfilter)
  unfolding bb_band
  bb_band-filter_regs channel d t g e =
      first (is_2g channel) _ _ g ∙ cck_filter-filter_regs channel d _ e

  tune-filter_regs :
      (channel bw primary : ℕ) (d : Device) (t : Trace)
      → is_2g channel ≡ true
      → channel == 14 ≡ false
      → filter_regs (tune hal c channel bw primary d t).1 ≡ (c.txsf2, c.txfilter)
  unfolding tune written
  tune-filter_regs channel bw primary d t g e =
      let t1 = (bb_band c channel d t).1 in
      let t2 = (bb_width bw primary d t1).1 in
      let t3 = (write32_mask 0xc1c 0xffe00000 0x200 d t2).1 in
      let t4 = (set_channel_rf hal channel bw d t3).1 in
      set_channel_rxdfir-filter_regs bw d t4
      ∙ set_channel_rf-filter_regs hal channel bw d t3
      ∙ bb_width-filter_regs bw primary d t1
      ∙ bb_band-filter_regs channel d t g e

refresh_valid : (c : Cache) (d : Device) (t : Trace) → c.valid ≡ true → refresh c d t ≡ (c, t)
unfolding refresh
refresh_valid c d t v = latched c.valid _ (c, t) v
  where
    latched : (b : Bool) (x y : Cache × Trace) → b ≡ true → (if b then y else x) ≡ y
    latched b x y e = rw e

-- Calls do not change a cache that is latched.
set_channels_cache :
    (hal : Hal) (c : Cache) (rs : List Tune) (d : Device) (t : Trace)
    → c.valid ≡ true
    → (set_channels hal c rs d t).0 ≡ c
unfolding set_channels set_channel
set_channels_cache hal c [] d t v = refl
set_channels_cache hal c (r ∷ rs) d t v =
    let k : Cache × Trace → Cache = λ x.
      (set_channels hal x.0 rs d
        (tune hal x.0 r.channel (usable_width r.bw) r.primary d x.1).1).0 in
    ap k (refresh_valid c d t v)
    ∙ set_channels_cache hal c rs d (tune hal c r.channel (usable_width r.bw) r.primary d t).1 v

-- Once the parameters of the CCK filter are latched, they stay: after any calls of set_channel,
-- channel 14 with its own parameters among them, and whatever the card answers, a call for a 2.4 GHz
-- channel other than 14, of any width, leaves the latched 32-bit values in the two whole registers of
-- the filter, and the cache as it was.
pub set_channels-filter_regs :
    (hal : Hal) (c : Cache) (rs : List Tune) (channel bw primary : ℕ) (d : Device) (t : Trace)
    → c.valid ≡ true
    → c.txsf2 < 2 ^ 32
    → c.txfilter < 2 ^ 32
    → channel < 14
    → let before = set_channels hal c rs d t in
      let r = set_channel hal before.0 channel bw primary d before.1 in
      (filter_regs r.1 ≡ (c.txsf2, c.txfilter)) × (r.0 ≡ c)
unfolding set_channel
set_channels-filter_regs hal c rs channel bw primary d t v ha hf lt =
    let before = set_channels hal c rs d t in
    let k : Cache × Trace → Trace = λ x. (tune hal x.0 channel (usable_width bw) primary d x.1).1 in
    let start : refresh before.0 d before.1 ≡ (c, before.1) =
      ap (λ x. refresh x d before.1) (set_channels_cache hal c rs d t v)
      ∙ refresh_valid c d before.1 v in
    let low : is_2g channel ≡ true = ground arith in
    let other : channel == 14 ≡ false = ground arith in
    (
      ap (λ (x : Cache × Trace). filter_regs (k x)) start
          ∙ tune-filter_regs hal c ha hf channel (usable_width bw) primary d before.1 low other,
      ap (λ (x : Cache × Trace). x.0) start,
    )
