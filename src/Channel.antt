-- ===== src/Channel.antt =====
-- core/channel.c: set_channel, with the CCK filter parameters that it caches.
pub mod Filter
use rtl8821ce_mac_os.Base.{ℕ, ◌+◌, ◌*◌, ◌/◌, ◌%◌, ◌^◌, bit_and, bit_or}
use rtl8821ce_mac_os.Base.{Bool, true, false, not, ◌&&◌, if◌then◌else◌, ◌==◌, leb, List, [], ◌∷◌}
use Prim.{Unit, tt}
use rtl8821ce_mac_os.Hw.{
  Trace, Device, M, ◌>>=◌, ◌>>◌, pure, read32, write32, write32_set, write32_clr, write32_mask, bit,
  clear, ctz,
}
use rtl8821ce_mac_os.Phy.Rf.{rfreg_mask, rtw_phy_read_rf, rtw_write_rf}
use rtl8821ce_mac_os.Pwr.Seq.{when}

-- What the code reads of hal.
pub record Hal : Type 0 where
  pub rfe_btg : Bool
  pub rf_phy_num : ℕ

-- g_ch_param and g_ch_param_valid.
pub record Cache : Type 0 where
  pub valid : Bool
  pub txsf2 : ℕ
  pub txsf6 : ℕ
  pub txfilter : ℕ

abbrev pub reg_txsf2 : ℕ
reg_txsf2 = 0xa24

abbrev pub reg_txsf6 : ℕ
reg_txsf6 = 0xa28

abbrev pub reg_txfilter : ℕ
reg_txfilter = 0xaac

abbrev pub maskdword : ℕ
maskdword = 0xffffffff

-- RTW_CHANNEL_WIDTH_40 and _80; any other width is 20 MHz.
abbrev pub width_40 : ℕ
width_40 = 1

abbrev pub width_80 : ℕ
width_80 = 2

pub data RfSet : Type 0 where
  switch_to_btg switch_to_wlg switch_to_wla switch_to_bt : RfSet

abbrev pub rfectl : RfSet → ℕ → ℕ
rfectl switch_to_btg reg = clear (bit_or reg (bit 16)) (bit 18 + bit 20 + bit 22 + bit 21 + bit 23)
rfectl switch_to_wlg reg = clear (bit_or reg (bit 20 + bit 22 + bit 21)) (bit 16 + bit 18 + bit 23)
rfectl switch_to_wla reg = clear (bit_or reg (bit 20 + bit 22 + bit 23)) (bit 16 + bit 18 + bit 21)
rfectl switch_to_bt reg = reg

abbrev pub front_end : RfSet → M (Unit {0})
front_end switch_to_btg = write32_mask 0xa84 0xff0000 0x0e >> write32_mask 0xa80 0xffff 0xfc84
front_end switch_to_wlg = write32_mask 0xa84 0xff0000 0x12 >> write32_mask 0xa80 0xffff 0x7532
front_end switch_to_wla = pure tt
front_end switch_to_bt = pure tt

unfoldable pub switch_rf_set : RfSet → M (Unit {0})
unfolding ctz
switch_rf_set set =
    write32_set 0x1080 (bit 16) >> write32_set 0x000 (bit 26) >> read32 0xcb8 >>= λ reg.
    front_end set >> write32 0xcb8 (rfectl set reg)

abbrev pub is_2g : ℕ → Bool
is_2g channel = leb channel 14

abbrev pub within : ℕ → ℕ → ℕ → Bool
within lo hi channel = leb lo channel && leb channel hi

abbrev pub bw_bits : ℕ → ℕ
bw_bits bw = if bw == width_40 then bit 11 else if bw == width_80 then bit 10 else bit 11 + bit 10

-- The band, the channel, the synthesizer range and the width in RF register 0x18.
unfoldable pub rf_reg18 : ℕ → ℕ → ℕ → ℕ
rf_reg18 channel bw old =
    let kept = clear old (bit 16 + bit 9 + bit 8 + 0xff + bit 18 + bit 17 + bit 11 + bit 10) in
    let band = bit_or kept (if is_2g channel then 0 else bit 16 + bit 8) in
    let tuned = bit_or band (bit_and channel 0xff) in
    let ranged =
      if within 100 140 channel
      then bit_or tuned (bit 17)
      else if leb 141 channel
      then bit_or tuned (bit 18)
      else tuned in
    bit_or ranged (bw_bits bw)

abbrev pub rf_write : Hal → ℕ → ℕ → ℕ → M (Unit {0})
rf_write hal addr mask value d t = (tt, (rtw_write_rf hal.rf_phy_num 0 addr mask value d t).1)

abbrev pub rf_band : Hal → ℕ → M (Unit {0})
rf_band hal channel d t =
    if is_2g channel
    then (switch_rf_set (if hal.rfe_btg then switch_to_btg else switch_to_wlg)
          >> rf_write hal 0xdf (bit 6) 1
          >> rf_write hal 0x64 0xf 0xf)
        d t
    else (switch_rf_set switch_to_wla >> rf_write hal 0xdf (bit 6) 0) d t

unfoldable pub set_channel_rf : Hal → ℕ → ℕ → M (Unit {0})
unfolding rtw_phy_read_rf rtw_write_rf switch_rf_set rf_reg18
set_channel_rf hal channel bw = rtw_phy_read_rf hal.rf_phy_num 0 0x18 rfreg_mask >>= λ old.
    rf_band hal channel
    >> rf_write hal 0x18 rfreg_mask (rf_reg18 channel bw old)
    >> rf_write hal 0xb8 (bit 19) 0
    >> rf_write hal 0xb8 (bit 19) 1

-- The four fields, by width.
unfoldable pub set_channel_rxdfir : ℕ → M (Unit {0})
unfolding ctz
set_channel_rxdfir bw =
    write32_mask 0x948 (bit 29 + bit 28) 2
    >> write32_mask 0x94c (bit 29 + bit 28) (if bw == width_80 then 1 else 2)
    >> write32_mask 0xc20 (bit 31) (if bw == width_40 then 0 else if bw == width_80 then 0 else 1)
    >> write32_mask 0x8f0 (bit 31) (if bw == width_80 then 1 else 0)

-- The CCK filter of a 2.4 GHz channel.
unfoldable pub cck_filter : Cache → ℕ → M (Unit {0})
unfolding ctz
cck_filter c channel d t =
    if channel == 14
    then (write32_mask reg_txsf2 maskdword 0x0000b81c
          >> write32_mask reg_txsf6 0xffff 0x0000
          >> write32_mask reg_txfilter maskdword 0x00003667)
        d t
    else (write32_mask reg_txsf2 maskdword c.txsf2
          >> write32_mask reg_txsf6 0xffff (bit_and c.txsf6 0xffff)
          >> write32_mask reg_txfilter maskdword c.txfilter)
        d t

abbrev pub txscale_5g : ℕ → M (Unit {0})
txscale_5g channel d t =
    if within 36 64 channel
    then write32_mask 0xc1c 0xf00 1 d t
    else if within 100 144 channel
    then write32_mask 0xc1c 0xf00 2 d t
    else if leb 149 channel
    then write32_mask 0xc1c 0xf00 3 d t
    else (tt, t)

abbrev pub clktrk_5g : ℕ → M (Unit {0})
clktrk_5g channel d t =
    if within 36 48 channel
    then write32_mask 0x860 0x1ffe0000 0x494 d t
    else if within 52 64 channel
    then write32_mask 0x860 0x1ffe0000 0x453 d t
    else if within 100 116 channel
    then write32_mask 0x860 0x1ffe0000 0x452 d t
    else if within 118 177 channel
    then write32_mask 0x860 0x1ffe0000 0x412 d t
    else (tt, t)

-- The first half of set_channel_bb. Channels from 15 to 35 are left alone.
unfoldable pub bb_band : Cache → ℕ → M (Unit {0})
unfolding cck_filter ctz
bb_band c channel d t =
    if is_2g channel
    then (write32_mask 0x808 (bit 28) 1
          >> write32_mask 0x454 (bit 7) 0
          >> write32_mask 0xa80 (bit 18) 0
          >> write32_mask 0x814 0xfc00 15
          >> write32_mask 0xc1c 0xf00 0
          >> write32_mask 0x860 0x1ffe0000 0x96a
          >> cck_filter c channel)
        d t
    else if leb 36 channel
    then (write32_mask 0xa80 (bit 18) 1
          >> write32_mask 0x454 (bit 7) 1
          >> write32_mask 0x808 (bit 28) 0
          >> write32_mask 0x814 0xfc00 15
          >> txscale_5g channel
          >> clktrk_5g channel)
        d t
    else (tt, t)

abbrev pub rxsb : ℕ → M (Unit {0})
rxsb primary d t =
    if primary == 1 then write32_set 0xa00 (bit 4) d t else write32_clr 0xa00 (bit 4) d t

-- The second half, from the label set_bw; every width but 40 MHz takes the case of 20 MHz.
unfoldable pub bb_width : ℕ → ℕ → M (Unit {0})
unfolding ctz
bb_width bw primary d t =
    if bw == width_40
    then (rxsb primary >> read32 0x8ac >>= λ v.
          write32 0x8ac (
            bit_or (bit_or (bit_or (bit_and v 0xff3ff300) 0x20020000) (bit_and primary 0xf * 2 ^ 2))
              width_40)
          >> write32_mask 0x8c4 (bit 30) 1)
        d t
    else (read32 0x8ac >>= λ v.
          write32 0x8ac (bit_or (bit_and v 0xffcffc00) 0x10010000) >> write32_mask 0x8c4 (bit 30) 1)
        d t

-- The refresh of the cache: latched when the values read are plausible.
unfoldable pub refresh : Cache → M Cache
refresh c d t =
    if c.valid
    then (c, t)
    else (read32 reg_txsf2 >>= λ a. read32 reg_txsf6 >>= λ b. read32 reg_txfilter >>= λ f.
          pure (record {
            valid =
                not (a == 0) && (not (a == maskdword) && (not (f == 0) && not (f == maskdword)));
            txsf2 = a;
            txsf6 = b;
            txfilter = f;
          }))
        d t

-- 80 MHz falls back to 20 MHz.
abbrev pub usable_width : ℕ → ℕ
usable_width bw = if bw == width_80 then 0 else bw

unfoldable pub tune : Hal → Cache → ℕ → ℕ → ℕ → M (Unit {0})
unfolding bb_band bb_width set_channel_rf set_channel_rxdfir ctz
tune hal c channel bw primary =
    bb_band c channel
    >> bb_width bw primary
    >> write32_mask 0xc1c 0xffe00000 0x200
    >> set_channel_rf hal channel bw
    >> set_channel_rxdfir bw
    >> write32 0x1d00 0x28282828
    >> write32 0x1d04 0x28282828
    >> write32 0x1d08 0x28282828

unfoldable pub set_channel : Hal → Cache → ℕ → ℕ → ℕ → M Cache
unfolding refresh tune
set_channel hal c channel bw primary =
    refresh c >>= λ c'. tune hal c' channel (usable_width bw) primary >> pure c'

-- One call of set_channel: the channel, the width and the primary channel.
pub record Tune : Type 0 where
  pub channel : ℕ
  pub bw : ℕ
  pub primary : ℕ

-- Calls one after the other.
unfoldable pub set_channels : Hal → Cache → List Tune → M Cache
unfolding set_channel
set_channels hal c [] = pure c
set_channels hal c (r ∷ rs) =
    set_channel hal c r.channel r.bw r.primary >>= λ c'. set_channels hal c' rs
