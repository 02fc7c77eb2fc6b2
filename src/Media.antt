-- ===== src/Media.antt =====
-- core/media.c: the mailbox of the firmware, and what tells it of the connection.
use rtl8821ce_mac_os.Base.{ℕ, zero, suc, ◌+◌, ◌*◌, ◌%◌, ◌^◌, bit_and, bit_or}
use rtl8821ce_mac_os.Base.{Bool, true, if◌then◌else◌, ltb, ◌==◌, List, [], ◌∷◌, ◌++◌, get_or}
use Prim.{Unit, tt}
use rtl8821ce_mac_os.Hw.{M, ◌>>=◌, ◌>>◌, pure, read8, write8, write16, write32, udelay, bit, clear}
use rtl8821ce_mac_os.Sec.{le32_at}
use rtl8821ce_mac_os.Trx.{le32}
use rtl8821ce_mac_os.Assoc.{Caps}

-- The wait for the box to be empty, with `tries` left of 100.
unfoldable pub wait_box : ℕ → ℕ → M (Unit {0})
wait_box box zero d l = (tt, l)
wait_box box (suc tries) d l =
    let r = read8 0x1cc d l in
    let again = wait_box box tries d (udelay 1000 d r.1).1 in
    if bit_and r.0 (bit box) == 0 then (tt, r.1) else again

-- h2c_command with the static `box_num`, which is below 4; the result is its next value.
unfoldable pub h2c_command : ℕ → List ℕ → M ℕ
unfolding wait_box
h2c_command box_num h2c =
    wait_box box_num 100
    >> write32 (0x1f0 + box_num * 4) (le32_at h2c 4)
    >> write32 (0x1d0 + box_num * 4) (le32_at h2c 0)
    >> pure ((box_num + 1) % 4)

-- The first word of the rate information. Its fields do not overlap.
unfoldable pub ra_word : ℕ → ℕ → ℕ → Bool → ℕ → ℕ
ra_word mac_id rate_id bw sgi vht_en =
    0x40
    + bit_and mac_id 0xff * 2 ^ 8
    + bit_and rate_id 0x1f * 2 ^ 16
    + (if sgi then 2 ^ 23 else 0)
    + bit_and bw 0x03 * 2 ^ 24
    + bit_and vht_en 0x03 * 2 ^ 28
    + 2 ^ 30

unfoldable pub fw_ra_info : ℕ → ℕ → ℕ → ℕ → ℕ → Bool → ℕ → M ℕ
unfolding h2c_command ra_word
fw_ra_info box_num mac_id rate_id ra_mask bw sgi vht_en =
    h2c_command box_num (le32 (ra_word mac_id rate_id bw sgi vht_en) ++ le32 ra_mask) >>= λ next.
    udelay 5000 >> pure next

-- The rate table, the rate mask and `vht_en` for what the AP granted.
pub record Rates : Type 0 where
  pub raid : ℕ
  pub mask : ℕ
  pub vht_en : ℕ

abbrev pub with_cck : Bool → ℕ → ℕ
with_cck five mask = if five then mask else bit_or mask 0x0f

unfoldable pub rates_for : Caps → Bool → Rates
rates_for caps five =
    if caps.has_vht
    then record {
      raid = if five then 10 else 11;
      mask = with_cck five (bit_or 0xff0 0x3ff000);
      vht_en = 1;
    }
    else if caps.has_ht
    then record {
      raid = if five then 5 else 3;
      mask = with_cck five (bit_or 0xff0 0xff000);
      vht_en = 0;
    }
    else record { raid = if five then 7 else 6; mask = with_cck five 0xff0; vht_en = 0 }

abbrev pub le16_at : List ℕ → ℕ → ℕ
le16_at xs i = get_or xs i 0 + get_or xs (i + 1) 0 * 2 ^ 8

-- media_connect; the result is the next `box_num`, and g_session.raid is the one of rates_for.
unfoldable pub media_connect : ℕ → List ℕ → List ℕ → ℕ → ℕ → Caps → M ℕ
unfolding fw_ra_info rates_for
media_connect box_num addr bssid mac_id channel caps =
    let five = ltb 14 channel in
    let rates = rates_for caps five in
    write32 0x610 (le32_at addr 0)
    >> write16 0x614 (le16_at addr 4)
    >> write32 0x618 (le32_at bssid 0)
    >> write16 0x61c (le16_at bssid 4)
    >> (read8 0x102 >>= λ msr. write8 0x102 (bit_or (clear msr 0x03) 0x02))
    >> h2c_command box_num (0x01 ∷ 0x01 ∷ mac_id ∷ 0 ∷ 0 ∷ 0 ∷ 0 ∷ 0 ∷ [])
    >>= λ next.
        udelay 5000
        >> write32 0x440 (if five then 0x150 else 0x15f)
        >> fw_ra_info next mac_id rates.raid rates.mask 0 true rates.vht_en
