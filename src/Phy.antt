-- ===== src/Phy.antt =====
-- core/phy.c: the conditional tables of the PHY, and what is done with their entries.
pub mod Table
pub mod Chains
pub mod Rf
use rtl8821ce_mac_os.Base.{ℕ, zero, suc, ◌*◌, ◌/◌, ◌%◌, ◌^◌}
use rtl8821ce_mac_os.Base.{Bool, true, false, if◌then◌else◌, ◌==◌, ◌&&◌, not, List, [], ◌∷◌}
use Prim.{Unit, tt}
use rtl8821ce_mac_os.Hw.{M, ◌>>◌, pure, write8, write32, udelay}

-- struct rtw_phy_cond.
pub record PhyCond : Type 0 where
  pub rfe : ℕ
  pub intf : ℕ
  pub pkg : ℕ
  pub plat : ℕ
  pub cut : ℕ
  pub branch : ℕ
  pub neg : Bool
  pub pos : Bool

-- union phy_table_tile: two words, of which the first may be read as a condition.
pub record Tile : Type 0 where
  pub addr : ℕ
  pub data_word : ℕ

unfoldable pub cond_of : Tile → PhyCond
cond_of t = record {
  rfe = t.addr % 2 ^ 8;
  intf = t.addr / 2 ^ 8 % 2 ^ 4;
  pkg = t.addr / 2 ^ 12 % 2 ^ 4;
  plat = t.addr / 2 ^ 16 % 2 ^ 4;
  cut = t.addr / 2 ^ 24 % 2 ^ 4;
  branch = t.addr / 2 ^ 28 % 2 ^ 2;
  neg = t.addr / 2 ^ 30 % 2 == 1;
  pos = t.addr / 2 ^ 31 % 2 == 1;
}

abbrev pub zero_cond : PhyCond
zero_cond = record {
  rfe = 0;
  intf = 0;
  pkg = 0;
  plat = 0;
  cut = 0;
  branch = 0;
  neg = false;
  pos = false;
}

-- The condition of the driver; `cut` and `pkg` are fields of four bits.
unfoldable pub rtw_phy_setup_phy_cond : ℕ → ℕ → ℕ → PhyCond
rtw_phy_setup_phy_cond cut_version pkg rfe_option = record zero_cond {
  cut = (if cut_version == 0 then 15 else cut_version) % 2 ^ 4;
  pkg = (if pkg == 0 then 15 else pkg) % 2 ^ 4;
  plat = 0x04;
  rfe = rfe_option % 2 ^ 8;
  intf = 1;
}

-- `cond.f && cond.f != drv_cond.f`
abbrev pub differs : ℕ → ℕ → Bool
differs c d = not (c == 0) && not (c == d)

unfoldable pub check_positive : PhyCond → PhyCond → Bool
check_positive drv_cond cond =
    if differs cond.cut drv_cond.cut
    then false
    else if differs cond.pkg drv_cond.pkg
    then false
    else if differs cond.intf drv_cond.intf
    then false
    else if not (cond.rfe == drv_cond.rfe)
    then false
    else true

-- The locals of rtw_parse_tbl_phy_cond.
pub record Eval : Type 0 where
  pub pos_cond : PhyCond
  pub is_matched : Bool
  pub is_skipped : Bool

-- The switch on the branch of a positive tile.
unfoldable pub pos_step : PhyCond → Eval → Eval
pos_step c s =
    if c.branch == 3
    then record s { is_matched = true; is_skipped = false }
    else if c.branch == 2
    then record s { is_matched = not s.is_skipped }
    else record s { pos_cond = c }

unfoldable pub neg_step : PhyCond → Eval → Eval
unfolding check_positive
neg_step drv_cond s =
    if not s.is_skipped
    then (if check_positive drv_cond s.pos_cond
        then record s { is_matched = true; is_skipped = true }
        else record s { is_matched = false; is_skipped = false })
    else record s { is_matched = false }

-- The loop: the tiles that do_cfg gets, in order.
unfoldable pub parse_tiles : PhyCond → List Tile → Eval → List Tile
unfolding pos_step neg_step cond_of
parse_tiles drv_cond [] s = []
parse_tiles drv_cond (t ∷ ts) s =
    let c = cond_of t in
    let after_pos = parse_tiles drv_cond ts (pos_step c s) in
    let after_neg = parse_tiles drv_cond ts (neg_step drv_cond s) in
    let rest = parse_tiles drv_cond ts s in
    if c.pos
    then after_pos
    else if c.neg
    then after_neg
    else if s.is_matched
    then t ∷ rest
    else rest

unfoldable pub rtw_parse_tbl_phy_cond : PhyCond → List Tile → List Tile
unfolding parse_tiles
rtw_parse_tbl_phy_cond drv_cond tiles =
    parse_tiles drv_cond tiles
      (record { pos_cond = zero_cond; is_matched = true; is_skipped = false })

unfoldable pub rtw_phy_cfg_mac : Tile → M (Unit {0})
rtw_phy_cfg_mac t = write8 t.addr t.data_word

unfoldable pub rtw_phy_cfg_agc : Tile → M (Unit {0})
rtw_phy_cfg_agc t = write32 t.addr t.data_word

-- The delay opcodes in microseconds; of a range its lower end.
unfoldable pub rtw_phy_cfg_bb : Tile → M (Unit {0})
rtw_phy_cfg_bb t d l =
    if t.addr == 0xfe
    then udelay 50000 d l
    else if t.addr == 0xfd
    then udelay 5000 d l
    else if t.addr == 0xfc
    then udelay 1000 d l
    else if t.addr == 0xfb
    then udelay 50 d l
    else if t.addr == 0xfa
    then udelay 5 d l
    else if t.addr == 0xf9
    then udelay 1 d l
    else write32 t.addr t.data_word d l

-- rtw_load_table of a table with the given do_cfg.
unfoldable pub apply_tiles : (Tile → M (Unit {0})) → List Tile → M (Unit {0})
apply_tiles do_cfg [] = pure tt
apply_tiles do_cfg (t ∷ ts) = do_cfg t >> apply_tiles do_cfg ts

unfoldable pub rtw_load_table : (Tile → M (Unit {0})) → PhyCond → List Tile → M (Unit {0})
unfolding rtw_parse_tbl_phy_cond apply_tiles
rtw_load_table do_cfg drv_cond tiles = apply_tiles do_cfg (rtw_parse_tbl_phy_cond drv_cond tiles)
