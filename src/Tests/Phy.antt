-- ===== src/Tests/Phy.antt =====
-- A small table of the PHY with one chain.
use rtl8821ce_mac_os.Base.{ℕ, ◌≡◌, refl, arith, List, [], ◌∷◌}
use Prim.{tt}
use rtl8821ce_mac_os.Phy.{PhyCond, Tile, cond_of, rtw_phy_setup_phy_cond, rtw_parse_tbl_phy_cond}
use rtl8821ce_mac_os.Phy.Chains.{rtw_parse_tbl_phy_cond-selected}
use rtl8821ce_mac_os.Phy.Table.{Item, entry, chain_else, table_of, selected}

abbrev tile : ℕ → ℕ → Tile
tile addr data_word = record { addr = addr; data_word = data_word }

abbrev ask : Tile
ask = tile 0x40000000 0

-- RFE option 2, else option 4, else the rest.
abbrev items : List Item
items =
    entry (tile 0x800 1)
    ∷ chain_else
        (record { cond = tile 0x80000002 0; ask = ask; entries = tile 0x81c 2 ∷ [] }
          ∷ record { cond = tile 0x90000004 0; ask = ask; entries = tile 0x81c 4 ∷ [] }
          ∷ [])
        (tile 0xa0000000 0) (tile 0x81c 0 ∷ []) (tile 0xb0000000 0)
    ∷ entry (tile 0x804 3)
    ∷ []

-- The driver of a card with RFE option 4.
abbrev driver : PhyCond
driver = rtw_phy_setup_phy_cond 0 0 4

second_branch :
    rtw_parse_tbl_phy_cond driver (table_of items) ≡ tile 0x800 1 ∷ tile 0x81c 4 ∷ tile 0x804 3 ∷ []
unfolding rtw_parse_tbl_phy_cond table_of rtw_phy_setup_phy_cond
second_branch = refl

rtw_parse_tbl_phy_cond-selected_example :
    rtw_parse_tbl_phy_cond driver (table_of items) ≡ selected driver items
unfolding cond_of
rtw_parse_tbl_phy_cond-selected_example = rtw_parse_tbl_phy_cond-selected driver items (
  (refl, refl),
  (
    (
      refl,
      omega arith,
      refl,
      refl,
      ((refl, refl), tt),
      (refl, omega arith, refl, refl, ((refl, refl), tt), tt),
    ),
    refl,
    refl,
    ((refl, refl), tt),
    refl,
    refl,
    ((refl, refl), tt),
  ),
)
