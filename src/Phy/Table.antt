-- ===== src/Phy/Table.antt =====
-- What a conditional table of core/phy.c means: its chains of branches, and what they select.
use rtl8821ce_mac_os.Base.{◌<◌, ◌≡◌}
use rtl8821ce_mac_os.Base.{true, false, if◌then◌else◌, List, [], ◌∷◌, ◌++◌}
use Prim.{Unit}
use rtl8821ce_mac_os.Phy.{PhyCond, Tile, cond_of, check_positive}

-- A branch: its condition, the tile that asks for it, and its entries.
pub record Branch : Type 0 where
  pub cond : Tile
  pub ask : Tile
  pub entries : List Tile

-- An entry of its own; a chain of branches with its end; or a chain with an `else` tile and its
-- entries before the end.
pub data Item : Type 0 where
  entry : Tile → Item
  chain : List Branch → Tile → Item
  chain_else : List Branch → Tile → List Tile → Tile → Item

unfoldable pub branch_tiles : List Branch → List Tile → List Tile
branch_tiles [] rest = rest
branch_tiles (b ∷ bs) rest = b.cond ∷ b.ask ∷ (b.entries ++ branch_tiles bs rest)

-- The table of the items.
unfoldable pub table_of : List Item → List Tile
unfolding branch_tiles
table_of [] = []
table_of (entry t ∷ is) = t ∷ table_of is
table_of (chain bs end ∷ is) = branch_tiles bs (end ∷ table_of is)
table_of (chain_else bs otherwise others end ∷ is) =
    branch_tiles bs (otherwise ∷ (others ++ (end ∷ table_of is)))

-- The entries of the first branch whose condition holds, else the others.
unfoldable pub chosen : PhyCond → List Branch → List Tile → List Tile
chosen drv [] others = others
chosen drv (b ∷ bs) others =
    let rest = chosen drv bs others in
    if check_positive drv (cond_of b.cond) then b.entries else rest

-- What a table means.
unfoldable pub selected : PhyCond → List Item → List Tile
unfolding chosen
selected drv [] = []
selected drv (entry t ∷ is) = t ∷ selected drv is
selected drv (chain bs end ∷ is) = chosen drv bs [] ++ selected drv is
selected drv (chain_else bs otherwise others end ∷ is) = chosen drv bs others ++ selected drv is

abbrev pub IsEntry : Tile → Type 0
IsEntry t = ((cond_of t).pos ≡ false) × ((cond_of t).neg ≡ false)

abbrev pub AreEntries : List Tile → Type 0
AreEntries [] = Unit {0}
AreEntries (t ∷ ts) = IsEntry t × AreEntries ts

abbrev pub AreBranches : List Branch → Type 0
AreBranches [] = Unit {0}
AreBranches (b ∷ bs) =
    ((cond_of b.cond).pos ≡ true)
    × ((cond_of b.cond).branch < 2)
    × ((cond_of b.ask).pos ≡ false)
    × ((cond_of b.ask).neg ≡ true)
    × AreEntries b.entries
    × AreBranches bs

-- The tiles have the bits of their places.
abbrev pub AreItems : List Item → Type 0
AreItems [] = Unit {0}
AreItems (entry t ∷ is) = IsEntry t × AreItems is
AreItems (chain bs end ∷ is) =
    AreBranches bs × ((cond_of end).pos ≡ true) × ((cond_of end).branch ≡ 3) × AreItems is
AreItems (chain_else bs otherwise others end ∷ is) =
    AreBranches bs
    × ((cond_of otherwise).pos ≡ true)
    × ((cond_of otherwise).branch ≡ 2)
    × AreEntries others
    × ((cond_of end).pos ≡ true)
    × ((cond_of end).branch ≡ 3)
    × AreItems is
