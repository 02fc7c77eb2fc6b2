-- ===== src/Phy/Chains.antt =====
-- The interpreter of core/phy.c on the chains of a table.
use rtl8821ce_mac_os.Base.{◌<◌, ◌≡◌, refl, ap, ◌∙◌, arith}
use rtl8821ce_mac_os.Base.{Bool, true, false, if◌then◌else◌, ◌==◌, not, List, [], ◌∷◌, ◌++◌}
use rtl8821ce_mac_os.Phy.{
  PhyCond, Tile, cond_of, check_positive, Eval, pos_step, neg_step, parse_tiles,
  rtw_parse_tbl_phy_cond, zero_cond,
}
use rtl8821ce_mac_os.Phy.Table.{
  Branch, Item, entry, chain, chain_else, branch_tiles, table_of, chosen, selected, IsEntry,
  AreEntries, AreBranches, AreItems,
}

-- One tile of each kind.
module _ (drv : PhyCond) (t : Tile) (ts : List Tile) (s : Eval) where
  parse_pos :
      (cond_of t).pos ≡ true
      → parse_tiles drv (t ∷ ts) s ≡ parse_tiles drv ts (pos_step (cond_of t) s)
  unfolding parse_tiles
  parse_pos p = rw p refl

  parse_neg :
      (cond_of t).pos ≡ false
      → (cond_of t).neg ≡ true
      → parse_tiles drv (t ∷ ts) s ≡ parse_tiles drv ts (neg_step drv s)
  unfolding parse_tiles
  parse_neg p q = rw (p, q) refl

  parse_entry :
      IsEntry t
      → parse_tiles drv (t ∷ ts) s
        ≡ (if s.is_matched then t ∷ parse_tiles drv ts s else parse_tiles drv ts s)
  unfolding parse_tiles
  parse_entry h = rw (h.0, h.1) refl

abbrev at : PhyCond → Bool → Bool → Eval
at p m k = record { pos_cond = p; is_matched = m; is_skipped = k }

-- Entries in a branch that is taken, and in one that is not.
entries_on :
    (drv p : PhyCond) (k : Bool) (es rest : List Tile)
    → AreEntries es
    → parse_tiles drv (es ++ rest) (at p true k) ≡ es ++ parse_tiles drv rest (at p true k)
entries_on drv p k [] rest h = refl
entries_on drv p k (e ∷ es) rest h =
    parse_entry drv e (es ++ rest) (at p true k) h.0
    ∙ ap (λ (ts : List Tile). e ∷ ts) (entries_on drv p k es rest h.1)

entries_off :
    (drv p : PhyCond) (k : Bool) (es rest : List Tile)
    → AreEntries es
    → parse_tiles drv (es ++ rest) (at p false k) ≡ parse_tiles drv rest (at p false k)
entries_off drv p k [] rest h = refl
entries_off drv p k (e ∷ es) rest h =
    parse_entry drv e (es ++ rest) (at p false k) h.0 ∙ entries_off drv p k es rest h.1

-- The switch on each branch.
step_if : (c : PhyCond) (s : Eval) → c.branch < 2 → pos_step c s ≡ record s { pos_cond = c }
unfolding pos_step
step_if c s h =
    let p : c.branch == 3 ≡ false = ground arith in
    let q : c.branch == 2 ≡ false = ground arith in rw (p, q) refl

step_else :
    (c : PhyCond) (s : Eval)
    → c.branch ≡ 2
    → pos_step c s ≡ record s { is_matched = not s.is_skipped }
unfolding pos_step
step_else c s h = rw h refl

step_end :
    (c : PhyCond) (s : Eval)
    → c.branch ≡ 3
    → pos_step c s ≡ record s { is_matched = true; is_skipped = false }
unfolding pos_step
step_end c s h = rw h refl

-- The head of a branch, from any state.
head_run :
    (drv p : PhyCond) (m k : Bool) (b : Branch) (rest : List Tile)
    → (cond_of b.cond).pos ≡ true
    → (cond_of b.cond).branch < 2
    → (cond_of b.ask).pos ≡ false
    → (cond_of b.ask).neg ≡ true
    → parse_tiles drv (b.cond ∷ b.ask ∷ rest) (at p m k)
      ≡ parse_tiles drv rest (neg_step drv (at (cond_of b.cond) m k))
head_run drv p m k b rest h l q n =
    parse_pos drv b.cond (b.ask ∷ rest) (at p m k) h
    ∙ ap (parse_tiles drv (b.ask ∷ rest)) (step_if (cond_of b.cond) (at p m k) l)
    ∙ parse_neg drv b.ask rest (at (cond_of b.cond) m k) q n

module _ (drv : PhyCond) (tail out others : List Tile) where
  -- After a branch that was taken.
  skipped_run :
      ((p : PhyCond) (m : Bool) → parse_tiles drv tail (at p m true) ≡ out)
      → (bs : List Branch) (p : PhyCond) (m : Bool) → AreBranches bs
      → parse_tiles drv (branch_tiles bs tail) (at p m true) ≡ out
  unfolding branch_tiles neg_step
  skipped_run end [] p m h = end p m
  skipped_run end (b ∷ bs) p m h =
      head_run drv p m true b (b.entries ++ branch_tiles bs tail) h.0 h.1 h.2 h.3
      ∙ entries_off drv (cond_of b.cond) true b.entries (branch_tiles bs tail) h.4
      ∙ skipped_run end bs (cond_of b.cond) false h.5

  ask_lem :
      (b : Bool) (c : PhyCond) (m : Bool)
      → check_positive drv c ≡ b
      → neg_step drv (at c m false) ≡ at c b b
  unfolding neg_step
  ask_lem true c m e = rw e refl
  ask_lem false c m e = rw e refl

  -- A branch that is asked for, given the run of the ones after it.
  taken :
      (t : Bool) (b : Branch) (bs : List Branch) (m : Bool)
      → ((p : PhyCond) (m : Bool) → parse_tiles drv tail (at p m true) ≡ out)
      → AreEntries b.entries
      → AreBranches bs
      → check_positive drv (cond_of b.cond) ≡ t
      → parse_tiles drv (branch_tiles bs tail) (at (cond_of b.cond) false false)
        ≡ chosen drv bs others ++ out
      → parse_tiles drv
          (b.entries ++ branch_tiles bs tail)
          (neg_step drv (at (cond_of b.cond) m false))
        ≡ (if t then b.entries else chosen drv bs others) ++ out
  taken true b bs m end h hs e again =
      ap (parse_tiles drv (b.entries ++ branch_tiles bs tail)) (ask_lem true (cond_of b.cond) m e)
      ∙ entries_on drv (cond_of b.cond) true b.entries (branch_tiles bs tail) h
      ∙ ap (λ ts. b.entries ++ ts) (skipped_run end bs (cond_of b.cond) true hs)
  taken false b bs m end h hs e again =
      ap (parse_tiles drv (b.entries ++ branch_tiles bs tail)) (ask_lem false (cond_of b.cond) m e)
      ∙ entries_off drv (cond_of b.cond) false b.entries (branch_tiles bs tail) h
      ∙ again

  -- Before one is taken.
  open_run :
      ((p : PhyCond) (m : Bool) → parse_tiles drv tail (at p m true) ≡ out)
      → ((p : PhyCond) (m : Bool) → parse_tiles drv tail (at p m false) ≡ others ++ out)
      → (bs : List Branch) (p : PhyCond) (m : Bool) → AreBranches bs
      → parse_tiles drv (branch_tiles bs tail) (at p m false) ≡ chosen drv bs others ++ out
  unfolding branch_tiles chosen
  open_run end none_taken [] p m h = none_taken p m
  open_run end none_taken (b ∷ bs) p m h =
      head_run drv p m false b (b.entries ++ branch_tiles bs tail) h.0 h.1 h.2 h.3
      ∙ taken (check_positive drv (cond_of b.cond)) b bs m end h.4 h.5 refl
          (open_run end none_taken bs (cond_of b.cond) false h.5)

-- The end of a chain, from any state.
end_run :
    (drv : PhyCond) (end : Tile) (rest out : List Tile)
    → (cond_of end).pos ≡ true
    → (cond_of end).branch ≡ 3
    → ((p : PhyCond) → parse_tiles drv rest (at p true false) ≡ out)
    → (p : PhyCond) (m k : Bool) → parse_tiles drv (end ∷ rest) (at p m k) ≡ out
end_run drv end rest out h b f p m k =
    parse_pos drv end rest (at p m k) h
    ∙ ap (parse_tiles drv rest) (step_end (cond_of end) (at p m k) b)
    ∙ f p

-- `else` and its entries.
else_run :
    (drv : PhyCond) (otherwise : Tile) (others tail : List Tile) (p : PhyCond) (m k : Bool)
    → (cond_of otherwise).pos ≡ true
    → (cond_of otherwise).branch ≡ 2
    → parse_tiles drv (otherwise ∷ (others ++ tail)) (at p m k)
      ≡ parse_tiles drv (others ++ tail) (at p (not k) k)
else_run drv otherwise others tail p m k h b =
    parse_pos drv otherwise (others ++ tail) (at p m k) h
    ∙ ap (parse_tiles drv (others ++ tail)) (step_else (cond_of otherwise) (at p m k) b)

items_run :
    (drv : PhyCond) (is : List Item) (p : PhyCond)
    → AreItems is
    → parse_tiles drv (table_of is) (at p true false) ≡ selected drv is
unfolding table_of selected parse_tiles
items_run drv [] p h = refl
items_run drv (entry t ∷ is) p h =
    parse_entry drv t (table_of is) (at p true false) h.0
    ∙ ap (λ (ts : List Tile). t ∷ ts) (items_run drv is p h.1)
items_run drv (chain bs end ∷ is) p h =
    let stop =
      end_run drv end (table_of is) (selected drv is) h.1 h.2 (λ q. items_run drv is q h.3) in
    open_run drv (end ∷ table_of is) (selected drv is) [] (λ q m. stop q m true)
      (λ q m. stop q m false) bs p true h.0
items_run drv (chain_else bs otherwise others end ∷ is) p h =
    let out = selected drv is in
    let stop = end_run drv end (table_of is) out h.4 h.5 (λ q. items_run drv is q h.6) in
    let tail = end ∷ table_of is in
    open_run drv (otherwise ∷ (others ++ tail)) out others
      (λ q m.
        else_run drv otherwise others tail q m true h.1 h.2
        ∙ entries_off drv q true others tail h.3
        ∙ stop q false true)
      (λ q m.
        else_run drv otherwise others tail q m false h.1 h.2
        ∙ entries_on drv q false others tail h.3
        ∙ ap (λ ts. others ++ ts) (stop q true false))
      bs p true h.0

-- The interpreter of the PHY tables, on every table that is built of plain entries and of if /
-- else-if / else chains: do_cfg gets the plain entries and of each chain the entries of the first
-- branch whose condition holds for the driver, else those of the `else`, in order, and no others.
pub rtw_parse_tbl_phy_cond-selected :
    (drv : PhyCond) (is : List Item)
    → AreItems is
    → rtw_parse_tbl_phy_cond drv (table_of is) ≡ selected drv is
unfolding rtw_parse_tbl_phy_cond
rtw_parse_tbl_phy_cond-selected drv is h = items_run drv is zero_cond h
