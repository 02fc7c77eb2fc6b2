-- ===== src/Pwr/Seq/Ends.antt =====
-- How a power sequence may end.
use rtl8821ce_mac_os.Base.{ℕ, ◌≡◌, ◌≢◌, refl, arith}
use rtl8821ce_mac_os.Base.{Bool, true, false, ◌||◌, ◌&&◌, if◌then◌else◌, ltb, ◌==◌, ◌⊎◌, inl, inr}
use rtl8821ce_mac_os.Base.{List, [], ◌∷◌}
use Prim.{Unit, tt}
use rtl8821ce_mac_os.Hw.{Trace, Device, M, pure}
use rtl8821ce_mac_os.Pwr.Tables.{
  PwrSeqCmd, pwr_cmd_read, pwr_cmd_write, pwr_cmd_polling, pwr_cmd_delay, pwr_cmd_end,
  trans_carddis_to_cardemu_8821c, trans_cardemu_to_act_8821c, trans_act_to_cardemu_8821c,
  trans_cardemu_to_carddis_8821c, card_enable_flow_8821c, card_disable_flow_8821c,
}
use rtl8821ce_mac_os.Pwr.Seq.{
  HciType, pcie, usb, sdio, undefine, ebusy, Ret, ok, err, Chip, is_pcie, after_ret, ◌>>?◌,
  second_poll, pwr_cmd_poll, run_cmd, is_skipped, sub_pwr_seq_parser, each_table, on_interface,
  cut_version_to_mask, pwr_seq_parser,
}

-- A table whose commands are known up to its END row.
unfoldable is_closed : List PwrSeqCmd → Bool
is_closed [] = false
is_closed (c ∷ cs) = c.cmd == pwr_cmd_end || (ltb c.cmd pwr_cmd_end && is_closed cs)

abbrev AllClosed : List (List PwrSeqCmd) → Type 0
AllClosed [] = Unit {0}
AllClosed (cs ∷ css) = (is_closed cs ≡ true) × AllClosed css

abbrev pub IsOkOrBusy : Ret → Type 0
IsOkOrBusy r = (r ≡ ok) ⊎ (r ≡ err ebusy)

poll_result-IsOkOrBusy : (b : Bool) → IsOkOrBusy (if b then ok else err ebusy)
poll_result-IsOkOrBusy true = inl refl
poll_result-IsOkOrBusy false = inr refl

retry-IsOkOrBusy :
    (chip : Chip) (c : PwrSeqCmd) (again : Bool) (d : Device) (t : Trace)
    → IsOkOrBusy ((if again then second_poll chip c else pure (err ebusy)) d t).0
retry-IsOkOrBusy chip c true d t = poll_result-IsOkOrBusy _
retry-IsOkOrBusy chip c false d t = inr refl

first_poll-IsOkOrBusy :
    (chip : Chip) (c : PwrSeqCmd) (b : Bool) (d : Device) (t : Trace)
    → IsOkOrBusy
        ((if b then pure ok else if is_pcie chip.hci then second_poll chip c else pure (err ebusy))
          d t).0
first_poll-IsOkOrBusy chip c true d t = inl refl
first_poll-IsOkOrBusy chip c false d t = retry-IsOkOrBusy chip c (is_pcie chip.hci) d t

pwr_cmd_poll-IsOkOrBusy :
    (chip : Chip) (c : PwrSeqCmd) (d : Device) (t : Trace) → IsOkOrBusy (pwr_cmd_poll chip c d t).0
pwr_cmd_poll-IsOkOrBusy chip c d t = first_poll-IsOkOrBusy chip c _ d _

choice-IsOkOrBusy :
    (w p s r : Bool) (write poll sleep other : M Ret) (d : Device) (t : Trace)
    → w || p || s || r ≡ true
    → IsOkOrBusy (write d t).0
    → IsOkOrBusy (poll d t).0
    → IsOkOrBusy (sleep d t).0
    → IsOkOrBusy
        ((if w
            then write
            else if p
            then poll
            else if s
            then sleep
            else if r
            then pure ok
            else other)
          d t).0
choice-IsOkOrBusy true p s r write poll sleep other d t h hw hp hs = hw
choice-IsOkOrBusy false true s r write poll sleep other d t h hw hp hs = hp
choice-IsOkOrBusy false false true r write poll sleep other d t h hw hp hs = hs
choice-IsOkOrBusy false false false true write poll sleep other d t h hw hp hs = inl refl
choice-IsOkOrBusy false false false false write poll sleep other d t h hw hp hs = cc

is_known : (cmd : ℕ) → ltb cmd 4 ≡ true → cmd == 1 || cmd == 2 || cmd == 3 || cmd == 0 ≡ true
is_known cmd h = ground arith

run_cmd-IsOkOrBusy :
    (chip : Chip) (c : PwrSeqCmd) (d : Device) (t : Trace)
    → ltb c.cmd pwr_cmd_end ≡ true
    → IsOkOrBusy (run_cmd chip c d t).0
unfolding run_cmd
run_cmd-IsOkOrBusy chip c d t h =
    choice-IsOkOrBusy (c.cmd == pwr_cmd_write) (c.cmd == pwr_cmd_polling) (c.cmd == pwr_cmd_delay)
      (c.cmd == pwr_cmd_read) _ _ _ _ d t (is_known c.cmd h) (inl refl)
      (pwr_cmd_poll-IsOkOrBusy chip c d t) (inl refl)

after_ret-IsOkOrBusy :
    (r : Ret × Trace) (k : M Ret) (d : Device)
    → IsOkOrBusy r.0
    → ((t : Trace) → IsOkOrBusy (k d t).0)
    → IsOkOrBusy (after_ret r k d).0
after_ret-IsOkOrBusy (ok, t) k d h hk = hk t
after_ret-IsOkOrBusy (err e, t) k d h hk = h

row-IsOkOrBusy :
    (end skip : Bool) (run rest : M Ret) (d : Device) (t : Trace)
    → (end ≡ false → IsOkOrBusy (run d t).0)
    → (end ≡ false → (t' : Trace) → IsOkOrBusy (rest d t').0)
    → IsOkOrBusy ((if end then pure ok else if skip then rest else run >>? rest) d t).0
row-IsOkOrBusy true skip run rest d t hr hs = inl refl
row-IsOkOrBusy false true run rest d t hr hs = hs refl t
row-IsOkOrBusy false false run rest d t hr hs =
    after_ret-IsOkOrBusy (run d t) rest d (hr refl) (hs refl)

known_row : (b k r : Bool) → b || (k && r) ≡ true → b ≡ false → (k ≡ true) × (r ≡ true)
known_row b k r h e = ground arith

sub_pwr_seq_parser-IsOkOrBusy :
    (chip : Chip) (intf cut : ℕ) (cs : List PwrSeqCmd) (d : Device) (t : Trace)
    → is_closed cs ≡ true
    → IsOkOrBusy (sub_pwr_seq_parser chip intf cut cs d t).0
unfolding sub_pwr_seq_parser is_closed
sub_pwr_seq_parser-IsOkOrBusy chip intf cut [] d t h = cc
sub_pwr_seq_parser-IsOkOrBusy chip intf cut (c ∷ cs) d t h =
    let known = known_row (c.cmd == pwr_cmd_end) (ltb c.cmd pwr_cmd_end) (is_closed cs) h in
    row-IsOkOrBusy (c.cmd == pwr_cmd_end) (is_skipped intf cut c) (run_cmd chip c)
      (sub_pwr_seq_parser chip intf cut cs) d t (λ e. run_cmd-IsOkOrBusy chip c d t (known e).0)
      (λ e t'. sub_pwr_seq_parser-IsOkOrBusy chip intf cut cs d t' (known e).1)

each_table-IsOkOrBusy :
    (chip : Chip) (intf cut : ℕ) (css : List (List PwrSeqCmd)) (d : Device) (t : Trace)
    → AllClosed css
    → IsOkOrBusy (each_table chip intf cut css d t).0
unfolding each_table
each_table-IsOkOrBusy chip intf cut [] d t h = inl refl
each_table-IsOkOrBusy chip intf cut (cs ∷ css) d t h =
    after_ret-IsOkOrBusy (sub_pwr_seq_parser chip intf cut cs d t) (each_table chip intf cut css) d
      (sub_pwr_seq_parser-IsOkOrBusy chip intf cut cs d t h.0)
      (λ t'. each_table-IsOkOrBusy chip intf cut css d t' h.1)

card_enable_flow_8821c-AllClosed : AllClosed card_enable_flow_8821c
unfolding card_enable_flow_8821c trans_carddis_to_cardemu_8821c trans_cardemu_to_act_8821c is_closed
card_enable_flow_8821c-AllClosed = (refl, (refl, tt))

card_disable_flow_8821c-AllClosed : AllClosed card_disable_flow_8821c
unfolding card_disable_flow_8821c trans_act_to_cardemu_8821c trans_cardemu_to_carddis_8821c
    is_closed
card_disable_flow_8821c-AllClosed = (refl, (refl, tt))

on_interface-IsOkOrBusy :
    (hci : HciType) (k : ℕ → M Ret) (d : Device) (t : Trace)
    → hci ≢ undefine
    → ((intf : ℕ) → IsOkOrBusy (k intf d t).0)
    → IsOkOrBusy (on_interface hci k d t).0
on_interface-IsOkOrBusy pcie k d t h hk = hk 4
on_interface-IsOkOrBusy usb k d t h hk = hk 2
on_interface-IsOkOrBusy sdio k d t h hk = hk 1
on_interface-IsOkOrBusy undefine k d t h hk = absurd (h refl)

closed_flow-IsOkOrBusy :
    (chip : Chip) (css : List (List PwrSeqCmd)) (d : Device) (t : Trace)
    → chip.hci ≢ undefine
    → AllClosed css
    → IsOkOrBusy (pwr_seq_parser chip css d t).0
unfolding pwr_seq_parser
closed_flow-IsOkOrBusy chip css d t h c =
    on_interface-IsOkOrBusy chip.hci
      (λ intf. each_table chip intf (cut_version_to_mask chip.cut_version) css) d t h
      (λ intf. each_table-IsOkOrBusy chip intf (cut_version_to_mask chip.cut_version) css d t c)

-- On every host interface but the undefined one, whatever the card answers, the card-enable and
-- the card-disable sequence of the 8821C both end with success or -EBUSY: the interpreter stops at
-- the END row of every table, reads no row beyond it, and meets no unknown command.
pub pwr_seq_parser-IsOkOrBusy :
    (chip : Chip) (d : Device) (t : Trace)
    → chip.hci ≢ undefine
    → IsOkOrBusy (pwr_seq_parser chip card_enable_flow_8821c d t).0
      × IsOkOrBusy (pwr_seq_parser chip card_disable_flow_8821c d t).0
pwr_seq_parser-IsOkOrBusy chip d t h = (
  closed_flow-IsOkOrBusy chip card_enable_flow_8821c d t h card_enable_flow_8821c-AllClosed,
  closed_flow-IsOkOrBusy chip card_disable_flow_8821c d t h card_disable_flow_8821c-AllClosed,
)
