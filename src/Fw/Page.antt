-- ===== src/Fw/Page.antt =====
-- The reserved page of core/fwdownload.c: rtw_fw_write_data_rsvd_page and send_firmware_pkt.
use rtl8821ce_mac_os.Base.{
  ℕ, ◌+◌, bit_and, bit_or, Bool, true, false, if◌then◌else◌, ◌==◌, List, length, Option, none, some,
}
use Prim.{Unit}
use rtl8821ce_mac_os.Hw.{bit, clear}
use rtl8821ce_mac_os.Trx.{Log, D, ◌>>=◌, ◌>>◌, pure}
use rtl8821ce_mac_os.Trx.Init.{TrxChip}
use rtl8821ce_mac_os.Trx.Send.{trx_write_data_rsvd_page}
use rtl8821ce_mac_os.Fw.{
  einval, ebusy, enomem, failed, overread, Rc, ok, err, read8, write8, write16, check_hw_ready,
  poll, reg_cr, reg_bcn_ctrl, beacon_off,
}

abbrev pub reg_fifopage_ctrl_2 : ℕ
reg_fifopage_ctrl_2 = 0x204

abbrev pub reg_fwhw_txq_ctrl : ℕ
reg_fwhw_txq_ctrl = 0x420

-- The three registers as they stood.
pub record Saved : Type 0 where
  pub cr : ℕ
  pub txq : ℕ
  pub bcn : ℕ

unfoldable pub arm_page : ℕ → D Saved
arm_page pg_addr = read8 reg_bcn_ctrl >>= λ bcn.
    write16 reg_fifopage_ctrl_2 (bit_or (bit_and pg_addr 0xfff) (bit 15))
    >> read8 (reg_cr + 1)
    >>= λ cr.
        write8 (reg_cr + 1) (bit_or cr (bit 0))
        >> write8 reg_bcn_ctrl (beacon_off bcn)
        >> read8 (reg_fwhw_txq_ctrl + 2)
        >>= λ txq.
            write8 (reg_fwhw_txq_ctrl + 2) (clear txq (bit 6))
            >> pure (record { cr = cr; txq = txq; bcn = bcn })

-- The label `restore`.
unfoldable pub restore_page : Saved → D (Unit {0})
restore_page b =
    write16 reg_fifopage_ctrl_2 (bit 15)
    >> write8 reg_bcn_ctrl b.bcn
    >> write8 (reg_fwhw_txq_ctrl + 2) b.txq
    >> write8 (reg_cr + 1) b.cr

unfoldable pub page_sent : Bool → D Rc
unfolding poll
page_sent false = pure (err failed)
page_sent true = check_hw_ready reg_fifopage_ctrl_2 (bit 15) 1 >>= λ valid.
    pure (if valid then ok else err ebusy)

unfoldable pub write_data_rsvd_page : TrxChip → ℕ → List ℕ → D Rc
unfolding arm_page restore_page page_sent trx_write_data_rsvd_page
write_data_rsvd_page chip pg_addr buf w s =
    if length buf == 0
    then (err einval, s)
    else (arm_page pg_addr >>= λ b.
          trx_write_data_rsvd_page chip buf >>= page_sent >>= λ ret. restore_page b >> pure ret)
        w s

-- The copy of the part of the image; `none` is a part that lies past its end.
unfoldable pub send_copy : TrxChip → ℕ → Option (List ℕ) → D Rc
unfolding write_data_rsvd_page
send_copy chip pg_addr none = pure (err overread)
send_copy chip pg_addr (some part) = write_data_rsvd_page chip pg_addr part

-- malloc is a function of its size and of what happened before.
unfoldable pub send_firmware_pkt : (ℕ → Log → Bool) → TrxChip → ℕ → ℕ → Option (List ℕ) → D Rc
unfolding send_copy
send_firmware_pkt malloc chip pg_addr size part w s =
    if malloc size s.log then send_copy chip pg_addr part w s else (err enomem, s)
