-- ===== src/Mac/Pages.antt =====
-- The pages of the TX FIFO after __priority_queue_cfg of core/macinit.c.
use rtl8821ce_mac_os.Base.{ℕ, ◌+◌, ◌%◌, ◌^◌, ◌≤◌, ◌<◌, ◌≡◌, arith}
use rtl8821ce_mac_os.Base.{Bool, true, false}
use rtl8821ce_mac_os.Fifo.{FifoConf}
use rtl8821ce_mac_os.Hw.{Trace, Device, bit, check_hw_ready, written, written-poll}
use rtl8821ce_mac_os.Mac.{
  ok, PageTable, MacChip, reg_fifopage_info, reg_fifopage_ctrl_2, reg_bcnq_bdny_v1,
  reg_bcnq1_bdny_v1, llt_ready, fill_pages, queue_pages, pubq_num_of,
}

-- The registers of the queues' pages, as last written.
pub record PageRegs : Type 0 where
  pub info_1 : ℕ
  pub info_2 : ℕ
  pub info_3 : ℕ
  pub info_4 : ℕ
  pub info_5 : ℕ
  pub head : ℕ
  pub tail : ℕ
  pub bcnq : ℕ
  pub bcnq1 : ℕ

abbrev pub page_regs : Trace → PageRegs
page_regs t = record {
  info_1 = written (reg_fifopage_info 1) t;
  info_2 = written (reg_fifopage_info 2) t;
  info_3 = written (reg_fifopage_info 3) t;
  info_4 = written (reg_fifopage_info 4) t;
  info_5 = written (reg_fifopage_info 5) t;
  head = written reg_fifopage_ctrl_2 t;
  tail = written (reg_fifopage_ctrl_2 + 2) t;
  bcnq = written reg_bcnq_bdny_v1 t;
  bcnq1 = written reg_bcnq1_bdny_v1 t;
}

-- The four boundaries are the boundary of the layout, and the counts use up the pages below it.
pub record IsPaged (chip : MacChip) (f : FifoConf) (r : PageRegs) : Type 0 where
  pub counts :
      r.info_1 + r.info_2 + r.info_3 + r.info_4 + r.info_5 + chip.page_table.gapq_num
      ≡ f.rsvd_boundary
  pub head_is : r.head ≡ f.rsvd_boundary
  pub tail_is : r.tail ≡ f.rsvd_boundary
  pub bcnq_is : r.bcnq ≡ f.rsvd_boundary
  pub bcnq1_is : r.bcnq1 ≡ f.rsvd_boundary

abbrev pub dedicated : PageTable → ℕ
dedicated p = p.hq_num + p.lq_num + p.nq_num + p.exq_num + p.gapq_num

abbrev pub Filled : MacChip → FifoConf → Device → Trace → Trace → Type 0
Filled chip f d t t' =
    page_regs t' ≡ page_regs (fill_pages chip f (pubq_num_of chip.page_table f) d t).1

llt-Filled :
    (b : Bool) (chip : MacChip) (f : FifoConf) (d : Device) (t u : Trace)
    → Filled chip f d t u
    → (llt_ready b d u).0 ≡ ok
    → Filled chip f d t (llt_ready b d u).1
unfolding llt_ready written
llt-Filled true chip f d t u h e = h
llt-Filled false chip f d t u h e = cc

poll-page_regs :
    (d : Device) (t : Trace) → page_regs (check_hw_ready 0x208 (bit 0) 0 d t).1 ≡ page_regs t
poll-page_regs d t =
    let same : (a : ℕ) → written a (check_hw_ready 0x208 (bit 0) 0 d t).1 ≡ written a t =
      λ a. written-poll a 1000 0x208 (bit 0) 0 d t in
    λ i. record {
      info_1 = same (reg_fifopage_info 1) i;
      info_2 = same (reg_fifopage_info 2) i;
      info_3 = same (reg_fifopage_info 3) i;
      info_4 = same (reg_fifopage_info 4) i;
      info_5 = same (reg_fifopage_info 5) i;
      head = same reg_fifopage_ctrl_2 i;
      tail = same (reg_fifopage_ctrl_2 + 2) i;
      bcnq = same reg_bcnq_bdny_v1 i;
      bcnq1 = same reg_bcnq1_bdny_v1 i;
    }

pub queue_pages-Filled :
    (chip : MacChip) (f : FifoConf) (d : Device) (t : Trace)
    → let r = queue_pages chip f (pubq_num_of chip.page_table f) d t in
      r.0 ≡ ok → Filled chip f d t r.1
unfolding queue_pages
queue_pages-Filled chip f d t e =
    let u = (fill_pages chip f (pubq_num_of chip.page_table f) d t).1 in
    let p = check_hw_ready 0x208 (bit 0) 0 d u in
    llt-Filled p.0 chip f d t p.1 (poll-page_regs d u) e

-- The u16 counts do not wrap.
used_up :
    (p : PageTable) (f : FifoConf)
    → f.rsvd_boundary < 2 ^ 16
    → f.acq_pg_num ≡ f.rsvd_boundary
    → dedicated p ≤ f.rsvd_boundary
    → p.hq_num % 2 ^ 16
        + p.lq_num % 2 ^ 16
        + p.nq_num % 2 ^ 16
        + p.exq_num % 2 ^ 16
        + pubq_num_of p f % 2 ^ 16
        + p.gapq_num
      ≡ f.rsvd_boundary
used_up p f small free fits = omega arith

pub fill_pages-IsPaged :
    (chip : MacChip) (f : FifoConf) (d : Device) (t : Trace)
    → f.rsvd_boundary < 2 ^ 16
    → f.acq_pg_num ≡ f.rsvd_boundary
    → dedicated chip.page_table ≤ f.rsvd_boundary
    → IsPaged chip f (page_regs (fill_pages chip f (pubq_num_of chip.page_table f) d t).1)
unfolding fill_pages written
fill_pages-IsPaged chip f d t small free fits =
    let same : f.rsvd_boundary % 2 ^ 16 ≡ f.rsvd_boundary = omega arith in
    record {
      counts = used_up chip.page_table f small free fits;
      head_is = same;
      tail_is = same;
      bcnq_is = same;
      bcnq1_is = same;
    }
