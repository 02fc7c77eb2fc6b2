-- ===== src/Fifo.antt =====
-- rtw_set_trx_fifo_info of core/macinit.c: the layout of the TX FIFO's reserved pages. The page
-- counts are u16 and wrap as they do there.
use rtl8821ce_mac_os.Base.{ℕ, ◌+◌, ◌-◌, ◌/◌, ◌%◌, ◌^◌, ◌≤◌, ◌<◌, ◌≡◌, refl, arith}
use rtl8821ce_mac_os.Base.{Bool, true, false, not, if◌then◌else◌, ltb, ◌==◌}

-- The fields of `struct rtw_chip_info` that are read.
pub record ChipInfo : Type 0 where
  pub txff_size : ℕ
  pub page_size : ℕ
  pub rsvd_drv_pg_num : ℕ
  pub csi_buf_pg_num : ℕ

-- struct rtw_fifo_conf.
pub record FifoConf : Type 0 where
  pub rsvd_drv_pg_num : ℕ
  pub txff_pg_num : ℕ
  pub rsvd_pg_num : ℕ
  pub acq_pg_num : ℕ
  pub rsvd_boundary : ℕ
  pub rsvd_csibuf_addr : ℕ
  pub rsvd_fw_txbuf_addr : ℕ
  pub rsvd_cpu_instr_addr : ℕ
  pub rsvd_h2cq_addr : ℕ
  pub rsvd_h2c_sta_info_addr : ℕ
  pub rsvd_h2c_info_addr : ℕ
  pub rsvd_drv_addr : ℕ

pub data FifoResult : Type 0 where
  laid_out : FifoConf → FifoResult
  enomem einval : FifoResult

abbrev pub rsvd_pg_h2c_extrainfo_num : ℕ
rsvd_pg_h2c_extrainfo_num = 24

abbrev pub rsvd_pg_h2c_staticinfo_num : ℕ
rsvd_pg_h2c_staticinfo_num = 8

abbrev pub rsvd_pg_h2cq_num : ℕ
rsvd_pg_h2cq_num = 8

abbrev pub rsvd_pg_cpu_instruction_num : ℕ
rsvd_pg_cpu_instruction_num = 0

abbrev pub rsvd_pg_fw_txbuf_num : ℕ
rsvd_pg_fw_txbuf_num = 4

-- `a -= b` on a u16.
abbrev pub sub16 : ℕ → ℕ → ℕ
sub16 a b = (a + 2 ^ 16 - b) % 2 ^ 16

-- The addresses, from the end of the FIFO down.
abbrev pub layout : ChipInfo → ℕ → ℕ → FifoConf
layout chip txff_pg_num rsvd_pg_num =
    let csibuf = sub16 txff_pg_num chip.csi_buf_pg_num in
    let fw_txbuf = sub16 csibuf rsvd_pg_fw_txbuf_num in
    let cpu_instr = sub16 fw_txbuf rsvd_pg_cpu_instruction_num in
    let h2cq = sub16 cpu_instr rsvd_pg_h2cq_num in
    let sta_info = sub16 h2cq rsvd_pg_h2c_staticinfo_num in
    let h2c_info = sub16 sta_info rsvd_pg_h2c_extrainfo_num in
    record {
      rsvd_drv_pg_num = chip.rsvd_drv_pg_num;
      txff_pg_num = txff_pg_num;
      rsvd_pg_num = rsvd_pg_num;
      acq_pg_num = sub16 txff_pg_num rsvd_pg_num;
      rsvd_boundary = sub16 txff_pg_num rsvd_pg_num;
      rsvd_csibuf_addr = csibuf;
      rsvd_fw_txbuf_addr = fw_txbuf;
      rsvd_cpu_instr_addr = cpu_instr;
      rsvd_h2cq_addr = h2cq;
      rsvd_h2c_sta_info_addr = sta_info;
      rsvd_h2c_info_addr = h2c_info;
      rsvd_drv_addr = sub16 h2c_info chip.rsvd_drv_pg_num;
    }

abbrev pub reserved : ChipInfo → ℕ
reserved chip =
    (chip.rsvd_drv_pg_num + rsvd_pg_h2c_extrainfo_num + rsvd_pg_h2c_staticinfo_num
      + rsvd_pg_h2cq_num + rsvd_pg_cpu_instruction_num + rsvd_pg_fw_txbuf_num + chip.csi_buf_pg_num)
    % 2 ^ 16

abbrev pub checked : FifoConf → FifoResult
checked f = if not (f.rsvd_boundary == f.rsvd_drv_addr) then einval else laid_out f

unfoldable pub set_trx_fifo_info : ChipInfo → FifoResult
set_trx_fifo_info chip =
    let txff_pg_num = chip.txff_size / chip.page_size % 2 ^ 16 in
    if ltb txff_pg_num (reserved chip)
    then enomem
    else checked (layout chip txff_pg_num (reserved chip))

-- The regions follow each other without a gap or an overlap, from the boundary of the pages
-- that are free for frames up to the end of the FIFO.
pub record IsTiled (chip : ChipInfo) (f : FifoConf) : Type 0 where
  pub free : f.acq_pg_num ≡ f.rsvd_boundary
  pub drv : f.rsvd_drv_addr ≡ f.rsvd_boundary
  pub h2c_info : f.rsvd_h2c_info_addr ≡ f.rsvd_drv_addr + chip.rsvd_drv_pg_num
  pub sta_info : f.rsvd_h2c_sta_info_addr ≡ f.rsvd_h2c_info_addr + rsvd_pg_h2c_extrainfo_num
  pub h2cq : f.rsvd_h2cq_addr ≡ f.rsvd_h2c_sta_info_addr + rsvd_pg_h2c_staticinfo_num
  pub cpu_instr : f.rsvd_cpu_instr_addr ≡ f.rsvd_h2cq_addr + rsvd_pg_h2cq_num
  pub fw_txbuf : f.rsvd_fw_txbuf_addr ≡ f.rsvd_cpu_instr_addr + rsvd_pg_cpu_instruction_num
  pub csibuf : f.rsvd_csibuf_addr ≡ f.rsvd_fw_txbuf_addr + rsvd_pg_fw_txbuf_num
  pub end : f.txff_pg_num ≡ f.rsvd_csibuf_addr + chip.csi_buf_pg_num

abbrev pub IsLayout : ChipInfo → FifoResult → Type 0
IsLayout chip (laid_out f) = IsTiled chip f
IsLayout chip enomem = chip.txff_size / chip.page_size % 2 ^ 16 < reserved chip
IsLayout chip einval = ⊥

layout-IsTiled :
    (chip : ChipInfo) (n : ℕ)
    → chip.rsvd_drv_pg_num < 256
    → chip.csi_buf_pg_num < 256
    → n < 2 ^ 16
    → reserved chip ≤ n
    → IsTiled chip (layout chip n (reserved chip))
layout-IsTiled chip n hd hc hn hr = record {
  free = refl;
  drv = omega arith;
  h2c_info = omega arith;
  sta_info = omega arith;
  h2cq = omega arith;
  cpu_instr = omega arith;
  fw_txbuf = omega arith;
  csibuf = omega arith;
  end = omega arith;
}

checked-IsLayout :
    (chip : ChipInfo) (f : FifoConf) (b : Bool)
    → f.rsvd_boundary == f.rsvd_drv_addr ≡ b
    → IsTiled chip f
    → IsLayout chip (if not b then einval else laid_out f)
checked-IsLayout chip f true e t = t
checked-IsLayout chip f false e t = absurd (ne e t.drv)
  where
    ne : {x y : ℕ} → x == y ≡ false → ¬ (y ≡ x)
    ne e h = ground arith

fits-IsLayout :
    (chip : ChipInfo) (n : ℕ) (b : Bool)
    → ltb n (reserved chip) ≡ b
    → n ≡ chip.txff_size / chip.page_size % 2 ^ 16
    → chip.rsvd_drv_pg_num < 256
    → chip.csi_buf_pg_num < 256
    → n < 2 ^ 16
    → IsLayout chip (if b then enomem else checked (layout chip n (reserved chip)))
fits-IsLayout chip n true e en hd hc hn = ground arith
fits-IsLayout chip n false e en hd hc hn =
    let f = layout chip n (reserved chip) in
    checked-IsLayout chip f (f.rsvd_boundary == f.rsvd_drv_addr) refl
      (layout-IsTiled chip n hd hc hn (ground arith))

-- The layout, with the number of pages of the FIFO as the u16 that the code keeps.
pub set_trx_fifo_info-IsLayout :
    (chip : ChipInfo)
    → chip.rsvd_drv_pg_num < 256
    → chip.csi_buf_pg_num < 256
    → IsLayout chip (set_trx_fifo_info chip)
unfolding set_trx_fifo_info
set_trx_fifo_info-IsLayout chip hd hc =
    let n = chip.txff_size / chip.page_size % 2 ^ 16 in
    fits-IsLayout chip n (ltb n (reserved chip)) refl refl hd hc (omega arith)

-- The pages of the FIFO, and those that are reserved, before any u16 is taken of them.
abbrev pub pages : ChipInfo → ℕ
pages chip = chip.txff_size / chip.page_size

abbrev pub pages_wanted : ChipInfo → ℕ
pages_wanted chip = chip.rsvd_drv_pg_num + 24 + 8 + 8 + 4 + chip.csi_buf_pg_num

abbrev pub IsWhole : ChipInfo → FifoResult → Type 0
IsWhole chip (laid_out f) =
    IsTiled chip f
    × (f.txff_pg_num ≡ pages chip)
    × (f.rsvd_boundary + pages_wanted chip ≡ pages chip)
IsWhole chip enomem = pages chip < pages_wanted chip
IsWhole chip einval = ⊥

checked-IsWhole :
    (chip : ChipInfo) (f : FifoConf) (b : Bool)
    → f.rsvd_boundary == f.rsvd_drv_addr ≡ b
    → IsTiled chip f
    → f.txff_pg_num ≡ pages chip
    → f.rsvd_boundary + pages_wanted chip ≡ pages chip
    → IsWhole chip (if not b then einval else laid_out f)
checked-IsWhole chip f true e t n s = (t, n, s)
checked-IsWhole chip f false e t n s = checked-IsLayout chip f false e t

whole_lem :
    (chip : ChipInfo) (b : Bool)
    → chip.rsvd_drv_pg_num < 256
    → chip.csi_buf_pg_num < 256
    → pages chip < 2 ^ 16
    → ltb (pages chip % 2 ^ 16) (reserved chip) ≡ b
    → IsWhole chip
        (if b then enomem else checked (layout chip (pages chip % 2 ^ 16) (reserved chip)))
whole_lem chip true hd hc hn e = ground arith
whole_lem chip false hd hc hn e =
    let n = pages chip % 2 ^ 16 in
    let f = layout chip n (reserved chip) in
    checked-IsWhole chip f (f.rsvd_boundary == f.rsvd_drv_addr) refl
      (layout-IsTiled chip n hd hc (omega arith) (ground arith)) (omega arith) (ground arith)

-- On a chip whose two configured page counts are bytes and whose FIFO has fewer than 65536 pages,
-- rtw_set_trx_fifo_info either refuses with -ENOMEM, and then the FIFO has fewer pages than are
-- reserved; or it lays out regions that tile the FIFO's end without gap or overlap, with all the
-- pages of the FIFO counted, and the boundary that many reserved pages before its end. Its own
-- check of the boundary never fails.
pub set_trx_fifo_info-IsWhole :
    (chip : ChipInfo)
    → chip.rsvd_drv_pg_num < 256
    → chip.csi_buf_pg_num < 256
    → pages chip < 2 ^ 16
    → IsWhole chip (set_trx_fifo_info chip)
unfolding set_trx_fifo_info
set_trx_fifo_info-IsWhole chip hd hc hn = whole_lem chip _ hd hc hn refl
