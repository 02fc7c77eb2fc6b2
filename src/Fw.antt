-- ===== src/Fw.antt =====
-- core/fwdownload.c over the rings of core/trx.c: the header of the image, the CPU and the registers
-- that a download saves.
pub mod Page
pub mod Dma
pub mod Run
pub mod Card
pub mod Sent
pub mod Copied
pub mod Ready
pub mod Downloaded
pub mod Fate
pub mod Placed
pub mod Honest
pub mod Bounds
pub mod Loads
pub mod Delivered
use rtl8821ce_mac_os.Base.{ℕ, zero, suc, ◌+◌, ◌-◌, ◌*◌, ◌/◌, ◌%◌, ◌^◌, bit_and, bit_or}
use rtl8821ce_mac_os.Base.{Bool, true, false, if◌then◌else◌, ◌==◌, List, [], ◌∷◌, get_or}
use Prim.{Unit, tt}
use rtl8821ce_mac_os.Hw.{bit, clear, ctz}
use rtl8821ce_mac_os.Trx.{get, put, waited, Log, World, State, D, ◌>>=◌, ◌>>◌, pure, emit}

-- The errors: -EINVAL, -EBUSY, -ENOMEM and the -1 of core/trx.c. `overread` is a copy that would
-- read past the image, and `spent` a loop that is out of rounds.
pub data Fault : Type 0 where
  einval ebusy enomem failed overread spent : Fault

pub data Rc : Type 0 where
  ok : Rc
  err : Fault → Rc

-- `if (ret) return ret;`
abbrev pub after_rc : Rc × State → (State → Rc × State) → Rc × State
after_rc (ok, s) k = k s
after_rc (err e, s) k = (err e, s)

infixl 5 ◌>>?◌
abbrev pub ◌>>?◌ : D Rc → D Rc → D Rc
◌>>?◌ m k w s = after_rc (m w s) (k w)

abbrev pub logged : State → Log → State
logged s t = record { trx = s.trx; log = t }

abbrev pub read8 : ℕ → D ℕ
read8 a w s = let v = w.read 1 a s.log % 256 in (v, logged s (get 1 a v ∷ s.log))

abbrev pub read16 : ℕ → D ℕ
read16 a w s = let v = w.read 2 a s.log % 2 ^ 16 in (v, logged s (get 2 a v ∷ s.log))

abbrev pub read32 : ℕ → D ℕ
read32 a w s = let v = w.read 4 a s.log % 2 ^ 32 in (v, logged s (get 4 a v ∷ s.log))

abbrev pub write8 : ℕ → ℕ → D (Unit {0})
write8 a v = emit (put 1 a (v % 256))

abbrev pub write16 : ℕ → ℕ → D (Unit {0})
write16 a v = emit (put 2 a (v % 2 ^ 16))

abbrev pub write32 : ℕ → ℕ → D (Unit {0})
write32 a v = emit (put 4 a (v % 2 ^ 32))

abbrev pub write8_set : ℕ → ℕ → D (Unit {0})
write8_set a bits = read8 a >>= λ v. write8 a (bit_or v (bits % 256))

abbrev pub write8_clr : ℕ → ℕ → D (Unit {0})
write8_clr a bits = read8 a >>= λ v. write8 a (clear v (bits % 256))

-- check_hw_ready with `left` rounds to go.
unfoldable pub poll : ℕ → ℕ → ℕ → ℕ → D Bool
unfolding ctz
poll zero a mask target w s = (false, s)
poll (suc left) a mask target w s =
    let v = w.read 4 a s.log % 2 ^ 32 in
    let t = get 4 a v ∷ s.log in
    let again = poll left a mask target w (logged s (waited 10 ∷ t)) in
    if bit_and v mask / 2 ^ ctz 32 mask == target then (true, logged s t) else again

abbrev pub ddma_polling_count : ℕ
ddma_polling_count = 1000

abbrev pub check_hw_ready : ℕ → ℕ → ℕ → D Bool
check_hw_ready a mask target = poll ddma_polling_count a mask target

abbrev pub le32_to_cpu : List ℕ → ℕ → ℕ
le32_to_cpu xs i =
    get_or xs i 0
    + get_or xs (i + 1) 0 * 2 ^ 8
    + get_or xs (i + 2) 0 * 2 ^ 16
    + get_or xs (i + 3) 0 * 2 ^ 24

-- The sections of an image: sizes with their checksums, and load addresses with bit 31 cleared. The
-- header of an image that is shorter than a header reads as 0 past the end.
pub record Sections : Type 0 where
  pub dmem_size : ℕ
  pub imem_size : ℕ
  pub emem_size : ℕ
  pub dmem_addr : ℕ
  pub imem_addr : ℕ
  pub emem_addr : ℕ

abbrev pub fw_hdr_size : ℕ
fw_hdr_size = 64

abbrev pub with_chksum : ℕ → ℕ
with_chksum n = (n + 8) % 2 ^ 32

abbrev pub load_address : ℕ → ℕ
load_address a = bit_and a (2 ^ 31 - 1)

unfoldable pub sections : List ℕ → Sections
sections image =
    let emem = if bit_and (get_or image 24 0) 16 == 0 then 0 else le32_to_cpu image 52 in
    record {
      dmem_size = with_chksum (le32_to_cpu image 36);
      imem_size = with_chksum (le32_to_cpu image 48);
      emem_size = if emem == 0 then 0 else with_chksum emem;
      dmem_addr = load_address (le32_to_cpu image 32);
      imem_addr = load_address (le32_to_cpu image 60);
      emem_addr = load_address (le32_to_cpu image 56);
    }

unfoldable pub check_firmware_size : List ℕ → ℕ → Bool
unfolding sections
check_firmware_size image size =
    let s = sections image in
    (fw_hdr_size + s.dmem_size + s.imem_size + s.emem_size) % 2 ^ 32 == size

abbrev pub reg_rsv_ctrl : ℕ
reg_rsv_ctrl = 0x1c

abbrev pub reg_sys_func_en : ℕ
reg_sys_func_en = 0x02

unfoldable pub wlan_cpu_enable : Bool → D (Unit {0})
wlan_cpu_enable true =
    write8_set (reg_rsv_ctrl + 1) (bit 0) >> write8_set (reg_sys_func_en + 1) (bit 2)
wlan_cpu_enable false =
    write8_clr (reg_sys_func_en + 1) (bit 2) >> write8_clr (reg_rsv_ctrl + 1) (bit 0)

abbrev pub reg_txdma_pq_map : ℕ
reg_txdma_pq_map = 0x10c

abbrev pub reg_cr : ℕ
reg_cr = 0x100

abbrev pub reg_h2cq_csr : ℕ
reg_h2cq_csr = 0x1330

abbrev pub reg_fifopage_info_1 : ℕ
reg_fifopage_info_1 = 0x230

abbrev pub reg_rqpn_ctrl_2 : ℕ
reg_rqpn_ctrl_2 = 0x22c

abbrev pub reg_bcn_ctrl : ℕ
reg_bcn_ctrl = 0x550

-- struct rtw_backup_info.
pub record BackupInfo : Type 0 where
  pub len : ℕ
  pub reg : ℕ
  pub val : ℕ

abbrev pub backup : ℕ → ℕ → ℕ → BackupInfo
backup len reg val = record { len = len; reg = reg; val = val }

-- `(tmp & ~BIT_EN_BCN_FUNCTION) | BIT_DIS_TSF_UDT`
abbrev pub beacon_off : ℕ → ℕ
beacon_off v = bit_or (clear v (bit 3)) (bit 4)

unfoldable pub download_firmware_reg_backup : D (List BackupInfo)
download_firmware_reg_backup = read8 (reg_txdma_pq_map + 1) >>= λ pq.
    write8 (reg_txdma_pq_map + 1) 0xc0 >> read8 reg_cr >>= λ cr.
    write8 reg_cr (bit_or (bit 0) (bit 2))
    >> write32 reg_h2cq_csr (bit 31)
    >> read16 reg_fifopage_info_1
    >>= λ info. read32 reg_rqpn_ctrl_2 >>= λ rqpn.
        write16 reg_fifopage_info_1 0x200
        >> write32 reg_rqpn_ctrl_2 (bit_or rqpn (bit 31))
        >> read8 reg_bcn_ctrl
        >>= λ bcn.
            write8 reg_bcn_ctrl (beacon_off bcn)
            >> pure (
                backup 1 (reg_txdma_pq_map + 1) pq
                ∷ backup 1 reg_cr cr
                ∷ backup 4 reg_h2cq_csr (bit 31)
                ∷ backup 2 reg_fifopage_info_1 info
                ∷ backup 4 reg_rqpn_ctrl_2 (bit_or rqpn (bit 31))
                ∷ backup 1 reg_bcn_ctrl bcn
                ∷ [])

abbrev pub restore_one : BackupInfo → D (Unit {0})
restore_one b =
    if b.len == 1
    then write8 b.reg b.val
    else if b.len == 2
    then write16 b.reg b.val
    else if b.len == 4
    then write32 b.reg b.val
    else pure tt

unfoldable pub restore_reg : List BackupInfo → D (Unit {0})
restore_reg [] = pure tt
restore_reg (b ∷ bs) = restore_one b >> restore_reg bs

unfoldable pub download_firmware_reset_platform : D (Unit {0})
download_firmware_reset_platform =
    write8_clr 0x1082 (bit 0)
    >> write8_clr 0x09 (bit 6)
    >> write8_set 0x1082 (bit 0)
    >> write8_set 0x09 (bit 6)
