-- ===== src/Coex.antt =====
-- core/coex.c: the antenna grants behind the indirect interface, and what goes before them.
pub mod Grants
use rtl8821ce_mac_os.Base.{
  ℕ, ◌+◌, ◌*◌, ◌/◌, ◌%◌, ◌^◌, bit_and, bit_or, Bool, true, false, Option, none, some,
}
use Prim.{Unit, tt}
use rtl8821ce_mac_os.Hw.{
  M, ◌>>=◌, ◌>>◌, pure, read16, read32, write8, write16, write32, write8_set, write8_clr,
  write16_set, write32_set, write32_clr, write8_mask, bit, clear, ctz, check_hw_ready, poll,
}

abbrev pub ltecoex_ctrl : ℕ
ltecoex_ctrl = 0x1700

abbrev pub ltecoex_wdata : ℕ
ltecoex_wdata = 0x1704

abbrev pub ltecoex_rdata : ℕ
ltecoex_rdata = 0x1708

abbrev pub ltecoex_ready : M Bool
ltecoex_ready = check_hw_ready ltecoex_ctrl (bit 29) 1

-- After the poll; `none` is the result -1.
abbrev pub read_when : ℕ → Bool → M (Option ℕ)
read_when off false = pure none
read_when off true =
    write32 ltecoex_ctrl (bit_or 0x800f0000 off) >> read32 ltecoex_rdata >>= λ v. pure (some v)

abbrev pub write_when : ℕ → ℕ → Bool → M (Unit {0})
write_when off val false = pure tt
write_when off val true = write32 ltecoex_wdata val >> write32 ltecoex_ctrl (bit_or 0xc00f0000 off)

unfoldable pub lte_read : ℕ → M (Option ℕ)
unfolding poll
lte_read off = ltecoex_ready >>= read_when off

unfoldable pub lte_write : ℕ → ℕ → M (Unit {0})
unfolding poll
lte_write off val = ltecoex_ready >>= write_when off val

abbrev pub masked : ℕ → ℕ → ℕ → ℕ
masked old mask val = bit_or (clear old mask) (bit_and (val * 2 ^ ctz 32 mask % 2 ^ 32) mask)

unfoldable pub update_grant : ℕ → ℕ → ℕ → Option ℕ → M (Unit {0})
unfolding lte_write ctz
update_grant addr mask val none = pure tt
update_grant addr mask val (some tmp) = lte_write addr (masked tmp mask val)

unfoldable pub indirect_write : ℕ → ℕ → ℕ → M (Unit {0})
unfolding lte_read update_grant
indirect_write addr mask val = lte_read addr >>= update_grant addr mask val

abbrev pub lte_coex_ctrl : ℕ
lte_coex_ctrl = 0x38

-- The switch of the coexistence block, the scoreboard and the owner of the antenna.
unfoldable pub coex_block_on : M (Unit {0})
unfolding ctz
coex_block_on =
    write32_set 0x40 (bit_or (bit 5) (bit 9))
    >> write8_set 0x4c6 (bit 4)
    >> write8_clr 0x4c6 (bit 5)
    >> write8 0x778 1
    >> write8_mask 0x790 0x3f 5
    >> write16_set 0x762 (bit 12)
    >> write8_set 0x550 (bit 3)
    >> write32_clr 0x70 (bit 27)
    >> write16 0xaa (bit_or (bit_or (bit_or 2 1) 2) (bit 15))
    >> read16 0xaa
    >>= λ shown. write8_set 0x73 (bit 2)

unfoldable pub coex_wifi_antenna : M (Unit {0})
unfolding coex_block_on indirect_write
coex_wifi_antenna =
    coex_block_on
    >> indirect_write lte_coex_ctrl 0x3000 3
    >> indirect_write lte_coex_ctrl 0x0300 3
    >> indirect_write lte_coex_ctrl 0xc000 0
    >> indirect_write lte_coex_ctrl 0x0c00 0
