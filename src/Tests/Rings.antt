-- ===== src/Tests/Rings.antt =====
-- The rings over a DMA service that numbers its handles, and over one that refuses the third.
use rtl8821ce_mac_os.Base.{
  ℕ, zero, suc, ◌*◌, ◌^◌, ◌≡◌, refl, sym, ap, ◌∙◌, arith, true, false, Option, some, none,
}
use rtl8821ce_mac_os.Base.{[], replicate}
use Prim.{tt}
use rtl8821ce_mac_os.Trx.{Log, World, Grant, State, lay_out, q_regs}
use rtl8821ce_mac_os.Trx.Init.{TrxChip, trx_init}
use rtl8821ce_mac_os.Trx.Layout.{Tiles, lay_out-Tiles}
use rtl8821ce_mac_os.Trx.Memory.{size_of, IsSafe, IsFresh}
use rtl8821ce_mac_os.Trx.Once.{trx_init-Started}
use rtl8821ce_mac_os.Trx.Pool.{Started, Inv}
use rtl8821ce_mac_os.Trx.Runs.{Fits, boot, init, mgmt, boot_trx, Reach-IsMemorySafe}
use rtl8821ce_mac_os.Trx.Send.{trx_tx_mgmt, trx_write_data_rsvd_page}

abbrev chip : TrxChip
chip = record { tx_buf_desc_sz = 16; rx_buf_desc_sz = 8; tx_pkt_desc_sz = 48; wcpu_3081 = true }

-- The first handle that is not in use, of `k` from `h` on.
abbrev grant : ℕ → Grant
grant h = record { handle = h; paddr = h * 2 ^ 16 }

first_free : Option ℕ → ℕ → Option Grant → Option Grant
first_free none h later = some (grant h)
first_free (some n) h later = later

slots : ℕ → ℕ → Log → Option Grant
unfolding first_free
slots zero h t = none
slots (suc k) h t = let later = slots k (suc h) t in first_free (size_of t h) h later

free_lem :
    (o : Option ℕ) (h : ℕ) (t : Log) (later : Option Grant) (g : Grant)
    → size_of t h ≡ o
    → (later ≡ some g → size_of t g.handle ≡ none)
    → first_free o h later ≡ some g
    → size_of t g.handle ≡ none
unfolding first_free
free_lem none h t later g e f q =
    let p : grant h ≡ g = cc in ap (λ (x : Grant). size_of t x.handle) (sym p) ∙ e
free_lem (some n) h t later g e f q = f q

slots_free : (k h : ℕ) (t : Log) (g : Grant) → slots k h t ≡ some g → size_of t g.handle ≡ none
unfolding slots
slots_free zero h t g q = cc
slots_free (suc k) h t g q =
    free_lem (size_of t h) h t (slots k (suc h) t) g refl (slots_free k (suc h) t g) q

abbrev world : ℕ → World
world count = record { dma = λ n t. slots count 1 t; read = λ width address t. 0 }

world-IsFresh : (count : ℕ) → IsFresh (world count)
world-IsFresh count n t g q = slots_free count 1 t g q

chip-Fits : Fits chip
chip-Fits = record { tx_bd = refl; rx_bd = refl; tx_desc = refl }

abbrev empty : State
empty = record { trx = boot_trx; log = [] }

boot-Inv : Inv boot_trx []
boot-Inv = record {
  safe = tt;
  when_up = λ e. cc;
  when_down = λ e. (refl, refl, refl, refl, refl, tt);
}

-- With two slots the TX pool is refused.
refused_pool : (trx_init chip (world 2) empty).0 ≡ false
unfolding trx_init slots
refused_pool = refl

-- The reserved page goes on after that failure, with no buffer under the handle that it stores to.
abbrev failed : State
failed = (trx_init chip (world 2) empty).1

page_after_failure :
    ((trx_write_data_rsvd_page chip (replicate 8 0) (world 2) failed).0 ≡ true)
    × (failed.trx.pkt.vaddr ≡ false)
    × (size_of failed.log failed.trx.pkt.handle ≡ none)
unfolding trx_init trx_write_data_rsvd_page slots
page_after_failure = (refl, refl, refl)

given : (trx_init chip (world 16) empty).0 ≡ true
unfolding trx_init slots
given = refl

trx_init-Started_example :
    Started []
      (trx_init chip (world 2) empty).0
      (trx_init chip (world 2) empty).1.trx
      (trx_init chip (world 2) empty).1.log
trx_init-Started_example =
    trx_init-Started chip (world 2) empty (world-IsFresh 2) refl refl boot-Inv

-- Initialised, and a management frame sent.
abbrev online : State
online = (trx_init chip (world 16) empty).1

Reach-IsMemorySafe_example :
    IsSafe (trx_tx_mgmt chip (replicate 30 0) 0 false (world 16) online).1.log
Reach-IsMemorySafe_example =
    Reach-IsMemorySafe (world 16) chip
      (trx_tx_mgmt chip (replicate 30 0) 0 false (world 16) online).1 (world-IsFresh 16) chip-Fits
      (mgmt (init boot) (replicate 30 0) 0 false (omega arith))

lay_out-Tiles_example : Tiles 16 0 (lay_out 16 0 q_regs).0 (lay_out 16 0 q_regs).1
lay_out-Tiles_example = lay_out-Tiles 16 0 q_regs refl
