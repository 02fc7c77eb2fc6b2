-- ===== src/Trx.antt =====
-- core/trx.c: the DMA buffers and the rings, the kernel's DMA service, and the layout of the TX rings.
pub mod Init
pub mod Send
pub mod Layout
pub mod Memory
pub mod Safe
pub mod Start
pub mod Pool
pub mod Once
pub mod Packets
pub mod Runs
pub mod Rx
use rtl8821ce_mac_os.Base.{ℕ, zero, suc, ◌+◌, ◌-◌, ◌*◌, ◌/◌, ◌%◌, ◌^◌}
use rtl8821ce_mac_os.Base.{
  Bool, true, false, if◌then◌else◌, ◌==◌, Option, none, some, List, [], ◌∷◌, map,
}
use Prim.{Unit, tt}

-- hw_dma_alloc of a size with the handle it gave, and without success; hw_dma_free; the release of
-- all buffers when the server stops; memset to 0 and stores at an offset of a buffer; register
-- accesses with their width; hw_reg_write_dma of a handle and an offset; hw_power; usleep.
pub data Event : Type 0 where
  allocated : ℕ → ℕ → Event
  refused : ℕ → Event
  freed : ℕ → Event
  released : Event
  cleared : ℕ → ℕ → Event
  stored : ℕ → ℕ → List ℕ → Event
  get put : ℕ → ℕ → ℕ → Event
  armed : ℕ → ℕ → ℕ → Event
  powered : Bool → Bool → Event
  waited : ℕ → Event

-- The newest first.
abbrev pub Log : Type 0
Log = List Event

pub record Grant : Type 0 where
  pub handle : ℕ
  pub paddr : ℕ

-- The DMA service and the card.
pub record World : Type 0 where
  pub dma : ℕ → Log → Option Grant
  pub read : ℕ → ℕ → Log → ℕ

-- g_*_handle and g_*_paddr, and whether g_*_vaddr is not NULL.
pub record Buf : Type 0 where
  pub handle : ℕ
  pub paddr : ℕ
  pub vaddr : Bool

-- struct tx_ring; `bd` is whether the pointer is not NULL.
pub record TxRing : Type 0 where
  pub bd : Bool
  pub bd_off : ℕ
  pub len : ℕ
  pub wp : ℕ
  pub rp : ℕ
  pub desa_reg : ℕ
  pub num_reg : ℕ

-- The statics.
pub record Trx : Type 0 where
  pub txbd : Buf
  pub pkt : Buf
  pub rxbd : Buf
  pub rxdata : Buf
  pub txpool : Buf
  pub txbd_size : ℕ
  pub pkt_size : ℕ
  pub txpool_size : ℕ
  pub rx_ok : Bool
  pub rx_n : ℕ
  pub alloced : Bool
  pub rings : List TxRing

pub record State : Type 0 where
  pub trx : Trx
  pub log : Log

abbrev pub D : Type 0 → Type 0
D A = World → State → A × State

infixl 5 ◌>>=◌ ◌>>◌
abbrev pub ◌>>=◌ : {A B : Type 0} → D A → (A → D B) → D B
◌>>=◌ m f w s = let r = m w s in f r.0 w r.1

abbrev pub ◌>>◌ : {A B : Type 0} → D A → D B → D B
◌>>◌ m k w s = k w (m w s).1

abbrev pub pure : {A : Type 0} → A → D A
pure a w s = (a, s)

abbrev pub emit : Event → D (Unit {0})
emit e w s = (tt, record { trx = s.trx; log = e ∷ s.log })

abbrev pub modify : (Trx → Trx) → D (Unit {0})
modify f w s = (tt, record { trx = f s.trx; log = s.log })

abbrev pub trx_of : D Trx
trx_of w s = (s.trx, s)

abbrev pub grant_event : ℕ → Option Grant → Event
grant_event size none = refused size
grant_event size (some g) = allocated size g.handle

abbrev pub hw_dma_alloc : ℕ → D (Option Grant)
hw_dma_alloc size w s =
    let a = w.dma size s.log in (a, record { trx = s.trx; log = grant_event size a ∷ s.log })

abbrev pub reg_read : ℕ → ℕ → D ℕ
reg_read width address w s =
    let v = w.read width address s.log in
    (v, record { trx = s.trx; log = get width address v ∷ s.log })

-- One row of q_regs, without the queue number: the rows stand in the order of the numbers.
pub record QRegs : Type 0 where
  pub q : ℕ
  pub desa : ℕ
  pub num : ℕ

abbrev q_row : ℕ → ℕ → ℕ → QRegs
q_row q desa num = record { q = q; desa = desa; num = num }

abbrev pub q_regs : List QRegs
q_regs =
    q_row 0 0x330 0x38a
    ∷ q_row 1 0x328 0x388
    ∷ q_row 2 0x320 0x386
    ∷ q_row 3 0x318 0x384
    ∷ q_row 4 0x308 0
    ∷ q_row 5 0x310 0x380
    ∷ q_row 6 0x340 0x38c
    ∷ q_row 7 0x1320 0x1328
    ∷ []

abbrev pub queue_be : ℕ
queue_be = 1

abbrev pub queue_bcn : ℕ
queue_bcn = 4

unfoldable pub tx_len_for : ℕ → ℕ
tx_len_for q = if q == queue_be then 256 else if q == queue_bcn then 1 else 128

-- `(x + 7) & ~7`
abbrev pub align8 : ℕ → ℕ
align8 x = x + 7 - (x + 7) % 8

-- The loop over q_regs, from g_txbd_size = `size`: the rings, and the size at the end.
unfoldable pub lay_out : ℕ → ℕ → List QRegs → List TxRing × ℕ
unfolding tx_len_for
lay_out bd_sz size [] = ([], size)
lay_out bd_sz size (r ∷ rs) =
    let len = tx_len_for r.q in
    let rest = lay_out bd_sz (align8 (size + len * bd_sz)) rs in
    let ring : TxRing = record {
      bd = false;
      bd_off = size;
      len = len;
      wp = 0;
      rp = 0;
      desa_reg = r.desa;
      num_reg = r.num;
    } in
    (ring ∷ rest.0, rest.1)

-- The rows of the program are filled in place: the pointers `bd` stay as they were before the layout.
abbrev pub keep_bd : List TxRing → List TxRing → List TxRing
keep_bd [] rs = rs
keep_bd (o ∷ os) [] = []
keep_bd (o ∷ os) (r ∷ rs) = record r { bd = o.bd } ∷ keep_bd os rs

abbrev pub set_bd : Bool → TxRing → TxRing
set_bd b r = record r { bd = b }

abbrev pub reset_ring : TxRing → TxRing
reset_ring r = record r { wp = 0; rp = 0 }

-- A little-endian u16 and u32 in memory.
abbrev pub le16 : ℕ → List ℕ
le16 v = v % 2 ^ 8 ∷ v / 2 ^ 8 % 2 ^ 8 ∷ []

abbrev pub le32 : ℕ → List ℕ
le32 v = v % 2 ^ 8 ∷ v / 2 ^ 8 % 2 ^ 8 ∷ v / 2 ^ 16 % 2 ^ 8 ∷ v / 2 ^ 24 % 2 ^ 8 ∷ []
