-- ===== src/Fw/Loads.antt =====
-- Which copies put a list of bytes at an address, and how one more copy extends them.
use rtl8821ce_mac_os.Base.{ℕ, ◌+◌, ◌%◌, ◌^◌, ◌≤◌, ◌≡◌, refl, sym, ap, ◌∙◌, arith}
use rtl8821ce_mac_os.Base.{
  Bool, true, false, not, if◌then◌else◌, leb, leb→le, ◌==◌, none, some, List, [], ◌∷◌, ◌++◌, length,
  take, drop, copy_out, take-add, drop-drop, length-take, length-drop,
}
use rtl8821ce_mac_os.Trx.{Log, State}
use rtl8821ce_mac_os.Trx.Init.{TrxChip}
use rtl8821ce_mac_os.Fw.Card.{Transfer, transfers}
use rtl8821ce_mac_os.Fw.Copied.{Copied}
use rtl8821ce_mac_os.Fw.Dma.{pkt_size_of}

abbrev pub is_nil : List Transfer → Bool
is_nil [] = true
is_nil (t ∷ ts) = false

-- The copies `ts`, the newest first, put `bytes` at `dst` and the addresses after it: each takes at
-- most 4096 bytes from behind the descriptor in the TX buffer and follows on the one before, and
-- all but the first carry the checksum on.
abbrev pub Loads : ℕ → List ℕ → List Transfer → Type 0
Loads dst bytes [] = bytes ≡ []
Loads dst bytes (t ∷ ts) =
    (done : List ℕ) × (bytes ≡ done ++ t.bytes)
    × (t.dst ≡ (dst + length done) % 2 ^ 32)
    × (length t.bytes ≤ 0x1000)
    × (t.src ≡ 0x18780030)
    × (t.cont ≡ not (is_nil ts))
    × Loads dst done ts

pub copy_out-some :
    (off n : ℕ) (xs ys : List ℕ)
    → copy_out off n xs ≡ some ys
    → (off + n ≤ length xs) × (ys ≡ take n (drop off xs))
unfolding copy_out
copy_out-some off n xs ys e = decide (leb (off + n) (length xs)) refl e
  where
    decide :
        (b : Bool)
        → leb (off + n) (length xs) ≡ b
        → (if b then some (take n (drop off xs)) else none) ≡ some ys
        → (off + n ≤ length xs) × (ys ≡ take n (drop off xs))
    decide true h e = (leb→le _ _ h, cc)
    decide false h e = cc

-- The copies that were made since `old`, of the first `n` bytes from `off` of the image.
pub record Delivered (h : ℕ) (image : List ℕ) (off dst n : ℕ) (s s' : State) : Type 0 where
  pub pkt_same : s'.trx.pkt.handle ≡ s.trx.pkt.handle
  pub txbd_same : s'.trx.txbd.handle ≡ s.trx.txbd.handle
  pub inside : off + n ≤ length image
  pub copies : List Transfer
  pub copies_are : transfers h s'.log ≡ copies ++ transfers h s.log
  pub loads : Loads dst (take n (drop off image)) copies

module _ (h : ℕ) (malloc : ℕ → Log → Bool) (chip : TrxChip) (image : List ℕ) where
  -- One more copy.
  pub extend :
      (off dst mo len : ℕ) (frame : List ℕ) (first : Bool) (s t u : State)
      (d : Delivered h image off dst mo s t)
      → first ≡ is_nil d.copies
      → length frame ≤ 0x1000
      → copy_out (off + mo) len image ≡ some frame
      → Copied h
          (record {
            src = 0x18780030;
            dst = (dst + mo) % 2 ^ 32 % 2 ^ 32;
            bytes = frame;
            cont = not first;
          })
          t
          u
      → (v : Delivered h image off dst (mo + len) s u) × (false ≡ is_nil v.copies)
  extend off dst mo len frame first s t u d e small out c =
      let o = copy_out-some (off + mo) len image frame out in
      let copy : Transfer = record {
        src = 0x18780030;
        dst = (dst + mo) % 2 ^ 32 % 2 ^ 32;
        bytes = frame;
        cont = not first;
      } in
      let done = take mo (drop off image) in
      let size : length done ≡ mo =
        omega (arith, length-take mo (drop off image), length-drop off image, d.inside) in
      (
        record {
          pkt_same = c.pkt_same ∙ d.pkt_same;
          txbd_same = c.txbd_same ∙ d.txbd_same;
          inside = omega (arith, o.0);
          copies = copy ∷ d.copies;
          copies_are = c.copies_are ∙ ap (◌∷◌ copy) d.copies_are;
          loads = (
            done,
            take-add mo len (mo + len) (drop off image) refl
                ∙ ap (◌++◌ done) (ap (take len) (drop-drop off mo (off + mo) image refl) ∙ sym o.1),
            omega (arith, size),
            small,
            refl,
            ap not e,
            d.loads,
          );
        },
        refl,
      )

  pub chunk :
      (residue : ℕ)
      → residue == 0 ≡ false
      → (pkt_size_of residue ≤ 0x1000) × (pkt_size_of residue ≤ residue)
  chunk residue z = ground arith
