-- ===== src/Trx/Safe.antt =====
-- trx_reset and the DMA memory of core/trx.c.
use rtl8821ce_mac_os.Base.{ℕ, ◌%◌, ◌^◌, ◌≡◌, refl, sym, ap, ◌∙◌, subst, bit_or}
use rtl8821ce_mac_os.Base.{Bool, true, false, if◌then◌else◌, ◌==◌, List, [], ◌∷◌, map}
use Prim.{Unit, tt}
use rtl8821ce_mac_os.Trx.{
  Log, World, TxRing, Trx, State, D, emit, put, armed, ◌>>◌, ◌>>=◌, modify, reg_read, reset_ring,
}
use rtl8821ce_mac_os.Trx.Init.{TrxChip, program_rings, program_rx, reset_h2c, trx_reset}
use rtl8821ce_mac_os.Trx.Layout.{AllFit, AllBd, reset_ring-AllFit, reset_ring-AllBd}
use rtl8821ce_mac_os.Trx.Memory.{size_of, IsSafe, Live}

-- Code that only touches registers.
record Keeps (s s' : State) : Type 0 where
  same_trx : s'.trx ≡ s.trx
  same_size : (h : ℕ) → size_of s'.log h ≡ size_of s.log h
  still_safe : IsSafe s.log → IsSafe s'.log

Keeps-refl : (s : State) → Keeps s s
Keeps-refl s = record { same_trx = refl; same_size = λ h. refl; still_safe = λ h. h }

Keeps-trans : (s t u : State) → Keeps s t → Keeps t u → Keeps s u
Keeps-trans s t u a b = record {
  same_trx = b.same_trx ∙ a.same_trx;
  same_size = λ h. b.same_size h ∙ a.same_size h;
  still_safe = λ h. b.still_safe (a.still_safe h);
}

abbrev program_one : Bool → TxRing → ℕ → D (Unit {0})
program_one b r handle w s =
    (if b
        then emit (armed r.desa_reg handle r.bd_off)
        else emit (put 2 r.num_reg (r.len % 2 ^ 12)) >> emit (armed r.desa_reg handle r.bd_off))
      w s

program_one-Keeps :
    (b : Bool) (r : TxRing) (handle : ℕ) (w : World) (s : State)
    → Keeps s (program_one b r handle w s).1
program_one-Keeps true r handle w s = record {
  same_trx = refl;
  same_size = λ h. refl;
  still_safe = λ h. (tt, h);
}
program_one-Keeps false r handle w s = record {
  same_trx = refl;
  same_size = λ h. refl;
  still_safe = λ h. (tt, (tt, h));
}

program_rings-Keeps :
    (handle : ℕ) (rs : List TxRing) (w : World) (s : State)
    → Keeps s (program_rings handle rs w s).1
unfolding program_rings
program_rings-Keeps handle [] w s = Keeps-refl s
program_rings-Keeps handle (r ∷ rs) w s =
    let s1 = (program_one (r.num_reg == 0) r handle w s).1 in
    Keeps-trans s s1 (program_rings handle rs w s1).1
      (program_one-Keeps (r.num_reg == 0) r handle w s) (program_rings-Keeps handle rs w s1)

rx_lem :
    (b : Bool) (t : Trx) (w : World) (s : State)
    → Keeps s
        (if b
          then (emit (put 2 0x382 (t.rx_n % 2 ^ 12)) >> emit (armed 0x338 t.rxbd.handle 0)) w s
          else (tt, s)).1
rx_lem true t w s = record {
  same_trx = refl;
  same_size = λ h. refl;
  still_safe = λ h. (tt, (tt, h));
}
rx_lem false t w s = Keeps-refl s

reset_h2c-Keeps : (b : Bool) (w : World) (s : State) → Keeps s (reset_h2c b w s).1
unfolding reset_h2c
reset_h2c-Keeps true w s = record {
  same_trx = refl;
  same_size = λ h. refl;
  still_safe = λ h. (tt, (tt, h));
}
reset_h2c-Keeps false w s = Keeps-refl s

-- trx_reset after it has reset the pointers.
abbrev pointers_reset : World → State → State
pointers_reset w s =
    let r =
      (reg_read 1 0x303 >>= λ tmp.
      emit (put 1 0x303 (bit_or tmp 0xf7))
      >> modify (λ t. record t { rings = map reset_ring t.rings }))
        w s in
    r.1

trx_reset-Keeps :
    (chip : TrxChip) (w : World) (s : State) → Keeps (pointers_reset w s) (trx_reset chip w s).1
unfolding trx_reset program_rx
trx_reset-Keeps chip w s =
    let s1 : State = pointers_reset w s in
    let s2 = (program_rings s1.trx.txbd.handle s1.trx.rings w s1).1 in
    let s3 = (program_rx s1.trx w s2).1 in
    let s4 : State = (emit (put 4 0x39c 0xffffffff) w s3).1 in
    Keeps-trans s1 s2 (reset_h2c chip.wcpu_3081 w s4).1
      (program_rings-Keeps s1.trx.txbd.handle s1.trx.rings w s1)
      (Keeps-trans s2 s3 (reset_h2c chip.wcpu_3081 w s4).1 (rx_lem s1.trx.rx_ok s1.trx w s2) (
        Keeps-trans s3 s4 (reset_h2c chip.wcpu_3081 w s4).1
          (record { same_trx = refl; same_size = λ h. refl; still_safe = λ h. (tt, h) })
          (reset_h2c-Keeps chip.wcpu_3081 w s4)))

-- The buffers of the TX side, allocated under the handles and sizes of the statics.
pub record Ready (t : Trx) (l : Log) : Type 0 where
  pub safe : IsSafe l
  pub bd_live : Live l t.txbd.handle t.txbd_size
  pub pkt_live : Live l t.pkt.handle t.pkt_size
  pub pkt_set : t.pkt.vaddr ≡ true
  pub fits : AllFit t.txbd_size t.rings
  pub bds_set : AllBd true t.rings
  pub pkt_size_is : t.pkt_size ≡ 0x2000

Keeps-Ready : (s s' : State) → Keeps s s' → Ready s.trx s.log → Ready s'.trx s'.log
Keeps-Ready s s' k r =
    subst (λ (t : Trx). Ready t s'.log) (sym k.same_trx)
      (record {
        safe = k.still_safe r.safe;
        bd_live = k.same_size s.trx.txbd.handle ∙ r.bd_live;
        pkt_live = k.same_size s.trx.pkt.handle ∙ r.pkt_live;
        pkt_set = r.pkt_set;
        fits = r.fits;
        bds_set = r.bds_set;
        pkt_size_is = r.pkt_size_is;
      })

pub trx_reset-Ready :
    (chip : TrxChip) (w : World) (s : State)
    → Ready s.trx s.log
    → Ready (trx_reset chip w s).1.trx (trx_reset chip w s).1.log
trx_reset-Ready chip w s r =
    Keeps-Ready (pointers_reset w s) (trx_reset chip w s).1 (trx_reset-Keeps chip w s) (record {
      safe = (tt, (tt, r.safe));
      bd_live = r.bd_live;
      pkt_live = r.pkt_live;
      pkt_set = r.pkt_set;
      fits = reset_ring-AllFit s.trx.txbd_size s.trx.rings r.fits;
      bds_set = reset_ring-AllBd true s.trx.rings r.bds_set;
      pkt_size_is = r.pkt_size_is;
    })

pub trx_reset_alloced :
    (chip : TrxChip) (w : World) (s : State) → (trx_reset chip w s).1.trx.alloced ≡ s.trx.alloced
trx_reset_alloced chip w s = ap (λ (t : Trx). t.alloced) (trx_reset-Keeps chip w s).same_trx
