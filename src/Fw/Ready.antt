-- ===== src/Fw/Ready.antt =====
-- The end of download_firmware: what the card has reported when it returns 0, and what the reset of
-- the rings leaves alone.
use rtl8821ce_mac_os.Base.{
  ℕ, zero, suc, ◌/◌, ◌%◌, ◌^◌, ◌≡◌, ◌≢◌, refl, sym, ap, subst, ◌∙◌, arith, bit_and, bit_or,
}
use rtl8821ce_mac_os.Base.{Bool, true, false, ◌&&◌, if◌then◌else◌, ◌==◌, ==_iff, List, [], ◌∷◌, map}
use Prim.{tt}
use rtl8821ce_mac_os.Hw.{ctz}
use rtl8821ce_mac_os.Trx.{
  get, put, armed, waited, Log, World, TxRing, Trx, State, emit, ◌>>◌, ◌>>=◌, reg_read, modify,
  pure, reset_ring,
}
use rtl8821ce_mac_os.Trx.Init.{TrxChip, program_rings, program_rx, reset_h2c, trx_reset}
use rtl8821ce_mac_os.Fw.{einval, Rc, ok, err, poll, logged, read32, ddma_polling_count}
use rtl8821ce_mac_os.Fw.Card.{transfers, Quiet, poll-Quiet}
use rtl8821ce_mac_os.Fw.Dma.{reg_mcufw_ctrl}
use rtl8821ce_mac_os.Fw.Run.{fw_ready_mask, fw_ready, download_firmware_validate}

-- The last value that a poll read from MCUFW_CTRL.
unfoldable pub mcufw : Log → ℕ
mcufw [] = 0
mcufw (get w a v ∷ t) = let old = mcufw t in if w == 4 && a == reg_mcufw_ctrl then v else old
mcufw (e ∷ t) = mcufw t

abbrev pub IsReady : Log → Type 0
IsReady t = bit_and (mcufw t) fw_ready_mask ≡ fw_ready

-- What is read off the log without a look at the rings' registers.
pub record Blind {A : Type 0} (f : Log → A) : Type 0 where
  pub arming : (r h i : ℕ) (t : Log) → f (armed r h i ∷ t) ≡ f t
  pub writing16 : (a v : ℕ) (t : Log) → f (put 2 a v ∷ t) ≡ f t
  pub reading : (v : ℕ) (t : Log) → f (get 1 0x303 v ∷ t) ≡ f t
  pub writing8 : (v : ℕ) (t : Log) → f (put 1 0x303 v ∷ t) ≡ f t
  pub clearing : (v : ℕ) (t : Log) → f (put 4 0x39c v ∷ t) ≡ f t
  pub reading_h2c : (v : ℕ) (t : Log) → f (get 4 0x1330 v ∷ t) ≡ f t
  pub writing_h2c : (v : ℕ) (t : Log) → f (put 4 0x1330 v ∷ t) ≡ f t

module _ {A : Type 0} (f : Log → A) (b : Blind f) where
  ring_lem :
      (c : Bool) (r : TxRing) (handle : ℕ) (w : World) (s : State)
      → f
          ((if c
              then emit (armed r.desa_reg handle r.bd_off)
              else emit (put 2 r.num_reg (r.len % 2 ^ 12))
                >> emit (armed r.desa_reg handle r.bd_off))
            w s).1.log
        ≡ f s.log
  ring_lem true r handle w s = b.arming _ _ _ _
  ring_lem false r handle w s = b.arming _ _ _ _ ∙ b.writing16 _ _ _

  program_rings_lem :
      (handle : ℕ) (rs : List TxRing) (w : World) (s : State)
      → f (program_rings handle rs w s).1.log ≡ f s.log
  unfolding program_rings
  program_rings_lem handle [] w s = refl
  program_rings_lem handle (r ∷ rs) w s =
      program_rings_lem handle rs w _ ∙ ring_lem (r.num_reg == 0) r handle w s

  rx_lem :
      (c : Bool) (t : Trx) (w : World) (s : State)
      → f
          (if c
            then (emit (put 2 0x382 (t.rx_n % 2 ^ 12)) >> emit (armed 0x338 t.rxbd.handle 0)) w s
            else (tt, s)).1.log
        ≡ f s.log
  rx_lem true t w s = b.arming _ _ _ _ ∙ b.writing16 _ _ _
  rx_lem false t w s = refl

  reset_h2c_lem : (c : Bool) (w : World) (s : State) → f (reset_h2c c w s).1.log ≡ f s.log
  unfolding reset_h2c
  reset_h2c_lem true w s = b.writing_h2c _ _ ∙ b.reading_h2c _ _
  reset_h2c_lem false w s = refl

  pub trx_reset_lem :
      (chip : TrxChip) (w : World) (s : State) → f (trx_reset chip w s).1.log ≡ f s.log
  unfolding trx_reset program_rx
  trx_reset_lem chip w s =
      let s1 : State =
        ((reg_read 1 0x303 >>= λ tmp.
        emit (put 1 0x303 (bit_or tmp 0xf7))
        >> modify (λ t. record t { rings = map reset_ring t.rings }))
          w s).1 in
      let s2 = (program_rings s1.trx.txbd.handle s1.trx.rings w s1).1 in
      let s3 = (program_rx s1.trx w s2).1 in
      let s4 : State = (emit (put 4 0x39c 0xffffffff) w s3).1 in
      reset_h2c_lem chip.wcpu_3081 w s4
      ∙ b.clearing _ _
      ∙ rx_lem s1.trx.rx_ok s1.trx w s2
      ∙ program_rings_lem s1.trx.txbd.handle s1.trx.rings w s1
      ∙ b.writing8 _ _
      ∙ b.reading _ _

mcufw-Blind : Blind mcufw
unfolding mcufw
mcufw-Blind = record {
  arming = λ r h i t. refl;
  writing16 = λ a v t. refl;
  reading = λ v t. refl;
  writing8 = λ v t. refl;
  clearing = λ v t. refl;
  reading_h2c = λ v t. refl;
  writing_h2c = λ v t. refl;
}

pub trx_reset-IsReady :
    (chip : TrxChip) (w : World) (s : State) → IsReady s.log → IsReady (trx_reset chip w s).1.log
trx_reset-IsReady chip w s r =
    ap (λ n. bit_and n fw_ready_mask) (trx_reset_lem mcufw mcufw-Blind chip w s) ∙ r

read_lem :
    (v : ℕ) → bit_and v fw_ready_mask / 1 == fw_ready ≡ true → bit_and v fw_ready_mask ≡ fw_ready
read_lem v e = omega (arith, (==_iff (bit_and v fw_ready_mask / 1) fw_ready).0 e)

round-IsReady :
    (c : Bool) (v : ℕ) (s : State) (again : Bool × State)
    → bit_and v fw_ready_mask / 1 == fw_ready ≡ c
    → (again.0 ≡ true → IsReady again.1.log)
    → let r : Bool × State =
        if c then (true, logged s (get 4 reg_mcufw_ctrl v ∷ s.log)) else again in
      r.0 ≡ true → IsReady r.1.log
unfolding mcufw
round-IsReady true v s again e h done = read_lem v e
round-IsReady false v s again e h done = h done

-- A poll of MCUFW_CTRL that succeeds has read the value.
poll-IsReady :
    (n : ℕ) (w : World) (s : State)
    → (poll n reg_mcufw_ctrl fw_ready_mask fw_ready w s).0 ≡ true
    → IsReady (poll n reg_mcufw_ctrl fw_ready_mask fw_ready w s).1.log
unfolding poll ctz
poll-IsReady zero w s e = cc
poll-IsReady (suc n) w s e =
    let v = w.read 4 reg_mcufw_ctrl s.log % 2 ^ 32 in
    let next = logged s (waited 10 ∷ get 4 reg_mcufw_ctrl v ∷ s.log) in
    round-IsReady (bit_and v fw_ready_mask / 1 == fw_ready) v s
      (poll n reg_mcufw_ctrl fw_ready_mask fw_ready w next) refl (poll-IsReady n w next) e

verdict :
    (b : Bool) (t : State) (bad : Rc × State)
    → bad.0 ≢ ok
    → let r : Rc × State = if b then (ok, t) else bad in r.0 ≡ ok → (b ≡ true) × (r ≡ (ok, t))
verdict true t bad h e = (refl, refl)
verdict false t bad h e = absurd (h e)

-- download_firmware_validate returns 0 only when the card is ready.
pub validate-IsReady :
    (h : ℕ) (w : World) (s : State)
    → (download_firmware_validate w s).0 ≡ ok
    → IsReady (download_firmware_validate w s).1.log × Quiet h s (download_firmware_validate w s).1
unfolding download_firmware_validate
validate-IsReady h w s e =
    let p = poll ddma_polling_count reg_mcufw_ctrl fw_ready_mask fw_ready w s in
    let bad : Rc × State = (read32 0x10fc >> pure (err einval)) w p.1 in
    let differs : bad.0 ≢ ok = λ q. cc in
    let v = verdict p.0 p.1 bad differs e in
    subst (λ (x : Rc × State). IsReady x.1.log × Quiet h s x.1) (sym v.1)
      (
        poll-IsReady ddma_polling_count w s v.0,
        poll-Quiet h ddma_polling_count reg_mcufw_ctrl fw_ready_mask fw_ready w s,
      )

transfers-Blind : (h : ℕ) → Blind (transfers h)
unfolding transfers
transfers-Blind h = record {
  arming = λ r g i t. refl;
  writing16 = λ a v t. refl;
  reading = λ v t. refl;
  writing8 = λ v t. refl;
  clearing = λ v t. refl;
  reading_h2c = λ v t. refl;
  writing_h2c = λ v t. refl;
}

pub transfers-trx_reset :
    (h : ℕ) (chip : TrxChip) (w : World) (s : State)
    → transfers h (trx_reset chip w s).1.log ≡ transfers h s.log
transfers-trx_reset h = trx_reset_lem (transfers h) (transfers-Blind h)
