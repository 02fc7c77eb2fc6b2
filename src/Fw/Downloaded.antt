-- ===== src/Fw/Downloaded.antt =====
-- download_firmware when it returns 0: what is in the memories of the card, and what the card reported.
use rtl8821ce_mac_os.Base.{ℕ, ◌+◌, ◌≤◌, ◌≡◌, refl, sym, ap, ◌∙◌, arith, subst}
use rtl8821ce_mac_os.Base.{
  Bool, true, false, if◌then◌else◌, ◌==◌, List, [], ◌++◌, length, take, drop,
}
use rtl8821ce_mac_os.Trx.{Log, World, State, D, ◌>>=◌, ◌>>◌, pure}
use rtl8821ce_mac_os.Trx.Init.{TrxChip}
use rtl8821ce_mac_os.Fw.{
  Rc, ok, after_rc, sections, fw_hdr_size, wlan_cpu_enable, download_firmware_reg_backup,
  restore_reg, download_firmware_reset_platform,
}
use rtl8821ce_mac_os.Fw.Card.{Transfer, transfers, Quiet, choice-Quiet, after_rc-ok}
use rtl8821ce_mac_os.Fw.Delivered.{to_mem-Delivered}
use rtl8821ce_mac_os.Fw.Dma.{download_firmware_to_mem}
use rtl8821ce_mac_os.Fw.Loads.{Loads, Delivered}
use rtl8821ce_mac_os.Fw.Run.{
  open_download, load_dmem, load_imem, load_emem, start_download_firmware,
  download_firmware_end_flow,
}

-- The copies since `s`, section by section, inside the image.
pub record InMemory (h : ℕ) (image : List ℕ) (s s' : State) : Type 0 where
  pub inside :
      fw_hdr_size
        + (sections image).dmem_size
        + (sections image).imem_size
        + (sections image).emem_size
      ≤ length image
  pub dmem : List Transfer
  pub imem : List Transfer
  pub emem : List Transfer
  pub copies_are : transfers h s'.log ≡ emem ++ (imem ++ (dmem ++ transfers h s.log))
  pub dmem_loads :
      Loads
        (sections image).dmem_addr
        (take (sections image).dmem_size (drop fw_hdr_size image))
        dmem
  pub imem_loads :
      Loads
        (sections image).imem_addr
        (take (sections image).imem_size (drop (fw_hdr_size + (sections image).dmem_size) image))
        imem
  pub emem_loads :
      Loads
        (sections image).emem_addr
        (take
          (sections image).emem_size
          (drop (fw_hdr_size + (sections image).dmem_size + (sections image).imem_size) image))
        emem

module _ (h : ℕ) (malloc : ℕ → Log → Bool) (chip : TrxChip) (image : List ℕ) where
  -- The third section, which may be missing.
  emem-Delivered :
      (b : Bool) (off dst size : ℕ) (w : World) (s : State) (load : D Rc)
      → size == 0 ≡ b
      → off ≤ length image
      → ((load w s).0 ≡ ok → Delivered h image off dst size s (load w s).1)
      → let r : Rc × State = if b then (ok, s) else load w s in
        r.0 ≡ ok → Delivered h image off dst size s r.1
  emem-Delivered true off dst size w s load z i f e =
      let none_left : 0 ≡ size = ground arith in
      subst (λ (n : ℕ). Delivered h image off dst n s s) none_left
        (record {
          pkt_same = refl;
          txbd_same = refl;
          inside = omega arith;
          copies = [];
          copies_are = refl;
          loads = refl;
        })
  emem-Delivered false off dst size w s load z i f e = f e

  open_download-Quiet : (w : World) (s : State) → Quiet h s (open_download w s).1
  unfolding transfers
  open_download-Quiet w s = record {
    pkt_same = refl;
    txbd_same = refl;
    packet_same = refl;
    copies_same = refl;
  }

  pub start-InMemory :
      (w : World) (s : State)
      → fw_hdr_size ≤ length image
      → chip.tx_pkt_desc_sz ≡ 48
      → s.trx.pkt.handle ≡ h
      → s.trx.txbd.handle == h ≡ false
      → (start_download_firmware malloc chip image w s).0 ≡ ok
      → InMemory h image s (start_download_firmware malloc chip image w s).1
  unfolding start_download_firmware
  start-InMemory w s i is p ne done =
      let c = sections image in
      let s0 = (open_download w s).1 in
      let q = open_download-Quiet w s in
      let r1 = load_dmem malloc chip image c w s0 in
      let r2 = load_imem malloc chip image c w r1.1 in
      let r3 = load_emem malloc chip image c w r2.1 in
      let a =
        after_rc-ok (after_rc r1 (load_imem malloc chip image c w))
          (load_emem malloc chip image c w) done in
      let b = after_rc-ok r1 (load_imem malloc chip image c w) a.0 in
      let d1 =
        to_mem-Delivered h malloc chip image fw_hdr_size c.dmem_addr c.dmem_size w s0 i is
          (q.pkt_same ∙ p) (ap (λ g. g == h) q.txbd_same ∙ ne) b.0 in
      let p1 = d1.pkt_same ∙ q.pkt_same ∙ p in
      let n1 = ap (λ g. g == h) (d1.txbd_same ∙ q.txbd_same) ∙ ne in
      let d2 =
        to_mem-Delivered h malloc chip image (fw_hdr_size + c.dmem_size) c.imem_addr c.imem_size w
          r1.1 d1.inside is p1 n1 b.1 in
      let third : (load_emem malloc chip image c w r2.1).0 ≡ ok =
        ap (λ (x : Rc × State). (load_emem malloc chip image c w x.1).0) (sym b.2) ∙ a.1 in
      let off = fw_hdr_size + c.dmem_size + c.imem_size in
      let d3 =
        emem-Delivered (c.emem_size == 0) off c.emem_addr c.emem_size w r2.1
          (download_firmware_to_mem malloc chip image off 0 c.emem_addr c.emem_size) refl d2.inside
          (to_mem-Delivered h malloc chip image off c.emem_addr c.emem_size w r2.1 d2.inside is
            (d2.pkt_same ∙ p1) (ap (λ g. g == h) d2.txbd_same ∙ n1))
          third in
      subst (λ (x : Rc × State). InMemory h image s x.1)
        (ap (λ (x : Rc × State). load_emem malloc chip image c w x.1) (sym b.2) ∙ sym a.2)
        (record {
          inside = d3.inside;
          dmem = d1.copies;
          imem = d2.copies;
          emem = d3.copies;
          copies_are =
              d3.copies_are
              ∙ ap (λ ts. d3.copies ++ ts)
                  (d2.copies_are
                    ∙ ap (λ ts. d2.copies ++ ts)
                        (d1.copies_are ∙ ap (λ ts. d1.copies ++ ts) q.copies_same));
          dmem_loads = d1.loads;
          imem_loads = d2.loads;
          emem_loads = d3.loads;
        })

module _ (h : ℕ) where
  -- The code around the download.
  pub before-Quiet :
      (w : World) (s : State)
      → Quiet h s
          ((wlan_cpu_enable false >> download_firmware_reg_backup >>= λ bckp.
              download_firmware_reset_platform >> pure bckp)
            w s).1
  unfolding wlan_cpu_enable download_firmware_reg_backup download_firmware_reset_platform transfers
  before-Quiet w s = record {
    pkt_same = refl;
    txbd_same = refl;
    packet_same = refl;
    copies_same = refl;
  }

  pub restore-Quiet :
      (w : World) (s t : State) → Quiet h t (restore_reg (download_firmware_reg_backup w s).0 w t).1
  unfolding restore_reg download_firmware_reg_backup transfers
  restore-Quiet w s t = record {
    pkt_same = refl;
    txbd_same = refl;
    packet_same = refl;
    copies_same = refl;
  }

  pub end_flow-Quiet : (w : World) (s : State) → Quiet h s (download_firmware_end_flow w s).1
  unfolding download_firmware_end_flow transfers
  end_flow-Quiet w s =
      choice-Quiet h _ s _ _
        (record { pkt_same = refl; txbd_same = refl; packet_same = refl; copies_same = refl })
        (record { pkt_same = refl; txbd_same = refl; packet_same = refl; copies_same = refl })

  pub cpu_on-Quiet : (w : World) (s : State) → Quiet h s (wlan_cpu_enable true w s).1
  unfolding wlan_cpu_enable transfers
  cpu_on-Quiet w s = record {
    pkt_same = refl;
    txbd_same = refl;
    packet_same = refl;
    copies_same = refl;
  }
