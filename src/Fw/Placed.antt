-- ===== src/Fw/Placed.antt =====
-- The image after a download that returns 0.
use rtl8821ce_mac_os.Base.{ℕ, ◌≤◌, ◌≡◌, refl, ap, ◌∙◌}
use rtl8821ce_mac_os.Base.{Bool, true, false, if◌then◌else◌, ◌==◌, List, ◌++◌, length}
use Prim.{Unit}
use rtl8821ce_mac_os.Trx.{Log, World, State, D, ◌>>=◌, ◌>>◌}
use rtl8821ce_mac_os.Trx.Init.{TrxChip}
use rtl8821ce_mac_os.Fw.{
  einval, Rc, ok, err, check_firmware_size, fw_hdr_size, wlan_cpu_enable,
  download_firmware_reg_backup, restore_reg, download_firmware_reset_platform,
}
use rtl8821ce_mac_os.Fw.Card.{transfers, Quiet}
use rtl8821ce_mac_os.Fw.Downloaded.{
  InMemory, start-InMemory, before-Quiet, restore-Quiet, end_flow-Quiet, cpu_on-Quiet,
}
use rtl8821ce_mac_os.Fw.Ready.{validate-IsReady, transfers-trx_reset}
use rtl8821ce_mac_os.Fw.Run.{
  Loaded, start_download_firmware, dlfw_fail, validated, started, download_firmware_end_flow,
  download_firmware_validate, download_firmware,
}

module _ (h : ℕ) where
  validated_copies :
      (chip : TrxChip) (running : Bool) (rc : Rc) (w : World) (s : State)
      → (validated chip running rc w s).0.ret ≡ ok
      → (rc ≡ ok) × (transfers h (validated chip running rc w s).1.log ≡ transfers h s.log)
  unfolding validated dlfw_fail
  validated_copies chip running ok w s e = (refl, transfers-trx_reset h chip w s)
  validated_copies chip running (err f) w s e = cc

  started_copies :
      (chip : TrxChip) (running : Bool) (rc : Rc) (restore : D (Unit {0})) (w : World) (s : State)
      → ((t : State) → Quiet h t (restore w t).1)
      → (started chip running rc restore w s).0.ret ≡ ok
      → (rc ≡ ok) × (transfers h (started chip running rc restore w s).1.log ≡ transfers h s.log)
  unfolding started dlfw_fail
  started_copies chip running (err f) restore w s q e = cc
  started_copies chip running ok restore w s q e =
      let a = (restore w s).1 in
      let b = (download_firmware_end_flow w a).1 in
      let c = (wlan_cpu_enable true w b).1 in
      let v = download_firmware_validate w c in
      let d = validated_copies chip running v.0 w v.1 e in
      (
        refl,
        d.1
            ∙ (validate-IsReady h w c d.0).1.copies_same
            ∙ (cpu_on-Quiet h w b).copies_same
            ∙ (end_flow-Quiet h w a).copies_same
            ∙ (q s).copies_same,
      )

  between :
      (image : List ℕ) (s t u v : State)
      → Quiet h s t
      → InMemory h image t u
      → transfers h v.log ≡ transfers h u.log
      → InMemory h image s v
  between image s t u v q m e = record {
    inside = m.inside;
    dmem = m.dmem;
    imem = m.imem;
    emem = m.emem;
    copies_are = e ∙ m.copies_are ∙ ap (λ ts. m.emem ++ (m.imem ++ (m.dmem ++ ts))) q.copies_same;
    dmem_loads = m.dmem_loads;
    imem_loads = m.imem_loads;
    emem_loads = m.emem_loads;
  }

  checked-InMemory :
      (b : Bool) (malloc : ℕ → Log → Bool) (chip : TrxChip) (image : List ℕ) (running : Bool)
      (w : World) (s : State)
      → fw_hdr_size ≤ length image
      → chip.tx_pkt_desc_sz ≡ 48
      → s.trx.pkt.handle ≡ h
      → s.trx.txbd.handle == h ≡ false
      → let r : Loaded × State =
          if b
          then (wlan_cpu_enable false >> download_firmware_reg_backup >>= λ bckp.
                download_firmware_reset_platform
                >> start_download_firmware malloc chip image
                >>= λ ret. started chip running ret (restore_reg bckp))
              w s
          else (record { ret = err einval; running = running }, s) in
        r.0.ret ≡ ok → InMemory h image s r.1
  checked-InMemory false malloc chip image running w s i is p ne e = cc
  checked-InMemory true malloc chip image running w s i is p ne e =
      let off = (wlan_cpu_enable false w s).1 in
      let saved = download_firmware_reg_backup w off in
      let t = (download_firmware_reset_platform w saved.1).1 in
      let load = start_download_firmware malloc chip image w t in
      let q = before-Quiet h w s in
      let c =
        started_copies chip running load.0 (restore_reg saved.0) w load.1
          (λ u. restore-Quiet h w off u) e in
      between image s t load.1 (started chip running load.0 (restore_reg saved.0) w load.1).1 q
        (start-InMemory h malloc chip image w t i is (q.pkt_same ∙ p)
          (ap (λ g. g == h) q.txbd_same ∙ ne) c.0)
        c.1

-- A download of an image that has its header, with a descriptor of 48 bytes and the descriptors and
-- the packet in two buffers: when it returns 0 the card has been told to copy, and nothing else, the
-- DMEM section, the IMEM section and the EMEM section if the header has one, each whole and in
-- order to the address in the header, in parts of at most 4096 bytes of which all but the first
-- carry the checksum on; each part stood in the packet buffer when its copy started; and all
-- sections lie inside the image.
pub download_firmware-InMemory :
    (malloc : ℕ → Log → Bool) (chip : TrxChip) (image : List ℕ) (size : ℕ) (running : Bool)
    (w : World) (s : State)
    → fw_hdr_size ≤ length image
    → chip.tx_pkt_desc_sz ≡ 48
    → s.trx.txbd.handle == s.trx.pkt.handle ≡ false
    → (download_firmware malloc chip image size running w s).0.ret ≡ ok
    → InMemory s.trx.pkt.handle image s (download_firmware malloc chip image size running w s).1
unfolding download_firmware
download_firmware-InMemory malloc chip image size running w s i is ne =
    checked-InMemory s.trx.pkt.handle (check_firmware_size image size) malloc chip image running w s
      i is refl ne
