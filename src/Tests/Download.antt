-- ===== src/Tests/Download.antt =====
-- A firmware download of a small image over a card that answers.
use rtl8821ce_mac_os.Base.{
  ℕ, ◌+◌, ◌^◌, ◌<◌, ◌≡◌, refl, arith, Bool, true, false, if◌then◌else◌, ◌==◌, none, List, [], ◌∷◌,
  ◌++◌, length, replicate,
}
use rtl8821ce_mac_os.Fw.{einval, enomem, ok, err, fw_hdr_size, sections}
use rtl8821ce_mac_os.Fw.Bounds.{download_firmware-IsHonest}
use rtl8821ce_mac_os.Fw.Honest.{IsHonest}
use rtl8821ce_mac_os.Fw.Fate.{Fate, download_firmware-Fate}
use rtl8821ce_mac_os.Fw.Downloaded.{InMemory}
use rtl8821ce_mac_os.Fw.Placed.{download_firmware-InMemory}
use rtl8821ce_mac_os.Fw.Run.{download_firmware}
use rtl8821ce_mac_os.Trx.{Log, World, State}
use rtl8821ce_mac_os.Trx.Init.{TrxChip}
use rtl8821ce_mac_os.Trx.Runs.{boot_trx}

abbrev chip : TrxChip
chip = record { tx_buf_desc_sz = 16; rx_buf_desc_sz = 8; tx_pkt_desc_sz = 48; wcpu_3081 = true }

-- The free TX buffer, the valid beacon page and the running firmware.
abbrev answers : World
answers = record {
  dma = λ n t. none;
  read = λ width a t. if a == 0x204 then 2 ^ 15 else if a == 0x80 then 0xc078 else 0;
}

abbrev ready : State
ready = record {
  trx = record boot_trx {
    txbd = record { handle = 1; paddr = 0x10000; vaddr = true };
    pkt = record { handle = 2; paddr = 0x20000; vaddr = true };
    pkt_size = 0x2000;
  };
  log = [];
}

-- DMEM: 12 bytes for 0x00200000; IMEM: 8 bytes for 0.
abbrev image : List ℕ
image =
    replicate 32 0
    ++ (0 ∷ 0 ∷ 0x20 ∷ 0 ∷ 4 ∷ [])
    ++ replicate 27 0
    ++ (1 ∷ 2 ∷ 3 ∷ 4 ∷ 5 ∷ 6 ∷ 7 ∷ 8 ∷ 9 ∷ 10 ∷ 11 ∷ 12 ∷ [])
    ++ replicate 8 0x77

abbrev has_memory : ℕ → Log → Bool
has_memory n t = true

loads :
    (download_firmware has_memory chip image 84 false answers ready).0
    ≡ record { ret = ok; running = true }
unfolding download_firmware
loads = refl

no_memory :
    (download_firmware (λ n t. false) chip image 84 false answers ready).0
    ≡ record { ret = err enomem; running = false }
unfolding download_firmware
no_memory = refl

wrong_size :
    (download_firmware has_memory chip image 85 true answers ready).0
    ≡ record { ret = err einval; running = true }
unfolding download_firmware
wrong_size = refl

loads_ret : (download_firmware has_memory chip image 84 false answers ready).0.ret ≡ ok
unfolding download_firmware
loads_ret = refl

download_firmware-InMemory_example :
    InMemory 2 image ready (download_firmware has_memory chip image 84 false answers ready).1
download_firmware-InMemory_example =
    download_firmware-InMemory has_memory chip image 84 false answers ready (omega arith) refl refl
      loads_ret

download_firmware-Fate_example :
    Fate image 84 false ready (download_firmware has_memory chip image 84 false answers ready)
download_firmware-Fate_example = download_firmware-Fate has_memory chip image 84 false answers ready

short :
    fw_hdr_size
      + (sections image).dmem_size
      + (sections image).imem_size
      + (sections image).emem_size
    < 2 ^ 32
unfolding sections
short = omega arith

download_firmware-IsHonest_example :
    (sections (image ++ (7 ∷ 9 ∷ [])) ≡ sections image)
    × IsHonest (download_firmware has_memory chip image (length image) false answers ready).0.ret
download_firmware-IsHonest_example =
    download_firmware-IsHonest has_memory chip image (7 ∷ 9 ∷ []) false answers ready (omega arith)
      short
