-- ===== src/Tests/Keys.antt =====
-- The CAM after two keys.
use rtl8821ce_mac_os.Base.{refl, arith, [], replicate}
use rtl8821ce_mac_os.Base.Bytes.{are_bytes, are_bytes→AreBytes}
use rtl8821ce_mac_os.Hw.{Device}
use rtl8821ce_mac_os.Sec.{install_keys}
use rtl8821ce_mac_os.Sec.Cam.{Installed, install_keys-Installed}

abbrev card : Device
card t width address = 0

install_keys-Installed_example :
    Installed
      (install_keys (replicate 6 7) (replicate 16 1) 2 (replicate 32 3) card []).1
      (replicate 6 7)
      (replicate 16 1)
      2
      (replicate 32 3)
unfolding are_bytes
install_keys-Installed_example =
    install_keys-Installed card [] (replicate 6 7) (replicate 16 1) (replicate 32 3) 2 refl
      (are_bytes→AreBytes (replicate 6 7) refl) (omega arith)
      (are_bytes→AreBytes (replicate 16 1) refl) (omega arith)
      (are_bytes→AreBytes (replicate 32 3) refl)
