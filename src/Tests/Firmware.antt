-- ===== src/Tests/Firmware.antt =====
-- The packets of the firmware's start.
use rtl8821ce_mac_os.Base.{◌≡◌, refl, [], ◌∷◌, take}
use rtl8821ce_mac_os.H2c.{general_info, phydm_info}

general_words : take 3 (general_info 0x34) ≡ 0x000dff01 ∷ 12 ∷ 0x00340000 ∷ []
unfolding general_info
general_words = refl

phydm_words : take 3 (phydm_info 2 1) ≡ 0x0011ff01 ∷ 0x00010010 ∷ 0x11010402 ∷ []
unfolding phydm_info
phydm_words = refl
