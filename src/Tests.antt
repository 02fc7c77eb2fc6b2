-- ===== src/Tests.antt =====
-- Runs at concrete inputs, with small stand-ins for the primitives and the card.
mod Aes
mod Server
mod Rings
mod Keys
mod Phy
mod Firmware
mod Radio
mod Download
pub mod Wifi
pub mod Driver
use rtl8821ce_mac_os.Base.{
  ℕ, zero, suc, ◌+◌, ◌*◌, ◌/◌, ◌%◌, ◌^◌, ◌≤◌, ◌<◌, ◌≡◌, ◌≢◌, ◌↔◌, refl, arith,
}
use rtl8821ce_mac_os.Base.{Bool, true, false, Option, none, some}
use rtl8821ce_mac_os.Base.{List, [], ◌∷◌, ◌++◌, length, replicate, take, drop}
use Prim.{Unit, tt}
use rtl8821ce_mac_os.Hw.{Trace, Device}
use rtl8821ce_mac_os.Efuse.Decode.{Sizes, dump_logical_efuse_map}
use rtl8821ce_mac_os.Efuse.Decode.Safe.{Fit, DecodeStays, dump_logical_efuse_map-safe}
use rtl8821ce_mac_os.Efuse.Dump.{Dumped, dump_physical_efuse_map, dump_physical_efuse_map-Dumped}
use rtl8821ce_mac_os.Efuse.Fields.{efuse_read, IsSound, ReadStays, efuse_read-ReadStays}
use rtl8821ce_mac_os.Crypto.Sha1.{sha1_block, sha1_init, sha1_update, sha1_final}
use rtl8821ce_mac_os.Crypto.Sha1.Absorb.{feed, sha1_update-append, sha1_update-feed}
use rtl8821ce_mac_os.Crypto.Sha1.Blocks.{fips_sha1, sha1_final-fips_sha1}
use rtl8821ce_mac_os.Crypto.Hmac.{rtw_hmac_sha1, hmac_sha1, rtw_hmac_sha1-hmac_sha1}
use rtl8821ce_mac_os.Crypto.Pbkdf2.{rtw_pbkdf2_sha1, pbkdf2_sha1, rtw_pbkdf2_sha1-pbkdf2_sha1}

abbrev card : Device
card t width address = 0

abbrev sizes : Sizes
sizes = record { physical = 8; logical = 8; protected = 1 }

-- Block 0 with its first word, then the end.
abbrev physical_map : List ℕ
physical_map = 0x0e ∷ 1 ∷ 2 ∷ 0xff ∷ 0xff ∷ 0xff ∷ 0xff ∷ 0xff ∷ []

dump_logical_efuse_map-safe_example :
    DecodeStays sizes (dump_logical_efuse_map sizes physical_map (replicate 8 0xff))
dump_logical_efuse_map-safe_example =
    dump_logical_efuse_map-safe sizes physical_map (replicate 8 0xff) (record {
      physical = refl;
      logical = refl;
      some_protected = omega arith;
      protected_fits = omega arith;
      whole_words = refl;
      small = omega arith;
    })

dump_physical_efuse_map-Dumped_example : Dumped 4 (dump_physical_efuse_map 4 card [])
dump_physical_efuse_map-Dumped_example = dump_physical_efuse_map-Dumped 4 card []

abbrev chip_sizes : Sizes
chip_sizes = record { physical = 512; logical = 512; protected = 96 }

efuse_read-ReadStays_example : ReadStays (efuse_read chip_sizes true true card []).0
efuse_read-ReadStays_example = efuse_read-ReadStays chip_sizes true true card [] (record {
  fields_fit = omega arith;
  whole_words = refl;
  some_protected = omega arith;
  protected_fits = omega arith;
  small = omega arith;
})

abbrev stack : List ℕ
stack = replicate 64 0xaa

-- "abc".
abbrev abc : List ℕ
abc = 97 ∷ 98 ∷ 99 ∷ []

sha1_final-fips_sha1_example : sha1_final (sha1_update (sha1_init stack) abc) ≡ fips_sha1 abc
sha1_final-fips_sha1_example = sha1_final-fips_sha1 stack abc refl

rtw_hmac_sha1-hmac_sha1_example : rtw_hmac_sha1 stack abc abc ≡ hmac_sha1 abc abc
rtw_hmac_sha1-hmac_sha1_example = rtw_hmac_sha1-hmac_sha1 stack abc abc refl

rtw_pbkdf2_sha1-pbkdf2_sha1_example : rtw_pbkdf2_sha1 stack abc abc 2 32 ≡ pbkdf2_sha1 abc abc 2 32
rtw_pbkdf2_sha1-pbkdf2_sha1_example =
    rtw_pbkdf2_sha1-pbkdf2_sha1 stack abc abc 2 32 refl (omega arith) (omega arith)

digest_of_abc :
    sha1_final (sha1_update (sha1_init stack) abc)
    ≡ 0xa9 ∷ 0x99 ∷ 0x3e ∷ 0x36 ∷ 0x47 ∷ 0x06 ∷ 0x81 ∷ 0x6a ∷ 0xba ∷ 0x3e ∷ 0x25 ∷ 0x71 ∷ 0x78
      ∷ 0x50 ∷ 0xc2 ∷ 0x6c ∷ 0x9c ∷ 0xd0 ∷ 0xd8 ∷ 0x9d ∷ []
unfolding sha1_final sha1_update sha1_block
digest_of_abc = refl
