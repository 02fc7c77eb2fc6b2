-- ===== src/Pwr/Power/Flag.antt =====
-- RTW_FLAG_POWERON against the results of the power functions.
use rtl8821ce_mac_os.Base.{◌≡◌, Bool, true, false}
use rtl8821ce_mac_os.Pwr.Seq.{Errno, ealready, ok, err}
use rtl8821ce_mac_os.Pwr.Power.{Switched}

-- A power-on from `flag`: the flag is set where it succeeds, and where it fails the flag is set
-- only if it was.
pub record IsOnFrom (flag : Bool) (s : Switched) : Type 0 where
  pub set : s.ret ≡ ok → s.flag ≡ true
  pub kept : (e : Errno) → s.ret ≡ err e → s.flag ≡ true → flag ≡ true

-- A power-off from `flag`: refused with -EALREADY, which leaves the flag as it was, or the flag is
-- clear, whether or not the sequence ended well.
pub data IsOffFrom (flag : Bool) (s : Switched) : Type 0 where
  already : s.ret ≡ err ealready → s.flag ≡ flag → IsOffFrom flag s
  cleared : s.flag ≡ false → IsOffFrom flag s
