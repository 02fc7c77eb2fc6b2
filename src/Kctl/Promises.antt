-- ===== src/Kctl/Promises.antt =====
-- What server/kctl.c promises in every state that requests lead to.
use rtl8821ce_mac_os.Base.{ℕ, ◌≡◌, refl, sym, ap, ap₂, ◌∙◌}
use Prim.{tt}
use rtl8821ce_mac_os.Base.{Bool, true, false, if◌then◌else◌, ◌&&◌, ltb, some}
use rtl8821ce_mac_os.Base.{List, [], ◌∷◌, ◌++◌}
use rtl8821ce_mac_os.Kctl.{
  did, World, Server, call, modify, pure, ◌>>◌, stop_data, free_trx, send_mgmt, sleep_us,
}
use rtl8821ce_mac_os.Kctl.Ops.{
  rtw_kctl_disconnect, say_goodbye, deauth, disconnected, Status, status_of_control,
  rtw_kctl_status,
}
use rtl8821ce_mac_os.Kctl.Calls.{Link, link, armed}
use rtl8821ce_mac_os.Kctl.Runs.{Reach, Reach-Inv}
use rtl8821ce_mac_os.Kctl.Steps.{not_both}

abbrev link_to : List ℕ → List ℕ → Link
link_to m b = record { mac = m; bssid = b }

-- The frame of a deauthentication on a link, reason 3.
abbrev farewell : Link → List ℕ
farewell k = (192 ∷ 0 ∷ 0 ∷ 0 ∷ []) ++ (k.bssid ++ (k.mac ++ (k.bssid ++ (0 ∷ 0 ∷ 3 ∷ 0 ∷ []))))

-- The calls of a disconnect.
pub data Left (w : World) (s s' : Server) : Type 0 where
  told :
      (k : Link) (rate a b c d : ℕ)
      → s.control.g_cur_connected && w.mapped ≡ true
      → link s.log ≡ some k
      → armed s.log ≡ true
      → s'.log
        ≡ did free_trx d
          ∷ did stop_data c
          ∷ did (sleep_us 20000) b
          ∷ did (send_mgmt (farewell k) rate) a
          ∷ s.log
      → Left w s s'
  silent :
      (c d : ℕ)
      → s.control.g_cur_connected && w.mapped ≡ false
      → s'.log ≡ did free_trx d ∷ did stop_data c ∷ s.log
      → Left w s s'

-- The goodbye, at its test.
goodbye : (b : Bool) → World → Server → Server
goodbye b w s =
    (if b
      then (call
              (send_mgmt (deauth s.control) (if ltb 14 s.control.g_cur_channel then 0x04 else 0x00))
            >> call (sleep_us 20000)
            >> pure tt)
          w s
      else (tt, s)).1

parted : World → Server → Server
parted w s = ((call stop_data >> call free_trx >> modify disconnected) w s).1

left_lem :
    (a b : Bool) (w : World) (s : Server)
    → s.control.g_cur_connected && w.mapped ≡ a && b
    → (a ≡ true
        → (link s.log ≡ some (link_to s.control.g_cur_mac s.control.g_cur_bssid))
          × (armed s.log ≡ true))
    → Left w s (parted w (goodbye (a && b) w s))
unfolding goodbye parted deauth
left_lem true true w s e h =
    told (link_to s.control.g_cur_mac s.control.g_cur_bssid) _ _ _ _ _ e (h refl).0 (h refl).1 refl
left_lem true false w s e h = silent _ _ e refl
left_lem false b w s e h = silent _ _ e refl

-- rtw_kctl_disconnect in every state that requests under the rules of IsPolite lead to. If the
-- statics report a connection and the registers are mapped, a data path is up, its AP gets a
-- deauthentication from the address of the link over armed rings, and only then is the data path
-- stopped and DMA halted; else the two are all that is done.
pub rtw_kctl_disconnect-Left :
    (w : World) (s : Server) → Reach w s → Left w s (rtw_kctl_disconnect w s).1
unfolding rtw_kctl_disconnect say_goodbye goodbye parted
rtw_kctl_disconnect-Left w s r =
    left_lem s.control.g_cur_connected w.mapped w s refl (Reach-Inv r).when_connected

chosen :
    (b : Bool) (x y : Status)
    → y.connected ≡ false
    → (if b then x else y).connected ≡ true
    → (b ≡ true) × ((if b then x else y) ≡ x)
chosen true x y e h = (refl, refl)
chosen false x y e h = not_both y.connected e h

-- What status reports of a connection is what the statics hold.
reported :
    (s : Server)
    → (status_of_control s.control).connected ≡ true
    → (s.control.g_cur_connected ≡ true)
      × ((status_of_control s.control).mac ≡ s.control.g_cur_mac)
      × ((status_of_control s.control).bssid ≡ s.control.g_cur_bssid)
unfolding status_of_control
reported s h =
    let c = chosen s.control.g_cur_connected _ _ refl h in
    (c.0, ap (λ (r : Status). r.mac) c.1, ap (λ (r : Status). r.bssid) c.1)

-- In every state that requests under the rules of IsPolite lead to, a status that reports a
-- connection is true: the data path is up, it serves the MAC address and the BSSID that the status
-- names, and trx_init has returned 0 since DMA was last halted.
pub rtw_kctl_status-IsTrue :
    (w : World) (s : Server)
    → Reach w s
    → (rtw_kctl_status w s).0.connected ≡ true
    → (link s.log
        ≡ some
            (record { mac = (rtw_kctl_status w s).0.mac; bssid = (rtw_kctl_status w s).0.bssid }))
      × (armed s.log ≡ true)
unfolding rtw_kctl_status
rtw_kctl_status-IsTrue w s r h =
    let e = reported s h in
    let v = (Reach-Inv r).when_connected e.0 in
    (v.0 ∙ ap₂ (λ (m : List ℕ) (b : List ℕ). some (link_to m b)) (sym e.1) (sym e.2), v.1)
