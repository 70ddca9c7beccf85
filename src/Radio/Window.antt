-- ===== src/Radio/Window.antt =====
-- The transmit window of firmware/main/radio.c across radio_configure, as the count of free slots.
use esp_now_harness.Common.{
  ℕ, zero, suc, ◌+◌, ◌-◌, ◌≤◌, ◌≡◌, refl, ap, sym, ◌∙◌, inl, inr, Bool, true, List, Option, none,
  some, arith, leb, ltb, if◌then◌else◌, Bool-cases,
}
use esp_now_harness.Harness.{Config}
use esp_now_harness.Runtime.{EspErr, esp_ok, Node, System, M, Platform, pure}
use esp_now_harness.Radio.{
  RateConfig, make_rate_config, and_then, give_slots, take_slots, radio_wait_idle,
}
use esp_now_harness.Radio.Configure.{
  Peer, Driver, try_call, drain_slots, remove_found, remove_peers, set_rate, config_peer,
  apply_settings, reconfigure, drain_and_reconfigure, radio_configure,
}

-- A call that leaves the free slots and the globals.
unfoldable pub Keeps : {W A : Type 0} → (W → ℕ) → M W A → Type 0
Keeps free m = (s : _) → (free (m s).1.world ≡ free s.world) × ((m s).1.node ≡ s.node)

-- While no other task and no callback uses the radio: the semaphore counts, up to the maximum that it
-- is created with, and the driver's calls leave it and the globals.
pub record Exclusive {W : Type 0} (p : Platform W) (d : Driver W) : Type 0 where
  pub free : W → ℕ
  pub take_free :
      (ms : ℕ) (s : System W)
      → ((p.semaphore_take ms s).0 ≡ ltb 0 (free s.world))
        × (free (p.semaphore_take ms s).1.world ≡ free s.world - 1)
        × ((p.semaphore_take ms s).1.node ≡ s.node)
  pub give_free :
      (s : System W)
      → (free (p.semaphore_give s).1.world
          ≡ (if ltb (free s.world) 32 then free s.world + 1 else free s.world))
        × ((p.semaphore_give s).1.node ≡ s.node)
  pub fetch_peer_keeps : Keeps free d.fetch_peer
  pub del_peer_keeps : (mac : List ℕ) → Keeps free (d.del_peer mac)
  pub country_keeps : (code : List ℕ) → Keeps free (d.set_country_code code)
  pub band_keeps : (band : Bool) → Keeps free (d.set_band_mode band)
  pub channel_keeps : (channel : ℕ) → Keeps free (d.set_channel channel)
  pub power_keeps : (power : ℕ) → Keeps free (d.set_max_tx_power power)
  pub ps_keeps : (ps : Bool) → Keeps free (d.set_ps ps)
  pub pmk_keeps : (key : List ℕ) → Keeps free (d.set_pmk key)
  pub add_peer_keeps : (peer : Peer) → Keeps free (d.add_peer peer)
  pub rate_keeps : (mac : List ℕ) (rate : RateConfig) → Keeps free (d.set_peer_rate_config mac rate)

and_then-Keeps :
    {W : Type 0} (free : W → ℕ) (e : EspErr) (next : M W EspErr)
    → Keeps free next
    → Keeps free (and_then e next)
unfolding Keeps
and_then-Keeps free esp_ok next h s = h s
and_then-Keeps free _ next h s = (refl, refl)

module _ {W : Type 0} (p : Platform W) (d : Driver W) (x : Exclusive p d) where
  open x use {free}

  try_call-Keeps :
      (call next : M W EspErr) → Keeps free call → Keeps free next → Keeps free (try_call call next)
  unfolding Keeps
  try_call-Keeps call next h k s =
      let (e, t) = call s in
      let (f, n) = and_then-Keeps free e next k t in (f ∙ (h s).0, n ∙ (h s).1)

  -- The first loop of radio_configure takes the whole window exactly when that many slots are free.
  -- Where fewer are, it fails with every free slot taken and gives none of them back: the window has
  -- shrunk by them. No other task is to use the radio meanwhile.
  pub drain_slots-free :
      (n : ℕ) (s : System W)
      → let (drained, t) = drain_slots p d n s in
        (drained ≡ leb n (free s.world)) × (free t.world ≡ free s.world - n) × (t.node ≡ s.node)
  unfolding drain_slots
  drain_slots-free zero s = ground arith
  drain_slots-free (suc n) s =
      let t = (p.semaphore_take 0 s).1 in ground (arith, x.take_free 0 s, drain_slots-free n t)

  give_slots-free :
      (n : ℕ) (s : System W)
      → free s.world + n ≤ 32
      → let t = (give_slots p n s).1 in (free t.world ≡ free s.world + n) × (t.node ≡ s.node)
  unfolding give_slots
  give_slots-free zero s h = ground arith
  give_slots-free (suc n) s h =
      let t = (p.semaphore_give s).1 in ground (arith, x.give_free s, give_slots-free n t)

  take_slots-free :
      (ms todo acquired : ℕ) (s : System W)
      → todo ≤ free s.world
      → free s.world + acquired ≤ 32
      → let (e, t) = take_slots p ms todo acquired s in
        (e ≡ esp_ok) × (free t.world ≡ free s.world + acquired) × (t.node ≡ s.node)
  unfolding take_slots
  take_slots-free ms zero acquired s h k = ground (arith, give_slots-free acquired s)
  take_slots-free ms (suc todo) acquired s h k =
      let t = (p.semaphore_take ms s).1 in
      ground (arith, x.take_free ms s, take_slots-free ms todo (suc acquired) t)

  wait_idle-free :
      (ms : ℕ) (s : System W)
      → s.node.current_tx_window ≤ free s.world
      → free s.world ≤ 32
      → let (e, t) = radio_wait_idle p ms s in
        (e ≡ esp_ok) × (free t.world ≡ free s.world) × (t.node ≡ s.node)
  unfolding radio_wait_idle
  wait_idle-free ms s h k = ground (arith, take_slots-free ms s.node.current_tx_window zero s)

  remove_found-Keeps :
      (found : Option Peer) (more : M W (Unit {0}))
      → Keeps free more
      → Keeps free (remove_found p d found more)
  unfolding Keeps remove_found
  remove_found-Keeps none more h s = (refl, refl)
  remove_found-Keeps (some peer) more h s =
      let t = (d.del_peer peer.peer_addr s).1 in
      let k = x.del_peer_keeps peer.peer_addr s in ((h t).0 ∙ k.0, (h t).1 ∙ k.1)

  remove_peers-Keeps : (fuel : ℕ) → Keeps free (remove_peers p d fuel)
  unfolding Keeps remove_peers
  remove_peers-Keeps zero s = (refl, refl)
  remove_peers-Keeps (suc fuel) s =
      let (found, t) = d.fetch_peer s in
      let k = x.fetch_peer_keeps s in
      let h = remove_found-Keeps found _ (remove_peers-Keeps fuel) t in (h.0 ∙ k.0, h.1 ∙ k.1)

  set_rate-Keeps : (mac : List ℕ) (rate : Option RateConfig) → Keeps free (set_rate p d mac rate)
  unfolding Keeps set_rate
  set_rate-Keeps mac none s = (refl, refl)
  set_rate-Keeps mac (some rate) s = x.rate_keeps mac rate s

  pmk-Keeps :
      (config : Config)
      → Keeps free (if config.encryption then d.set_pmk config.key else pure esp_ok)
  unfolding Keeps
  pmk-Keeps config s = elim (Bool-cases config.encryption) [
    | inl e ↦ rw e (x.pmk_keeps config.key s)
    | inr e ↦ rw e (refl, refl)
  ]

  settings-Keeps : (config : Config) → Keeps free (apply_settings p d config)
  unfolding apply_settings
  settings-Keeps config = try_call-Keeps _ _ (x.country_keeps config.country) (
      try_call-Keeps _ _ (x.band_keeps config.band_5ghz) (
        try_call-Keeps _ _ (x.channel_keeps config.channel) (
          try_call-Keeps _ _ (x.power_keeps config.tx_power_qdbm) (
            try_call-Keeps _ _ (x.ps_keeps config.power_save) (
              try_call-Keeps _ _ (pmk-Keeps config) (
                try_call-Keeps _ _ (x.add_peer_keeps (config_peer p d config))
                  (set_rate-Keeps config.peer_mac (make_rate_config config))))))))

  reconfigure-free :
      (fuel : ℕ) (config : Config) (s : System W)
      → free s.world + config.tx_window ≤ 32
      → let t = (reconfigure p d fuel config s).1 in
        (free t.world ≡ free s.world + config.tx_window)
        × (t.node ≡ record s.node { current_tx_window = config.tx_window })
  unfolding Keeps reconfigure
  reconfigure-free fuel config s h =
      let n = s.node in
      let u : System W = record s { node = record n { current_tx_window = config.tx_window } } in
      let (given, same) = give_slots-free config.tx_window u h in
      let v = (give_slots p config.tx_window u).1 in
      let (removed, same') = remove_peers-Keeps fuel v in
      let w = (remove_peers p d fuel v).1 in
      let (set, same'') = settings-Keeps config w in (set ∙ removed ∙ given, same'' ∙ same' ∙ same)

  drained-free :
      (fuel : ℕ) (config : Config) (s : System W)
      → free s.world ≡ s.node.current_tx_window
      → config.tx_window ≤ 32
      → let t = (drain_and_reconfigure p d fuel config s).1 in
        (free t.world ≡ config.tx_window)
        × (t.node ≡ record s.node { current_tx_window = config.tx_window })
  unfolding drain_and_reconfigure
  drained-free fuel config s h k =
      let n = s.node in
      let (drained, t) = drain_slots p d n.current_tx_window s in
      let (all, empty, same) = drain_slots-free n.current_tx_window s in
      let (given, node) = reconfigure-free fuel config t (omega (arith, empty)) in
      let done : drained ≡ true = ground (arith, all) in
      let to : Node → Node = λ m. record m { current_tx_window = config.tx_window } in
      rw done (omega (arith, given, empty), node ∙ ap to same)

  -- radio_configure at an idle radio, whose free slots are the whole window, while no other task and
  -- no callback uses it: whatever the driver's calls return, and for any peers, afterwards the free
  -- slots and current_tx_window are the window of the configuration, if it is at most 32, and the
  -- other globals are as before.
  pub radio_configure-free :
      (fuel : ℕ) (s : System W)
      → free s.world ≡ s.node.current_tx_window
      → s.node.current_tx_window ≤ 32
      → s.node.config.tx_window ≤ 32
      → let t = (radio_configure p d fuel s).1 in
        (free t.world ≡ s.node.config.tx_window)
        × (t.node ≡ record s.node { current_tx_window = s.node.config.tx_window })
  unfolding radio_configure
  radio_configure-free fuel s h k l =
      let c = s.node.config in
      let (fine, same, node) = wait_idle-free 1000 s (omega arith) (omega arith) in
      let t = (radio_wait_idle p 1000 s).1 in
      let window = ap (λ (m : Node). m.current_tx_window) node in
      let (full, final) = drained-free fuel c t (same ∙ h ∙ sym window) l in
      let to : Node → Node = λ m. record m { current_tx_window = c.tx_window } in
      rw fine (full, final ∙ ap to node)
