-- ===== src/Radio/Reconfigure.antt =====
-- radio_configure of firmware/main/radio.c moves the globals, its window aside, only as the calls of
-- the system and of the driver do.
use esp_now_harness.Common.{ℕ, zero, suc, Bool, true, false, List, Option, none, some}
use esp_now_harness.Harness.{Config}
use esp_now_harness.Runtime.{
  EspErr, esp_ok, esp_err_invalid_state, M, System, Platform, set_tx_window,
}
use esp_now_harness.Runtime.Frame.{
  Within, Frame, CallsWithin, Within-pure, Within-bind, Within-if, Within-get_node,
}
use esp_now_harness.Radio.{RateConfig, make_rate_config, and_then}
use esp_now_harness.Radio.Within.{give_slots-Within, radio_wait_idle-Within}
use esp_now_harness.Radio.Configure.{
  Peer, Driver, try_call, drain_slots, remove_found, remove_peers, set_rate, config_peer,
  apply_settings, reconfigure, drain_and_reconfigure, radio_configure,
}

-- The driver's calls, with what the other tasks do meanwhile.
pub record DriverWithin {W : Type 0} (R : System W → System W → Type 0) (d : Driver W)
    : Type 0 where
  pub fetch_peer_within : Within R d.fetch_peer
  pub del_peer_within : (mac : List ℕ) → Within R (d.del_peer mac)
  pub country_within : (code : List ℕ) → Within R (d.set_country_code code)
  pub band_within : (band : Bool) → Within R (d.set_band_mode band)
  pub channel_within : (channel : ℕ) → Within R (d.set_channel channel)
  pub power_within : (power : ℕ) → Within R (d.set_max_tx_power power)
  pub ps_within : (ps : Bool) → Within R (d.set_ps ps)
  pub pmk_within : (key : List ℕ) → Within R (d.set_pmk key)
  pub add_peer_within : (peer : Peer) → Within R (d.add_peer peer)
  pub rate_within : (mac : List ℕ) (rate : RateConfig) → Within R (d.set_peer_rate_config mac rate)

module _ {W : Type 0} {R : System W → System W → Type 0} (fr : Frame R) (p : Platform W)
    (cw : CallsWithin R p) (d : Driver W) (dw : DriverWithin R d)
    (window_within : (n : ℕ) → Within R (set_tx_window n)) where
  and_then-Within : (e : EspErr) (next : M W EspErr) → Within R next → Within R (and_then e next)
  and_then-Within esp_ok next h = h
  and_then-Within e next h = Within-pure fr e

  try_call-Within :
      (call next : M W EspErr) → Within R call → Within R next → Within R (try_call call next)
  try_call-Within call next h k = Within-bind fr call _ h λ e. and_then-Within e next k

  drain_slots-Within : (n : ℕ) → Within R (drain_slots p d n)
  unfolding drain_slots
  drain_slots-Within zero = Within-pure fr true
  drain_slots-Within (suc n) =
      Within-bind fr _ _ (cw.take_within zero)
        λ taken. Within-if fr taken _ _ (drain_slots-Within n) (Within-pure fr false)

  remove_found-Within :
      (existing : Option Peer) (more : M W (Unit {0}))
      → Within R more
      → Within R (remove_found p d existing more)
  unfolding remove_found
  remove_found-Within none more h = Within-pure fr tt
  remove_found-Within (some peer) more h =
      Within-bind fr _ _ (dw.del_peer_within peer.peer_addr) λ _. h

  remove_peers-Within : (fuel : ℕ) → Within R (remove_peers p d fuel)
  unfolding remove_peers
  remove_peers-Within zero = Within-pure fr tt
  remove_peers-Within (suc fuel) =
      Within-bind fr _ _ dw.fetch_peer_within
        λ existing. remove_found-Within existing _ (remove_peers-Within fuel)

  set_rate-Within : (mac : List ℕ) (rate : Option RateConfig) → Within R (set_rate p d mac rate)
  unfolding set_rate
  set_rate-Within mac none = Within-pure fr _
  set_rate-Within mac (some rate) = dw.rate_within mac rate

  apply_settings-Within : (config : Config) → Within R (apply_settings p d config)
  unfolding apply_settings
  apply_settings-Within config = try_call-Within _ _ (dw.country_within config.country) (
      try_call-Within _ _ (dw.band_within config.band_5ghz) (
        try_call-Within _ _ (dw.channel_within config.channel) (
          try_call-Within _ _ (dw.power_within config.tx_power_qdbm) (
            try_call-Within _ _ (dw.ps_within config.power_save) (
              try_call-Within _ _
                (Within-if fr config.encryption _ _ (dw.pmk_within config.key)
                  (Within-pure fr esp_ok))
                (try_call-Within _ _ (dw.add_peer_within (config_peer p d config))
                  (set_rate-Within config.peer_mac (make_rate_config config))))))))

  reconfigure-Within : (fuel : ℕ) (config : Config) → Within R (reconfigure p d fuel config)
  unfolding reconfigure
  reconfigure-Within fuel config = Within-bind fr _ _ (window_within config.tx_window) λ _.
      Within-bind fr _ _ (give_slots-Within fr p cw config.tx_window)
        λ _. Within-bind fr _ _ (remove_peers-Within fuel) λ _. apply_settings-Within config

  drain_and_reconfigure-Within :
      (fuel : ℕ) (config : Config) → Within R (drain_and_reconfigure p d fuel config)
  unfolding drain_and_reconfigure
  drain_and_reconfigure-Within fuel config = Within-bind fr _ _ (Within-get_node fr) λ n.
      Within-bind fr _ _ (drain_slots-Within n.current_tx_window) λ drained.
        Within-if fr drained _ _ (reconfigure-Within fuel config)
          (Within-pure fr esp_err_invalid_state)

  pub radio_configure-Within : (fuel : ℕ) → Within R (radio_configure p d fuel)
  unfolding radio_configure
  radio_configure-Within fuel = Within-bind fr _ _ (Within-get_node fr) λ n.
      try_call-Within _ _ (radio_wait_idle-Within fr p cw 1000)
        (drain_and_reconfigure-Within fuel n.config)
