-- ===== src/Radio/Configure.antt =====
-- radio_configure of firmware/main/radio.c, over the driver's calls.
use esp_now_harness.Common.{
  ℕ, zero, suc, Bool, true, false, List, Option, none, some, if◌then◌else◌,
}
use esp_now_harness.Harness.{Config}
use esp_now_harness.Runtime.{
  EspErr, esp_ok, esp_err_invalid_state, esp_err_not_supported, M, Platform, pure, ◌>>=◌, ◌>>◌,
  get_node, set_tx_window,
}
use esp_now_harness.Radio.{RateConfig, make_rate_config, and_then, give_slots, radio_wait_idle}

-- esp_now_peer_info_t, less `ifidx`, which is WIFI_IF_STA.
pub record Peer : Type 0 where
  pub peer_addr : List ℕ
  pub channel : ℕ
  pub encrypt : Bool
  pub lmk : Option (List ℕ)  -- `none` is the zero key

-- The driver's calls.
pub record Driver (W : Type 0) : Type 0 where
  pub fetch_peer : M W (Option Peer)  -- esp_now_fetch_peer(true, …) where it is ESP_OK
  pub del_peer : List ℕ → M W (Unit {0})  -- its result is not read
  pub set_country_code : List ℕ → M W EspErr
  pub set_band_mode : Bool → M W EspErr  -- 5 GHz only, or 2.4 GHz only
  pub set_channel : ℕ → M W EspErr
  pub set_max_tx_power : ℕ → M W EspErr
  pub set_ps : Bool → M W EspErr  -- WIFI_PS_MIN_MODEM, or WIFI_PS_NONE
  pub set_pmk : List ℕ → M W EspErr
  pub add_peer : Peer → M W EspErr
  pub set_peer_rate_config : List ℕ → RateConfig → M W EspErr

-- `if ((error = call) != ESP_OK) return error;`
abbrev pub try_call : {W : Type 0} → M W EspErr → M W EspErr → M W EspErr
try_call call next = do e ← call; and_then e next

module _ {W : Type 0} (p : Platform W) (d : Driver W) where
  open p use {semaphore_take}
  open d use {
    fetch_peer, del_peer, set_country_code, set_band_mode, set_channel, set_max_tx_power, set_ps,
    set_pmk, add_peer, set_peer_rate_config,
  }

  -- The first loop, which gives nothing back where a slot is missing.
  unfoldable pub drain_slots : ℕ → M W Bool
  drain_slots zero = pure true
  drain_slots (suc n) = do
    taken ← semaphore_take zero
    let more = drain_slots n
    if taken then more else pure false

  -- A round of the loop that removes the peers; `more` is the rest of it.
  unfoldable pub remove_found : Option Peer → M W (Unit {0}) → M W (Unit {0})
  remove_found none more = pure tt
  remove_found (some peer) more = do del_peer peer.peer_addr; more

  -- The loop, on fuel.
  unfoldable pub remove_peers : ℕ → M W (Unit {0})
  unfolding remove_found
  remove_peers zero = pure tt
  remove_peers (suc fuel) = do existing ← fetch_peer; remove_found existing (remove_peers fuel)

  unfoldable pub set_rate : List ℕ → Option RateConfig → M W EspErr
  set_rate mac none = pure esp_err_not_supported
  set_rate mac (some rate) = set_peer_rate_config mac rate

  unfoldable pub config_peer : Config → Peer
  config_peer config = record {
    peer_addr = config.peer_mac;
    channel = config.channel;
    encrypt = config.encryption;
    lmk = if config.encryption then some config.key else none;
  }

  -- The settings of the driver, each after the one before has succeeded.
  unfoldable pub apply_settings : Config → M W EspErr
  unfolding set_rate config_peer
  apply_settings config = try_call (set_country_code config.country) (
      try_call (set_band_mode config.band_5ghz) (
        try_call (set_channel config.channel) (
          try_call (set_max_tx_power config.tx_power_qdbm) (
            try_call (set_ps config.power_save) (
              try_call (if config.encryption then set_pmk config.key else pure esp_ok) (
                try_call (add_peer (config_peer config))
                  (set_rate config.peer_mac (make_rate_config config))))))))

  -- After the drain: the new window, the peers and the settings.
  unfoldable pub reconfigure : ℕ → Config → M W EspErr
  reconfigure fuel config = do
    set_tx_window config.tx_window
    give_slots p config.tx_window
    remove_peers fuel
    apply_settings config

  unfoldable pub drain_and_reconfigure : ℕ → Config → M W EspErr
  drain_and_reconfigure fuel config = do
    n ← get_node
    drained ← drain_slots n.current_tx_window
    if drained then reconfigure fuel config else pure esp_err_invalid_state

  -- radio_configure(&g_config)
  unfoldable pub radio_configure : ℕ → M W EspErr
  radio_configure fuel = do
    n ← get_node
    try_call (radio_wait_idle p 1000) (drain_and_reconfigure fuel n.config)
