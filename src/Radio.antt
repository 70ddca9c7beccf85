-- ===== src/Radio.antt =====
-- firmware/main/radio.c. The rate table, and the transmit window, which is the semaphore
-- tx_ready.
pub mod Slots
pub mod Configure
pub mod Within
pub mod Callbacks
pub mod Reconfigure
pub mod Window
pub mod Fence
pub mod Interleaving
pub mod Completed
pub mod InterleavingTests
pub mod Peers
pub mod Arrivals
pub mod ArrivalTests
pub mod Tests
pub mod DriverTests
use esp_now_harness.Common.{
  ℕ, zero, suc, Bool, true, false, ◌&&◌, ◌||◌, not, List, Option, none, some, if◌then◌else◌,
}
use esp_now_harness.Common.Text.{codes, str_eq}
use esp_now_harness.Harness.{Config}
use esp_now_harness.Runtime.{
  EspErr, esp_ok, esp_err_invalid_state, esp_err_not_supported, esp_err_timeout, is_ok, System, M,
  Platform, pure, ◌>>=◌, ◌>>◌, get_node, set_node,
}

-- The PHY modes and rates of the driver that make_rate_config names.
pub data PhyMode : Type 0 where
  mode_11b mode_11a mode_11g mode_ht20 mode_he20 : PhyMode

pub data PhyRate : Type 0 where
  rate_1m_l rate_6m rate_24m rate_54m rate_mcs0_lgi rate_mcs7_lgi : PhyRate

-- esp_now_rate_config_t
pub record RateConfig : Type 0 where
  pub phymode : PhyMode
  pub rate : PhyRate
  pub ersu : Bool
  pub dcm : Bool

unfoldable pub rate_config : PhyMode → PhyRate → RateConfig
rate_config mode rate = record { phymode = mode; rate = rate; ersu = false; dcm = false }

unfoldable pub make_rate_config : Config → Option RateConfig
unfolding rate_config
make_rate_config config =
    let name = config.phy_rate in
    let is = λ (s : List ℕ). str_eq name s in
    if is (codes "1m") && not config.band_5ghz
    then some (rate_config mode_11b rate_1m_l)
    else if is (codes "6m") || (is (codes "24m") || is (codes "54m"))
    then some (
        rate_config (if config.band_5ghz then mode_11a else mode_11g)
          (if is (codes "6m") then rate_6m else if is (codes "24m") then rate_24m else rate_54m))
    else if is (codes "mcs0") || is (codes "mcs7")
    then some (rate_config mode_ht20 (if is (codes "mcs0") then rate_mcs0_lgi else rate_mcs7_lgi))
    else if is (codes "he-mcs0") || is (codes "he-mcs7")
    then some
        (rate_config mode_he20 (if is (codes "he-mcs0") then rate_mcs0_lgi else rate_mcs7_lgi))
    else none

-- `if (error != ESP_OK) return error;`
abbrev pub and_then : {W : Type 0} → EspErr → M W EspErr → M W EspErr
and_then esp_ok next = next
and_then e next = pure e

module _ {W : Type 0} (p : Platform W) where
  open p use {semaphore_take, semaphore_give, now_send}

  unfoldable pub radio_acquire_tx : ℕ → M W EspErr
  radio_acquire_tx timeout_ms = do
    taken ← semaphore_take timeout_ms
    pure (if taken then esp_ok else esp_err_timeout)

  unfoldable pub radio_send_acquired : List ℕ → M W EspErr
  radio_send_acquired bytes = do
    n ← get_node
    e ← now_send n.config.peer_mac bytes
    if is_ok e then pure e else (do semaphore_give; pure e)

  unfoldable pub radio_release_tx : M W (Unit {0})
  radio_release_tx = semaphore_give

  unfoldable pub radio_send : List ℕ → ℕ → M W EspErr
  unfolding radio_acquire_tx radio_send_acquired
  radio_send bytes timeout_ms = do
    e ← radio_acquire_tx timeout_ms
    and_then e (radio_send_acquired bytes)

  -- `for (i = 0; i < n; ++i) xSemaphoreGive(tx_ready);`
  unfoldable pub give_slots : ℕ → M W (Unit {0})
  give_slots zero = pure tt
  give_slots (suc n) = do semaphore_give; give_slots n

  -- The loop of radio_wait_idle: `todo` slots to take, `acquired` taken.
  unfoldable pub take_slots : ℕ → ℕ → ℕ → M W EspErr
  unfolding give_slots
  take_slots timeout_ms zero acquired = do give_slots acquired; pure esp_ok
  take_slots timeout_ms (suc todo) acquired = do
    taken ← semaphore_take timeout_ms
    let more = take_slots timeout_ms todo (suc acquired)
    if taken then more else (do give_slots acquired; pure esp_err_timeout)

  unfoldable pub radio_wait_idle : ℕ → M W EspErr
  unfolding take_slots
  radio_wait_idle timeout_ms = do n ← get_node; take_slots timeout_ms n.current_tx_window zero
