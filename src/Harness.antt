-- ===== src/Harness.antt =====
-- firmware/main/harness.h: the states, roles, modes and the configuration of a node; with
-- harness_state_name of firmware/main/control.c.
use esp_now_harness.Common.{ℕ, Bool, List}
use Prim.Native.String.{String}

abbrev pub harness_max_streams : ℕ
harness_max_streams = 16

abbrev pub harness_max_packet_size : ℕ
harness_max_packet_size = 250

abbrev pub harness_key_size : ℕ
harness_key_size = 16

abbrev pub harness_max_tx_window : ℕ
harness_max_tx_window = 32

abbrev pub harness_control_version : ℕ
harness_control_version = 2

-- harness_state_t
pub data State : Type 0 where
  boot idle configured armed running finished error : State

-- harness_role_t
pub data Role : Type 0 where
  none_role generator sink ping_initiator echo_responder : Role

-- harness_mode_t
pub data Mode : Type 0 where
  ping stream multi_stream saturation latency_load : Mode

pub State-discrete : Discrete State
State-discrete = hlevel

-- harness_config_t; the arrays are the lists of their bytes.
pub record Config : Type 0 where
  pub run_id : ℕ  -- uint32_t
  pub role : Role
  pub mode : Mode
  pub peer_mac : List ℕ  -- uint8_t[6]
  pub band_5ghz : Bool
  pub country : List ℕ  -- char[3], without the terminator
  pub channel : ℕ  -- uint8_t
  pub phy_rate : List ℕ  -- char[16], without the terminator
  pub tx_power_qdbm : ℕ  -- int8_t
  pub power_save : Bool
  pub encryption : Bool
  pub key : List ℕ  -- uint8_t[16]
  pub duration_us : ℕ  -- uint64_t
  pub packet_size : ℕ  -- uint16_t
  pub streams : ℕ  -- uint16_t
  pub tx_window : ℕ  -- uint16_t
  pub rate_per_stream : ℕ  -- uint32_t
  pub probe_rate : ℕ  -- uint32_t
  pub background_packet_size : ℕ  -- uint16_t
  pub background_rate : ℕ  -- uint32_t

unfoldable pub harness_state_name : State → String
harness_state_name boot = "BOOT"
harness_state_name idle = "IDLE"
harness_state_name configured = "CONFIGURED"
harness_state_name armed = "ARMED"
harness_state_name running = "RUNNING"
harness_state_name finished = "FINISHED"
harness_state_name error = "ERROR"
