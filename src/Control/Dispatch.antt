-- ===== src/Control/Dispatch.antt =====
-- dispatch of firmware/main/control.c. A handler returns the line that it prints; printing calls
-- no other task.
use Prim.Native.String.{String}
use esp_now_harness.Common.{
  ℕ, Bool, true, false, ◌&&◌, not, List, Option, none, some, if◌then◌else◌,
}
use esp_now_harness.Common.Text.{codes, str_eq}
use esp_now_harness.Harness.{
  Config, State, configured, armed, running, finished, error, harness_control_version,
  harness_state_name,
}
use esp_now_harness.Metrics.{metrics_reset}
use esp_now_harness.Metrics.Distribution.Quantile.{Quantile}
use esp_now_harness.Metrics.Report.{Report, metrics_json}
use esp_now_harness.Runtime.{
  EspErr, is_ok, M, pure, ◌>>=◌, ◌>>◌, get_node, set_state, set_config, on_metrics,
}
use esp_now_harness.Control.Json.{
  Double, whole, eq_whole, integer_in_range, Cjson, number_item, string_item,
}
use esp_now_harness.Control.Config.{ok, why}
use esp_now_harness.Control.Parse.{parse_config}

-- What a response says after its id.
pub data Body : Type 0 where
  info_body : Body
  state_body : String → Body
  result_body : Report → Body
  error_body : String → String → Body  -- code, message
  failure_body : String → EspErr → Body  -- code, esp_err_to_name(error)

pub record Reply : Type 0 where
  pub id : Double
  pub body : Body

-- What the dispatcher calls in the other parts of the firmware.
pub record Services (W : Type 0) : Type 0 where
  pub timer_get_time : M W ℕ  -- esp_timer_get_time()
  pub radio_configure : M W EspErr  -- radio_configure(&g_config)
  pub radio_wait_idle : ℕ → M W EspErr
  pub receiver_flush : ℕ → M W Bool
  pub generator_start : M W EspErr
  pub generator_wait_stopped : ℕ → M W Bool

unfoldable pub is_running_or_armed : State → Bool
is_running_or_armed running = true
is_running_or_armed armed = true
is_running_or_armed _ = false

abbrev pub is_configured : State → Bool
is_configured configured = true
is_configured _ = false

abbrev pub is_armed : State → Bool
is_armed armed = true
is_armed _ = false

abbrev pub is_finished : State → Bool
is_finished finished = true
is_finished _ = false

-- `a && b` of C, where both run the system.
abbrev pub when_true : {W : Type 0} → Bool → M W Bool → M W Bool
when_true true b = b
when_true false b = pure false

abbrev pub and_also : {W : Type 0} → M W Bool → M W Bool → M W Bool
and_also a b = do first ← a; when_true first b

abbrev pub if_drained : {W : Type 0} → Bool → M W Body → M W Body
if_drained false reply = pure (error_body "drain_timeout" "timed out draining measurement events")
if_drained true reply = reply

module _ {W J : Type 0} (v : Services W) (c : Cjson J) (sscanf : List ℕ → List ℕ)
    (ceil_times : Quantile → ℕ → ℕ) where
  open v use {
    timer_get_time, radio_configure, radio_wait_idle, receiver_flush, generator_start,
    generator_wait_stopped,
  }

  unfoldable pub send_state : M W Body
  send_state = do n ← get_node; pure (state_body (harness_state_name n.state))

  unfoldable pub wait_idle_ok : ℕ → M W Bool
  wait_idle_ok timeout_ms = do e ← radio_wait_idle timeout_ms; pure (is_ok e)

  unfoldable pub drain_measurement_events : M W Bool
  drain_measurement_events = and_also (receiver_flush 2000) (
      and_also (wait_idle_ok 2000)
        (and_also (receiver_flush 2000) (and_also (wait_idle_ok 2000) (receiver_flush 2000))))

  unfoldable pub stopped_and_drained : M W Bool
  stopped_and_drained = and_also (generator_wait_stopped 2000) drain_measurement_events

  unfoldable pub apply_config : Config → M W Body
  apply_config cfg = do
    set_config cfg
    e ← radio_configure
    elim (is_ok e) [
      | false ↦ do set_state error; pure (failure_body "radio_config" e)
      | true ↦ do on_metrics (λ _. metrics_reset); set_state configured; send_state
    ]

  unfoldable pub configure : J → M W Body
  configure root = do
    n ← get_node
    elim (is_running_or_armed n.state) [
      | true ↦
          pure
            (error_body "invalid_state" "configure requires IDLE, CONFIGURED, FINISHED, or ERROR")
      | false ↦ elim (parse_config c sscanf root) [
        | why message ↦ pure (error_body "invalid_config" message)
        | ok cfg ↦ apply_config cfg
      ]
    ]

  unfoldable pub arm : M W Body
  arm = do
    n ← get_node
    elim (is_configured n.state) [
      | false ↦ pure (error_body "invalid_state" "arm requires CONFIGURED")
      | true ↦ do on_metrics (λ _. metrics_reset); set_state armed; send_state
    ]

  unfoldable pub start : M W Body
  start = do
    n ← get_node
    elim (is_armed n.state) [
      | false ↦ pure (error_body "invalid_state" "start requires ARMED")
      | true ↦ do
        now ← timer_get_time
        on_metrics (λ m. record m { start_us = now })
        set_state running
        e ← generator_start
        elim (is_ok e) [
          | false ↦ do set_state error; pure (failure_body "generator_start" e)
          | true ↦ send_state
        ]
    ]

  unfoldable pub finish_run : M W (Unit {0})
  finish_run = do
    n ← get_node
    elim (is_running_or_armed n.state) [
      | false ↦ pure tt
      | true ↦ do
        set_state finished
        now ← timer_get_time
        on_metrics (λ m. record m { end_us = now })
    ]

  -- The reply of `stop` and `result` where the node's events are drained.
  unfoldable pub when_drained : M W Body → M W Body
  when_drained reply = do drained ← stopped_and_drained; if_drained drained reply

  unfoldable pub stop : M W Body
  stop = do finish_run; when_drained send_state

  unfoldable pub send_result : M W Body
  send_result = do
    n ← get_node
    let (metrics, report) = metrics_json ceil_times n.config n.metrics
    on_metrics (λ _. metrics)
    pure (result_body report)

  unfoldable pub result : M W Body
  result = do
    n ← get_node
    elim (is_finished n.state) [
      | false ↦ pure (error_body "invalid_state" "result requires FINISHED")
      | true ↦ when_drained send_result
    ]

  -- The commands of a configured run.
  unfoldable pub run_command : List ℕ → M W Body
  run_command command =
      if str_eq command (codes "arm")
      then arm
      else if str_eq command (codes "start")
      then start
      else if str_eq command (codes "stop")
      then stop
      else if str_eq command (codes "result")
      then result
      else pure (error_body "unknown_command" "unsupported command")

  -- `requested_run != 0 && requested_run != g_config.run_id`
  unfoldable pub run_mismatch : Double → ℕ → Bool
  run_mismatch requested run_id = not (eq_whole requested 0) && not (eq_whole requested run_id)

  unfoldable pub checked_run : J → List ℕ → M W Body
  checked_run root command = do
    n ← get_node
    if run_mismatch (number_item c root "run_id" (whole 0)) n.config.run_id
        then pure (error_body "run_id_mismatch" "command does not match configured run")
        else run_command command

  -- The commands in the order of the source.
  unfoldable pub command_body : J → List ℕ → M W Body
  command_body root command =
      if str_eq command (codes "info")
      then pure info_body
      else if str_eq command (codes "status")
      then send_state
      else if str_eq command (codes "configure")
      then configure root
      else checked_run root command

  -- The checks of a request whose `cmd` is given.
  unfoldable pub checked_command : J → Option (List ℕ) → M W Body
  checked_command root none =
      pure (error_body "bad_request" "cmd and a positive integer id are required")
  checked_command root (some command) =
      if not (integer_in_range (number_item c root "id" (whole 0)) 1 9007199254740991)
      then pure (error_body "bad_request" "cmd and a positive integer id are required")
      else if not (eq_whole (number_item c root "version" (whole 0)) harness_control_version)
      then pure (error_body "incompatible_version" "control protocol version mismatch")
      else command_body root command

  unfoldable pub dispatch : J → M W Reply
  dispatch root = do
    body ← checked_command root (string_item c root "cmd")
    pure (record { id = number_item c root "id" (whole 0); body = body })
