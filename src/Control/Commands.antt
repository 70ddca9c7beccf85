-- ===== src/Control/Commands.antt =====
-- dispatch of firmware/main/control.c does to the system what one of its handlers does, or nothing.
use esp_now_harness.Common.{Bool, true, false, not, List, ℕ, Option, none, some, if◌then◌else◌}
use esp_now_harness.Common.Text.{codes, str_eq}
use esp_now_harness.Harness.{harness_control_version}
use esp_now_harness.Runtime.{System, M, pure}
use esp_now_harness.Runtime.Frame.{Within}
use esp_now_harness.Metrics.Distribution.Quantile.{Quantile}
use esp_now_harness.Control.Json.{
  Cjson, whole, eq_whole, integer_in_range, number_item, string_item,
}
use esp_now_harness.Control.Dispatch.{
  Services, Body, info_body, error_body, send_state, configure, arm, start, stop, result,
  run_command, checked_run, command_body, checked_command, dispatch, run_mismatch,
}

module _ {W J : Type 0} (v : Services W) (c : Cjson J) (sscanf : List ℕ → List ℕ)
    (ceil_times : Quantile → ℕ → ℕ) (R : System W → System W → Type 0) where
  -- The handlers of the commands that are not `info`.
  pub record HandlersWithin : Type 0 where
    pub same : (s : System W) → R s s
    pub send_state_within : Within R (send_state v c sscanf ceil_times)
    pub configure_within : (root : J) → Within R (configure v c sscanf ceil_times root)
    pub arm_within : Within R (arm v c sscanf ceil_times)
    pub start_within : Within R (start v c sscanf ceil_times)
    pub stop_within : Within R (stop v c sscanf ceil_times)
    pub result_within : Within R (result v c sscanf ceil_times)

module _ {W J : Type 0} (v : Services W) (c : Cjson J) (sscanf : List ℕ → List ℕ)
    (ceil_times : Quantile → ℕ → ℕ) {R : System W → System W → Type 0}
    (h : HandlersWithin v c sscanf ceil_times R) where
  reply-Within : (r : Body) → Within {W = W} R (pure r)
  reply-Within r = record { at = h.same }

  either-Within :
      (b : Bool) (m n : M W Body) → Within R m → Within R n → Within R (if b then m else n)
  either-Within true m n x y = x
  either-Within false m n x y = y

  run_command-Within : (command : List ℕ) → Within R (run_command v c sscanf ceil_times command)
  unfolding run_command
  run_command-Within command = either-Within (str_eq command (codes "arm")) _ _ h.arm_within (
      either-Within (str_eq command (codes "start")) _ _ h.start_within (
        either-Within (str_eq command (codes "stop")) _ _ h.stop_within (
          either-Within (str_eq command (codes "result")) _ _ h.result_within
            (reply-Within (error_body "unknown_command" "unsupported command")))))

  checked_run-Within :
      (root : J) (command : List ℕ) → Within R (checked_run v c sscanf ceil_times root command)
  unfolding checked_run
  checked_run-Within root command = record {
    at = λ s.
        (either-Within
            (run_mismatch v c sscanf ceil_times (number_item c root "run_id" (whole 0))
              s.node.config.run_id)
            _ _
            (reply-Within (error_body "run_id_mismatch" "command does not match configured run"))
            (run_command-Within command)).at
          s;
  }

  command_body-Within :
      (root : J) (command : List ℕ) → Within R (command_body v c sscanf ceil_times root command)
  unfolding command_body
  command_body-Within root command =
      either-Within (str_eq command (codes "info")) _ _ (reply-Within info_body) (
        either-Within (str_eq command (codes "status")) _ _ h.send_state_within (
          either-Within (str_eq command (codes "configure")) _ _ (h.configure_within root)
            (checked_run-Within root command)))

  checked_command-Within :
      (root : J) (command : Option (List ℕ))
      → Within R (checked_command v c sscanf ceil_times root command)
  unfolding checked_command
  checked_command-Within root none =
      reply-Within (error_body "bad_request" "cmd and a positive integer id are required")
  checked_command-Within root (some command) =
      either-Within (not (integer_in_range (number_item c root "id" (whole 0)) 1 9007199254740991))
        _ _ (reply-Within (error_body "bad_request" "cmd and a positive integer id are required"))
        (either-Within
          (not (eq_whole (number_item c root "version" (whole 0)) harness_control_version)) _ _
          (reply-Within (error_body "incompatible_version" "control protocol version mismatch"))
          (command_body-Within root command))

  pub dispatch-Within : (root : J) → Within R (dispatch v c sscanf ceil_times root)
  unfolding dispatch
  dispatch-Within root = record { at = (checked_command-Within root (string_item c root "cmd")).at }
