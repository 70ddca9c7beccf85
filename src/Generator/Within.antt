-- ===== src/Generator/Within.antt =====
-- The code of firmware/main/generator.c moves the globals, the metrics aside, only as the calls of the
-- system do.
use esp_now_harness.Common.{
  ℕ, zero, suc, Bool, true, false, List, Option, none, some, if◌then◌else◌,
}
use esp_now_harness.Runtime.{EspErr, is_ok, System, Platform, pure, ◌>>◌, get_node, on_metrics}
use esp_now_harness.Runtime.Frame.{
  Within, Frame, CallsWithin, Within-pure, Within-bind, Within-if, Within-get_node,
  Within-on_metrics,
}
use esp_now_harness.Radio.{radio_acquire_tx, radio_send_acquired, radio_release_tx}
use esp_now_harness.Radio.Within.{radio_acquire_tx-Within, radio_send_acquired-Within}
use esp_now_harness.Common.{◌-◌, ◌/◌, leb, ltb, ◌==◌, take, get_or, u32}
use esp_now_harness.Protocol.{bench_encode}
use esp_now_harness.Metrics.{
  Metrics, metrics_tx_requested, metrics_tx_submitted, metrics_tx_api_failure,
  metrics_tx_slot_timeout, metrics_dispatch_lateness,
}
use esp_now_harness.Generator.{
  filled, packet_header, no_slot, after_send, send_encoded, with_slot, send_one,
}
use esp_now_harness.Generator.Task.{
  is_running, deadline_at, wait_deadline, attempt, keeps_running, wait_round,
}

module _ {W : Type 0} {R : System W → System W → Type 0} (fr : Frame R) (p : Platform W)
    (cw : CallsWithin R p) (rest : ℕ → List ℕ) where
  counted : (f : Metrics → Metrics) → Within {W = W} R (do on_metrics f; pure false)
  counted f = Within-bind fr (on_metrics f) _ (Within-on_metrics fr f) λ _. Within-pure fr false

  pub no_slot-Within : (scheduled : Bool) (at : ℕ) → Within R (no_slot p rest scheduled at)
  unfolding no_slot
  no_slot-Within scheduled at =
      Within-if fr scheduled _ _
        (Within-bind fr p.timer_get_time _ cw.time_within λ now.
          Within-bind fr (on_metrics (λ m. metrics_dispatch_lateness m now at)) _
            (Within-on_metrics fr (λ m. metrics_dispatch_lateness m now at))
            λ _. counted metrics_tx_slot_timeout)
        (counted metrics_tx_slot_timeout)

  after_send-Within :
      (scheduled : Bool) (stream size now : ℕ) (e : EspErr)
      → Within R (after_send p rest scheduled stream size now e)
  unfolding after_send
  after_send-Within scheduled stream size now e =
      let submit = λ (m : Metrics). metrics_tx_submitted m stream size now in
      Within-if fr (is_ok e) _ _
        (Within-bind fr (on_metrics submit) _ (Within-on_metrics fr submit)
          λ _. Within-pure fr true)
        (Within-if fr scheduled _ _ (counted metrics_tx_api_failure) (
          Within-bind fr (on_metrics metrics_tx_api_failure) _
            (Within-on_metrics fr metrics_tx_api_failure)
            λ _. Within-bind fr p.task_yield _ cw.yield_within λ _. Within-pure fr false))

  released-Within :
      Within {W = W} R (do radio_release_tx p; on_metrics metrics_tx_api_failure; pure false)
  unfolding radio_release_tx
  released-Within =
      Within-bind fr p.semaphore_give _ cw.give_within λ _. counted metrics_tx_api_failure

  send_encoded-Within :
      (scheduled : Bool) (stream size now : ℕ) (encoded : Bool × Option (List ℕ))
      → Within R (send_encoded p rest scheduled stream size now encoded)
  unfolding send_encoded
  send_encoded-Within scheduled stream size now (true, some packet) =
      Within-bind fr (radio_send_acquired p (take size packet)) _
        (radio_send_acquired-Within fr p cw (take size packet))
        (after_send-Within scheduled stream size now)
  send_encoded-Within scheduled stream size now (true, none) = released-Within
  send_encoded-Within scheduled stream size now (false, packet) = released-Within

  pub with_slot-Within :
      (type stream sequence size at : ℕ) (scheduled : Bool)
      → Within R (with_slot p rest type stream sequence size at scheduled)
  unfolding with_slot
  with_slot-Within type stream sequence size at scheduled =
      Within-bind fr p.timer_get_time _ cw.time_within λ now.
        let late = λ (m : Metrics). if scheduled then metrics_dispatch_lateness m now at else m in
        Within-bind fr (on_metrics late) _ (Within-on_metrics fr late) λ _.
          Within-bind fr get_node _ (Within-get_node fr) λ n.
            send_encoded-Within scheduled stream size now (
              bench_encode (some (filled size (rest size))) 250
                (some (packet_header type stream sequence size n.config.run_id now)))

  pub send_one-Within :
      (type stream sequence size at : ℕ) (scheduled : Bool)
      → Within R (send_one p rest type stream sequence size at scheduled)
  unfolding send_one
  send_one-Within type stream sequence size at scheduled =
      let request = λ (m : Metrics). metrics_tx_requested m stream in
      Within-bind fr (on_metrics request) _ (Within-on_metrics fr request) λ _.
        Within-bind fr (radio_acquire_tx p 100) _ (radio_acquire_tx-Within fr p cw 100) λ e.
          Within-if fr (is_ok e) _ _ (with_slot-Within type stream sequence size at scheduled)
            (no_slot-Within scheduled at)

  pub wait_deadline-Within : (fuel at : ℕ) → Within R (wait_deadline p rest fuel at)
  unfolding wait_deadline
  wait_deadline-Within zero at = Within-pure fr false
  wait_deadline-Within (suc fuel) at = Within-bind fr p.timer_get_time _ cw.time_within λ now.
      Within-if fr (leb at now) _ _ (Within-pure fr true) (
        Within-if fr (ltb 2000 (at - now)) _ _
          (Within-bind fr (p.task_delay (p.ms_to_ticks ((at - now - 500) / 1000))) _
            (cw.delay_within (p.ms_to_ticks ((at - now - 500) / 1000)))
            λ _. wait_deadline-Within fuel at)
          (Within-bind fr (p.delay_us (u32 (at - now))) _ (cw.delay_us_within (u32 (at - now)))
            λ _. Within-pure fr true))

  pub keeps_running-Within : (end_us : ℕ) → Within R (keeps_running p rest end_us)
  unfolding keeps_running
  keeps_running-Within end_us = Within-bind fr get_node _ (Within-get_node fr) λ n.
      Within-if fr (is_running n.state) _ _
        (Within-bind fr p.timer_get_time _ cw.time_within λ now. Within-pure fr (ltb now end_us))
        (Within-pure fr false)

  pub wait_round-Within :
      (waits rate start_us index : ℕ) → Within R (wait_round p rest waits rate start_us index)
  unfolding wait_round
  wait_round-Within waits rate start_us index =
      Within-if fr (rate == 0) _ _ (Within-pure fr true)
        (wait_deadline-Within waits (deadline_at start_us index rate))

  pub attempt-Within :
      (type stream : ℕ) (sequences : List ℕ) (size at : ℕ) (scheduled : Bool)
      → Within R (attempt p rest type stream sequences size at scheduled)
  unfolding attempt
  attempt-Within type stream sequences size at scheduled =
      let sequence = get_or sequences stream 0 in
      record { at = λ s. (send_one-Within type stream sequence size at scheduled).at s }
