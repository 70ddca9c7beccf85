-- ===== src/Firmware/Settled.antt =====
-- A stop or a result of firmware/main/control.c that succeeds finds the generator's task gone.
use Prim.Native.String.{String}
use esp_now_harness.Common.{
  ℕ, zero, suc, ◌+◌, u32, ◌≡◌, ◌⊎◌, refl, ap, inl, inr, Bool, true, false, List, Option, none, some,
  arith, Bool-cases,
}
use esp_now_harness.Harness.{finished}
use esp_now_harness.Runtime.{Node, System, M, Platform}
use esp_now_harness.Runtime.Frame.{at_if}
use esp_now_harness.Metrics.Report.{Report}
use esp_now_harness.Metrics.Distribution.Quantile.{Quantile}
use esp_now_harness.Radio.Configure.{Driver}
use esp_now_harness.Generator.Stop.{expired, stopped_before, generator_wait_stopped}
use esp_now_harness.Receiver.Queue.{Mailbox}
use esp_now_harness.Control.Json.{Cjson}
use esp_now_harness.Control.Calm.{Calm, IsCalm, CalmServices}
use esp_now_harness.Control.Dispatch.{
  Services, Body, error_body, state_body, result_body, is_running_or_armed, is_finished, when_true,
  if_drained, send_state, drain_measurement_events, stopped_and_drained, when_drained, send_result,
  finish_run, stop, result,
}
use esp_now_harness.Control.Step.{
  drain_measurement_events-IsCalm, drained_ends, send_state-IsCalm, send_result-IsCalm,
  finished_stays,
}
use esp_now_harness.Firmware.{services, has_stopped}
use esp_now_harness.Firmware.Interface.{CalmWorld, services-CalmServices}

pub stopped_before_gone :
    {W : Type 0} (p : Platform W) (fuel deadline : ℕ) (s : System W)
    → (stopped_before p fuel deadline s).0 ≡ some true
    → (stopped_before p fuel deadline s).1.node.handle ≡ false
unfolding stopped_before
stopped_before_gone p zero deadline s e = cc
stopped_before_gone {W} p (suc fuel) deadline s e =
    let (now, t) = p.tick_count s in
    let u = (p.task_delay (p.ms_to_ticks 1) t).1 in
    let P : Option Bool × System W → Type 0 = λ r. r.0 ≡ some true → r.1.node.handle ≡ false in
    at_if P s.node.handle _ _ s
      (λ _.
        at_if P (expired now deadline) _ _ t (λ _ f. cc)
          (λ _. stopped_before_gone p fuel deadline u))
      (λ n _. n) e

pub has_stopped-some : (r : Option Bool) → has_stopped r ≡ true → r ≡ some true
has_stopped-some (some b) e = ap some e
has_stopped-some none e = cc

when_true_gone :
    {W : Type 0} (first : Bool) (b : M W Bool) (t : System W)
    → (first ≡ true → t.node.handle ≡ false)
    → IsCalm b
    → (when_true first b t).0 ≡ true
    → (when_true first b t).1.node.handle ≡ false
unfolding IsCalm
when_true_gone true b t h k e = (k t).stays_stopped (h refl)
when_true_gone false b t h k e = cc

module _ {W J : Type 0} (p : Platform W) (d : Driver W) (mb : Mailbox W) (rest : ℕ → List ℕ)
    (peers waits : ℕ) (c : Cjson J) (sscanf : List ℕ → List ℕ) (ceil_times : Quantile → ℕ → ℕ)
    (calm : CalmWorld p d mb) where
  abbrev v : Services W
  v = services p d mb rest peers waits

  laws : CalmServices v
  laws = services-CalmServices p d mb rest calm peers waits

  stopped_and_drained_gone :
      (s : System W)
      → (stopped_and_drained v c sscanf ceil_times s).0 ≡ true
      → (stopped_and_drained v c sscanf ceil_times s).1.node.handle ≡ false
  unfolding stopped_and_drained generator_wait_stopped
  stopped_and_drained_gone s e =
      let (now, t) = p.tick_count s in
      let deadline = u32 (now + p.ms_to_ticks 2000) in
      let (r, u) = stopped_before p waits deadline t in
      when_true_gone (has_stopped r) (drain_measurement_events v c sscanf ceil_times) u
        (λ y. stopped_before_gone p waits deadline t (has_stopped-some r y))
        (drain_measurement_events-IsCalm v c sscanf ceil_times laws) e

  -- A reply that is no timeout comes after the drain.
  if_drained_gone :
      (drained : Bool) (reply : M W Body) (t : System W)
      → (drained ≡ true → t.node.handle ≡ false)
      → IsCalm reply
      → ((if_drained drained reply t).1.node.handle ≡ false)
        ⊎ ((if_drained drained reply t).0
            ≡ error_body "drain_timeout" "timed out draining measurement events")
  unfolding IsCalm
  if_drained_gone true reply t h k = inl ((k t).stays_stopped (h refl))
  if_drained_gone false reply t h k = inr refl

  when_drained_gone :
      (reply : M W Body) (s : System W)
      → IsCalm reply
      → ((when_drained v c sscanf ceil_times reply s).1.node.handle ≡ false)
        ⊎ ((when_drained v c sscanf ceil_times reply s).0
            ≡ error_body "drain_timeout" "timed out draining measurement events")
  unfolding when_drained
  when_drained_gone reply s k =
      let (drained, t) = stopped_and_drained v c sscanf ceil_times s in
      if_drained_gone drained reply t (stopped_and_drained_gone s) k

  finish_run_over :
      (s : System W) → is_running_or_armed (finish_run v c sscanf ceil_times s).1.node.state ≡ false
  unfolding finish_run is_running_or_armed IsCalm
  finish_run_over s =
      let n = s.node in
      let u : System W = record s { node = record n { state = finished } } in
      let later = laws.timer_get_time_calm u in ground (arith, later.state_moves)

  stays_over :
      (n n' : Node)
      → Calm n n'
      → is_running_or_armed n.state ≡ false
      → is_running_or_armed n'.state ≡ false
  unfolding is_running_or_armed
  stays_over n n' h k = elim h.state_moves [ inl e ↦ rw e k | inr (_, _, e) ↦ rw e refl ]

  is_finished_lem : (n : Node) → is_finished n.state ≡ true → n.state ≡ finished
  is_finished_lem n h = ground (arith, h)

  -- A stop that replies with the state has ended the run: the generator's task is gone, and the node is
  -- neither ARMED nor RUNNING. The other tasks run in every call.
  pub stop_settled :
      (name : String) (s : System W)
      → (stop v c sscanf ceil_times s).0 ≡ state_body name
      → let n = (stop v c sscanf ceil_times s).1.node in
        (n.handle ≡ false) × (is_running_or_armed n.state ≡ false)
  unfolding stop
  stop_settled name s e =
      let (_, t) = finish_run v c sscanf ceil_times s in
      let calmly = send_state-IsCalm v c sscanf ceil_times laws in
      let later =
        drained_ends v c sscanf ceil_times laws (send_state v c sscanf ceil_times) t calmly in
      elim (when_drained_gone (send_state v c sscanf ceil_times) t calmly) [
        | inl gone ↦ (gone, stays_over t.node _ later (finish_run_over s))
        | inr timeout ↦ cc
      ]

  -- A result that replies with a report finds the generator's task gone and the node FINISHED, so that
  -- no packet of the run is sent any more. The other tasks run in every call.
  result_settled :
      (report : Report) (s : System W)
      → (result v c sscanf ceil_times s).0 ≡ result_body report
      → let n = (result v c sscanf ceil_times s).1.node in (n.handle ≡ false) × (n.state ≡ finished)
  unfolding result
  result_settled report s e =
      let calmly = send_result-IsCalm v c sscanf ceil_times laws in
      let later =
        drained_ends v c sscanf ceil_times laws (send_result v c sscanf ceil_times) s calmly in
      elim (Bool-cases (is_finished s.node.state)) [
        | inl y ↦ elim (when_drained_gone (send_result v c sscanf ceil_times) s calmly) [
          | inl gone ↦ rw y (gone, finished_stays s.node _ later (is_finished_lem s.node y))
          | inr timeout ↦ cc
        ]
        | inr n ↦ cc
      ]
