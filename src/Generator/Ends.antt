-- ===== src/Generator/Ends.antt =====
-- The loops of firmware/main/generator.c end, where time passes.
use esp_now_harness.Common.{
  ℕ, zero, suc, ◌+◌, ◌-◌, ◌/◌, ◌^◌, ◌≤◌, ◌<◌, ◌≡◌, refl, inl, inr, Bool, true, false, List, arith,
  leb, ◌==◌, if◌then◌else◌, Bool-cases, u32, u64,
}
use esp_now_harness.Harness.{Config, Mode, latency_load, saturation}
use esp_now_harness.Runtime.{System, M, Platform}
use esp_now_harness.Runtime.Frame.{Frame, CallsWithin, Within-if}
use esp_now_harness.Radio.{radio_acquire_tx}
use esp_now_harness.Metrics.{metrics_tx_requested}
use esp_now_harness.Runtime.{is_ok, EspErr, esp_ok, esp_err_timeout, on_metrics}
use esp_now_harness.Generator.{send_one}
use esp_now_harness.Generator.Within.{with_slot-Within, no_slot-Within, wait_deadline-Within}
use esp_now_harness.Generator.Task.{
  Attempt, Outcome, bump, deadline_at, if_running, if_waited, wait_deadline, attempt, run_loop,
  generator_task, Mix, next_mix, keeps_running, plain_round, wait_round, plain_loop, mix_round,
  mix_deadline, mix_loop,
}

-- The clock has not gone back.
abbrev pub Later : {W : Type 0} → (W → ℕ) → System W → System W → Type 0
Later clock s s' = clock s.world ≤ clock s'.world

-- esp_timer_get_time, in microseconds: no call turns it back, a wait for a slot and a delay in ticks
-- cost time, and a delay in microseconds lasts as long as it says.
pub record Clock {W : Type 0} (p : Platform W) : Type 0 where
  pub clock : W → ℕ
  pub passes : CallsWithin (Later clock) p
  pub time_is : (s : System W) → (p.timer_get_time s).0 ≡ clock (p.timer_get_time s).1.world
  pub take_on : (ms : ℕ) (s : System W) → clock s.world < clock (p.semaphore_take ms s).1.world
  pub delay_on : (ticks : ℕ) (s : System W) → clock s.world < clock (p.task_delay ticks s).1.world
  pub delay_us_on : (us : ℕ) (s : System W) → clock s.world + us ≤ clock (p.delay_us us s).1.world

clock_frame : {W : Type 0} (clock : W → ℕ) → Frame (Later clock)
clock_frame clock = record {
  same = λ s. omega arith;
  then_ = λ a b c h k. omega arith;
  metrics_free = λ f s. omega arith;
}

deadline_at-lt : (start_us index rate : ℕ) → deadline_at start_us index rate < 2 ^ 64
unfolding deadline_at
deadline_at-lt start_us index rate = omega arith

-- The next deadlines fit 64 bits.
abbrev InWord : Mix → Type 0
InWord m = (m.next_background_us < 2 ^ 64) × (m.next_probe_us < 2 ^ 64)

next_mix-InWord :
    (c : Config) (start_us : ℕ) (m : Mix) (a : Attempt)
    → InWord m
    → InWord (next_mix c start_us m a)
unfolding next_mix
next_mix-InWord c start_us m a w = elim (Bool-cases (leb m.next_probe_us m.next_background_us)) [
  | inl y ↦ rw y (w.0, deadline_at-lt start_us _ c.probe_rate)
  | inr n ↦ rw n (deadline_at-lt start_us _ c.background_rate, w.1)
]

module _ {W : Type 0} (p : Platform W) (rest : ℕ → List ℕ) (x : Clock p) where
  open x use {clock}

  -- wait_deadline returns, and not before its deadline, whatever the other tasks do and however the
  -- ticks round the delay, where time passes as `Clock` says: fuel above the microseconds that are left
  -- is enough.
  pub wait_deadline-clock :
      (fuel deadline_us : ℕ) (s : System W)
      → deadline_us - clock s.world < fuel
      → let (returned, t) = wait_deadline p rest fuel deadline_us s in
        (returned ≡ true) × (deadline_us ≤ clock t.world)
  unfolding wait_deadline
  wait_deadline-clock zero deadline_us s h = absurd (omega arith)
  wait_deadline-clock (suc fuel) deadline_us s h =
      let (now, t) = p.timer_get_time s in
      let ticks = p.ms_to_ticks ((deadline_us - now - 500) / 1000) in
      let u = (p.task_delay ticks t).1 in
      ground (
        arith,
        x.time_is s,
        x.passes.time_within.at s,
        x.delay_on ticks t,
        x.delay_us_on (u32 (deadline_us - now)) t,
        wait_deadline-clock fuel deadline_us u,
      )

  send_one-clock :
      (type stream sequence size at : ℕ) (scheduled : Bool) (s : System W)
      → clock s.world < clock (send_one p rest type stream sequence size at scheduled s).1.world
  unfolding send_one radio_acquire_tx
  send_one-clock type stream sequence size at scheduled s =
      let (_, u) = on_metrics (λ m. metrics_tx_requested m stream) s in
      let (taken, t) = p.semaphore_take 100 u in
      let e : EspErr = if taken then esp_ok else esp_err_timeout in
      let fr = clock_frame clock in
      let later =
        Within-if fr (is_ok e) _ _
          (with_slot-Within fr p x.passes rest type stream sequence size at scheduled)
          (no_slot-Within fr p x.passes rest scheduled at) in
      omega (arith, x.take_on 100 u, later.at t)

  pub keeps_running-clock :
      (end_us : ℕ) (s : System W)
      → let (go, t) = keeps_running p rest end_us s in
        (clock s.world ≤ clock t.world) × (go ≡ true → clock t.world < end_us)
  unfolding keeps_running
  keeps_running-clock end_us s = ground (arith, x.time_is s, x.passes.time_within.at s)

  pub plain_round-clock :
      (rate start_us index : ℕ) (ss : List ℕ) (s : System W)
      → clock s.world < clock (plain_round p rest rate start_us index ss s).1.world
  unfolding plain_round attempt
  plain_round-clock rate start_us index ss s = send_one-clock _ _ _ _ _ _ s

  wait_round-clock :
      (waits rate start_us index : ℕ) (s : System W)
      → 2 ^ 64 ≤ waits
      → let (waited, t) = wait_round p rest waits rate start_us index s in
        (waited ≡ true) × (clock s.world ≤ clock t.world)
  unfolding wait_round
  wait_round-clock waits rate start_us index s h =
      let at = deadline_at start_us index rate in
      let wait =
        wait_deadline-clock waits at s (omega (arith, deadline_at-lt start_us index rate)) in
      let later = wait_deadline-Within (clock_frame clock) p x.passes rest waits at in
      elim (Bool-cases (rate == 0)) [
        | inl y ↦ rw y (refl, omega arith)
        | inr n ↦ rw n (wait.0, later.at s)
      ]

  if_running-ended :
      (go : Bool) (more : M W Outcome) (t : System W)
      → (go ≡ true → (more t).0.ended ≡ true)
      → (if_running go more t).0.ended ≡ true
  if_running-ended true more t h = h refl
  if_running-ended false more t h = refl

  if_waited-ended :
      (waited : Bool) (more : M W Outcome) (t : System W)
      → waited ≡ true
      → (more t).0.ended ≡ true
      → (if_waited waited more t).0.ended ≡ true
  if_waited-ended true more t h k = k
  if_waited-ended false more t h k = cc

  -- The time that is left goes down in a round that is made before the end.
  time_left :
      (end_us fuel a b c d : ℕ)
      → end_us - a < suc fuel
      → a ≤ b
      → b < end_us
      → b ≤ c
      → c < d
      → end_us - d < fuel
  time_left end_us fuel a b c d h i j k l = omega arith

  plain_loop-ended :
      (waits fuel rate start_us end_us index : ℕ) (ss : List ℕ) (s : System W)
      → 2 ^ 64 ≤ waits
      → end_us - clock s.world < fuel
      → (plain_loop p rest waits fuel rate start_us end_us index ss s).0.ended ≡ true
  unfolding plain_loop
  plain_loop-ended waits zero rate start_us end_us index ss s h k = absurd (omega arith)
  plain_loop-ended waits (suc fuel) rate start_us end_us index ss s h k =
      let (go, t) = keeps_running p rest end_us s in
      let (later, before_end) = keeps_running-clock end_us s in
      let (waited, u) = wait_round p rest waits rate start_us index t in
      let (returns, later') = wait_round-clock waits rate start_us index t h in
      let (a, v) = plain_round p rest rate start_us index ss u in
      if_running-ended go _ t λ y. if_waited-ended waited _ u returns (
        plain_loop-ended waits fuel rate start_us end_us (u64 (index + 1)) (bump ss a.stream a.sent)
          v h
          (time_left end_us fuel _ _ _ _ k later (before_end y) later'
            (plain_round-clock rate start_us index ss u)))

  pub mix_round-clock :
      (m : Mix) (s : System W) → clock s.world < clock (mix_round p rest m s).1.world
  unfolding mix_round attempt
  mix_round-clock m s = elim (Bool-cases (leb m.next_probe_us m.next_background_us)) [
    | inl y ↦ rw y (send_one-clock _ _ _ _ _ _ s)
    | inr n ↦ rw n (send_one-clock _ _ _ _ _ _ s)
  ]

  mix_deadline-lt : (m : Mix) → InWord m → mix_deadline p rest m < 2 ^ 64
  unfolding mix_deadline
  mix_deadline-lt m w = ground arith

  mix_loop-ended :
      (waits fuel start_us end_us : ℕ) (m : Mix) (s : System W)
      → 2 ^ 64 ≤ waits
      → InWord m
      → end_us - clock s.world < fuel
      → (mix_loop p rest waits fuel start_us end_us m s).0.ended ≡ true
  unfolding mix_loop
  mix_loop-ended waits zero start_us end_us m s h w k = absurd (omega arith)
  mix_loop-ended waits (suc fuel) start_us end_us m s h w k =
      let (go, t) = keeps_running p rest end_us s in
      let (later, before_end) = keeps_running-clock end_us s in
      let at = mix_deadline p rest m in
      let (waited, u) = wait_deadline p rest waits at t in
      let (returns, _) = wait_deadline-clock waits at t (omega (arith, mix_deadline-lt m w)) in
      let later' = (wait_deadline-Within (clock_frame clock) p x.passes rest waits at).at t in
      let (a, v) = mix_round p rest m u in
      let c = v.node.config in
      if_running-ended go _ t λ y. if_waited-ended waited _ u returns (
        mix_loop-ended waits fuel start_us end_us (next_mix c start_us m a) v h
          (next_mix-InWord c start_us m a w)
          (time_left end_us fuel _ _ _ _ k later (before_end y) later' (mix_round-clock m u)))

  run_loop-ended :
      (mode : Mode) (waits fuel start_us end_us : ℕ) (c : Config) (s : System W)
      → 2 ^ 64 ≤ waits
      → start_us < 2 ^ 64
      → end_us - clock s.world < fuel
      → (run_loop p rest mode waits fuel c start_us end_us s).0.ended ≡ true
  unfolding run_loop
  run_loop-ended latency_load waits fuel start_us end_us c s h w k =
      mix_loop-ended waits fuel start_us end_us _ s h (w, w) k
  run_loop-ended saturation waits fuel start_us end_us c s h w k =
      plain_loop-ended waits fuel 0 start_us end_us 0 _ s h k
  run_loop-ended _ waits fuel start_us end_us c s h w k =
      plain_loop-ended waits fuel _ start_us end_us 0 _ s h k

  -- generator_task ends, in every mode and whatever the radio does, where time passes as `Clock` says
  -- and its start fits 64 bits: its loop ends by its own test, so that fuel above the microseconds of
  -- the run, and 2^64 for each wait, is enough.
  pub generator_task-ended :
      (waits fuel : ℕ) (s : System W)
      → 2 ^ 64 ≤ waits
      → (p.timer_get_time s).0 < 2 ^ 64
      → (p.timer_get_time s).1.node.config.duration_us < fuel
      → (generator_task p rest waits fuel s).0.ended ≡ true
  unfolding generator_task
  generator_task-ended waits fuel s h w k =
      let (start_us, t) = p.timer_get_time s in
      let n = t.node in
      let c = n.config in
      let m = n.metrics in
      let u : System W = record t {
        node = record n { metrics = record m { start_us = start_us } };
      } in
      let end_us = u64 (start_us + c.duration_us) in
      let is : start_us ≡ clock t.world = x.time_is s in
      run_loop-ended c.mode waits fuel start_us end_us c u h w (omega (arith, is))
