-- ===== src/Generator/Rate.antt =====
-- How many packets generator_task of firmware/main/generator.c attempts at a configured rate.
use esp_now_harness.Common.{
  ℕ, zero, suc, ◌+◌, ◌*◌, ◌/◌, ◌^◌, ◌≤◌, ◌<◌, ◌≡◌, ◌≢◌, ap, false, List, [], ◌∷◌, map, arith, ◌==◌,
  u64, length,
}
use mathlib.Core.Path.{subst}
use esp_now_harness.Common.Division.{lt_of_div, div-mul-le, le_of_mul_le}
use esp_now_harness.Harness.{Config, latency_load}
use esp_now_harness.Runtime.{System, Platform}
use esp_now_harness.Runtime.Frame.{CallsWithin}
use esp_now_harness.Generator.Task.{Attempt, deadline_at, generator_task}
use esp_now_harness.Generator.Ends.{Clock}
use esp_now_harness.Generator.Schedule.{SameConfig, plan, slot}
use esp_now_harness.Generator.Mixture.{rate_of, generator_task-plan}
use esp_now_harness.Generator.Due.{DueBefore, generator_task-DueBefore}

-- The same of the streams and deadlines alone.
abbrev SlotsBefore : ℕ → List (ℕ × ℕ) → Type 0
SlotsBefore end_us [] = Unit {0}
SlotsBefore end_us (a ∷ []) = Unit {0}
SlotsBefore end_us (a ∷ b ∷ slots) = (a.1 < end_us) × SlotsBefore end_us (b ∷ slots)

SlotsBefore-map :
    (end_us : ℕ) (log : List Attempt) → DueBefore end_us log → SlotsBefore end_us (map slot log)
SlotsBefore-map end_us [] h = tt
SlotsBefore-map end_us (a ∷ []) h = tt
SlotsBefore-map end_us (a ∷ b ∷ log) h = (h.0, SlotsBefore-map end_us (b ∷ log) h.1)

module _ (c : Config) (rate start_us duration_us : ℕ) (some_rate : 1 ≤ rate)
    (fits : duration_us * rate + 2000000 < 2 ^ 64)
    (ends : start_us + duration_us + 1000000 < 2 ^ 64) where
  -- A deadline before the end is that of an index within the run.
  index_within :
      (index : ℕ)
      → index * 1000000 ≤ duration_us * rate + 1000000
      → deadline_at start_us index rate < start_us + duration_us
      → (index + 1) * 1000000 ≤ duration_us * rate + 1000000
  unfolding deadline_at
  index_within index h d =
      let q = index * 1000000 / rate in
      let below = div-mul-le (index * 1000000) rate some_rate in
      let short = le_of_mul_le q duration_us 1000000 rate some_rate (omega (arith, below)) in
      let whole : u64 (index * 1000000) ≡ index * 1000000 = omega arith in
      let at : u64 (start_us + q) ≡ start_us + q = omega (arith, short) in
      let due : start_us + q < start_us + duration_us = rw (← at) (rw whole at d) in
      omega (arith, lt_of_div (index * 1000000) duration_us rate some_rate (omega (arith, due)))

  plan_length :
      (n index : ℕ)
      → index * 1000000 ≤ duration_us * rate + 1000000
      → SlotsBefore (start_us + duration_us) (plan c rate start_us index n)
      → (index + n) * 1000000 ≤ duration_us * rate + 2000000
  unfolding plan deadline_at
  plan_length zero index h d = omega arith
  plan_length (suc zero) index h d = omega arith
  plan_length (suc (suc n)) index h d =
      let rated : (rate == 0) ≡ false = ground arith in
      let due : deadline_at start_us index rate < start_us + duration_us = rw rated at (d.0) in
      let within = index_within index h due in
      let same : u64 (index + 1) ≡ index + 1 = omega (arith, within) in
      omega (
        arith,
        plan_length (suc n) (index + 1) within (
            subst (λ k. SlotsBefore (start_us + duration_us) (plan c rate start_us k (suc n))) same
              d.1),
      )

-- In the modes with one rate generator_task attempts at most `duration * rate + 2` packets, the duration
-- in seconds and the rate in packets a second: where the configuration stays and has 1 to 16
-- streams, time passes as `Clock` says, and neither the times of the run nor the product, in
-- millionths, reaches 2^64.
pub generator_task_rate :
    {W : Type 0} (p : Platform W) (rest : ℕ → List ℕ) (x : Clock p) (cw : CallsWithin SameConfig p)
    (waits fuel : ℕ) (s : System W)
    → 1 ≤ s.node.config.streams
    → s.node.config.streams ≤ 16
    → s.node.config.mode ≢ latency_load
    → 1 ≤ rate_of s.node.config.mode s.node.config
    → s.node.config.duration_us * rate_of s.node.config.mode s.node.config + 2000000 < 2 ^ 64
    → (p.timer_get_time s).0 + s.node.config.duration_us + 1000000 < 2 ^ 64
    → length (generator_task p rest waits fuel s).0.attempts * 1000000
      ≤ s.node.config.duration_us * rate_of s.node.config.mode s.node.config + 2000000
generator_task_rate p rest x cw waits fuel s lo hi mode some_rate fits ends =
    let c = s.node.config in
    let (start_us, t) = p.timer_get_time s in
    let log = (generator_task p rest waits fuel s).0.attempts in
    let same = ap (λ (d : Config). d.duration_us) (cw.time_within.at s) in
    let end_us = u64 (start_us + t.node.config.duration_us) in
    let whole : end_us ≡ start_us + c.duration_us = omega (arith, same) in
    let due = SlotsBefore-map end_us log (generator_task-DueBefore p rest x waits fuel s) in
    let due' = subst (λ e. SlotsBefore e (map slot log)) whole due in
    let planned = generator_task-plan p rest cw waits fuel s lo hi mode in
    let most =
      plan_length c (rate_of c.mode c) start_us c.duration_us some_rate fits ends (length log) 0
        (omega arith) (subst (SlotsBefore (start_us + c.duration_us)) planned due') in
    omega (arith, most)
