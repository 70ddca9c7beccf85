-- ===== src/Generator/Due.antt =====
-- When the packets of generator_task in firmware/main/generator.c are due, and how many they are.
use esp_now_harness.Common.{
  ℕ, zero, suc, ◌+◌, ◌-◌, ◌/◌, ◌≤◌, ◌<◌, ◌≡◌, ◌⊎◌, refl, inl, inr, Bool, true, false, List, [], ◌∷◌,
  arith, ◌==◌, if◌then◌else◌, Bool-cases, u32, u64,
}
use esp_now_harness.Harness.{Config, Mode, latency_load, saturation}
use esp_now_harness.Runtime.{System, M, Platform}
use esp_now_harness.Generator.Task.{
  Attempt, Outcome, bump, deadline_at, if_running, if_waited, wait_deadline, attempt, run_loop,
  generator_task, Mix, next_mix, keeps_running, plain_round, wait_round, plain_loop, mix_round,
  mix_deadline, mix_loop,
}
use esp_now_harness.Generator.Ends.{Clock, keeps_running-clock, plain_round-clock, mix_round-clock}

-- Every attempt but the last is due before the end.
abbrev pub DueBefore : ℕ → List Attempt → Type 0
DueBefore end_us [] = Unit {0}
DueBefore end_us (a ∷ []) = Unit {0}
DueBefore end_us (a ∷ b ∷ log) = (a.deadline_us < end_us) × DueBefore end_us (b ∷ log)

DueBefore-cons :
    (end_us : ℕ) (a : Attempt) (log : List Attempt)
    → DueBefore end_us log
    → (log ≡ []) ⊎ (a.deadline_us < end_us)
    → DueBefore end_us (a ∷ log)
DueBefore-cons end_us a [] h k = tt
DueBefore-cons end_us a (b ∷ log) h (inl e) = cc
DueBefore-cons end_us a (b ∷ log) h (inr l) = (l, h)

module _ {W : Type 0} (p : Platform W) (rest : ℕ → List ℕ) (x : Clock p) where
  open x use {clock}

  -- Where it returns, whatever fuel it has.
  wait_deadline_late :
      (fuel deadline_us : ℕ) (s : System W)
      → (wait_deadline p rest fuel deadline_us s).0 ≡ true
      → deadline_us ≤ clock (wait_deadline p rest fuel deadline_us s).1.world
  unfolding wait_deadline
  wait_deadline_late zero deadline_us s e = cc
  wait_deadline_late (suc fuel) deadline_us s e =
      let (now, t) = p.timer_get_time s in
      let ticks = p.ms_to_ticks ((deadline_us - now - 500) / 1000) in
      let u = (p.task_delay ticks t).1 in
      ground (
        arith,
        x.time_is s,
        x.delay_us_on (u32 (deadline_us - now)) t,
        wait_deadline_late fuel deadline_us u,
      )

  -- A log that begins at `s`: it is due before the end, and where it has an attempt the end had not come.
  abbrev Timely : ℕ → System W → List Attempt → Type 0
  Timely end_us s log = DueBefore end_us log × ((log ≡ []) ⊎ (clock s.world < end_us))

  running_Timely :
      (end_us : ℕ) (go : Bool) (more : M W Outcome) (s t : System W)
      → (go ≡ true → Timely end_us s (more t).0.attempts)
      → Timely end_us s (if_running go more t).0.attempts
  running_Timely end_us true more s t h = h refl
  running_Timely end_us false more s t h = (tt, inl refl)

  waited_Timely :
      (end_us : ℕ) (waited : Bool) (more : M W Outcome) (s t : System W)
      → (waited ≡ true → Timely end_us s (more t).0.attempts)
      → Timely end_us s (if_waited waited more t).0.attempts
  waited_Timely end_us true more s t h = h refl
  waited_Timely end_us false more s t h = (tt, inl refl)

  -- An attempt that is made after its deadline, before what follows it.
  Timely-cons :
      (end_us : ℕ) (a : Attempt) (log : List Attempt) (s u v : System W)
      → clock s.world < end_us
      → a.deadline_us ≤ clock u.world
      → clock u.world < clock v.world
      → Timely end_us v log
      → Timely end_us s (a ∷ log)
  Timely-cons end_us a log s u v before late on (due, more) =
      let next : (log ≡ []) ⊎ (a.deadline_us < end_us) = elim more [
        | inl e ↦ inl e
        | inr h ↦ inr (omega arith)
      ] in
      (DueBefore-cons end_us a log due next, inr before)

  wait_round_late :
      (waits rate start_us index : ℕ) (s : System W)
      → let (waited, t) = wait_round p rest waits rate start_us index s in
        waited ≡ true → (if rate == 0 then 0 else deadline_at start_us index rate) ≤ clock t.world
  unfolding wait_round
  wait_round_late waits rate start_us index s = elim (Bool-cases (rate == 0)) [
    | inl y ↦ rw y (λ e. omega arith)
    | inr n ↦ rw n (λ e. wait_deadline_late waits (deadline_at start_us index rate) s e)
  ]

  deadline-plain_round :
      (rate start_us index : ℕ) (ss : List ℕ) (s : System W)
      → (plain_round p rest rate start_us index ss s).0.deadline_us
        ≡ (if rate == 0 then 0 else deadline_at start_us index rate)
  unfolding plain_round attempt
  deadline-plain_round rate start_us index ss s = refl

  plain_loop-Timely :
      (waits fuel rate start_us end_us index : ℕ) (ss : List ℕ) (s : System W)
      → Timely end_us s (plain_loop p rest waits fuel rate start_us end_us index ss s).0.attempts
  unfolding plain_loop
  plain_loop-Timely waits zero rate start_us end_us index ss s = (tt, inl refl)
  plain_loop-Timely waits (suc fuel) rate start_us end_us index ss s =
      let (go, t) = keeps_running p rest end_us s in
      let (later, before_end) = keeps_running-clock p rest x end_us s in
      let (waited, u) = wait_round p rest waits rate start_us index t in
      let late = wait_round_late waits rate start_us index t in
      let (a, v) = plain_round p rest rate start_us index ss u in
      let log =
        (plain_loop p rest waits fuel rate start_us end_us (u64 (index + 1))
          (bump ss a.stream a.sent) v).0.attempts in
      running_Timely end_us go _ s t λ y. waited_Timely end_us waited _ s u λ w.
        let due : a.deadline_us ≤ clock u.world =
          rw (deadline-plain_round rate start_us index ss u) (late w) in
        Timely-cons end_us a log s u v (omega (arith, before_end y)) due
          (plain_round-clock p rest x rate start_us index ss u)
          (plain_loop-Timely waits fuel rate start_us end_us (u64 (index + 1))
            (bump ss a.stream a.sent) v)

  deadline-mix_round :
      (m : Mix) (s : System W) → (mix_round p rest m s).0.deadline_us ≡ mix_deadline p rest m
  unfolding mix_round attempt mix_deadline
  deadline-mix_round m s = ground arith

  mix_loop-Timely :
      (waits fuel start_us end_us : ℕ) (m : Mix) (s : System W)
      → Timely end_us s (mix_loop p rest waits fuel start_us end_us m s).0.attempts
  unfolding mix_loop
  mix_loop-Timely waits zero start_us end_us m s = (tt, inl refl)
  mix_loop-Timely waits (suc fuel) start_us end_us m s =
      let (go, t) = keeps_running p rest end_us s in
      let (later, before_end) = keeps_running-clock p rest x end_us s in
      let at = mix_deadline p rest m in
      let (waited, u) = wait_deadline p rest waits at t in
      let (a, v) = mix_round p rest m u in
      let next = next_mix v.node.config start_us m a in
      let log = (mix_loop p rest waits fuel start_us end_us next v).0.attempts in
      running_Timely end_us go _ s t λ y. waited_Timely end_us waited _ s u λ w.
        let due : a.deadline_us ≤ clock u.world =
          rw (deadline-mix_round m u) (wait_deadline_late waits at t w) in
        Timely-cons end_us a log s u v (omega (arith, before_end y)) due
          (mix_round-clock p rest x m u) (mix_loop-Timely waits fuel start_us end_us next v)

  run_loop-Timely :
      (mode : Mode) (waits fuel start_us end_us : ℕ) (c : Config) (s : System W)
      → Timely end_us s (run_loop p rest mode waits fuel c start_us end_us s).0.attempts
  unfolding run_loop
  run_loop-Timely latency_load waits fuel start_us end_us c s =
      mix_loop-Timely waits fuel start_us end_us _ s
  run_loop-Timely saturation waits fuel start_us end_us c s =
      plain_loop-Timely waits fuel 0 start_us end_us 0 _ s
  run_loop-Timely _ waits fuel start_us end_us c s =
      plain_loop-Timely waits fuel _ start_us end_us 0 _ s

  -- Of the packets that generator_task attempts, in every mode, all but the last are due before the end
  -- of the run, its start and its duration in 64 bits, where time passes as `Clock` says: no more than
  -- one packet is sent for a time after the end.
  pub generator_task-DueBefore :
      (waits fuel : ℕ) (s : System W)
      → let (start_us, t) = p.timer_get_time s in
        DueBefore
          (u64 (start_us + t.node.config.duration_us))
          (generator_task p rest waits fuel s).0.attempts
  unfolding generator_task
  generator_task-DueBefore waits fuel s =
      let (start_us, t) = p.timer_get_time s in
      let n = t.node in
      let c = n.config in
      let m = n.metrics in
      let u : System W = record t {
        node = record n { metrics = record m { start_us = start_us } };
      } in
      (run_loop-Timely c.mode waits fuel start_us (u64 (start_us + c.duration_us)) c u).0
