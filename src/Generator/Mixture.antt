-- ===== src/Generator/Mixture.antt =====
-- The loop of MODE_LATENCY_LOAD of generator_task in firmware/main/generator.c, and the whole task.
use esp_now_harness.Common.{
  ℕ, zero, suc, ◌+◌, ◌*◌, ◌%◌, ◌≤◌, ◌<◌, ◌≡◌, ◌≢◌, refl, ap, ◌∙◌, sym, inl, inr, true, List, map,
  arith, leb, Bool-cases, u16, u64, get_or, replicate, length, length-replicate,
}
use esp_now_harness.Protocol.{packet_ping, packet_stream}
use esp_now_harness.Harness.{Config, Mode, latency_load, saturation}
use esp_now_harness.Runtime.{System, Platform}
use esp_now_harness.Runtime.Frame.{CallsWithin}
use esp_now_harness.Generator.Task.{
  Attempt, bump, Mix, next_mix, background_streams, wait_deadline, attempt, keeps_running,
  mix_round, mix_deadline, mix_loop, run_loop, no_sequences, generator_task,
}
use esp_now_harness.Generator.Within.{wait_deadline-Within, keeps_running-Within, attempt-Within}
use esp_now_harness.Generator.Numbering.{Numbered, numbers, count_up, numbers-Numbered}
use esp_now_harness.Generator.Schedule.{
  SameConfig, config_frame, turn_below, running_log, waited_log, plan, slot, plain_loop-IsPlain,
}

sequences-next_mix :
    (c : Config) (start_us : ℕ) (m : Mix) (a : Attempt)
    → (next_mix c start_us m a).sequences ≡ bump m.sequences a.stream a.sent
unfolding next_mix
sequences-next_mix c start_us m a = elim (Bool-cases (leb m.next_probe_us m.next_background_us)) [
  | inl e ↦ rw e refl
  | inr e ↦ rw e refl
]

background_range : (n : ℕ) → 1 ≤ n → (1 ≤ background_streams n) × (background_streams n ≤ 15)
background_range n h = ground arith

-- The packets in a second, of the modes with one rate.
abbrev pub rate_of : Mode → Config → ℕ
rate_of saturation c = 0
rate_of _ c = u64 (c.rate_per_stream * c.streams)

get_or-replicate : (n k : ℕ) → get_or (replicate n zero) k zero ≡ zero
unfolding replicate
get_or-replicate zero k = refl
get_or-replicate (suc n) zero = refl
get_or-replicate (suc n) (suc k) = get_or-replicate n k

module _ {W : Type 0} (p : Platform W) (rest : ℕ → List ℕ) (cw : CallsWithin SameConfig p) where
  mix_round_lem :
      (m : Mix) (c : Config) (s : System W)
      → s.node.config ≡ c
      → 1 ≤ c.streams
      → let (a, t) = mix_round p rest m s in
        (a.stream < 16) × (a.sequence ≡ get_or m.sequences a.stream 0) × (t.node.config ≡ c)
  unfolding mix_round attempt
  mix_round_lem m c s e h =
      let b = s.node.config in
      let streams = ap (λ (d : Config). d.streams) e in
      let (low, high) = background_range b.streams (omega (arith, streams)) in
      let turn = u16 (m.background_index % background_streams b.streams) in
      elim (Bool-cases (leb m.next_probe_us m.next_background_us)) [
        | inl y ↦ rw y (
          omega arith,
          refl,
          (attempt-Within config_frame p cw rest packet_ping 15 m.sequences b.packet_size
                  m.next_probe_us true).at
                s
              ∙ e,
        )
        | inr n ↦ rw n (
          turn_below m.background_index (background_streams b.streams) low (omega (arith, high)),
          refl,
          (attempt-Within config_frame p cw rest packet_stream turn m.sequences
                  b.background_packet_size m.next_background_us true).at
                s
              ∙ e,
        )
      ]

  mix_loop-Numbered :
      (waits fuel start_us end_us : ℕ) (m : Mix) (c : Config) (s : System W)
      → s.node.config ≡ c
      → 1 ≤ c.streams
      → Numbered m.sequences (mix_loop p rest waits fuel start_us end_us m s).0.attempts
  unfolding mix_loop
  mix_loop-Numbered waits zero start_us end_us m c s e h = tt
  mix_loop-Numbered waits (suc fuel) start_us end_us m c s e h =
      let (go, t) = keeps_running p rest end_us s in
      let at_t = (keeps_running-Within config_frame p cw rest end_us).at s ∙ e in
      let (waited, u) = wait_deadline p rest waits (mix_deadline p rest m) t in
      let at_u =
        (wait_deadline-Within config_frame p cw rest waits (mix_deadline p rest m)).at t ∙ at_t in
      let (a, v) = mix_round p rest m u in
      let (below, number, at_v) = mix_round_lem m c u at_u h in
      let next = next_mix v.node.config start_us m a in
      let numbered = mix_loop-Numbered waits fuel start_us end_us next c v at_v h in
      let log = (mix_loop p rest waits fuel start_us end_us next v).0.attempts in
      let P = Numbered m.sequences in
      running_log p rest cw P go _ t tt (
        waited_log p rest cw P waited _ u tt
          (below, number, rw (← sequences-next_mix v.node.config start_us m a) numbered))

  run_loop-Numbered :
      (mode : Mode) (waits fuel start_us end_us : ℕ) (c : Config) (s : System W)
      → s.node.config ≡ c
      → 1 ≤ c.streams
      → c.streams ≤ 16
      → Numbered (replicate 16 0) (run_loop p rest mode waits fuel c start_us end_us s).0.attempts
  unfolding run_loop no_sequences
  run_loop-Numbered latency_load waits fuel start_us end_us c s e h k =
      mix_loop-Numbered waits fuel start_us end_us _ c s e h
  run_loop-Numbered saturation waits fuel start_us end_us c s e h k =
      (plain_loop-IsPlain p rest cw waits fuel 0 start_us end_us 0 _ c s e h k).0
  run_loop-Numbered _ waits fuel start_us end_us c s e h k =
      (plain_loop-IsPlain p rest cw waits fuel _ start_us end_us 0 _ c s e h k).0

  run_loop-plan :
      (mode : Mode) (waits fuel start_us end_us : ℕ) (c : Config) (s : System W)
      → s.node.config ≡ c
      → 1 ≤ c.streams
      → c.streams ≤ 16
      → mode ≢ latency_load
      → let log = (run_loop p rest mode waits fuel c start_us end_us s).0.attempts in
        map slot log ≡ plan c (rate_of mode c) start_us 0 (length log)
  unfolding run_loop
  run_loop-plan latency_load waits fuel start_us end_us c s e h k l = absurd (l refl)
  run_loop-plan saturation waits fuel start_us end_us c s e h k l =
      (plain_loop-IsPlain p rest cw waits fuel 0 start_us end_us 0 _ c s e h k).1
  run_loop-plan _ waits fuel start_us end_us c s e h k l =
      (plain_loop-IsPlain p rest cw waits fuel _ start_us end_us 0 _ c s e h k).1

  -- The numbers of the calls of send_one.
  pub log_numbers :
      (waits fuel k : ℕ) (s : System W)
      → 1 ≤ s.node.config.streams
      → s.node.config.streams ≤ 16
      → let log = (generator_task p rest waits fuel s).0.attempts in
        numbers k log ≡ count_up 0 (length (numbers k log))
  unfolding generator_task
  log_numbers waits fuel k s h l =
      let (start_us, t) = p.timer_get_time s in
      let n = t.node in
      let c = n.config in
      let m = n.metrics in
      let u : System W = record t {
        node = record n { metrics = record m { start_us = start_us } };
      } in
      let streams = ap (λ (d : Config). d.streams) (cw.time_within.at s) in
      let end_us = u64 (start_us + c.duration_us) in
      let numbered =
        run_loop-Numbered c.mode waits fuel start_us end_us c u refl (omega (arith, streams))
          (omega (arith, streams)) in
      let log = (run_loop p rest c.mode waits fuel c start_us end_us u).0.attempts in
      numbers-Numbered log (replicate 16 0) k (length-replicate 16 0) numbered
      ∙ ap (λ i. count_up i (length (numbers k log))) (get_or-replicate 16 k)

  -- Outside latency under load, the attempts of generator_task go round robin over the streams, and the
  -- i-th has the deadline of `i` packets at the configured rate after the start (0 at saturation),
  -- which is `i * 1000000 / rate` microseconds in 64 bits, rounded down, if the configuration stays and
  -- has 1 to 16 streams.
  pub generator_task-plan :
      (waits fuel : ℕ) (s : System W)
      → 1 ≤ s.node.config.streams
      → s.node.config.streams ≤ 16
      → s.node.config.mode ≢ latency_load
      → let c = s.node.config in
        let log = (generator_task p rest waits fuel s).0.attempts in
        map slot log ≡ plan c (rate_of c.mode c) (p.timer_get_time s).0 0 (length log)
  unfolding generator_task
  generator_task-plan waits fuel s h k l =
      let (start_us, t) = p.timer_get_time s in
      let n = t.node in
      let c = n.config in
      let m = n.metrics in
      let u : System W = record t {
        node = record n { metrics = record m { start_us = start_us } };
      } in
      let same = cw.time_within.at s in
      let streams = ap (λ (d : Config). d.streams) same in
      let end_us = u64 (start_us + c.duration_us) in
      let log = (run_loop p rest c.mode waits fuel c start_us end_us u).0.attempts in
      run_loop-plan c.mode waits fuel start_us end_us c u refl (omega (arith, streams))
        (omega (arith, streams)) (λ e. l (sym (ap (λ (d : Config). d.mode) same) ∙ e))
      ∙ ap (λ (d : Config). plan d (rate_of d.mode d) start_us 0 (length log)) same
