-- ===== src/Generator/Accepted.antt =====
-- The loops of generator_task of firmware/main/generator.c, by the packets that the driver accepts.
use esp_now_harness.Common.{
  ℕ, zero, suc, ◌+◌, ◌-◌, ◌*◌, ◌/◌, ◌%◌, ◌^◌, ◌≤◌, ◌<◌, ◌≡◌, refl, ap, ◌∙◌, inl, inr, Bool, true,
  false, List, [], ◌∷◌, ◌++◌, map, arith, ltb, leb, ◌==◌, ◌&&◌, not, if◌then◌else◌, Bool-cases,
  get_or, length, u16, u32, u64,
}
use mathlib.Core.Path.{ap₂, subst}
use esp_now_harness.Protocol.{packet_ping, packet_stream}
use esp_now_harness.Harness.{Config, Mode, finished, latency_load, saturation}
use esp_now_harness.Runtime.{System, M, Platform, pure, ◌>>◌, ◌>>=◌, on_metrics, set_state}
use esp_now_harness.Runtime.Frame.{CallsWithin, at_if}
use esp_now_harness.Generator.{send_one}
use esp_now_harness.Generator.Task.{
  Attempt, Outcome, bump, Mix, next_mix, deadline_at, if_running, if_waited, is_ping, is_error,
  is_running, background_streams, wait_deadline, attempt, keeps_running, plain_round, wait_round,
  plain_loop, mix_round, mix_deadline, mix_loop, run_loop, finish, generator_task,
}
use esp_now_harness.Generator.Numbering.{numbers, count_up}
use esp_now_harness.Generator.Schedule.{SameConfig}
use esp_now_harness.Generator.Bytes.{one_if, carried}
use esp_now_harness.Generator.Carried.{Air, so_far, Adds, Adds-none, Adds-then, send_one-Adds}
use esp_now_harness.Generator.Mixture.{log_numbers}

map-u32-numbers :
    (k : ℕ) (a : Attempt) (log : List Attempt)
    → map u32 (numbers k (a ∷ log))
      ≡ one_if (a.sent && (a.stream == k)) (u32 a.sequence) ++ map u32 (numbers k log)
unfolding numbers
map-u32-numbers k a log = elim (Bool-cases (a.sent && (a.stream == k))) [
  | inl y ↦ rw y refl
  | inr n ↦ rw n refl
]

map-u32-count_up : (from n : ℕ) → from < 2 ^ 32 → map u32 (count_up from n) ≡ count_up from n
unfolding count_up
map-u32-count_up from zero h = refl
map-u32-count_up from (suc n) h =
    ap₂ ◌∷◌ (omega arith) (map-u32-count_up (u32 (from + 1)) n (omega arith))

module _ {W : Type 0} (p : Platform W) (rest : ℕ → List ℕ) (air : Air p) where
  wait_deadline_keeps :
      (fuel at : ℕ) (s : System W) → so_far air (wait_deadline p rest fuel at s).1 ≡ so_far air s
  unfolding wait_deadline
  wait_deadline_keeps zero at s = refl
  wait_deadline_keeps (suc fuel) at s =
      let (now, t) = p.timer_get_time s in
      let left = at - now in
      let ticks = p.ms_to_ticks ((left - 500) / 1000) in
      let later = (do p.task_delay ticks; wait_deadline p rest fuel at) in
      let busy = (do p.delay_us (u32 left); pure true) in
      let P = λ (r : Bool × System W). so_far air r.1 ≡ so_far air s in
      let start = air.time_keeps s in
      at_if P (leb at now) (pure true) (if ltb 2000 left then later else busy) t (λ y. start)
        (λ n.
          at_if P (ltb 2000 left) later busy t
            (λ y.
              wait_deadline_keeps fuel at (p.task_delay ticks t).1
              ∙ air.delay_keeps ticks t
              ∙ start)
            (λ n. air.delay_us_keeps (u32 left) t ∙ start))

  keeps_running_keeps :
      (end_us : ℕ) (s : System W) → so_far air (keeps_running p rest end_us s).1 ≡ so_far air s
  unfolding keeps_running
  keeps_running_keeps end_us s =
      let n = s.node in
      at_if (λ (r : Bool × System W). so_far air r.1 ≡ so_far air s) (is_running n.state)
        (do now ← p.timer_get_time; pure (ltb now end_us)) (pure false) s (λ y. air.time_keeps s)
        (λ n. refl)

  wait_round_keeps :
      (waits rate start_us index : ℕ) (s : System W)
      → so_far air (wait_round p rest waits rate start_us index s).1 ≡ so_far air s
  unfolding wait_round
  wait_round_keeps waits rate start_us index s =
      let at = deadline_at start_us index rate in
      at_if (λ (r : Bool × System W). so_far air r.1 ≡ so_far air s) (rate == 0) (pure true)
        (wait_deadline p rest waits at) s (λ y. refl) (λ n. wait_deadline_keeps waits at s)

  finish_keeps : (s : System W) → so_far air (finish p rest s).1 ≡ so_far air s
  unfolding finish
  finish_keeps s =
      let n = s.node in
      let stamp = (do now ← p.timer_get_time; on_metrics (λ m. record m { end_us = now })) in
      let (_, t) = (if is_running n.state then stamp else pure tt) s in
      let m = t.node in
      at_if (λ r. so_far air r.1 ≡ so_far air t) (is_error m.state) (pure tt) (set_state finished) t
        (λ y. refl) (λ n. refl)
      ∙ at_if (λ r. so_far air r.1 ≡ so_far air s) (is_running n.state) stamp (pure tt) s
          (λ y. air.time_keeps s) (λ n. refl)

  -- The numbers of the attempts that were sent, in order, are those of the accepted packets.
  abbrev Sends : ℕ → System W → Outcome × System W → Type 0
  Sends k s r = Adds air k (map u32 (numbers k r.0.attempts)) s r.1

  abbrev SendsOne : ℕ → System W → Attempt × System W → Type 0
  SendsOne k s r = Adds air k (one_if (r.0.sent && (r.0.stream == k)) (u32 r.0.sequence)) s r.1

  running-Sends :
      (k : ℕ) (go : Bool) (more : M W Outcome) (s t : System W)
      → so_far air t ≡ so_far air s
      → Sends k t (more t)
      → Sends k s (if_running go more t)
  unfolding numbers
  running-Sends k true more s t h l = Adds-then air k [] _ s t (more t).1 (Adds-none air k s t h) l
  running-Sends k false more s t h l = Adds-none air k s t h

  waited-Sends :
      (k : ℕ) (waited : Bool) (more : M W Outcome) (s t : System W)
      → so_far air t ≡ so_far air s
      → Sends k t (more t)
      → Sends k s (if_waited waited more t)
  unfolding numbers
  waited-Sends k true more s t h l = Adds-then air k [] _ s t (more t).1 (Adds-none air k s t h) l
  waited-Sends k false more s t h l = Adds-none air k s t h

  round-Sends :
      (k : ℕ) (s : System W) (r : Attempt × System W) (o : Outcome × System W)
      → SendsOne k s r
      → Sends k r.1 o
      → Adds air k (map u32 (numbers k (r.0 ∷ o.0.attempts))) s o.1
  round-Sends k s (a, t) (o, u) h l =
      rw (map-u32-numbers k a o.attempts) (Adds-then air k _ _ s t u h l)

  attempt-SendsOne :
      (k type stream : ℕ) (ss : List ℕ) (size at : ℕ) (scheduled : Bool) (s : System W)
      → type < 2 ^ 8
      → u16 stream ≡ stream
      → SendsOne k s (attempt p rest type stream ss size at scheduled s)
  unfolding attempt
  attempt-SendsOne k type stream ss size at scheduled s h e =
      let number = get_or ss stream 0 in
      let (sent, t) = send_one p rest type stream number size at scheduled s in
      let grown = send_one-Adds p rest air k type stream number size at scheduled s h in
      subst (λ j. Adds air k (one_if (sent && (j == k)) (u32 number)) s t) e grown

  plain_round-SendsOne :
      (k rate start_us index : ℕ) (ss : List ℕ) (s : System W)
      → SendsOne k s (plain_round p rest rate start_us index ss s)
  unfolding plain_round
  plain_round-SendsOne k rate start_us index ss s =
      let c = s.node.config in
      let at = if rate == 0 then 0 else deadline_at start_us index rate in
      let small : (if is_ping c.mode then packet_ping else packet_stream) < 2 ^ 8 = ground arith in
      attempt-SendsOne k (if is_ping c.mode then packet_ping else packet_stream)
        (u16 (index % c.streams)) ss c.packet_size at (not (rate == 0)) s small (omega arith)

  mix_round-SendsOne : (k : ℕ) (m : Mix) (s : System W) → SendsOne k s (mix_round p rest m s)
  unfolding mix_round
  mix_round-SendsOne k m s =
      let c = s.node.config in
      let turn = u16 (m.background_index % background_streams c.streams) in
      at_if (SendsOne k s) (leb m.next_probe_us m.next_background_us)
        (attempt p rest packet_ping 15 m.sequences c.packet_size m.next_probe_us true)
        (attempt p rest packet_stream turn m.sequences c.background_packet_size m.next_background_us
          true)
        s
        (λ y.
          attempt-SendsOne k packet_ping 15 m.sequences c.packet_size m.next_probe_us true s
            (omega arith) refl)
        (λ n.
          attempt-SendsOne k packet_stream turn m.sequences c.background_packet_size
            m.next_background_us true s (omega arith) (omega arith))

  plain_loop-Sends :
      (k waits fuel rate start_us end_us index : ℕ) (ss : List ℕ) (s : System W)
      → Sends k s (plain_loop p rest waits fuel rate start_us end_us index ss s)
  unfolding plain_loop numbers
  plain_loop-Sends k waits zero rate start_us end_us index ss s = Adds-none air k s s refl
  plain_loop-Sends k waits (suc fuel) rate start_us end_us index ss s =
      let (go, t) = keeps_running p rest end_us s in
      let (waited, u) = wait_round p rest waits rate start_us index t in
      let (a, v) = plain_round p rest rate start_us index ss u in
      let next = u64 (index + 1) in
      let ss' = bump ss a.stream a.sent in
      let more = plain_loop p rest waits fuel rate start_us end_us next ss' v in
      running-Sends k go _ s t (keeps_running_keeps end_us s) (
        waited-Sends k waited _ t u (wait_round_keeps waits rate start_us index t) (
          round-Sends k u (a, v) more (plain_round-SendsOne k rate start_us index ss u)
            (plain_loop-Sends k waits fuel rate start_us end_us next ss' v)))

  mix_loop-Sends :
      (k waits fuel start_us end_us : ℕ) (m : Mix) (s : System W)
      → Sends k s (mix_loop p rest waits fuel start_us end_us m s)
  unfolding mix_loop numbers
  mix_loop-Sends k waits zero start_us end_us m s = Adds-none air k s s refl
  mix_loop-Sends k waits (suc fuel) start_us end_us m s =
      let at = mix_deadline p rest m in
      let (go, t) = keeps_running p rest end_us s in
      let (waited, u) = wait_deadline p rest waits at t in
      let (a, v) = mix_round p rest m u in
      let c = v.node.config in
      let next = next_mix c start_us m a in
      let more = mix_loop p rest waits fuel start_us end_us next v in
      running-Sends k go _ s t (keeps_running_keeps end_us s) (
        waited-Sends k waited _ t u (wait_deadline_keeps waits at t) (
          round-Sends k u (a, v) more (mix_round-SendsOne k m u)
            (mix_loop-Sends k waits fuel start_us end_us next v)))

  run_loop-Sends :
      (k : ℕ) (mode : Mode) (waits fuel start_us end_us : ℕ) (c : Config) (s : System W)
      → Sends k s (run_loop p rest mode waits fuel c start_us end_us s)
  unfolding run_loop
  run_loop-Sends k latency_load waits fuel start_us end_us c s =
      mix_loop-Sends k waits fuel start_us end_us _ s
  run_loop-Sends k saturation waits fuel start_us end_us c s =
      plain_loop-Sends k waits fuel 0 start_us end_us 0 _ s
  run_loop-Sends k _ waits fuel start_us end_us c s =
      plain_loop-Sends k waits fuel (u64 (c.rate_per_stream * c.streams)) start_us end_us 0 _ s

  generator_task-Sends :
      (k waits fuel : ℕ) (s : System W) → Sends k s (generator_task p rest waits fuel s)
  unfolding generator_task
  generator_task-Sends k waits fuel s =
      let (start_us, t) = p.timer_get_time s in
      let c = t.node.config in
      let (_, u) = on_metrics (λ m. record m { start_us = start_us }) t in
      let end_us = u64 (start_us + c.duration_us) in
      let (o, v) = run_loop p rest c.mode waits fuel c start_us end_us u in
      let (_, w) = finish p rest v in
      Adds-then air k [] _ s u w (Adds-none air k s u (air.time_keeps s))
        (ap (carried k) (finish_keeps v) ∙ run_loop-Sends k c.mode waits fuel start_us end_us c u)

  -- On every stream the packets that the driver accepts from generator_task carry, in the bytes of
  -- the header, the sequence numbers 0, 1, 2 and so on, none left out and none twice, counted in 32
  -- bits, one for each call of send_one on the stream that returns true: in every mode, for any
  -- outcome of each attempt to send, if the configuration stays, has 1 to 16 streams, and only a
  -- successful esp_now_send adds to the packets that the driver accepted (`Air`).
  pub generator_task-numbers :
      CallsWithin SameConfig p
      → (waits fuel k : ℕ) (s : System W) → 1 ≤ s.node.config.streams
      → s.node.config.streams ≤ 16
      → let (o, t) = generator_task p rest waits fuel s in
        carried k (so_far air t)
        ≡ carried k (so_far air s) ++ count_up 0 (length (numbers k o.attempts))
  generator_task-numbers cw waits fuel k s h l =
      let (o, t) = generator_task p rest waits fuel s in
      let n = length (numbers k o.attempts) in
      let counted = log_numbers p rest cw waits fuel k s h l in
      generator_task-Sends k waits fuel s
      ∙ ap (λ ns. carried k (so_far air s) ++ ns)
          (ap (map u32) counted ∙ map-u32-count_up 0 n (omega arith))
