-- ===== src/Generator/Task.antt =====
-- generator_task and wait_deadline of firmware/main/generator.c. The loops run on fuel; each returns
-- the attempts to send that it made, in order, and whether it ended by its own test.
use esp_now_harness.Common.{
  ℕ, zero, suc, ◌+◌, ◌-◌, ◌*◌, ◌/◌, ◌%◌, Bool, true, false, not, List, [], ◌∷◌, ltb, leb, ◌==◌,
  if◌then◌else◌, u16, u32, u64, get_or, set, replicate,
}
use esp_now_harness.Harness.{
  Config, State, running, finished, error, Mode, ping, saturation, latency_load,
  harness_max_streams,
}
use esp_now_harness.Protocol.{packet_stream, packet_ping}
use esp_now_harness.Runtime.{
  M, Platform, pure, ◌>>=◌, ◌>>◌, get_node, set_state, set_handle, on_metrics,
}
use esp_now_harness.Generator.{send_one}

-- One call of send_one, and its result.
pub record Attempt : Type 0 where
  pub type : ℕ
  pub stream : ℕ
  pub sequence : ℕ
  pub size : ℕ
  pub deadline_us : ℕ
  pub scheduled : Bool
  pub sent : Bool

-- How a loop ended: `false` is fuel that ran out.
pub record Outcome : Type 0 where
  pub attempts : List Attempt
  pub ended : Bool

abbrev pub is_running : State → Bool
is_running running = true
is_running _ = false

abbrev pub is_error : State → Bool
is_error error = true
is_error _ = false

abbrev pub is_ping : Mode → Bool
is_ping ping = true
is_ping _ = false

-- `if (sent) sequences[stream]++;`
unfoldable pub bump : List ℕ → ℕ → Bool → List ℕ
bump sequences stream true = set sequences stream (u32 (get_or sequences stream 0 + 1))
bump sequences stream false = sequences

-- `start_us + index * 1000000ULL / rate`
unfoldable pub deadline_at : ℕ → ℕ → ℕ → ℕ
deadline_at start_us index rate = u64 (start_us + u64 (index * 1000000) / rate)

abbrev pub also : Attempt → Outcome → Outcome
also a o = record { attempts = a ∷ o.attempts; ended = o.ended }

-- The loop's test, and the wait before a round.
abbrev pub if_running : {W : Type 0} → Bool → M W Outcome → M W Outcome
if_running true more = more
if_running false more = pure (record { attempts = []; ended = true })

abbrev pub if_waited : {W : Type 0} → Bool → M W Outcome → M W Outcome
if_waited true more = more
if_waited false more = pure (record { attempts = []; ended = false })

-- The variables of the loop of MODE_LATENCY_LOAD.
pub record Mix : Type 0 where
  pub background_index : ℕ
  pub probe_index : ℕ
  pub next_background_us : ℕ
  pub next_probe_us : ℕ
  pub sequences : List ℕ

-- After a round.
unfoldable pub next_mix : Config → ℕ → Mix → Attempt → Mix
unfolding bump deadline_at
next_mix c start_us m a =
    let sequences = bump m.sequences a.stream a.sent in
    let probe_index = u64 (m.probe_index + 1) in
    let background_index = u64 (m.background_index + 1) in
    if leb m.next_probe_us m.next_background_us
    then record m {
      sequences = sequences;
      probe_index = probe_index;
      next_probe_us = deadline_at start_us probe_index c.probe_rate;
    }
    else record m {
      sequences = sequences;
      background_index = background_index;
      next_background_us = deadline_at start_us background_index c.background_rate;
    }

abbrev pub background_streams : ℕ → ℕ
background_streams streams = if ltb 15 streams then 15 else streams

module _ {W : Type 0} (p : Platform W) (rest : ℕ → List ℕ) where
  open p use {timer_get_time, task_delay, delay_us, ms_to_ticks}

  -- The loop of wait_deadline on fuel: whether it returned.
  unfoldable pub wait_deadline : ℕ → ℕ → M W Bool
  wait_deadline zero deadline_us = pure false
  wait_deadline (suc fuel) deadline_us = do
    now_us ← timer_get_time
    let remaining_us = deadline_us - now_us
    let later = do
      task_delay (ms_to_ticks ((remaining_us - 500) / 1000))
      wait_deadline fuel deadline_us
    if leb deadline_us now_us
        then pure true
        else if ltb 2000 remaining_us
        then later
        else (do delay_us (u32 remaining_us); pure true)

  unfoldable pub attempt : ℕ → ℕ → List ℕ → ℕ → ℕ → Bool → M W Attempt
  attempt type stream sequences size deadline_us scheduled = do
    let sequence = get_or sequences stream 0
    sent ← send_one p rest type stream sequence size deadline_us scheduled
    pure (record {
      type = type;
      stream = stream;
      sequence = sequence;
      size = size;
      deadline_us = deadline_us;
      scheduled = scheduled;
      sent = sent;
    })

  -- `g_state == STATE_RUNNING && (uint64_t)esp_timer_get_time() < end_us`
  unfoldable pub keeps_running : ℕ → M W Bool
  keeps_running end_us = do
    n ← get_node
    if is_running n.state then (do now ← timer_get_time; pure (ltb now end_us)) else pure false

  -- One round of the loop of the modes with one rate, which is 0 for saturation.
  unfoldable pub plain_round : ℕ → ℕ → ℕ → List ℕ → M W Attempt
  plain_round rate start_us index sequences = do
    n ← get_node
    let c = n.config
    let stream = u16 (index % c.streams)
    let type = if is_ping c.mode then packet_ping else packet_stream
    attempt type stream sequences c.packet_size
        (if rate == 0 then 0 else deadline_at start_us index rate) (not (rate == 0))

  -- `waits` is the fuel of each wait_deadline.
  unfoldable pub wait_round : ℕ → ℕ → ℕ → ℕ → M W Bool
  unfolding wait_deadline
  wait_round waits rate start_us index =
      if rate == 0 then pure true else wait_deadline waits (deadline_at start_us index rate)

  unfoldable pub plain_loop : ℕ → ℕ → ℕ → ℕ → ℕ → ℕ → List ℕ → M W Outcome
  plain_loop waits zero rate start_us end_us index sequences =
      pure (record { attempts = []; ended = false })
  plain_loop waits (suc fuel) rate start_us end_us index sequences = do
    go ← keeps_running end_us
    if_running go (do
      waited ← wait_round waits rate start_us index
      if_waited waited (do
        a ← plain_round rate start_us index sequences
        o ←
            plain_loop waits fuel rate start_us end_us (u64 (index + 1))
              (bump sequences a.stream a.sent)
        pure (also a o)))

  -- One round of the loop of MODE_LATENCY_LOAD: a probe, or a packet of the background.
  unfoldable pub mix_round : Mix → M W Attempt
  mix_round m = do
    n ← get_node
    let c = n.config
    if leb m.next_probe_us m.next_background_us
        then attempt packet_ping (harness_max_streams - 1) m.sequences c.packet_size m.next_probe_us
            true
        else attempt packet_stream (u16 (m.background_index % background_streams c.streams))
            m.sequences c.background_packet_size m.next_background_us true

  unfoldable pub mix_deadline : Mix → ℕ
  mix_deadline m =
      if leb m.next_probe_us m.next_background_us then m.next_probe_us else m.next_background_us

  unfoldable pub mix_loop : ℕ → ℕ → ℕ → ℕ → Mix → M W Outcome
  mix_loop waits zero start_us end_us m = pure (record { attempts = []; ended = false })
  mix_loop waits (suc fuel) start_us end_us m = do
    go ← keeps_running end_us
    if_running go (do
      waited ← wait_deadline waits (mix_deadline m)
      if_waited waited (do
        a ← mix_round m
        n ← get_node
        o ← mix_loop waits fuel start_us end_us (next_mix n.config start_us m a)
        pure (also a o)))

  -- After the loops.
  unfoldable pub finish : M W (Unit {0})
  finish = do
    n ← get_node
    (if is_running n.state
        then (do now ← timer_get_time; on_metrics (λ m. record m { end_us = now }))
        else pure tt)
    n' ← get_node
    (if is_error n'.state then pure tt else set_state finished)
    set_handle false

  unfoldable pub no_sequences : List ℕ
  no_sequences = replicate harness_max_streams 0

  unfoldable pub run_loop : Mode → ℕ → ℕ → Config → ℕ → ℕ → M W Outcome
  unfolding no_sequences
  run_loop latency_load waits fuel c start_us end_us = mix_loop waits fuel start_us end_us (record {
    background_index = 0;
    probe_index = 0;
    next_background_us = start_us;
    next_probe_us = start_us;
    sequences = no_sequences;
  })
  run_loop saturation waits fuel c start_us end_us =
      plain_loop waits fuel 0 start_us end_us 0 no_sequences
  run_loop _ waits fuel c start_us end_us =
      plain_loop waits fuel (u64 (c.rate_per_stream * c.streams)) start_us end_us 0 no_sequences

  unfoldable pub generator_task : ℕ → ℕ → M W Outcome
  generator_task waits fuel = do
    start_us ← timer_get_time
    n ← get_node
    on_metrics (λ m. record m { start_us = start_us })
    let c = n.config
    o ← run_loop c.mode waits fuel c start_us (u64 (start_us + c.duration_us))
    finish
    pure o
