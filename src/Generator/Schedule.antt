-- ===== src/Generator/Schedule.antt =====
-- What the loops of generator_task in firmware/main/generator.c send, and when.
use esp_now_harness.Common.{
  ℕ, zero, suc, ◌+◌, ◌*◌, ◌/◌, ◌%◌, ◌≤◌, ◌<◌, ◌≡◌, refl, ap, ◌∙◌, Bool, true, false, List, [], ◌∷◌,
  map, arith, ◌==◌, not, if◌then◌else◌, u16, u64, get_or, length,
}
use mathlib.Core.Path.{ap₂}
use native.Mathlib.Nat.{mod-lt}
use esp_now_harness.Protocol.{packet_ping, packet_stream}
use esp_now_harness.Harness.{Config}
use esp_now_harness.Runtime.{System, M, Platform}
use esp_now_harness.Runtime.Frame.{Frame, CallsWithin}
use esp_now_harness.Generator.Task.{
  Attempt, Outcome, bump, deadline_at, if_running, if_waited, is_ping, attempt, keeps_running,
  plain_round, wait_round, plain_loop,
}
use esp_now_harness.Generator.Within.{keeps_running-Within, wait_round-Within, attempt-Within}
use esp_now_harness.Generator.Numbering.{Numbered}

-- The configuration stays.
abbrev pub SameConfig : {W : Type 0} → System W → System W → Type 0
SameConfig s s' = s'.node.config ≡ s.node.config

abbrev pub config_frame : {W : Type 0} → Frame {W = W} SameConfig
config_frame = record { same = λ s. refl; then_ = λ a b c h k. k ∙ h; metrics_free = λ f s. refl }

-- What a plain run is to attempt: round robin over the streams, one packet each 1/rate seconds, of
-- 1000000 us each, in 64 bits.
unfoldable pub plan : Config → ℕ → ℕ → ℕ → ℕ → List (ℕ × ℕ)
plan c rate start_us index zero = []
plan c rate start_us index (suc n) =
    (
      u16 (index % c.streams),
      if rate == 0 then 0 else u64 (start_us + u64 (index * 1000000) / rate),
    )
    ∷ plan c rate start_us (u64 (index + 1)) n

abbrev pub slot : Attempt → ℕ × ℕ
slot a = (a.stream, a.deadline_us)

-- Both facts of a log that begins at `index`.
abbrev pub IsPlain : Config → ℕ → ℕ → ℕ → List ℕ → List Attempt → Type 0
IsPlain c rate start_us index ss log =
    Numbered ss log × (map slot log ≡ plan c rate start_us index (length log))

pub turn_below : (i n : ℕ) → 1 ≤ n → n ≤ 16 → u16 (i % n) < 16
turn_below i n h k = let below : i % n < n = mod-lt i h in omega (arith, below)

module _ {W : Type 0} (p : Platform W) (rest : ℕ → List ℕ) (cw : CallsWithin SameConfig p) where
  pub running_log :
      (P : List Attempt → Type 0) (go : Bool) (more : M W Outcome) (t : System W)
      → P []
      → P (more t).0.attempts
      → P (if_running go more t).0.attempts
  running_log P true more t h k = k
  running_log P false more t h k = h

  pub waited_log :
      (P : List Attempt → Type 0) (waited : Bool) (more : M W Outcome) (t : System W)
      → P []
      → P (more t).0.attempts
      → P (if_waited waited more t).0.attempts
  waited_log P true more t h k = k
  waited_log P false more t h k = h

  plain_round_lem :
      (rate start_us index : ℕ) (ss : List ℕ) (c : Config) (s : System W)
      → s.node.config ≡ c
      → 1 ≤ c.streams
      → c.streams ≤ 16
      → let (a, t) = plain_round p rest rate start_us index ss s in
        (a.stream < 16)
        × (a.sequence ≡ get_or ss a.stream 0)
        × (slot a
            ≡ (u16 (index % c.streams), if rate == 0 then 0 else deadline_at start_us index rate))
        × (t.node.config ≡ c)
  unfolding plain_round attempt
  plain_round_lem rate start_us index ss c s e h k =
      let b = s.node.config in
      let streams = ap (λ (d : Config). d.streams) e in
      (
        turn_below index b.streams (omega (arith, streams)) (omega (arith, streams)),
        refl,
        ap
            (λ (d : Config).
              (u16 (index % d.streams), if rate == 0 then 0 else deadline_at start_us index rate))
            e,
        (attempt-Within config_frame p cw rest
                (if is_ping b.mode then packet_ping else packet_stream) (u16 (index % b.streams)) ss
                b.packet_size (if rate == 0 then 0 else deadline_at start_us index rate)
                (not (rate == 0))).at
              s
            ∙ e,
      )

  pub plain_loop-IsPlain :
      (waits fuel rate start_us end_us index : ℕ) (ss : List ℕ) (c : Config) (s : System W)
      → s.node.config ≡ c
      → 1 ≤ c.streams
      → c.streams ≤ 16
      → IsPlain c rate start_us index ss
          (plain_loop p rest waits fuel rate start_us end_us index ss s).0.attempts
  unfolding plain_loop plan deadline_at
  plain_loop-IsPlain waits zero rate start_us end_us index ss c s e h k = (tt, refl)
  plain_loop-IsPlain waits (suc fuel) rate start_us end_us index ss c s e h k =
      let (go, t) = keeps_running p rest end_us s in
      let at_t = (keeps_running-Within config_frame p cw rest end_us).at s ∙ e in
      let (waited, u) = wait_round p rest waits rate start_us index t in
      let at_u = (wait_round-Within config_frame p cw rest waits rate start_us index).at t ∙ at_t in
      let (a, v) = plain_round p rest rate start_us index ss u in
      let (below, number, slots, at_v) = plain_round_lem rate start_us index ss c u at_u h k in
      let (numbered, planned) =
        plain_loop-IsPlain waits fuel rate start_us end_us (u64 (index + 1))
          (bump ss a.stream a.sent) c v at_v h k in
      let P = IsPlain c rate start_us index ss in
      running_log P go _ t (tt, refl)
        (waited_log P waited _ u (tt, refl) ((below, number, numbered), ap₂ ◌∷◌ slots planned))
