-- ===== src/Generator/Accounts.antt =====
-- The counters of the run that send_one of firmware/main/generator.c keeps.
use esp_now_harness.Common.{
  ℕ, ◌+◌, ◌≡◌, ◌⊎◌, inl, inr, refl, ap, ◌∙◌, take, Bool, true, false, List, Option, none, some, u64,
  ltb, Bool-cases,
}
use esp_now_harness.Metrics.{
  Metrics, metrics_tx_requested, metrics_tx_submitted, metrics_tx_api_failure,
  metrics_tx_slot_timeout, metrics_dispatch_lateness,
}
use esp_now_harness.Runtime.{EspErr, is_ok, System, Platform, ◌>>◌, on_metrics}
use esp_now_harness.Radio.{radio_acquire_tx, radio_send_acquired, radio_release_tx}
use esp_now_harness.Generator.{after_send, no_slot, send_encoded, with_slot, send_one}

-- The counters that the task that sends keeps: requests, submissions, and the two failures.
pub record Accounts : Type 0 where
  pub requested : ℕ
  pub submitted : ℕ
  pub api_failures : ℕ
  pub slot_timeouts : ℕ

unfoldable pub accounts_of : Metrics → Accounts
accounts_of m =
    let t = m.totals in
    record {
      requested = t.tx_requested;
      submitted = t.tx_submitted;
      api_failures = t.send_api_failure;
      slot_timeouts = t.tx_slot_timeout;
    }

abbrev pub accounts : {W : Type 0} → System W → Accounts
accounts s = let n = s.node in accounts_of n.metrics

abbrev pub requested_one : Accounts → Accounts
requested_one a = record a { requested = u64 (a.requested + 1) }

abbrev pub submitted_one : Accounts → Accounts
submitted_one a = record a { submitted = u64 (a.submitted + 1) }

abbrev pub failed_one : Accounts → Accounts
failed_one a = record a { api_failures = u64 (a.api_failures + 1) }

abbrev pub timed_out_one : Accounts → Accounts
timed_out_one a = record a { slot_timeouts = u64 (a.slot_timeouts + 1) }

-- The system's calls, and what other tasks do meanwhile, leave the counters.
pub record Quiet {W : Type 0} (p : Platform W) : Type 0 where
  pub take_quiet : (ms : ℕ) (s : System W) → accounts (p.semaphore_take ms s).1 ≡ accounts s
  pub give_quiet : (s : System W) → accounts (p.semaphore_give s).1 ≡ accounts s
  pub time_quiet : (s : System W) → accounts (p.timer_get_time s).1 ≡ accounts s
  pub send_quiet :
      (mac bytes : List ℕ) (s : System W) → accounts (p.now_send mac bytes s).1 ≡ accounts s
  pub yield_quiet : (s : System W) → accounts (p.task_yield s).1 ≡ accounts s

-- The accounts after a packet: one more of the outcome.
unfoldable pub Counts : Bool → Accounts → Accounts → Type 0
Counts true a b = b ≡ submitted_one a
Counts false a b = (b ≡ failed_one a) ⊎ (b ≡ timed_out_one a)

accounts_of-requested :
    (m : Metrics) (stream : ℕ)
    → accounts_of (metrics_tx_requested m stream) ≡ requested_one (accounts_of m)
unfolding accounts_of metrics_tx_requested
accounts_of-requested m stream = elim (Bool-cases (ltb stream 16)) [
  | inl e ↦ rw e refl
  | inr e ↦ rw e refl
]

accounts_of-submitted :
    (m : Metrics) (stream size now : ℕ)
    → accounts_of (metrics_tx_submitted m stream size now) ≡ submitted_one (accounts_of m)
unfolding accounts_of metrics_tx_submitted
accounts_of-submitted m stream size now = elim (Bool-cases (ltb stream 16)) [
  | inl e ↦ rw e refl
  | inr e ↦ rw e refl
]

accounts_of-api_failure :
    (m : Metrics) → accounts_of (metrics_tx_api_failure m) ≡ failed_one (accounts_of m)
unfolding accounts_of metrics_tx_api_failure
accounts_of-api_failure m = refl

accounts_of-slot_timeout :
    (m : Metrics) → accounts_of (metrics_tx_slot_timeout m) ≡ timed_out_one (accounts_of m)
unfolding accounts_of metrics_tx_slot_timeout
accounts_of-slot_timeout m = refl

accounts_of-lateness :
    (m : Metrics) (now at : ℕ) → accounts_of (metrics_dispatch_lateness m now at) ≡ accounts_of m
unfolding accounts_of metrics_dispatch_lateness
accounts_of-lateness m now at = refl

module _ {W : Type 0} (p : Platform W) (rest : ℕ → List ℕ) (q : Quiet p) where
  after_send-Counts :
      (scheduled : Bool) (stream size now : ℕ) (e : EspErr) (s : System W)
      → let (sent, t) = after_send p rest scheduled stream size now e s in
        Counts sent (accounts s) (accounts t)
  unfolding after_send Counts
  after_send-Counts true stream size now e s = elim (Bool-cases (is_ok e)) [
    | inl y ↦ rw y (accounts_of-submitted _ stream size now)
    | inr n ↦ rw n (inl (accounts_of-api_failure _))
  ]
  after_send-Counts false stream size now e s = elim (Bool-cases (is_ok e)) [
    | inl y ↦ rw y (accounts_of-submitted _ stream size now)
    | inr n ↦ rw n (inl (q.yield_quiet _ ∙ accounts_of-api_failure _))
  ]

  no_slot-Counts :
      (scheduled : Bool) (at : ℕ) (s : System W)
      → let (sent, t) = no_slot p rest scheduled at s in Counts sent (accounts s) (accounts t)
  unfolding no_slot Counts
  no_slot-Counts true at s =
      let (now, t) = p.timer_get_time s in
      inr (
        accounts_of-slot_timeout _
        ∙ ap timed_out_one (accounts_of-lateness _ now at ∙ q.time_quiet s))
  no_slot-Counts false at s = inr (accounts_of-slot_timeout _)

  Counts-from : (sent : Bool) (a a' b : Accounts) → a' ≡ a → Counts sent a' b → Counts sent a b
  Counts-from sent a a' b e h = rw (← e) h

  send_acquired_quiet :
      (bytes : List ℕ) (s : System W) → accounts (radio_send_acquired p bytes s).1 ≡ accounts s
  unfolding radio_send_acquired
  send_acquired_quiet bytes s =
      let n = s.node in
      let c = n.config in
      let (e, t) = p.now_send c.peer_mac bytes s in
      elim (Bool-cases (is_ok e)) [
        | inl y ↦ rw y (q.send_quiet c.peer_mac bytes s)
        | inr n ↦ rw n (q.give_quiet t ∙ q.send_quiet c.peer_mac bytes s)
      ]

  released :
      (s : System W)
      → Counts false
          (accounts s)
          (accounts ((radio_release_tx p >> on_metrics metrics_tx_api_failure) s).1)
  unfolding radio_release_tx Counts
  released s = inl (accounts_of-api_failure _ ∙ ap failed_one (q.give_quiet s))

  send_encoded-Counts :
      (scheduled : Bool) (stream size now : ℕ) (encoded : Bool × Option (List ℕ)) (s : System W)
      → let (sent, t) = send_encoded p rest scheduled stream size now encoded s in
        Counts sent (accounts s) (accounts t)
  unfolding send_encoded
  send_encoded-Counts scheduled stream size now (true, some packet) s =
      let (e, t) = radio_send_acquired p (take size packet) s in
      Counts-from _ _ (accounts t) _ (send_acquired_quiet (take size packet) s)
        (after_send-Counts scheduled stream size now e t)
  send_encoded-Counts scheduled stream size now (true, none) s = released s
  send_encoded-Counts scheduled stream size now (false, packet) s = released s

  with_slot-Counts :
      (type stream sequence size at : ℕ) (scheduled : Bool) (s : System W)
      → let (sent, t) = with_slot p rest type stream sequence size at scheduled s in
        Counts sent (accounts s) (accounts t)
  unfolding with_slot
  with_slot-Counts type stream sequence size at true s =
      let (now, t) = p.timer_get_time s in
      Counts-from _ _ _ _ (accounts_of-lateness _ now at ∙ q.time_quiet s)
        (send_encoded-Counts true stream size now _ _)
  with_slot-Counts type stream sequence size at false s =
      let (now, t) = p.timer_get_time s in
      Counts-from _ _ _ _ (q.time_quiet s) (send_encoded-Counts false stream size now _ t)

  -- Every packet that the generator task tries to send is accounted for exactly once: send_one counts
  -- one request, and then either one submission, and returns true, or one failure of the driver or
  -- of the encoder or one slot timeout, and returns false; the other three counters keep their
  -- values. The system's calls are assumed to leave these counters (`Quiet`): no other task of a
  -- node that generates moves them.
  pub send_one-Counts :
      (type stream sequence size at : ℕ) (scheduled : Bool) (s : System W)
      → let (sent, t) = send_one p rest type stream sequence size at scheduled s in
        Counts sent (requested_one (accounts s)) (accounts t)
  unfolding send_one radio_acquire_tx
  send_one-Counts type stream sequence size at scheduled s =
      let (_, u) = on_metrics (λ m. metrics_tx_requested m stream) s in
      let (taken, t) = p.semaphore_take 100 u in
      let same = q.take_quiet 100 u ∙ accounts_of-requested _ stream in
      elim (Bool-cases taken) [
        | inl y ↦
            rw y
              (Counts-from _ _ _ _ same (with_slot-Counts type stream sequence size at scheduled t))
        | inr n ↦ rw n (Counts-from _ _ _ _ same (no_slot-Counts scheduled at t))
      ]
