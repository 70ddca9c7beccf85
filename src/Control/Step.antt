-- ===== src/Control/Step.antt =====
-- The steps that dispatch of firmware/main/control.c makes between the states of a node, and what
-- its waits leave as it was.
use esp_now_harness.Common.{◌≡◌, ◌≢◌, inl, inr, refl, Bool, true, false, List, ℕ, arith}
use esp_now_harness.Harness.{State, configured, armed, running, finished, error}
use esp_now_harness.Runtime.{Node, System, M}
use esp_now_harness.Metrics.Distribution.Quantile.{Quantile}
use esp_now_harness.Control.Json.{Cjson}
use esp_now_harness.Control.Calm.{Calm, IsCalm, CalmServices, Calm-refl, Calm-trans}
use esp_now_harness.Control.Dispatch.{
  Services, Body, is_running_or_armed, when_true, if_drained, and_also, send_state, wait_idle_ok,
  drain_measurement_events, stopped_and_drained, when_drained, send_result,
}

-- One request at a node whose generator task exists (`task`) or not.
pub data Step (task : Bool) : State → State → Type 0 where
  stays : {a : State} → Step task a a
  ended : {a : State} → task ≡ true → a ≢ error → Step task a finished
  configures : {a : State} → is_running_or_armed a ≡ false → Step task a configured
  fails : {a : State} → is_running_or_armed a ≡ false → Step task a error
  arms : Step task configured armed
  starts : Step task armed running
  starts_and_ends : Step task armed finished
  start_fails : Step task armed error
  stops : {a : State} → is_running_or_armed a ≡ true → Step task a finished

pub Calm-from : (n n' n'' : Node) → n' ≡ n → Calm n' n'' → Calm n n''
Calm-from n n' n'' e h = rw (← e) h

pub finished_stays : (n n' : Node) → Calm n n' → n.state ≡ finished → n'.state ≡ finished
finished_stays n n' c h = ground (arith, c.state_moves, h)

pub Calm-Step : (n n' : Node) → Calm n n' → Step n.handle n.state n'.state
Calm-Step n n' c = elim c.state_moves [ inl e ↦ rw e stays | inr (t, k, e) ↦ rw e (ended t k) ]

when_true-IsCalm :
    {W : Type 0} (first : Bool) (b : M W Bool) (n : Node) (s : System W)
    → Calm n s.node
    → IsCalm b
    → Calm n (when_true first b s).1.node
unfolding IsCalm
when_true-IsCalm true b n s h k = Calm-trans _ _ _ h (k s)
when_true-IsCalm false b n s h k = h

and_also-IsCalm : {W : Type 0} (a b : M W Bool) → IsCalm a → IsCalm b → IsCalm (and_also a b)
unfolding IsCalm
and_also-IsCalm a b h k s = let (first, t) = a s in when_true-IsCalm first b s.node t (h s) k

if_drained-IsCalm :
    {W : Type 0} (drained : Bool) (reply : M W Body) (n : Node) (s : System W)
    → Calm n s.node
    → IsCalm reply
    → Calm n (if_drained drained reply s).1.node
unfolding IsCalm
if_drained-IsCalm true reply n s h k = Calm-trans _ _ _ h (k s)
if_drained-IsCalm false reply n s h k = h

module _ {W J : Type 0} (v : Services W) (c : Cjson J) (sscanf : List ℕ → List ℕ)
    (ceil_times : Quantile → ℕ → ℕ) (laws : CalmServices v) where
  wait_idle_ok-IsCalm : (ms : ℕ) → IsCalm (wait_idle_ok v c sscanf ceil_times ms)
  unfolding wait_idle_ok IsCalm
  wait_idle_ok-IsCalm ms s = laws.radio_wait_idle_calm ms s

  pub drain_measurement_events-IsCalm : IsCalm (drain_measurement_events v c sscanf ceil_times)
  unfolding drain_measurement_events
  drain_measurement_events-IsCalm =
      let flush = laws.receiver_flush_calm 2000 in
      let idle = wait_idle_ok-IsCalm 2000 in
      and_also-IsCalm _ _ flush
        (and_also-IsCalm _ _ idle (and_also-IsCalm _ _ flush (and_also-IsCalm _ _ idle flush)))

  stopped_and_drained-IsCalm : IsCalm (stopped_and_drained v c sscanf ceil_times)
  unfolding stopped_and_drained
  stopped_and_drained-IsCalm =
      and_also-IsCalm _ _ (laws.generator_wait_stopped_calm 2000) drain_measurement_events-IsCalm

  pub drained_ends :
      (reply : M W Body) (s : System W)
      → IsCalm reply
      → Calm s.node (when_drained v c sscanf ceil_times reply s).1.node
  unfolding when_drained IsCalm
  drained_ends reply s h =
      let (drained, t) = stopped_and_drained v c sscanf ceil_times s in
      if_drained-IsCalm drained reply s.node t (stopped_and_drained-IsCalm s) h

  pub send_result-IsCalm : IsCalm (send_result v c sscanf ceil_times)
  unfolding send_result IsCalm
  send_result-IsCalm s = record {
    config_kept = refl;
    stays_stopped = λ h. h;
    state_moves = inl refl;
  }

  pub send_state-IsCalm : IsCalm (send_state v c sscanf ceil_times)
  unfolding send_state IsCalm
  send_state-IsCalm s = Calm-refl s.node
