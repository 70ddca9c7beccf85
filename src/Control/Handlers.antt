-- ===== src/Control/Handlers.antt =====
-- The step of each handler of dispatch of firmware/main/control.c.
use esp_now_harness.Common.{◌∙◌, ◌≡◌, ◌⊎◌, inl, inr, true, false, List, ℕ, arith, Bool-cases}
use esp_now_harness.Harness.{configured, armed, running, finished, error}
use esp_now_harness.Runtime.{Node, System}
use esp_now_harness.Metrics.Distribution.Quantile.{Quantile}
use esp_now_harness.Control.Json.{Cjson}
use esp_now_harness.Control.Calm.{Calm, IsCalm, CalmServices, Calm-refl}
use esp_now_harness.Control.Dispatch.{
  Services, is_running_or_armed, is_finished, send_state, apply_config, configure, arm, start,
  finish_run, stop, result,
}
use esp_now_harness.Control.Step.{
  Step, stays, configures, fails, arms, starts, starts_and_ends, start_fails, stops, Calm-Step,
  finished_stays, Calm-from, drained_ends, send_result-IsCalm, send_state-IsCalm,
}

-- The states after a request, and what stays as it was.
unfoldable pub Ends : Node → Node → Type 0
Ends n n' =
    Step n.handle n.state n'.state × (is_running_or_armed n.state ≡ true → n'.config ≡ n.config)

module _ {W J : Type 0} (v : Services W) (c : Cjson J) (sscanf : List ℕ → List ℕ)
    (ceil_times : Quantile → ℕ → ℕ) (laws : CalmServices v) where
  configure_ends :
      (root : J) (s : System W)
      → let n = (configure v c sscanf ceil_times root s).1.node in
        ((n.state ≡ s.node.state) × (n.config ≡ s.node.config))
        ⊎ ((is_running_or_armed s.node.state ≡ false)
            × ((n.state ≡ configured) ⊎ (n.state ≡ error)))
  unfolding configure apply_config send_state
  configure_ends root s = ground arith

  pub arm_ends :
      (s : System W)
      → let n = (arm v c sscanf ceil_times s).1.node in
        (n.config ≡ s.node.config)
        × ((n.state ≡ s.node.state) ⊎ ((s.node.state ≡ configured) × (n.state ≡ armed)))
  unfolding arm send_state
  arm_ends s = ground arith

  pub start_ends :
      (s : System W)
      → let n = (start v c sscanf ceil_times s).1.node in
        (n.config ≡ s.node.config)
        × ((n.state ≡ s.node.state)
            ⊎ ((s.node.state ≡ armed)
                × ((n.state ≡ running) ⊎ ((n.state ≡ finished) ⊎ (n.state ≡ error)))))
  unfolding start send_state IsCalm
  start_ends s =
      let (now, t) = v.timer_get_time s in
      let n = t.node in
      let m = n.metrics in
      let u : System W = record t {
        node = record n { metrics = record m { start_us = now }; state = running };
      } in
      let calm = laws.timer_get_time_calm s in
      let started = laws.generator_start_started u in
      ground (arith, calm.config_kept, started.config_kept, started.state_moves)

  -- Before the drain.
  pub finish_run_ends :
      (s : System W)
      → let n = (finish_run v c sscanf ceil_times s).1.node in
        (n.config ≡ s.node.config)
        × ((n ≡ s.node) ⊎ ((is_running_or_armed s.node.state ≡ true) × (n.state ≡ finished)))
  unfolding finish_run IsCalm
  finish_run_ends s =
      let n = s.node in
      let u : System W = record s { node = record n { state = finished } } in
      let calm = laws.timer_get_time_calm u in ground (arith, calm.config_kept, calm.state_moves)

  pub Calm-Ends : (n n' : Node) → Calm n n' → Ends n n'
  unfolding Ends
  Calm-Ends n n' h = (Calm-Step n n' h, λ _. h.config_kept)

  pub configure-Ends :
      (root : J) (s : System W) → Ends s.node (configure v c sscanf ceil_times root s).1.node
  unfolding Ends
  configure-Ends root s = elim (configure_ends root s) [
    | inl (e, k) ↦ (rw e stays, λ _. k)
    | inr (h, inl e) ↦ (rw e (configures h), λ r. absurd (ground (arith, h, r)))
    | inr (h, inr e) ↦ (rw e (fails h), λ r. absurd (ground (arith, h, r)))
  ]

  pub arm-Ends : (s : System W) → Ends s.node (arm v c sscanf ceil_times s).1.node
  unfolding Ends
  arm-Ends s =
      let (k, m) = arm_ends s in
      elim m [ inl e ↦ (rw e stays, λ _. k) | inr (a, e) ↦ (rw (e, a) arms, λ _. k) ]

  pub start-Ends : (s : System W) → Ends s.node (start v c sscanf ceil_times s).1.node
  unfolding Ends
  start-Ends s =
      let (k, m) = start_ends s in
      elim m [
        | inl e ↦ (rw e stays, λ _. k)
        | inr (a, inl e) ↦ (rw (e, a) starts, λ _. k)
        | inr (a, inr (inl e)) ↦ (rw (e, a) starts_and_ends, λ _. k)
        | inr (a, inr (inr e)) ↦ (rw (e, a) start_fails, λ _. k)
      ]

  pub stop-Ends : (s : System W) → Ends s.node (stop v c sscanf ceil_times s).1.node
  unfolding Ends stop
  stop-Ends s =
      let (_, t) = finish_run v c sscanf ceil_times s in
      let calm =
        drained_ends v c sscanf ceil_times laws (send_state v c sscanf ceil_times) t
          (send_state-IsCalm v c sscanf ceil_times laws) in
      let (k, m) = finish_run_ends s in
      elim m [
        | inl e ↦ Calm-Ends s.node _ (Calm-from s.node t.node _ e calm)
        | inr (h, e) ↦ (rw (finished_stays _ _ calm e) (stops h), λ _. calm.config_kept ∙ k)
      ]

  pub result-Ends : (s : System W) → Ends s.node (result v c sscanf ceil_times s).1.node
  unfolding result
  result-Ends s = elim (Bool-cases (is_finished s.node.state)) [
    | inl e ↦ rw e (
        Calm-Ends _ _ (
          drained_ends v c sscanf ceil_times laws _ s
            (send_result-IsCalm v c sscanf ceil_times laws)))
    | inr e ↦ rw e (Calm-Ends _ _ (Calm-refl s.node))
  ]
