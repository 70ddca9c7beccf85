-- ===== src/Control/Valid.antt =====
-- g_config of firmware/main/control.c is one that parse_config accepted, wherever it is in use.
use esp_now_harness.Common.{
  ◌≡◌, ◌⊎◌, inl, inr, ap, sym, ◌∙◌, Bool, true, false, List, ℕ, arith, Bool-cases,
}
use esp_now_harness.Harness.{Config, State, configured, armed, running}
use esp_now_harness.Runtime.{Node, System, set_config}
use esp_now_harness.Metrics.Distribution.Quantile.{Quantile}
use esp_now_harness.Control.Json.{Cjson}
use esp_now_harness.Control.Parse.{parse_config}
use esp_now_harness.Control.Accepted.{
  RunAccepted, RadioAccepted, TrafficAccepted, parse_config-Accepted, parsed_cases,
}
use esp_now_harness.Control.Calm.{Calm, IsCalm, CalmServices, Calm-refl}
use esp_now_harness.Control.Dispatch.{
  Services, is_running_or_armed, is_finished, send_state, apply_config, configure, arm, start,
  finish_run, stop, result, dispatch,
}
use esp_now_harness.Control.Step.{drained_ends, send_result-IsCalm, send_state-IsCalm}
use esp_now_harness.Control.Handlers.{arm_ends, start_ends, finish_run_ends}
use esp_now_harness.Control.Commands.{HandlersWithin, dispatch-Within}

-- A run is configured, and not yet over.
abbrev pub is_live : State → Bool
is_live configured = true
is_live armed = true
is_live running = true
is_live _ = false

abbrev pub IsAccepted : Config → Type 0
IsAccepted cfg = RunAccepted cfg × RadioAccepted cfg × TrafficAccepted cfg

abbrev pub IsValid : Node → Type 0
IsValid n = is_live n.state ≡ true → IsAccepted n.config

-- The configuration stays, and a state becomes live only from a live one; or the configuration is
-- a new one that is accepted.
unfoldable pub Renews : Node → Node → Type 0
Renews n n' =
    ((n'.config ≡ n.config) × (is_live n'.state ≡ true → is_live n.state ≡ true))
    ⊎ IsAccepted n'.config

pub IsValid-after : (n n' : Node) → IsValid n → Renews n n' → IsValid n'
unfolding Renews
IsValid-after n n' h (inl (same, live)) l = rw same (h (live l))
IsValid-after n n' h (inr a) l = a

pub Calm-Renews : (n n' : Node) → Calm n n' → Renews n n'
unfolding Renews
Calm-Renews n n' h = inl (
  h.config_kept,
  elim h.state_moves [
    | inl e ↦ λ l. ap is_live (sym e) ∙ l
    | inr (_, _, e) ↦ λ l. absurd (ground (arith, e, l))
  ],
)

Renews-trans : (a b c : Node) → Renews a b → Renews b c → Renews a c
unfolding Renews
Renews-trans a b c (inl (e, l)) (inl (f, m)) = inl (f ∙ e, λ h. l (m h))
Renews-trans a b c (inr x) (inl (f, m)) = inr (rw f x)
Renews-trans a b c h (inr y) = inr y

module _ {W J : Type 0} (v : Services W) (c : Cjson J) (sscanf : List ℕ → List ℕ)
    (ceil_times : Quantile → ℕ → ℕ) (laws : CalmServices v) where
  config-apply_config :
      (cfg : Config) (s : System W) → (apply_config v c sscanf ceil_times cfg s).1.node.config ≡ cfg
  unfolding apply_config send_state IsCalm
  config-apply_config cfg s =
      let t = (set_config cfg s).1 in
      let calm = laws.radio_configure_calm t in ground (arith, calm.config_kept)

  accepted-Renews :
      (cfg : Config) (s : System W)
      → IsAccepted cfg
      → Renews s.node (apply_config v c sscanf ceil_times cfg s).1.node
  unfolding Renews
  accepted-Renews cfg s h = inr (rw (config-apply_config cfg s) h)

  configure-Renews :
      (root : J) (s : System W) → Renews s.node (configure v c sscanf ceil_times root s).1.node
  unfolding configure Renews is_running_or_armed
  configure-Renews root s = elim (Bool-cases (is_running_or_armed s.node.state)) [
    | inl e ↦ rw e (Calm-Renews _ _ (Calm-refl s.node))
    | inr e ↦ rw e (elim (parsed_cases (parse_config c sscanf root)) [
      | inl (m, q) ↦ rw q (Calm-Renews _ _ (Calm-refl s.node))
      | inr (cfg, q) ↦ rw q (accepted-Renews cfg s (parse_config-Accepted c sscanf root cfg q))
    ])
  ]

  arm-Renews : (s : System W) → Renews s.node (arm v c sscanf ceil_times s).1.node
  unfolding Renews
  arm-Renews s = inl (ground (arith, arm_ends v c sscanf ceil_times laws s))

  start-Renews : (s : System W) → Renews s.node (start v c sscanf ceil_times s).1.node
  unfolding Renews
  start-Renews s = inl (ground (arith, start_ends v c sscanf ceil_times laws s))

  finish_run-Renews : (s : System W) → Renews s.node (finish_run v c sscanf ceil_times s).1.node
  unfolding Renews
  finish_run-Renews s = inl (ground (arith, finish_run_ends v c sscanf ceil_times laws s))

  stop-Renews : (s : System W) → Renews s.node (stop v c sscanf ceil_times s).1.node
  unfolding stop
  stop-Renews s =
      let (_, t) = finish_run v c sscanf ceil_times s in
      Renews-trans _ _ _ (finish_run-Renews s) (
        Calm-Renews _ _ (
          drained_ends v c sscanf ceil_times laws (send_state v c sscanf ceil_times) t
            (send_state-IsCalm v c sscanf ceil_times laws)))

  result-Renews : (s : System W) → Renews s.node (result v c sscanf ceil_times s).1.node
  unfolding result
  result-Renews s = elim (Bool-cases (is_finished s.node.state)) [
    | inl e ↦ rw e (
        Calm-Renews _ _ (
          drained_ends v c sscanf ceil_times laws _ s
            (send_result-IsCalm v c sscanf ceil_times laws)))
    | inr e ↦ rw e (Calm-Renews _ _ (Calm-refl s.node))
  ]

  each-Renews : HandlersWithin v c sscanf ceil_times (λ s t. Renews s.node t.node)
  unfolding IsCalm
  each-Renews = record {
    same = λ s. Calm-Renews _ _ (Calm-refl s.node);
    send_state_within = record {
      at = λ s. Calm-Renews _ _ (send_state-IsCalm v c sscanf ceil_times laws s);
    };
    configure_within = λ root. record { at = configure-Renews root };
    arm_within = record { at = arm-Renews };
    start_within = record { at = start-Renews };
    stop_within = record { at = stop-Renews };
    result_within = record { at = result-Renews };
  }

  pub dispatch-Renews :
      (root : J) (s : System W) → Renews s.node (dispatch v c sscanf ceil_times root s).1.node
  dispatch-Renews root s = (dispatch-Within v c sscanf ceil_times each-Renews root).at s
