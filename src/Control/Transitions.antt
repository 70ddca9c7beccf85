-- ===== src/Control/Transitions.antt =====
-- What one request does to the state and the configuration of a node: dispatch of
-- firmware/main/control.c.
use esp_now_harness.Common.{◌≡◌, true, List, ℕ}
use esp_now_harness.Runtime.{System}
use esp_now_harness.Metrics.Distribution.Quantile.{Quantile}
use esp_now_harness.Control.Json.{Cjson}
use esp_now_harness.Control.Calm.{IsCalm, CalmServices, Calm-refl}
use esp_now_harness.Control.Dispatch.{Services, is_running_or_armed, dispatch}
use esp_now_harness.Control.Commands.{HandlersWithin, dispatch-Within}
use esp_now_harness.Control.Step.{Step, send_state-IsCalm}
use esp_now_harness.Control.Handlers.{
  Ends, Calm-Ends, configure-Ends, arm-Ends, start-Ends, stop-Ends, result-Ends,
}

module _ {W J : Type 0} (v : Services W) (c : Cjson J) (sscanf : List ℕ → List ℕ)
    (ceil_times : Quantile → ℕ → ℕ) (laws : CalmServices v) where
  each-Ends : HandlersWithin v c sscanf ceil_times (λ s t. Ends s.node t.node)
  unfolding IsCalm
  each-Ends = record {
    same = λ s. Calm-Ends v c sscanf ceil_times laws _ _ (Calm-refl s.node);
    send_state_within = record {
      at = λ s.
          Calm-Ends v c sscanf ceil_times laws _ _ (send_state-IsCalm v c sscanf ceil_times laws s);
    };
    configure_within = λ root. record { at = configure-Ends v c sscanf ceil_times laws root };
    arm_within = record { at = arm-Ends v c sscanf ceil_times laws };
    start_within = record { at = start-Ends v c sscanf ceil_times laws };
    stop_within = record { at = stop-Ends v c sscanf ceil_times laws };
    result_within = record { at = result-Ends v c sscanf ceil_times laws };
  }

  -- One request at a node, for any services that keep to the laws of CalmServices: the state makes a
  -- step of `Step`. It stays; or CONFIGURED becomes ARMED; or ARMED becomes RUNNING, at once FINISHED,
  -- or ERROR; or ARMED or RUNNING becomes FINISHED; or a state that is neither becomes CONFIGURED or
  -- ERROR; or, where a generator task exists, a state other than ERROR becomes FINISHED. While the
  -- node is ARMED or RUNNING the configuration stays as it is.
  pub dispatch-Step :
      (root : J) (s : System W)
      → let n = (dispatch v c sscanf ceil_times root s).1.node in
        Step s.node.handle s.node.state n.state
        × (is_running_or_armed s.node.state ≡ true → n.config ≡ s.node.config)
  unfolding Ends
  dispatch-Step root s = (dispatch-Within v c sscanf ceil_times each-Ends root).at s
