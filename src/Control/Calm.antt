-- ===== src/Control/Calm.antt =====
-- What the other tasks may do to a node while the control task is inside a call: harness_state_t
-- and g_config of firmware/main/harness.h, `handle` of firmware/main/generator.c.
use esp_now_harness.Common.{◌≡◌, ◌≢◌, ◌⊎◌, inl, refl, ◌∙◌, true, false, arith}
use esp_now_harness.Harness.{error, finished}
use esp_now_harness.Runtime.{Node, System, M}
use esp_now_harness.Control.Dispatch.{Services}

-- Only the generator task sets g_state outside the dispatcher: at its end, to FINISHED unless it is
-- ERROR. Nothing but the dispatcher sets g_config, or starts the generator task.
pub record Calm (n n' : Node) : Type 0 where
  pub config_kept : n'.config ≡ n.config
  pub stays_stopped : n.handle ≡ false → n'.handle ≡ false
  pub state_moves :
      (n'.state ≡ n.state) ⊎ ((n.handle ≡ true) × (n.state ≢ error) × (n'.state ≡ finished))

unfoldable pub IsCalm : {W A : Type 0} → M W A → Type 0
IsCalm m = (s : _) → Calm s.node (m s).1.node

-- generator_start may make the task, which then may also run to its end.
pub record Started (n n' : Node) : Type 0 where
  pub config_kept : n'.config ≡ n.config
  pub state_moves : (n'.state ≡ n.state) ⊎ ((n.state ≢ error) × (n'.state ≡ finished))

-- The laws of the dispatcher's services.
pub record CalmServices {W : Type 0} (v : Services W) : Type 0 where
  pub timer_get_time_calm : IsCalm v.timer_get_time
  pub radio_configure_calm : IsCalm v.radio_configure
  pub radio_wait_idle_calm : (ms : _) → IsCalm (v.radio_wait_idle ms)
  pub receiver_flush_calm : (ms : _) → IsCalm (v.receiver_flush ms)
  pub generator_wait_stopped_calm : (ms : _) → IsCalm (v.generator_wait_stopped ms)
  pub generator_start_started : (s : System W) → Started s.node (v.generator_start s).1.node

pub Calm-refl : (n : Node) → Calm n n
Calm-refl n = record { config_kept = refl; stays_stopped = λ h. h; state_moves = inl refl }

pub Calm-trans : (a b c : Node) → Calm a b → Calm b c → Calm a c
Calm-trans a b c p q = record {
  config_kept = q.config_kept ∙ p.config_kept;
  stays_stopped = λ h. q.stays_stopped (p.stays_stopped h);
  state_moves = ground (arith, p.state_moves, q.state_moves, p.stays_stopped);
}
