-- ===== src/Runtime/Frame.antt =====
-- Code of the state monad that moves the system only within a relation, whatever it is: what each
-- call of the system keeps to, the code keeps to.
use esp_now_harness.Common.{ℕ, ◌≡◌, refl, Bool, true, false, List, if◌then◌else◌}
use esp_now_harness.Metrics.{Metrics}
use esp_now_harness.Runtime.{System, M, Platform, pure, ◌>>=◌, get_node, on_metrics}

pub record Within {W A : Type 0} (R : System W → System W → Type 0) (m : M W A) : Type 0 where
  pub at : (s : System W) → R s (m s).1

-- A property of the result and the state after a branch.
pub at_if :
    {W A : Type 0} (P : A × System W → Type 0) (b : Bool) (m n : M W A) (s : System W)
    → (b ≡ true → P (m s))
    → (b ≡ false → P (n s))
    → P ((if b then m else n) s)
at_if P true m n s h k = h refl
at_if P false m n s h k = k refl

-- A relation between the system before and after, which says nothing of the metrics.
pub record Frame {W : Type 0} (R : System W → System W → Type 0) : Type 0 where
  pub same : (s : System W) → R s s
  pub then_ : (a b c : System W) → R a b → R b c → R a c
  pub metrics_free : (f : Metrics → Metrics) (s : System W) → R s (on_metrics f s).1

-- The calls of the system, with what the other tasks do meanwhile.
pub record CallsWithin {W : Type 0} (R : System W → System W → Type 0) (p : Platform W)
    : Type 0 where
  pub take_within : (ms : ℕ) → Within R (p.semaphore_take ms)
  pub give_within : Within R p.semaphore_give
  pub time_within : Within R p.timer_get_time
  pub send_within : (mac bytes : List ℕ) → Within R (p.now_send mac bytes)
  pub delay_within : (ticks : ℕ) → Within R (p.task_delay ticks)
  pub delay_us_within : (us : ℕ) → Within R (p.delay_us us)
  pub yield_within : Within R p.task_yield
  pub tick_within : Within R p.tick_count
  pub notify_within : (ms : ℕ) → Within R (p.notify_take ms)

module _ {W : Type 0} {R : System W → System W → Type 0} (fr : Frame R) where
  pub Within-pure : {A : Type 0} (a : A) → Within {W = W} R (pure a)
  Within-pure a = record { at = λ s. fr.same s }

  pub Within-bind :
      {A B : Type 0} (m : M W A) (f : A → M W B)
      → Within R m
      → ((a : A) → Within R (f a))
      → Within R (m >>= f)
  Within-bind m f h k = record {
    at = λ s. let (a, t) = m s in fr.then_ _ _ _ (h.at s) ((k a).at t);
  }

  pub Within-if :
      {A : Type 0} (b : Bool) (m n : M W A)
      → Within R m
      → Within R n
      → Within R (if b then m else n)
  Within-if true m n h k = h
  Within-if false m n h k = k

  pub Within-get_node : Within {W = W} R get_node
  Within-get_node = record { at = λ s. fr.same s }

  pub Within-on_metrics : (f : Metrics → Metrics) → Within {W = W} R (on_metrics f)
  Within-on_metrics f = record { at = fr.metrics_free f }
