-- ===== src/Generator/Stop.antt =====
-- generator_wait_stopped of firmware/main/generator.c.
use esp_now_harness.Common.{
  ℕ, zero, suc, ◌+◌, ◌*◌, ◌-◌, ◌/◌, ◌^◌, ◌≤◌, ◌<◌, ◌≡◌, ◌⊎◌, inl, inr, refl, ap, ◌∙◌, Bool, true,
  false, Option, none, some, arith, ltb, leb, if◌then◌else◌, u32,
}
use esp_now_harness.Runtime.Frame.{at_if}
use esp_now_harness.Common.Division.{div_mono, lt_of_div}
use esp_now_harness.Runtime.{System, M, Platform, pure, ◌>>=◌, ◌>>◌, get_node}

-- `(int32_t)(xTaskGetTickCount() - deadline) >= 0`
unfoldable pub expired : ℕ → ℕ → Bool
expired now deadline = ltb (u32 (now + 2 ^ 32 - deadline)) (2 ^ 31)

module _ {W : Type 0} (p : Platform W) where
  open p use {tick_count, task_delay, ms_to_ticks}

  -- The loop on fuel; `none` is fuel that ran out.
  unfoldable pub stopped_before : ℕ → ℕ → M W (Option Bool)
  unfolding expired
  stopped_before zero deadline = pure none
  stopped_before (suc fuel) deadline = do
    n ← get_node
    let check = do
      now ← tick_count
      let wait = do task_delay (ms_to_ticks 1); stopped_before fuel deadline
      if expired now deadline then pure (some false) else wait
    if n.handle then check else pure (some true)

  unfoldable pub generator_wait_stopped : ℕ → ℕ → M W (Option Bool)
  unfolding stopped_before
  generator_wait_stopped fuel timeout_ms = do
    now ← tick_count
    stopped_before fuel (u32 (now + ms_to_ticks timeout_ms))

-- The count of ticks since the start, of which xTaskGetTickCount shows 32 bits. A tick is `period` of
-- the steps by which time passes; the delay of the loop, of no tick even, takes one of them, and no call
-- takes 2^30 ticks.
pub record Ticks {W : Type 0} (p : Platform W) : Type 0 where
  pub period : ℕ
  pub period_pos : 1 ≤ period
  pub time : W → ℕ
  pub count_is : (s : System W) → (p.tick_count s).0 ≡ u32 (time (p.tick_count s).1.world / period)
  pub count_on :
      (s : System W)
      → (time s.world ≤ time (p.tick_count s).1.world)
        × (time (p.tick_count s).1.world / period < time s.world / period + 2 ^ 30)
  pub delay_on :
      (s : System W)
      → let t = (p.task_delay (p.ms_to_ticks 1) s).1 in
        (time s.world < time t.world) × (time t.world / period < time s.world / period + 2 ^ 30)

expired_lem :
    (at deadline : ℕ)
    → deadline ≤ at + 2 ^ 31
    → at < deadline + 2 ^ 31
    → expired (u32 at) (u32 deadline) ≡ leb deadline at
unfolding expired
expired_lem at deadline h k = ground arith

module _ {W : Type 0} (p : Platform W) (x : Ticks p) where
  open x use {period, time}

  -- The ticks until now.
  abbrev at : System W → ℕ
  at s = time s.world / period

  -- What the result says: the task is gone, or the time is over.
  abbrev pub Told : ℕ → Option Bool × System W → Type 0
  Told deadline (r, t) =
      ((r ≡ some true) × (t.node.handle ≡ false)) ⊎ ((r ≡ some false) × (deadline ≤ at t))

  stopped_before-Told :
      (fuel deadline : ℕ) (s : System W)
      → deadline ≤ at s + 2 ^ 31
      → at s < deadline + 2 ^ 30
      → deadline * period - time s.world < fuel
      → Told deadline (stopped_before p fuel (u32 deadline) s)
  unfolding stopped_before
  stopped_before-Told zero deadline s h k f = absurd (omega arith)
  stopped_before-Told (suc fuel) deadline s h k f =
      let (now, t) = p.tick_count s in
      let is = x.count_is s in
      let (on, short) = x.count_on s in
      let u = (p.task_delay (p.ms_to_ticks 1) t).1 in
      let (on', short') = x.delay_on t in
      let up = div_mono (time s.world) (time t.world) period x.period_pos on in
      let up' = div_mono (time t.world) (time u.world) period x.period_pos (omega arith) in
      let test : expired now (u32 deadline) ≡ leb deadline (at t) =
        rw is (expired_lem (at t) deadline (omega arith) (omega arith)) in
      at_if (Told deadline) s.node.handle _ _ s
        (λ y.
          at_if (Told deadline) (expired now (u32 deadline)) _ _ t
            (λ over. inr (refl, ground (arith, test, over)))
            (λ soon.
              let before_end : at t < deadline = ground (arith, test, soon) in
              let left = lt_of_div (time t.world) deadline period x.period_pos before_end in
              stopped_before-Told fuel deadline u (omega arith) (omega arith) (omega arith)))
        (λ n. inl (refl, n))

  -- generator_wait_stopped returns, with fuel above the time that it may wait: true only if the
  -- generator's task is gone then, and false only once its timeout has passed, which its 32 bit
  -- comparison of ticks tells rightly, for a timeout below 2^31 ticks.
  pub generator_wait_stopped-Told :
      (fuel timeout_ms : ℕ) (s : System W)
      → p.ms_to_ticks timeout_ms < 2 ^ 31
      → let t = (p.tick_count s).1 in
        let deadline = at t + p.ms_to_ticks timeout_ms in
        deadline * period - time t.world < fuel
        → Told deadline (generator_wait_stopped p fuel timeout_ms s)
  unfolding generator_wait_stopped
  generator_wait_stopped-Told fuel timeout_ms s h f =
      let (now, t) = p.tick_count s in
      let deadline = at t + p.ms_to_ticks timeout_ms in
      let is = x.count_is s in
      let same : u32 (now + p.ms_to_ticks timeout_ms) ≡ u32 deadline = omega (arith, is) in
      rw same (stopped_before-Told fuel deadline t (omega arith) (omega arith) f)

-- Where neither reading the ticks nor a delay of zero ticks lets the generator's task run.
pub record Starved {W : Type 0} (p : Platform W) : Type 0 where
  pub no_tick : p.ms_to_ticks 1 ≡ 0
  pub count_keeps : (s : System W) → (p.tick_count s).1.node.handle ≡ s.node.handle
  pub delay_keeps : (s : System W) → (p.task_delay 0 s).1.node.handle ≡ s.node.handle

module _ {W : Type 0} (p : Platform W) (x : Ticks p) (y : Starved p) where
  handle-stopped_before :
      (fuel deadline : ℕ) (s : System W)
      → s.node.handle ≡ true
      → (stopped_before p fuel deadline s).1.node.handle ≡ true
  unfolding stopped_before
  handle-stopped_before zero deadline s h = h
  handle-stopped_before (suc fuel) deadline s h =
      let (now, t) = p.tick_count s in
      let u = (p.task_delay (p.ms_to_ticks 1) t).1 in
      let still : u.node.handle ≡ true =
        ap (λ k. (p.task_delay k t).1.node.handle) y.no_tick
        ∙ y.delay_keeps t
        ∙ y.count_keeps s
        ∙ h in
      let P : Option Bool × System W → Type 0 = λ r. r.1.node.handle ≡ true in
      at_if P s.node.handle _ _ s
        (λ _.
          at_if P (expired now deadline) _ _ t (λ _. y.count_keeps s ∙ h)
            (λ _. handle-stopped_before fuel deadline u still))
        (λ _. h)

  -- At a tick longer than a millisecond generator_wait_stopped waits in delays of zero ticks. Where such
  -- a delay does not let the generator's task run, as it has the lower priority, the task never ends
  -- meanwhile, and generator_wait_stopped times out.
  pub generator_wait_stopped_starved :
      (fuel timeout_ms : ℕ) (s : System W)
      → s.node.handle ≡ true
      → p.ms_to_ticks timeout_ms < 2 ^ 31
      → let t = (p.tick_count s).1 in
        (at p x t + p.ms_to_ticks timeout_ms) * x.period - x.time t.world < fuel
        → (generator_wait_stopped p fuel timeout_ms s).0 ≡ some false
  unfolding generator_wait_stopped
  generator_wait_stopped_starved fuel timeout_ms s h k f =
      let (now, t) = p.tick_count s in
      let told = generator_wait_stopped-Told p x fuel timeout_ms s k f in
      let still =
        handle-stopped_before fuel (u32 (now + p.ms_to_ticks timeout_ms)) t (y.count_keeps s ∙ h) in
      elim told [ inl (_, gone) ↦ cc | inr (over, _) ↦ over ]
