-- ===== src/Firmware/Interface.antt =====
-- radio.c, receiver.c and generator.c of firmware/main/ keep to what control.c relies on.
use esp_now_harness.Common.{ℕ, zero, suc, ◌+◌, u32, refl, inl, true, false, not, List, none, some}
use esp_now_harness.Runtime.{EspErr, System, Platform}
use esp_now_harness.Runtime.Frame.{
  Within, Frame, CallsWithin, Within-pure, Within-bind, Within-if, Within-get_node, at_if,
}
use esp_now_harness.Radio.Configure.{Driver}
use esp_now_harness.Radio.Within.{radio_wait_idle-Within}
use esp_now_harness.Radio.Reconfigure.{DriverWithin, radio_configure-Within}
use esp_now_harness.Generator.{generator_start, is_sender}
use esp_now_harness.Generator.Stop.{expired, stopped_before, generator_wait_stopped}
use esp_now_harness.Receiver.{Event}
use esp_now_harness.Receiver.Queue.{Mailbox, receiver_flush}
use esp_now_harness.Control.Calm.{Calm, IsCalm, Started, CalmServices, Calm-refl, Calm-trans}
use esp_now_harness.Firmware.{services}

module _ {W : Type 0} {R : System W → System W → Type 0} (fr : Frame R) (p : Platform W)
    (cw : CallsWithin R p) where
  pub stopped_before-Within : (fuel deadline : ℕ) → Within R (stopped_before p fuel deadline)
  unfolding stopped_before
  stopped_before-Within zero deadline = Within-pure fr none
  stopped_before-Within (suc fuel) deadline = Within-bind fr _ _ (Within-get_node fr) λ n.
      Within-if fr n.handle _ _
        (Within-bind fr _ _ cw.tick_within λ now.
          Within-if fr (expired now deadline) _ _ (Within-pure fr (some false)) (
            Within-bind fr _ _ (cw.delay_within (p.ms_to_ticks 1))
              λ _. stopped_before-Within fuel deadline))
        (Within-pure fr (some true))

  pub generator_wait_stopped-Within : (fuel ms : ℕ) → Within R (generator_wait_stopped p fuel ms)
  unfolding generator_wait_stopped
  generator_wait_stopped-Within fuel ms =
      Within-bind fr _ _ cw.tick_within
        λ now. stopped_before-Within fuel (u32 (now + p.ms_to_ticks ms))

  pub receiver_flush-Within :
      (mb : Mailbox W)
      → ((e : Event) (ms : ℕ) → Within R (mb.queue_send e ms))
      → (ms : ℕ) → Within R (receiver_flush p mb ms)
  unfolding receiver_flush
  receiver_flush-Within mb send ms = Within-bind fr _ _ (Within-get_node fr) λ n.
      Within-if fr (not n.queue) _ _ (Within-pure fr false) (
        Within-bind fr _ _ (send _ ms)
          λ posted. Within-if fr posted _ _ (cw.notify_within ms) (Within-pure fr false))

-- The globals that the dispatcher reads move as `Calm` says.
abbrev pub Calmly : {W : Type 0} → System W → System W → Type 0
Calmly s t = Calm s.node t.node

abbrev pub calm_frame : {W : Type 0} → Frame {W = W} Calmly
calm_frame = record {
  same = λ s. Calm-refl s.node;
  then_ = λ a b c h k. Calm-trans a.node b.node c.node h k;
  metrics_free =
      λ f s. record { config_kept = refl; stays_stopped = λ h. h; state_moves = inl refl };
}

-- The calls of the system and of the driver, in which the other tasks run.
pub record CalmWorld {W : Type 0} (p : Platform W) (d : Driver W) (mb : Mailbox W) : Type 0 where
  pub calls : CallsWithin Calmly p
  pub driver_calls : DriverWithin Calmly d
  pub queue_send_within : (e : Event) (ms : ℕ) → Within Calmly (mb.queue_send e ms)
  pub create_started : (s : System W) → Started s.node (p.create_generator s).1.node

module _ {W : Type 0} (p : Platform W) (d : Driver W) (mb : Mailbox W) (rest : ℕ → List ℕ)
    (calm : CalmWorld p d mb) where
  generator_start-Started : (s : System W) → Started s.node (generator_start p rest s).1.node
  unfolding generator_start
  generator_start-Started s =
      let n = s.node in
      let P : EspErr × System W → Type 0 = λ r. Started n r.1.node in
      let same : Started n n = record { config_kept = refl; state_moves = inl refl } in
      at_if P n.handle _ _ s (λ _. same)
        (λ _.
          at_if P (not (is_sender p rest n.config.role)) _ _ s (λ _. same)
            (λ _. calm.create_started s))

  -- The implementations in radio.c, receiver.c and generator.c satisfy the interface on which the state
  -- machine of control.c rests, whatever fuel they have: they change the configuration, the state and
  -- the generator's handle only as the other tasks do, which run in the calls of the system and of
  -- the driver.
  pub services-CalmServices : (peers waits : ℕ) → CalmServices (services p d mb rest peers waits)
  unfolding IsCalm
  services-CalmServices peers waits = record {
    timer_get_time_calm = calm.calls.time_within.at;
    radio_configure_calm =
        (radio_configure-Within calm_frame p calm.calls d calm.driver_calls
          (λ n. record {
            at = λ s. record { config_kept = refl; stays_stopped = λ h. h; state_moves = inl refl };
          })
          peers).at;
    radio_wait_idle_calm = λ ms. (radio_wait_idle-Within calm_frame p calm.calls ms).at;
    receiver_flush_calm =
        λ ms. (receiver_flush-Within calm_frame p calm.calls mb calm.queue_send_within ms).at;
    generator_wait_stopped_calm =
        λ ms. (generator_wait_stopped-Within calm_frame p calm.calls waits ms).at;
    generator_start_started = generator_start-Started;
  }
