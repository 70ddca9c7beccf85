-- ===== src/Firmware/Fenced.antt =====
-- A result of firmware/main/control.c that succeeds comes after the events of the run.
use esp_now_harness.Common.{
  ℕ, suc, not, ◌+◌, u32, ◌≤◌, ◌<◌, ◌≡◌, refl, inl, inr, Bool, true, false, List, length, arith,
  Bool-cases, ◌∙◌,
}
use esp_now_harness.Runtime.{EspErr, esp_ok, System, M, Platform, is_ok}
use esp_now_harness.Radio.{radio_wait_idle}
use esp_now_harness.Runtime.Frame.{at_if, Within, Frame, CallsWithin}
use esp_now_harness.Metrics.Report.{Report}
use esp_now_harness.Metrics.Distribution.Quantile.{Quantile}
use esp_now_harness.Radio.Within.{radio_wait_idle-Within}
use esp_now_harness.Radio.Configure.{Driver}
use esp_now_harness.Generator.Stop.{stopped_before, generator_wait_stopped}
use esp_now_harness.Receiver.{Event, ev_barrier}
use esp_now_harness.Receiver.Queue.{Mailbox, receiver_flush}
use esp_now_harness.Receiver.Fence.{Fifo, barriers, receiver_flush-fence}
use esp_now_harness.Control.Json.{Cjson}
use esp_now_harness.Control.Dispatch.{
  Services, Body, result_body, is_finished, when_true, if_drained, and_also, wait_idle_ok,
  drain_measurement_events, stopped_and_drained, when_drained, send_result, result,
}
use esp_now_harness.Firmware.{services, has_stopped}
use esp_now_harness.Firmware.Interface.{stopped_before-Within}
use esp_now_harness.Firmware.Settled.{stopped_before_gone, has_stopped-some}

-- Both sides of `a && b` that is true have run.
when_true-true :
    {W : Type 0} (first : Bool) (b : M W Bool) (s : System W)
    → (when_true first b s).0 ≡ true
    → (first ≡ true) × ((b s).0 ≡ true) × ((when_true first b s).1 ≡ (b s).1)
when_true-true true b s e = (refl, e, refl)
when_true-true false b s e = cc

-- What holds after the second side holds after both.
when_true_after :
    {W : Type 0} (P : System W → Type 0) (first : Bool) (b : M W Bool) (s : System W)
    → (first ≡ true → (b s).0 ≡ true → P (b s).1)
    → (when_true first b s).0 ≡ true
    → P (when_true first b s).1
when_true_after P true b s h e = h refl e
when_true_after P false b s h e = cc

if_drained_after :
    {W : Type 0} (P : W → Type 0) (drained : Bool) (reply : M W Body) (t : System W)
    (report : Report)
    → (reply t).1.world ≡ t.world
    → (drained ≡ true → P t.world)
    → (if_drained drained reply t).0 ≡ result_body report
    → P (if_drained drained reply t).1.world
if_drained_after P true reply t report same h e = rw same (h refl)
if_drained_after P false reply t report same h e = cc

and_also-true :
    {W : Type 0} (a b : M W Bool) (s : System W)
    → (and_also a b s).0 ≡ true
    → ((a s).0 ≡ true) × ((b (a s).1).0 ≡ true) × ((and_also a b s).1 ≡ (b (a s).1).1)
and_also-true a b s e = let (first, t) = a s in when_true-true first b t e

is_ok-true : (e : EspErr) → is_ok e ≡ true → e ≡ esp_ok
is_ok-true esp_ok h = refl
is_ok-true _ h = cc

-- The control task has taken a notification for every barrier that it posted.
abbrev pub Balanced : {W : Type 0} {p : Platform W} {mb : Mailbox W} → Fifo p mb → System W → Type 0
Balanced x s = x.taken s.world ≡ barriers (x.accepted s.world)

abbrev pub Opened : {W : Type 0} {p : Platform W} {mb : Mailbox W} → Fifo p mb → System W → Type 0
Opened x s = suc (x.taken s.world) ≡ barriers (x.accepted s.world)

abbrev pub Handles :
    {W : Type 0} {p : Platform W} {mb : Mailbox W} → Fifo p mb → System W → System W → Type 0
Handles x s t = x.handled s.world ≤ x.handled t.world

-- The calls of the system leave no notification behind that they take, and the receiver's task goes on.
pub record Fences {W : Type 0} {p : Platform W} {mb : Mailbox W} (x : Fifo p mb) : Type 0 where
  pub handles : CallsWithin (Handles x) p
  pub send_handles : (e : Event) (ms : ℕ) → Within (Handles x) (mb.queue_send e ms)
  pub balances : CallsWithin (λ s t. Balanced x s → Balanced x t) p
  -- After the control task has posted a barrier one notification is to come, and no other task posts one.
  pub post_opens :
      (ms : ℕ) (s : System W)
      → Balanced x s
      → (mb.queue_send ev_barrier ms s).0 ≡ true
      → Opened x (mb.queue_send ev_barrier ms s).1
  pub take_closes :
      (ms : ℕ) (s : System W)
      → Opened x s
      → (p.notify_take ms s).0 ≡ true
      → Balanced x (p.notify_take ms s).1

-- What drain_measurement_events does from `u` to the world `w`: two rounds of a flush and a wait for an idle radio,
-- and a flush. Each flush has every event handled that the queue had accepted when it began.
pub record Drained {W : Type 0} {p : Platform W} {mb : Mailbox W} (x : Fifo p mb) (u : System W)
    (w : W) : Type 0 where
  pub flushed : System W
  pub idle : System W
  pub flushed_again : System W
  pub idle_again : System W
  pub flush_first : receiver_flush p mb 2000 u ≡ (true, flushed)
  pub handled_first : length (x.accepted u.world) < x.handled flushed.world
  pub idle_first : radio_wait_idle p 2000 flushed ≡ (esp_ok, idle)
  pub flush_second : receiver_flush p mb 2000 idle ≡ (true, flushed_again)
  pub handled_second : length (x.accepted idle.world) < x.handled flushed_again.world
  pub idle_second : radio_wait_idle p 2000 flushed_again ≡ (esp_ok, idle_again)
  pub handled_third : length (x.accepted idle_again.world) < x.handled w

Handles-frame : {W : Type 0} {p : Platform W} {mb : Mailbox W} (x : Fifo p mb) → Frame (Handles x)
Handles-frame x = record {
  same = λ s. omega arith;
  then_ = λ a b c h k. omega arith;
  metrics_free = λ f s. omega arith;
}

Balanced-frame :
    {W : Type 0} {p : Platform W} {mb : Mailbox W} (x : Fifo p mb)
    → Frame (λ s t. Balanced x s → Balanced x t)
Balanced-frame x = record {
  same = λ s h. h;
  then_ = λ a b c h k y. k (h y);
  metrics_free = λ f s h. h;
}

module _ {W J : Type 0} (p : Platform W) (d : Driver W) (mb : Mailbox W) (rest : ℕ → List ℕ)
    (peers waits : ℕ) (c : Cjson J) (sscanf : List ℕ → List ℕ) (ceil_times : Quantile → ℕ → ℕ)
    (x : Fifo p mb) (y : Fences x) where
  open x use {accepted, handled, taken}

  abbrev v : Services W
  v = services p d mb rest peers waits

  abbrev flush : M W Bool
  flush = receiver_flush p mb 2000

  -- A flush that returns true has every event handled that the queue had accepted when it began.
  flushed :
      (s : System W)
      → Balanced x s
      → (flush s).0 ≡ true
      → (length (accepted s.world) < handled (flush s).1.world) × Balanced x (flush s).1
  unfolding receiver_flush
  flushed s h e =
      let n = s.node in
      let u = (mb.queue_send ev_barrier 2000 s).1 in
      let P : Bool × System W → Type 0 = λ r. r.0 ≡ true → Balanced x r.1 in
      let balanced =
        at_if P (not n.queue) _ _ s (λ _ e. cc)
          (λ _.
            at_if P (mb.queue_send ev_barrier 2000 s).0 _ _ u
              (λ posted took. y.take_closes 2000 u (y.post_opens 2000 s h posted) took)
              (λ _ e. cc)) in
      ((receiver_flush-fence p mb x 2000 s h e).0, balanced e)

  idle_Balanced : (s : System W) → Balanced x s → Balanced x (radio_wait_idle p 2000 s).1
  idle_Balanced s h = (radio_wait_idle-Within (Balanced-frame x) p y.balances 2000).at s h

  idle_ok :
      (s : System W)
      → (wait_idle_ok v c sscanf ceil_times 2000 s).0 ≡ true
      → (radio_wait_idle p 2000 s).0 ≡ esp_ok
  unfolding wait_idle_ok
  idle_ok s e = is_ok-true (radio_wait_idle p 2000 s).0 e

  drain-Drained :
      (u : System W)
      → Balanced x u
      → (drain_measurement_events v c sscanf ceil_times u).0 ≡ true
      → Drained x u (drain_measurement_events v c sscanf ceil_times u).1.world
  unfolding drain_measurement_events wait_idle_ok
  drain-Drained u h e =
      let last : M W Bool = and_also (wait_idle_ok v c sscanf ceil_times 2000) flush in
      let middle : M W Bool =
        and_also (wait_idle_ok v c sscanf ceil_times 2000) (and_also flush last) in
      let (a1, e1, q1) = and_also-true flush middle u e in
      let (h1, k1) = flushed u h a1 in
      let s = (flush u).1 in
      let (a2, e2, q2) =
        and_also-true (wait_idle_ok v c sscanf ceil_times 2000) (and_also flush last) s e1 in
      let s' = (radio_wait_idle p 2000 s).1 in
      let (a3, e3, q3) = and_also-true flush last s' e2 in
      let (h3, k3) = flushed s' (idle_Balanced s k1) a3 in
      let r = (flush s').1 in
      let (a4, e4, q4) = and_also-true (wait_idle_ok v c sscanf ceil_times 2000) flush r e3 in
      let r' = (radio_wait_idle p 2000 r).1 in
      let (h5, k5) = flushed r' (idle_Balanced r k3) e4 in
      record {
        flushed = s;
        idle = s';
        flushed_again = r;
        idle_again = r';
        flush_first = λ i. (a1 i, s);
        handled_first = h1;
        idle_first = λ i. (idle_ok s a2 i, s');
        flush_second = λ i. (a3 i, r);
        handled_second = h3;
        idle_second = λ i. (idle_ok r a4 i, r');
        handled_third = rw (q1 ∙ q2 ∙ q3 ∙ q4) h5;
      }

  -- The generator's task was gone in `u`, whose events are all handled at `t`.
  abbrev Fenced : System W → W → Type 0
  Fenced u w = (u.node.handle ≡ false) × Drained x u w

  when_stopped-Fenced :
      (stopped : Bool) (u : System W)
      → (stopped ≡ true → u.node.handle ≡ false)
      → Balanced x u
      → (when_true stopped (drain_measurement_events v c sscanf ceil_times) u).0 ≡ true
      → Fenced u (when_true stopped (drain_measurement_events v c sscanf ceil_times) u).1.world
  when_stopped-Fenced stopped u h k e =
      when_true_after (λ t. Fenced u t.world) stopped
        (drain_measurement_events v c sscanf ceil_times) u
        (λ y drained. (h y, drain-Drained u k drained)) e

  stopped_and_drained-Fenced :
      (s : System W)
      → Balanced x s
      → (stopped_and_drained v c sscanf ceil_times s).0 ≡ true
      → Fenced
          (generator_wait_stopped p waits 2000 s).1
          (stopped_and_drained v c sscanf ceil_times s).1.world
  unfolding stopped_and_drained generator_wait_stopped
  stopped_and_drained-Fenced s h e =
      let (now, t) = p.tick_count s in
      let deadline = u32 (now + p.ms_to_ticks 2000) in
      let (r, u) = stopped_before p waits deadline t in
      when_stopped-Fenced (has_stopped r) u
        (λ f. stopped_before_gone p waits deadline t (has_stopped-some r f))
        ((stopped_before-Within (Balanced-frame x) p y.balances waits deadline).at t
          (y.balances.tick_within.at s h))
        e

  drained_reply-Fenced :
      (drained : Bool) (u t : System W) (report : Report)
      → (drained ≡ true → Fenced u t.world)
      → (if_drained drained (send_result v c sscanf ceil_times) t).0 ≡ result_body report
      → Fenced u (if_drained drained (send_result v c sscanf ceil_times) t).1.world
  unfolding send_result
  drained_reply-Fenced drained u t report h e =
      if_drained_after (Fenced u) drained (send_result v c sscanf ceil_times) t report refl h e

  -- A result that replies with a report comes after the events of the run. When its wait for the
  -- generator ends the generator's task is gone. From there on, a flush succeeds, by which every event is
  -- handled that the queue has accepted by then; the radio is found idle; a second flush succeeds, by which
  -- every event is handled that the queue had accepted when the radio was idle, the echoes' among them; the
  -- radio is found idle again; and when the report is made every event is handled that the queue had
  -- accepted by then. The control task is to have taken a notification for every barrier that it posted
  -- before; the other tasks and the callbacks run in every call, and post no barrier.
  pub result_fenced :
      (report : Report) (s : System W)
      → Balanced x s
      → (result v c sscanf ceil_times s).0 ≡ result_body report
      → let u = (generator_wait_stopped p waits 2000 s).1 in
        let t = (result v c sscanf ceil_times s).1 in (u.node.handle ≡ false) × Drained x u t.world
  unfolding result when_drained
  result_fenced report s h e =
      let (drained, t) = stopped_and_drained v c sscanf ceil_times s in
      let u = (generator_wait_stopped p waits 2000 s).1 in
      elim (Bool-cases (is_finished s.node.state)) [
        | inl y ↦
            rw y (drained_reply-Fenced drained u t report (stopped_and_drained-Fenced s h) (cc))
        | inr n ↦ cc
      ]
