-- ===== src/Receiver/QueueTests.antt =====
-- A queue of which the receiver's task handles a given number of events in each wait.
use esp_now_harness.Common.{
  ℕ, ◌+◌, ◌-◌, ◌<◌, ◌≡◌, refl, ap, sym, ◌∙◌, Bool, true, false, List, [], ◌∷◌, ◌++◌, arith, ltb,
  if◌then◌else◌, length, take,
}
use mathlib.Core.List.{append-nil}
use esp_now_harness.Common.Int.{pos}
use esp_now_harness.Harness.{finished}
use esp_now_harness.Metrics.{metrics_reset}
use esp_now_harness.Runtime.{System, Platform, esp_ok, pure}
use esp_now_harness.Control.Config.{zero_config}
use esp_now_harness.Receiver.{Event, ev_rx, ev_tx_ok, ev_barrier}
use esp_now_harness.Receiver.Queue.{Mailbox, receiver_flush, receiver_post_tx, send_or_count}
use esp_now_harness.Receiver.Fence.{Fifo, barriers, receiver_flush-fence}

pub record Post : Type 0 where
  pub accepted : List Event
  pub handled : ℕ
  pub taken : ℕ
  pub speed : ℕ

abbrev pub room : Post → Bool
room w = ltb (length w.accepted - w.handled) 64

abbrev pub put_if : Bool → Event → Post → Bool × Post
put_if true e w = (true, record w { accepted = w.accepted ++ (e ∷ []) })
put_if false e w = (false, w)

abbrev pub put : Event → Post → Bool × Post
put e w = put_if (room w) e w

abbrev pub work : Post → Post
work w =
    let left = length w.accepted - w.handled in
    record w { handled = w.handled + (if ltb w.speed left then w.speed else left) }

unfoldable pub given : Post → ℕ
unfolding barriers
given w = barriers (take w.handled w.accepted)

unfoldable pub wake_if : Bool → Post → Bool × Post
unfolding given
wake_if true w = (true, record w { taken = given w })
wake_if false w = (false, w)

unfoldable pub wake : Post → Bool × Post
unfolding given
wake w = wake_if (ltb w.taken (given w)) w

abbrev pub post_office : Mailbox Post
post_office = record {
  queue_send = λ e ms s. let (sent, w) = put e s.world in (sent, record s { world = w });
}

abbrev pub office : Platform Post
office = record {
  semaphore_take = λ ms. pure true;
  semaphore_give = pure tt;
  timer_get_time = pure 5000;
  now_send = λ mac bytes. pure esp_ok;
  task_delay = λ ms. pure tt;
  delay_us = λ us. pure tt;
  task_yield = pure tt;
  create_generator = pure true;
  tick_count = pure 0;
  ms_to_ticks = λ ms. ms;
  notify_take = λ ms s. let (woken, w) = wake (work s.world) in (woken, record s { world = w });
}

pub put_if_accepted :
    (b : Bool) (w : Post)
    → (put_if b ev_barrier w).0 ≡ true
    → ((put_if b ev_barrier w).1.accepted ≡ (w.accepted ++ []) ++ (ev_barrier ∷ []))
      × ((put_if b ev_barrier w).1.taken ≡ w.taken)
put_if_accepted true w h = (ap (λ es. es ++ (ev_barrier ∷ [])) (sym (append-nil w.accepted)), refl)
put_if_accepted false w h = cc

pub wake_if_notified :
    (b : Bool) (w : Post)
    → ltb w.taken (given w) ≡ b
    → (wake_if b w).0 ≡ true
    → w.taken < given (wake_if b w).1
unfolding given wake_if
wake_if_notified true w h k = ground (arith, h)
wake_if_notified false w h k = cc

pub wake_if_accepted : (b : Bool) (w : Post) → (wake_if b w).1.accepted ≡ w.accepted
unfolding wake_if
wake_if_accepted true w = refl
wake_if_accepted false w = refl

unfoldable pub office_Fifo : Fifo office post_office
unfolding barriers wake_if wake given
office_Fifo = record {
  accepted = λ w. w.accepted;
  handled = λ w. w.handled;
  taken = λ w. w.taken;
  post_barrier = λ ms s h.
      let (is, kept) = put_if_accepted (room s.world) s.world h in ([], [], is, refl, kept);
  notified = λ ms s h. wake_if_notified _ (work s.world) refl h;
  grows = λ ms s. ([], wake_if_accepted _ (work s.world) ∙ sym (append-nil s.world.accepted));
}

abbrev pub at_speed : ℕ → List Event → System Post
at_speed n es = record {
  node = record {
    config = zero_config;
    state = finished;
    metrics = metrics_reset;
    current_tx_window = 1;
    handle = false;
    queue = true;
  };
  world = record { accepted = es; handled = 0; taken = 0; speed = n };
}

abbrev pub busy : System Post
busy = at_speed 64 (ev_tx_ok ∷ ev_rx (1 ∷ 2 ∷ []) (pos 0) 7 ∷ ev_tx_ok ∷ [])

receiver_flush-fence_example :
    let t = (receiver_flush office post_office 1000 busy).1 in
    (length busy.world.accepted < t.world.handled)
    × ((more : List Event) × (t.world.accepted ≡ busy.world.accepted ++ more))
unfolding receiver_flush office_Fifo barriers
receiver_flush-fence_example =
    receiver_flush-fence office post_office office_Fifo 1000 busy refl refl

-- After a flush that times out, its barrier is handled late, and the next flush returns true before the
-- event posted between is handled: 1 of the 3 events.
abbrev speed_up : ℕ → System Post → System Post
speed_up n s = let w = s.world in record s { world = record w { speed = n } }

abbrev late : Bool × Bool × ℕ × ℕ
unfolding receiver_flush receiver_post_tx send_or_count barriers
late =
    let (first, s) = receiver_flush office post_office 1000 (at_speed 0 []) in
    let (_, t) = receiver_post_tx office post_office true s in
    let (second, u) = receiver_flush office post_office 1000 (speed_up 1 t) in
    (first, second, u.world.handled, length u.world.accepted)

stale_notification : late ≡ (false, true, 1, 3)
unfolding receiver_flush receiver_post_tx send_or_count barriers wake wake_if
stale_notification = refl
