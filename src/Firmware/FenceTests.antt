-- ===== src/Firmware/FenceTests.antt =====
-- A result at a node whose queue has two events left of the run.
use esp_now_harness.Common.{
  ◌++◌, ap, sym, ◌∙◌, ℕ, zero, suc, ◌≤◌, ◌<◌, ◌≡◌, refl, Bool, true, false, List, [], ◌∷◌, arith,
  ltb, take,
}
use esp_now_harness.Metrics.{metrics_reset}
use esp_now_harness.Metrics.Report.{Report, metrics_json}
use esp_now_harness.Runtime.{System}
use esp_now_harness.Radio.{radio_wait_idle, take_slots, give_slots}
use esp_now_harness.Generator.Stop.{stopped_before, generator_wait_stopped}
use esp_now_harness.Receiver.{Event, ev_rx, ev_tx_ok, ev_tx_fail, ev_drop, ev_barrier}
use esp_now_harness.Receiver.Queue.{receiver_flush}
use esp_now_harness.Receiver.Fence.{barriers}
use esp_now_harness.Receiver.QueueTests.{
  Post, office, post_office, office_Fifo, put_if, room, wake_if, wake, work, given, busy,
}
use esp_now_harness.Control.Dispatch.{
  result_body, result, when_drained, stopped_and_drained, drain_measurement_events, wait_idle_ok,
  send_result,
}
use esp_now_harness.Firmware.{services}
use esp_now_harness.Firmware.Tests.{willing, rest, no_items, scan, percent}
use esp_now_harness.Firmware.Fenced.{Handles, Fences, Drained, result_fenced}

put_if_handled : (b : Bool) (e : Event) (w : Post) → w.handled ≤ (put_if b e w).1.handled
put_if_handled true e w = omega arith
put_if_handled false e w = omega arith

wake_if_handled : (b : Bool) (w : Post) → w.handled ≤ (wake_if b w).1.handled
unfolding wake_if
wake_if_handled true w = omega arith
wake_if_handled false w = omega arith

few_barriers : (n : ℕ) (es : List Event) → barriers (take n es) ≤ barriers es
unfolding barriers
few_barriers zero es = omega arith
few_barriers (suc n) [] = omega arith
few_barriers (suc n) (ev_barrier ∷ es) = omega (arith, few_barriers n es)
few_barriers (suc n) (ev_rx a b c ∷ es) = few_barriers n es
few_barriers (suc n) (ev_tx_ok ∷ es) = few_barriers n es
few_barriers (suc n) (ev_tx_fail ∷ es) = few_barriers n es
few_barriers (suc n) (ev_drop ∷ es) = few_barriers n es

wake_if_balanced :
    (b : Bool) (w : Post)
    → ltb w.taken (given w) ≡ b
    → w.taken ≡ barriers w.accepted
    → (wake_if b w).1.taken ≡ barriers (wake_if b w).1.accepted
unfolding wake_if given
wake_if_balanced true w h k = absurd (ground (arith, h, few_barriers w.handled w.accepted, k))
wake_if_balanced false w h k = k

barriers_after : (es : List Event) → barriers (es ++ (ev_barrier ∷ [])) ≡ suc (barriers es)
unfolding barriers
barriers_after [] = refl
barriers_after (ev_barrier ∷ es) = ap (λ n. suc n) (barriers_after es)
barriers_after (ev_rx a b c ∷ es) = barriers_after es
barriers_after (ev_tx_ok ∷ es) = barriers_after es
barriers_after (ev_tx_fail ∷ es) = barriers_after es
barriers_after (ev_drop ∷ es) = barriers_after es

put_if_opens :
    (b : Bool) (w : Post)
    → w.taken ≡ barriers w.accepted
    → (put_if b ev_barrier w).0 ≡ true
    → suc (put_if b ev_barrier w).1.taken ≡ barriers (put_if b ev_barrier w).1.accepted
put_if_opens true w h e = ap (λ n. suc n) h ∙ sym (barriers_after w.accepted)
put_if_opens false w h e = cc

wake_if_closes :
    (b : Bool) (w : Post)
    → ltb w.taken (given w) ≡ b
    → suc w.taken ≡ barriers w.accepted
    → (wake_if b w).0 ≡ true
    → (wake_if b w).1.taken ≡ barriers (wake_if b w).1.accepted
unfolding wake_if given
wake_if_closes true w l h e =
    let some_given : w.taken < given w = ground (arith, l) in
    omega (arith, h, some_given, few_barriers w.handled w.accepted)
wake_if_closes false w l h e = cc

wakes-Handles : (s : System Post) → Handles office_Fifo s (office.notify_take 2000 s).1
unfolding office_Fifo wake
wakes-Handles s =
    let w = s.world in omega (arith, wake_if_handled (ltb w.taken (given (work w))) (work w))

office_Fences : Fences office_Fifo
unfolding office_Fifo wake
office_Fences = record {
  handles = record {
    take_within = λ ms. record { at = λ s. omega arith };
    give_within = record { at = λ s. omega arith };
    time_within = record { at = λ s. omega arith };
    send_within = λ mac bytes. record { at = λ s. omega arith };
    delay_within = λ ticks. record { at = λ s. omega arith };
    delay_us_within = λ us. record { at = λ s. omega arith };
    yield_within = record { at = λ s. omega arith };
    tick_within = record { at = λ s. omega arith };
    notify_within = λ ms. record { at = wakes-Handles };
  };
  send_handles = λ e ms. record { at = λ s. put_if_handled (room s.world) e s.world };
  balances = record {
    take_within = λ ms. record { at = λ s h. h };
    give_within = record { at = λ s h. h };
    time_within = record { at = λ s h. h };
    send_within = λ mac bytes. record { at = λ s h. h };
    delay_within = λ ticks. record { at = λ s h. h };
    delay_us_within = λ us. record { at = λ s h. h };
    yield_within = record { at = λ s h. h };
    tick_within = record { at = λ s h. h };
    notify_within = λ ms. record { at = λ s h. wake_if_balanced _ (work s.world) refl h };
  };
  post_opens = λ ms s h e. put_if_opens (room s.world) s.world h e;
  take_closes = λ ms s h e. wake_if_closes _ (work s.world) refl h e;
}

abbrev report : Report
report = (metrics_json percent busy.node.config metrics_reset).1

result_replies :
    (result (services office willing post_office rest 20 2000) no_items scan percent busy).0
    ≡ result_body report
unfolding result when_drained stopped_and_drained drain_measurement_events wait_idle_ok send_result
    stopped_before generator_wait_stopped receiver_flush radio_wait_idle take_slots give_slots wake
    wake_if given barriers
result_replies = refl

result_fenced_example :
    let u = (generator_wait_stopped office 2000 2000 busy).1 in
    let t =
      (result (services office willing post_office rest 20 2000) no_items scan percent busy).1 in
    (u.node.handle ≡ false) × Drained office_Fifo u t.world
unfolding office_Fifo barriers
result_fenced_example =
    result_fenced office willing post_office rest 20 2000 no_items scan percent office_Fifo
      office_Fences report busy refl result_replies
