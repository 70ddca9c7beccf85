-- ===== src/Receiver/Fence.antt =====
-- receiver_flush of firmware/main/receiver.c as a fence for the events posted before it.
use esp_now_harness.Common.{
  ℕ, zero, suc, ◌+◌, ◌≤◌, ◌<◌, ◌≡◌, ap, ◌∙◌, inl, inr, Bool, true, not, List, [], ◌∷◌, ◌++◌, arith,
  length, length-append, take, Bool-cases, leb,
}
use mathlib.Core.List.{append_assoc}
use esp_now_harness.Runtime.Frame.{at_if}
use esp_now_harness.Runtime.{System, Platform}
use esp_now_harness.Receiver.{Event, ev_rx, ev_tx_ok, ev_tx_fail, ev_drop, ev_barrier}
use esp_now_harness.Receiver.Queue.{Mailbox, receiver_flush}

unfoldable pub barriers : List Event → ℕ
barriers [] = 0
barriers (ev_barrier ∷ es) = suc (barriers es)
barriers (_ ∷ es) = barriers es

-- The events that the queue has accepted since the start, in order; how many of them the receiver's
-- task has handled; and how many of its notifications the control task has taken. The other tasks and
-- the callbacks run in every call, and post no barrier: it is the control task's.
pub record Fifo {W : Type 0} (p : Platform W) (mb : Mailbox W) : Type 0 where
  pub accepted : W → List Event
  pub handled : W → ℕ
  pub taken : W → ℕ
  pub post_barrier :
      (ms : ℕ) (s : System W)
      → (mb.queue_send ev_barrier ms s).0 ≡ true
      → (before : List Event) × (after : List Event) × (accepted
            (mb.queue_send ev_barrier ms s).1.world
          ≡ (accepted s.world ++ before) ++ (ev_barrier ∷ after))
        × (barriers before ≡ 0)
        × (taken (mb.queue_send ev_barrier ms s).1.world ≡ taken s.world)
  -- A notification that is taken was given for a barrier that is handled, and was not taken before.
  pub notified :
      (ms : ℕ) (s : System W)
      → (p.notify_take ms s).0 ≡ true
      → let t = (p.notify_take ms s).1 in
        taken s.world < barriers (take (handled t.world) (accepted t.world))
  pub grows :
      (ms : ℕ) (s : System W)
      → (more : List Event) × (accepted (p.notify_take ms s).1.world ≡ accepted s.world ++ more)

barriers-append : (as' bs : List Event) → barriers (as' ++ bs) ≡ barriers as' + barriers bs
unfolding barriers
barriers-append [] bs = omega arith
barriers-append (ev_barrier ∷ as') bs = omega (arith, barriers-append as' bs)
barriers-append (ev_rx a b c ∷ as') bs = barriers-append as' bs
barriers-append (ev_tx_ok ∷ as') bs = barriers-append as' bs
barriers-append (ev_tx_fail ∷ as') bs = barriers-append as' bs
barriers-append (ev_drop ∷ as') bs = barriers-append as' bs

-- A prefix that ends within `as'` has no barrier but theirs.
barriers-take :
    (n : ℕ) (as' bs : List Event) → n ≤ length as' → barriers (take n (as' ++ bs)) ≤ barriers as'
unfolding barriers
barriers-take zero as' bs h = omega arith
barriers-take (suc n) [] bs h = absurd (omega arith)
barriers-take (suc n) (ev_barrier ∷ as') bs h = omega (arith, barriers-take n as' bs)
barriers-take (suc n) (ev_rx a b c ∷ as') bs h = barriers-take n as' bs (omega arith)
barriers-take (suc n) (ev_tx_ok ∷ as') bs h = barriers-take n as' bs (omega arith)
barriers-take (suc n) (ev_tx_fail ∷ as') bs h = barriers-take n as' bs (omega arith)
barriers-take (suc n) (ev_drop ∷ as') bs h = barriers-take n as' bs (omega arith)

module _ {W : Type 0} (p : Platform W) (mb : Mailbox W) (x : Fifo p mb) where
  open x use {accepted, handled, taken}

  -- What the flush shows of a state `t` after `s`.
  abbrev Flushed : System W → System W → Type 0
  Flushed s t =
      (length (accepted s.world) < handled t.world)
      × ((more : List Event) × (accepted t.world ≡ accepted s.world ++ more))

  taken_after :
      (ms : ℕ) (s : System W)
      → taken s.world ≡ barriers (accepted s.world)
      → (mb.queue_send ev_barrier ms s).0 ≡ true
      → let u = (mb.queue_send ev_barrier ms s).1 in
        (p.notify_take ms u).0 ≡ true → Flushed s (p.notify_take ms u).1
  taken_after ms s h posted took =
      let u = (mb.queue_send ev_barrier ms s).1 in
      let t = (p.notify_take ms u).1 in
      let (before, after, is, none_before, same) = x.post_barrier ms s posted in
      let (more, grown) = x.grows ms u in
      let old = accepted s.world in
      let new = (ev_barrier ∷ after) ++ more in
      let all : accepted t.world ≡ (old ++ before) ++ new =
        grown ∙ ap (λ es. es ++ more) is ∙ append_assoc (old ++ before) (ev_barrier ∷ after) more in
      let given = x.notified ms u took in
      let count = barriers-append old before in
      let late : length (old ++ before) < handled t.world =
        elim (Bool-cases (leb (handled t.world) (length (old ++ before)))) [
          | inl early ↦
              let few =
                barriers-take (handled t.world) (old ++ before) new (ground (arith, early)) in
              let few' : barriers (take (handled t.world) (accepted t.world))
                  ≤ barriers (old ++ before) =
                rw all few in
              absurd (omega (arith, few', given, count))
          | inr late ↦ ground (arith, late)
        ] in
      (
        omega (arith, late, length-append old before),
        (before ++ new, all ∙ append_assoc old before new),
      )

  -- receiver_flush is a fence: where the control task has taken a notification for every barrier that it
  -- posted before, a flush that returns true has had every event handled that the queue had accepted
  -- when it began, and the barrier too; the receiver's task and the callbacks run in every call.
  pub receiver_flush-fence :
      (ms : ℕ) (s : System W)
      → taken s.world ≡ barriers (accepted s.world)
      → (receiver_flush p mb ms s).0 ≡ true
      → let t = (receiver_flush p mb ms s).1 in
        (length (accepted s.world) < handled t.world)
        × ((more : List Event) × (accepted t.world ≡ accepted s.world ++ more))
  unfolding receiver_flush
  receiver_flush-fence ms s h =
      let n = s.node in
      let u = (mb.queue_send ev_barrier ms s).1 in
      let P : Bool × System W → Type 0 = λ r. r.0 ≡ true → Flushed s r.1 in
      at_if P (not n.queue) _ _ s (λ _ e. cc)
        (λ _.
          at_if P (mb.queue_send ev_barrier ms s).0 _ _ u (λ y. taken_after ms s h y) (λ _ e. cc))
