-- ===== src/Radio/Arrivals.antt =====
-- Every frame that rx_callback of firmware/main/radio.c gets from the driver is queued or counted.
use esp_now_harness.Common.{
  ℕ, ◌+◌, ◌≤◌, ◌≡◌, ◌⊎◌, inl, inr, ap, ◌∙◌, Bool, true, false, List, [], ◌∷◌, ◌++◌, some, take, u64,
  leb, arith, if◌then◌else◌,
}
use esp_now_harness.Common.Int.{ℤ, pos}
use esp_now_harness.Metrics.{count_queue_drop}
use esp_now_harness.Runtime.{Node, System, Platform}
use esp_now_harness.Runtime.Frame.{at_if}
use esp_now_harness.Receiver.{Event, ev_rx}
use esp_now_harness.Receiver.Queue.{Mailbox, send_or_count, receiver_post_rx}
use esp_now_harness.Radio.Callbacks.{received, rx_callback}

-- The events that the queue has accepted since the start. Only the callback posts while it runs.
pub record Ledger {W : Type 0} (p : Platform W) (mb : Mailbox W) : Type 0 where
  pub accepted : W → List Event
  pub time_keeps :
      (s : System W)
      → ((p.timer_get_time s).1.node ≡ s.node)
        × (accepted (p.timer_get_time s).1.world ≡ accepted s.world)
  pub send_keeps : (e : Event) (s : System W) → (mb.queue_send e 0 s).1.node ≡ s.node
  pub send_is :
      (e : Event) (s : System W)
      → accepted (mb.queue_send e 0 s).1.world
        ≡ (if (mb.queue_send e 0 s).0 then accepted s.world ++ (e ∷ []) else accepted s.world)

abbrev pub queue_drops : {W : Type 0} → System W → ℕ
queue_drops s = s.node.metrics.totals.queue_drops

module _ {W : Type 0} (p : Platform W) (mb : Mailbox W) (x : Ledger p mb) where
  open x use {accepted}

  -- One more event, or one more drop.
  abbrev Counted : Bool → Event → System W → System W → Type 0
  Counted sent e s t =
      ((sent ≡ true)
        × (accepted t.world ≡ accepted s.world ++ (e ∷ []))
        × (queue_drops t ≡ queue_drops s))
      ⊎ ((sent ≡ false)
          × (accepted t.world ≡ accepted s.world)
          × (queue_drops t ≡ u64 (queue_drops s + 1)))

  send_or_count-Counted :
      (e : Event) (s : System W) → Counted (mb.queue_send e 0 s).0 e s (send_or_count p mb e s).1
  unfolding send_or_count count_queue_drop
  send_or_count-Counted e s =
      let (sent, t) = mb.queue_send e 0 s in
      let is = x.send_is e s in
      let drops = ap (λ (n : Node). n.metrics.totals.queue_drops) (x.send_keeps e s) in
      ground (arith, is, drops)

  -- A frame of at most 250 bytes that rx_callback gets is offered to the queue with its bytes, its signal
  -- strength and its time. Where xQueueSend takes it, it is put at the end of the queue and no drop is
  -- counted; where xQueueSend refuses it, the queue stays and it is counted in queue_drops, in 64 bits.
  -- Only the callback posts while it runs.
  pub rx_callback-Counted :
      (rssi : ℤ) (bytes : List ℕ) (length : ℕ) (s : System W)
      → length ≤ 250
      → let t = (rx_callback p mb (some rssi) (some bytes) (pos length) s).1 in
        let (now, u) = p.timer_get_time s in
        let e = ev_rx (take length bytes) rssi now in
        let sent = (mb.queue_send e 0 u).0 in
        ((sent ≡ true)
          × (accepted t.world ≡ accepted s.world ++ (e ∷ []))
          × (queue_drops t ≡ queue_drops s))
        ⊎ ((sent ≡ false)
            × (accepted t.world ≡ accepted s.world)
            × (queue_drops t ≡ u64 (queue_drops s + 1)))
  unfolding rx_callback received receiver_post_rx
  rx_callback-Counted rssi bytes length s h =
      let (now, u) = p.timer_get_time s in
      let e = ev_rx (take length bytes) rssi now in
      let (same, log) = x.time_keeps s in
      let drops = ap (λ (n : Node). n.metrics.totals.queue_drops) same in
      let P : Unit {0} × System W → Type 0 = λ r. Counted (mb.queue_send e 0 u).0 e s r.1 in
      at_if P (leb length 250) _ _ s
        (λ _. elim (send_or_count-Counted e u) [
          | inl (o, a, b) ↦ inl (o, a ∙ ap (λ es. es ++ (e ∷ [])) log, b ∙ drops)
          | inr (o, a, b) ↦ inr (o, a ∙ log, b ∙ ap (λ k. u64 (k + 1)) drops)
        ])
        (λ n. absurd (ground (arith, h, n)))
