-- ===== src/Receiver/Tallies.antt =====
-- What one event adds to the counters of firmware/main/metrics.c that the receiver task keeps.
use esp_now_harness.Common.{
  ℕ, ◌+◌, ◌≡◌, inl, inr, refl, sym, ap, ◌∙◌, Bool, true, false, ◌&&◌, List, Option, none, some,
  arith, ◌==◌, if◌then◌else◌, u64, ltb, Bool-cases, length, set,
}
use esp_now_harness.Common.Int.{ℤ}
use esp_now_harness.Harness.{State, boot, idle, configured, armed, running, finished, error}
use esp_now_harness.Protocol.{Header, bench_decode, packet_ping, packet_echo}
use esp_now_harness.Metrics.{
  Metrics, metrics_tx_requested, metrics_tx_submitted, metrics_tx_api_failure,
  metrics_tx_slot_timeout, metrics_tx_complete, metrics_drop,
}
use esp_now_harness.Metrics.Rx.{metrics_rx, rx_count, rx_sequence, rx_rssi, rx_jitter, rx_rtt}
use esp_now_harness.Runtime.{Node, EspErr, is_ok, System, M, Platform, on_metrics}
use esp_now_harness.Radio.{radio_acquire_tx, radio_send_acquired}
use esp_now_harness.Receiver.{
  Event, ev_rx, ev_tx_ok, ev_tx_fail, ev_drop, ev_barrier, is_current, measurement_state,
  is_echo_responder, echo_sent, echo_with_slot, echo, receive_current, receive_packet, handle_event,
}

-- The counters of the events: packets received, stale and invalid, and the two outcomes of a send.
pub record Tally : Type 0 where
  pub received : ℕ
  pub stale : ℕ
  pub invalid : ℕ
  pub sent : ℕ
  pub unsent : ℕ

unfoldable pub tally_of : Metrics → Tally
tally_of m =
    let t = m.totals in
    record {
      received = t.rx_packets;
      stale = t.stale;
      invalid = t.invalid;
      sent = t.send_cb_success;
      unsent = t.send_cb_failure;
    }

abbrev pub tally : {W : Type 0} → System W → Tally
tally s = let n = s.node in tally_of n.metrics

abbrev pub one_received : Tally → Tally
one_received a = record a { received = u64 (a.received + 1) }

abbrev pub one_stale : Tally → Tally
one_stale a = record a { stale = u64 (a.stale + 1) }

abbrev pub one_invalid : Tally → Tally
one_invalid a = record a { invalid = u64 (a.invalid + 1) }

abbrev pub one_sent : Tally → Tally
one_sent a = record a { sent = u64 (a.sent + 1) }

abbrev pub one_unsent : Tally → Tally
one_unsent a = record a { unsent = u64 (a.unsent + 1) }

-- The states in which a node measures.
unfoldable pub is_measuring : State → Bool
is_measuring boot = false
is_measuring idle = false
is_measuring configured = false
is_measuring armed = true
is_measuring running = true
is_measuring finished = true
is_measuring error = false

-- What an event should add, of a packet by how it decodes, by its run and by the node's state.
unfoldable pub packet_tally : Node → Bool × Option Header → Tally → Tally
packet_tally n (true, some header) a =
    let c = n.config in
    if (header.run_id == c.run_id) && is_measuring n.state then one_received a else one_stale a
packet_tally n _ a = one_invalid a

unfoldable pub event_tally : Header → Node → Event → Tally → Tally
event_tally blank n ev_barrier a = a
event_tally blank n ev_tx_ok a = one_sent a
event_tally blank n ev_tx_fail a = one_unsent a
event_tally blank n ev_drop a = one_invalid a
event_tally blank n (ev_rx bytes rssi at) a =
    packet_tally n (bench_decode (some bytes) (length bytes) (some blank)) a

-- The system's calls leave these counters: only the receiver task moves them.
pub record Untallied {W : Type 0} (p : Platform W) (notify_give : M W (Unit {0})) : Type 0 where
  pub take_kept : (ms : ℕ) (s : System W) → tally (p.semaphore_take ms s).1 ≡ tally s
  pub give_kept : (s : System W) → tally (p.semaphore_give s).1 ≡ tally s
  pub time_kept : (s : System W) → tally (p.timer_get_time s).1 ≡ tally s
  pub send_kept : (mac bytes : List ℕ) (s : System W) → tally (p.now_send mac bytes s).1 ≡ tally s
  pub notify_kept : (s : System W) → tally (notify_give s).1 ≡ tally s

tally_of-requested : (m : Metrics) (j : ℕ) → tally_of (metrics_tx_requested m j) ≡ tally_of m
unfolding tally_of metrics_tx_requested
tally_of-requested m j = elim (Bool-cases (ltb j 16)) [ inl e ↦ rw e refl | inr e ↦ rw e refl ]

tally_of-submitted :
    (m : Metrics) (j size now : ℕ) → tally_of (metrics_tx_submitted m j size now) ≡ tally_of m
unfolding tally_of metrics_tx_submitted
tally_of-submitted m j size now = elim (Bool-cases (ltb j 16)) [
  | inl e ↦ rw e refl
  | inr e ↦ rw e refl
]

tally_of-api_failure : (m : Metrics) → tally_of (metrics_tx_api_failure m) ≡ tally_of m
unfolding tally_of metrics_tx_api_failure
tally_of-api_failure m = refl

tally_of-slot_timeout : (m : Metrics) → tally_of (metrics_tx_slot_timeout m) ≡ tally_of m
unfolding tally_of metrics_tx_slot_timeout
tally_of-slot_timeout m = refl

tally_of-stale : (m : Metrics) → tally_of (metrics_drop m true false) ≡ one_stale (tally_of m)
unfolding tally_of metrics_drop
tally_of-stale m = refl

tally_of-invalid : (m : Metrics) → tally_of (metrics_drop m false true) ≡ one_invalid (tally_of m)
unfolding tally_of metrics_drop
tally_of-invalid m = refl

tally_of_complete :
    (m : Metrics) (ok : Bool)
    → tally_of (metrics_tx_complete m ok)
      ≡ (if ok then one_sent (tally_of m) else one_unsent (tally_of m))
unfolding tally_of metrics_tx_complete
tally_of_complete m true = refl
tally_of_complete m false = refl

tally_of-rx :
    (m : Metrics) (header : Header) (rssi : ℤ) (now : ℕ)
    → tally_of (metrics_rx m header rssi now) ≡ one_received (tally_of m)
unfolding tally_of metrics_rx rx_count rx_sequence rx_rssi rx_rtt rx_jitter
tally_of-rx m header rssi now = ground arith

measurement_state_lem : (state : State) → measurement_state state ≡ is_measuring state
unfolding measurement_state is_measuring
measurement_state_lem boot = refl
measurement_state_lem idle = refl
measurement_state_lem configured = refl
measurement_state_lem armed = refl
measurement_state_lem running = refl
measurement_state_lem finished = refl
measurement_state_lem error = refl

module _ {W : Type 0} (p : Platform W) (notify_give : M W (Unit {0})) (blank : Header)
    (q : Untallied p notify_give) where
  send_kept-tally :
      (bytes : List ℕ) (s : System W) → tally (radio_send_acquired p bytes s).1 ≡ tally s
  unfolding radio_send_acquired
  send_kept-tally bytes s =
      let n = s.node in
      let c = n.config in
      let (e, t) = p.now_send c.peer_mac bytes s in
      let kept = q.send_kept c.peer_mac bytes s in
      elim (Bool-cases (is_ok e)) [ inl y ↦ rw y kept | inr n ↦ rw n (q.give_kept t ∙ kept) ]

  echo_sent-tally :
      (j len now : ℕ) (e : EspErr) (s : System W)
      → tally (echo_sent p notify_give blank j len now e s).1 ≡ tally s
  unfolding echo_sent
  echo_sent-tally j len now e s = elim (Bool-cases (is_ok e)) [
    | inl y ↦ rw y (tally_of-submitted _ j len now)
    | inr n ↦ rw n (tally_of-api_failure _)
  ]

  echo_with_slot-tally :
      (bytes : List ℕ) (j : ℕ) (s : System W)
      → tally (echo_with_slot p notify_give blank bytes j s).1 ≡ tally s
  unfolding echo_with_slot
  echo_with_slot-tally bytes j s =
      let (now, t) = p.timer_get_time s in
      let (e, u) = radio_send_acquired p bytes t in
      echo_sent-tally j (length bytes) now e u ∙ send_kept-tally bytes t ∙ q.time_kept s

  echo-tally :
      (bytes : List ℕ) (j : ℕ) (s : System W)
      → tally (echo p notify_give blank bytes j s).1 ≡ tally s
  unfolding echo radio_acquire_tx
  echo-tally bytes j s =
      let (_, u) = on_metrics (λ m. metrics_tx_requested m j) s in
      let (taken, t) = p.semaphore_take 100 u in
      let kept = q.take_kept 100 u ∙ tally_of-requested _ j in
      elim (Bool-cases taken) [
        | inl y ↦ rw y (echo_with_slot-tally (set bytes 5 packet_echo) j t ∙ kept)
        | inr n ↦ rw n (tally_of-slot_timeout _ ∙ kept)
      ]

  receive_current-tally :
      (header : Header) (bytes : List ℕ) (rssi : ℤ) (at : ℕ) (s : System W)
      → tally (receive_current p notify_give blank header bytes rssi at s).1
        ≡ one_received (tally s)
  unfolding receive_current
  receive_current-tally header bytes rssi at s =
      let (_, t) = on_metrics (λ m. metrics_rx m header rssi at) s in
      let n = t.node in
      let c = n.config in
      let counted = tally_of-rx _ header rssi at in
      elim (Bool-cases (is_echo_responder c.role && (header.type == packet_ping))) [
        | inl y ↦ rw y (echo-tally bytes header.stream_id t ∙ counted)
        | inr e ↦ rw e counted
      ]

  is_current_lem :
      (n : Node) (header : Header)
      → is_current n header
        ≡ (let c = n.config in (header.run_id == c.run_id) && is_measuring n.state)
  unfolding is_current
  is_current_lem n header =
      let c = n.config in ap (λ m. (header.run_id == c.run_id) && m) (measurement_state_lem n.state)

  receive_packet-tally :
      (decoded : Bool × Option Header) (bytes : List ℕ) (rssi : ℤ) (at : ℕ) (s : System W)
      → tally (receive_packet p notify_give blank decoded bytes rssi at s).1
        ≡ packet_tally s.node decoded (tally s)
  unfolding receive_packet packet_tally
  receive_packet-tally (true, some header) bytes rssi at s =
      elim (Bool-cases (is_current s.node header)) [
        | inl y ↦
            rw (y, sym (is_current_lem s.node header) ∙ y)
              (receive_current-tally header bytes rssi at s)
        | inr n ↦ rw (n, sym (is_current_lem s.node header) ∙ n) (tally_of-stale _)
      ]
  receive_packet-tally (true, none) bytes rssi at s = tally_of-invalid _
  receive_packet-tally (false, header) bytes rssi at s = tally_of-invalid _

  -- Every event that the receiver task takes from its queue is counted exactly once, and no other of
  -- these counters moves: an outcome of a send as sent or not sent; a packet as received if it
  -- decodes, is of the configured run and the node is ARMED, RUNNING or FINISHED, as stale if it
  -- only decodes, and as invalid if it does not decode; a dropped packet as invalid; a barrier not at
  -- all. This holds also where the packet is a ping that the task answers and the answer fails. The
  -- system's calls are assumed to leave these counters (`Untallied`).
  pub handle_event-event_tally :
      (e : Event) (s : System W)
      → tally (handle_event p notify_give blank e s).1 ≡ event_tally blank s.node e (tally s)
  unfolding handle_event event_tally
  handle_event-event_tally ev_barrier s = q.notify_kept s
  handle_event-event_tally ev_tx_ok s = tally_of_complete _ true
  handle_event-event_tally ev_tx_fail s = tally_of_complete _ false
  handle_event-event_tally ev_drop s = tally_of-invalid _
  handle_event-event_tally (ev_rx bytes rssi at) s = receive_packet-tally _ bytes rssi at s
