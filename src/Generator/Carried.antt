-- ===== src/Generator/Carried.antt =====
-- The packets that send_one of firmware/main/generator.c hands to the driver, and the numbers in them.
use esp_now_harness.Common.{
  ℕ, ◌^◌, ◌<◌, ◌≡◌, refl, ap, ◌∙◌, sym, inl, inr, Bool, true, false, List, [], ◌∷◌, ◌++◌, Option,
  none, some, ◌==◌, ◌&&◌, if◌then◌else◌, Bool-cases, take, u16, u32,
}
use mathlib.Core.List.{append_assoc, append-nil}
use esp_now_harness.Protocol.{bench_encode}
use esp_now_harness.Runtime.{EspErr, is_ok, System, Platform, pure, on_metrics, ◌>>◌}
use esp_now_harness.Runtime.Frame.{at_if}
use esp_now_harness.Metrics.{
  Metrics, metrics_dispatch_lateness, metrics_tx_requested, metrics_tx_api_failure,
}
use esp_now_harness.Radio.{radio_acquire_tx, radio_send_acquired, radio_release_tx}
use esp_now_harness.Generator.{
  filled, packet_header, no_slot, after_send, send_encoded, with_slot, send_one,
}
use esp_now_harness.Generator.Bytes.{
  stream_in, number_in, one_if, carried, carried_last, Shows, bench_encode-Shows,
}

-- The packets that the driver accepted from the task: a call of esp_now_send that succeeds adds its
-- bytes, and no other call adds any.
pub record Air {W : Type 0} (p : Platform W) : Type 0 where
  pub accepted : W → List (List ℕ)
  pub send_adds :
      (mac bytes : List ℕ) (s : System W)
      → let (e, t) = p.now_send mac bytes s in
        accepted t.world ≡ accepted s.world ++ (if is_ok e then bytes ∷ [] else [])
  pub take_keeps :
      (ms : ℕ) (s : System W) → accepted (p.semaphore_take ms s).1.world ≡ accepted s.world
  pub give_keeps : (s : System W) → accepted (p.semaphore_give s).1.world ≡ accepted s.world
  pub time_keeps : (s : System W) → accepted (p.timer_get_time s).1.world ≡ accepted s.world
  pub yield_keeps : (s : System W) → accepted (p.task_yield s).1.world ≡ accepted s.world
  pub delay_keeps :
      (ticks : ℕ) (s : System W) → accepted (p.task_delay ticks s).1.world ≡ accepted s.world
  pub delay_us_keeps :
      (us : ℕ) (s : System W) → accepted (p.delay_us us s).1.world ≡ accepted s.world

module _ {W : Type 0} {p : Platform W} (air : Air p) where
  -- The packets that the driver accepted so far.
  abbrev pub so_far : System W → List (List ℕ)
  so_far s = air.accepted s.world

  -- The driver accepted packets of stream `k` with these numbers.
  abbrev pub Adds : ℕ → List ℕ → System W → System W → Type 0
  Adds k ns s t = carried k (so_far t) ≡ carried k (so_far s) ++ ns

  pub Adds-none : (k : ℕ) (s t : System W) → so_far t ≡ so_far s → Adds k [] s t
  Adds-none k s t h = ap (carried k) h ∙ sym (append-nil _)

  pub Adds-then :
      (k : ℕ) (ns ms : List ℕ) (s t u : System W)
      → Adds k ns s t
      → Adds k ms t u
      → Adds k (ns ++ ms) s u
  Adds-then k ns ms s t u h l =
      l ∙ ap (λ (qs : List ℕ). qs ++ ms) h ∙ append_assoc (carried k (so_far s)) ns ms

module _ {W : Type 0} (p : Platform W) (rest : ℕ → List ℕ) (air : Air p) where
  send_acquired_adds :
      (bytes : List ℕ) (s : System W)
      → let (e, t) = radio_send_acquired p bytes s in
        so_far air t ≡ so_far air s ++ (if is_ok e then bytes ∷ [] else [])
  unfolding radio_send_acquired
  send_acquired_adds bytes s =
      let n = s.node in
      let c = n.config in
      let (e, t) = p.now_send c.peer_mac bytes s in
      let added = air.send_adds c.peer_mac bytes s in
      at_if (λ r. so_far air r.1 ≡ so_far air s ++ (if is_ok r.0 then bytes ∷ [] else [])) (is_ok e)
        (pure e) (do p.semaphore_give; pure e) t (λ y. added) (λ n. air.give_keeps t ∙ added)

  after_send_keeps :
      (scheduled : Bool) (stream size now : ℕ) (e : EspErr) (s : System W)
      → let (sent, t) = after_send p rest scheduled stream size now e s in
        (sent ≡ is_ok e) × (so_far air t ≡ so_far air s)
  unfolding after_send
  after_send_keeps true stream size now e s = elim (Bool-cases (is_ok e)) [
    | inl y ↦ rw y (refl, refl)
    | inr n ↦ rw n (refl, refl)
  ]
  after_send_keeps false stream size now e s = elim (Bool-cases (is_ok e)) [
    | inl y ↦ rw y (refl, refl)
    | inr n ↦ rw n (refl, air.yield_keeps _)
  ]

  no_slot-Adds :
      (k stream sequence : ℕ) (scheduled : Bool) (at : ℕ) (s : System W)
      → let (sent, t) = no_slot p rest scheduled at s in
        Adds air k (one_if (sent && (u16 stream == k)) (u32 sequence)) s t
  unfolding no_slot
  no_slot-Adds k stream sequence true at s =
      Adds-none air k s (no_slot p rest true at s).1 (air.time_keeps s)
  no_slot-Adds k stream sequence false at s = Adds-none air k s (no_slot p rest false at s).1 refl

  -- A packet's bytes, accepted or not.
  packet-Adds :
      (k : ℕ) (sent : Bool) (bytes : List ℕ) (stream sequence : ℕ) (s t : System W)
      → so_far air t ≡ so_far air s ++ (if sent then bytes ∷ [] else [])
      → stream_in bytes ≡ u16 stream
      → number_in bytes ≡ u32 sequence
      → Adds air k (one_if (sent && (u16 stream == k)) (u32 sequence)) s t
  packet-Adds k true bytes stream sequence s t h i j =
      ap (carried k) h ∙ carried_last k (so_far air s) bytes ∙ rw (← i, ← j) refl
  packet-Adds k false bytes stream sequence s t h i j =
      Adds-none air k s t (h ∙ append-nil (so_far air s))

  released-Adds :
      (k : ℕ) (s : System W)
      → Adds air k [] s ((do radio_release_tx p; on_metrics metrics_tx_api_failure) s).1
  unfolding radio_release_tx
  released-Adds k s =
      Adds-none air k s ((do p.semaphore_give; on_metrics metrics_tx_api_failure) s).1
        (air.give_keeps s)

  send_encoded-Adds :
      (k stream sequence : ℕ) (scheduled : Bool) (size now : ℕ) (encoded : Bool × Option (List ℕ))
      (s : System W)
      → Shows stream sequence size encoded
      → let (sent, t) = send_encoded p rest scheduled stream size now encoded s in
        Adds air k (one_if (sent && (u16 stream == k)) (u32 sequence)) s t
  unfolding send_encoded
  send_encoded-Adds k stream sequence scheduled size now (true, some packet) s h =
      let bytes = take size packet in
      let (e, t) = radio_send_acquired p bytes s in
      let (sent, u) = after_send p rest scheduled stream size now e t in
      let (is_sent, kept) = after_send_keeps scheduled stream size now e t in
      let (i, j) = h packet refl in
      packet-Adds k sent bytes stream sequence s u
        (kept
          ∙ send_acquired_adds bytes s
          ∙ ap (λ (b : Bool). so_far air s ++ (if b then bytes ∷ [] else [])) (sym is_sent))
        i j
  send_encoded-Adds k stream sequence scheduled size now (true, none) s h = released-Adds k s
  send_encoded-Adds k stream sequence scheduled size now (false, packet) s h = released-Adds k s

  with_slot-Adds :
      (k type stream sequence size at : ℕ) (scheduled : Bool) (s : System W)
      → type < 2 ^ 8
      → let (sent, t) = with_slot p rest type stream sequence size at scheduled s in
        Adds air k (one_if (sent && (u16 stream == k)) (u32 sequence)) s t
  unfolding with_slot
  with_slot-Adds k type stream sequence size at scheduled s h =
      let (now, t) = p.timer_get_time s in
      let n = t.node in
      let c = n.config in
      let late = λ (m : Metrics). if scheduled then metrics_dispatch_lateness m now at else m in
      let (_, u) = on_metrics late t in
      let packet =
        bench_encode (some (filled size (rest size))) 250
          (some (packet_header type stream sequence size c.run_id now)) in
      let (sent, v) = send_encoded p rest scheduled stream size now packet u in
      Adds-then air k [] _ s u v (Adds-none air k s u (air.time_keeps s)) (
        send_encoded-Adds k stream sequence scheduled size now packet u
          (bench_encode-Shows type stream sequence size c.run_id now (rest size) h))

  -- What send_one gets accepted carries its stream and its number.
  pub send_one-Adds :
      (k type stream sequence size at : ℕ) (scheduled : Bool) (s : System W)
      → type < 2 ^ 8
      → let (sent, t) = send_one p rest type stream sequence size at scheduled s in
        Adds air k (one_if (sent && (u16 stream == k)) (u32 sequence)) s t
  unfolding send_one radio_acquire_tx
  send_one-Adds k type stream sequence size at scheduled s h =
      let (_, u) = on_metrics (λ m. metrics_tx_requested m stream) s in
      let (taken, t) = p.semaphore_take 100 u in
      let begin = Adds-none air k s t (air.take_keeps 100 u) in
      elim (Bool-cases taken) [
        | inl y ↦ rw y (
            Adds-then air k [] _ s t (with_slot p rest type stream sequence size at scheduled t).1
              begin (with_slot-Adds k type stream sequence size at scheduled t h))
        | inr n ↦ rw n (
            Adds-then air k [] _ s t (no_slot p rest scheduled at t).1 begin
              (no_slot-Adds k stream sequence scheduled at t))
      ]
