-- ===== src/Radio/ArrivalTests.antt =====
-- A frame of three bytes that comes while the queue has room.
use esp_now_harness.Common.{
  ◌+◌, ◌≡◌, ◌⊎◌, refl, Bool, true, false, [], ◌∷◌, ◌++◌, some, u64, arith, if◌then◌else◌,
}
use esp_now_harness.Common.Int.{pos, negsuc}
use esp_now_harness.Receiver.{Event, ev_rx, ev_drop}
use esp_now_harness.Receiver.QueueTests.{Post, office, post_office, put_if, room, busy}
use esp_now_harness.Radio.Callbacks.{rx_callback}
use esp_now_harness.Receiver.Queue.{receiver_post_drop}
use esp_now_harness.Radio.Arrivals.{Ledger, queue_drops, rx_callback-Counted}

put_if_is :
    (b : Bool) (e : Event) (w : Post)
    → (put_if b e w).1.accepted ≡ (if (put_if b e w).0 then w.accepted ++ (e ∷ []) else w.accepted)
put_if_is true e w = refl
put_if_is false e w = refl

unfoldable office_Ledger : Ledger office post_office
office_Ledger = record {
  accepted = λ w. w.accepted;
  time_keeps = λ s. (refl, refl);
  send_keeps = λ e s. refl;
  send_is = λ e s. put_if_is (room s.world) e s.world;
}

-- A frame of a negative length is an event to drop.
negative_length :
    (rx_callback office post_office (some (pos 0)) (some (1 ∷ [])) (negsuc 0) busy).1.world.accepted
    ≡ busy.world.accepted ++ (ev_drop ∷ [])
unfolding rx_callback receiver_post_drop
negative_length = refl

rx_callback-Counted_example :
    let t =
      (rx_callback office post_office (some (negsuc 60)) (some (7 ∷ 8 ∷ 9 ∷ [])) (pos 3) busy).1 in
    let e = ev_rx (7 ∷ 8 ∷ 9 ∷ []) (negsuc 60) 5000 in
    let sent = (post_office.queue_send e 0 busy).0 in
    ((sent ≡ true)
      × (t.world.accepted ≡ busy.world.accepted ++ (e ∷ []))
      × (queue_drops t ≡ queue_drops busy))
    ⊎ ((sent ≡ false)
        × (t.world.accepted ≡ busy.world.accepted)
        × (queue_drops t ≡ u64 (queue_drops busy + 1)))
unfolding office_Ledger
rx_callback-Counted_example =
    rx_callback-Counted office post_office office_Ledger (negsuc 60) (7 ∷ 8 ∷ 9 ∷ []) 3 busy
      (omega arith)
