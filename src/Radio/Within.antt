-- ===== src/Radio/Within.antt =====
-- The code of firmware/main/radio.c moves the globals only as the calls of the system do.
use esp_now_harness.Common.{ℕ, zero, suc, List}
use esp_now_harness.Runtime.{is_ok, System, Platform}
use esp_now_harness.Runtime.Frame.{
  Within, Frame, CallsWithin, Within-pure, Within-bind, Within-if, Within-get_node,
}
use esp_now_harness.Radio.{
  radio_acquire_tx, radio_send_acquired, give_slots, take_slots, radio_wait_idle,
}

module _ {W : Type 0} {R : System W → System W → Type 0} (fr : Frame R) (p : Platform W)
    (cw : CallsWithin R p) where
  pub radio_acquire_tx-Within : (ms : ℕ) → Within R (radio_acquire_tx p ms)
  unfolding radio_acquire_tx
  radio_acquire_tx-Within ms = search (Within-bind fr, Within-pure fr, cw.take_within)

  pub radio_send_acquired-Within : (bytes : List ℕ) → Within R (radio_send_acquired p bytes)
  unfolding radio_send_acquired
  radio_send_acquired-Within bytes = Within-bind fr _ _ (Within-get_node fr) λ n.
      Within-bind fr _ _ (cw.send_within n.config.peer_mac bytes) λ e.
        Within-if fr (is_ok e) _ _ (Within-pure fr e)
          (Within-bind fr _ _ cw.give_within λ _. Within-pure fr e)

  pub give_slots-Within : (n : ℕ) → Within R (give_slots p n)
  unfolding give_slots
  give_slots-Within zero = search (Within-pure fr)
  give_slots-Within (suc n) = search (Within-bind fr, cw.give_within, give_slots-Within n)

  pub take_slots-Within : (ms todo acquired : ℕ) → Within R (take_slots p ms todo acquired)
  unfolding take_slots
  take_slots-Within ms zero acquired = search (Within-bind fr, Within-pure fr, give_slots-Within)
  take_slots-Within ms (suc todo) acquired = search (
    Within-bind fr,
    Within-pure fr,
    Within-if fr,
    cw.take_within,
    give_slots-Within,
    take_slots-Within ms todo,
  )

  pub radio_wait_idle-Within : (ms : ℕ) → Within R (radio_wait_idle p ms)
  unfolding radio_wait_idle
  radio_wait_idle-Within ms = search (Within-bind fr, Within-get_node fr, take_slots-Within)
