-- ===== src/Radio/Slots.antt =====
-- The transmit slots that a task holds across the calls of firmware/main/radio.c.
use esp_now_harness.Common.{
  ℕ, zero, suc, ◌+◌, ◌≤◌, ◌≡◌, inl, inr, List, arith, if◌then◌else◌, Bool-cases,
}
use esp_now_harness.Runtime.{is_ok, System, Platform}
use esp_now_harness.Radio.{
  radio_acquire_tx, radio_send_acquired, radio_send, give_slots, take_slots, radio_wait_idle,
}

-- A count of the slots that the calling task has taken and not given, whatever the other tasks and
-- the driver do: the semaphore's calls move it by one, and esp_now_send keeps it, a slot of a
-- packet that the driver accepts being the driver's to give.
pub record Held {W : Type 0} (p : Platform W) : Type 0 where
  pub held : System W → ℕ
  pub after_take :
      (ms : ℕ) (s : System W)
      → held (p.semaphore_take ms s).1 ≡ (if (p.semaphore_take ms s).0 then held s + 1 else held s)
  pub after_give : (s : System W) → 1 ≤ held s → held (p.semaphore_give s).1 + 1 ≡ held s
  pub after_send : (mac bytes : List ℕ) (s : System W) → held (p.now_send mac bytes s).1 ≡ held s

module _ {W : Type 0} (p : Platform W) (h : Held p) where
  open h use {held}

  give_slots-held : (n k : ℕ) (s : System W) → held s ≡ k + n → held (give_slots p n s).1 ≡ k
  unfolding give_slots
  give_slots-held zero k s e = omega (arith, e)
  give_slots-held (suc n) k s e =
      let (_, t) = p.semaphore_give s in
      let g = h.after_give s (omega (arith, e)) in give_slots-held n k t (omega (arith, e, g))

  take_slots-held :
      (ms todo acquired k : ℕ) (s : System W)
      → held s ≡ k + acquired
      → held (take_slots p ms todo acquired s).1 ≡ k
  unfolding take_slots
  take_slots-held ms zero acquired k s e = give_slots-held acquired k s e
  take_slots-held ms (suc todo) acquired k s e =
      let (taken, t) = p.semaphore_take ms s in
      let a = h.after_take ms s in
      elim (Bool-cases taken) [
        | inl y ↦ rw y (take_slots-held ms todo (suc acquired) k t (grind (arith, a, y, e)))
        | inr n ↦ rw n (give_slots-held acquired k t (grind (arith, a, n, e)))
      ]

  -- radio_wait_idle leaves the number of transmit slots that its caller has taken, whether it
  -- succeeds or times out after some of them, and whatever the window and the other tasks do, where
  -- taking, giving and sending count as `Held` says.
  radio_wait_idle-held : (ms : ℕ) (s : System W) → held (radio_wait_idle p ms s).1 ≡ held s
  unfolding radio_wait_idle
  radio_wait_idle-held ms s = take_slots-held ms _ zero (held s) s (omega arith)

  -- radio_send leaves its caller with one more transmit slot taken, which the driver's callback
  -- gives, exactly when it returns ESP_OK; on a timeout and on a refusal of the driver the number
  -- of slots taken stays, where taking, giving and sending count as `Held` says.
  radio_send-held :
      (bytes : List ℕ) (ms : ℕ) (s : System W)
      → held (radio_send p bytes ms s).1
        ≡ (if is_ok (radio_send p bytes ms s).0 then held s + 1 else held s)
  unfolding radio_send radio_acquire_tx radio_send_acquired
  radio_send-held bytes ms s =
      let (taken, t) = p.semaphore_take ms s in
      let a = h.after_take ms s in
      let n = t.node in
      let c = n.config in
      let (e, u) = p.now_send c.peer_mac bytes t in
      let b = h.after_send c.peer_mac bytes t in ground (arith, a, b, h.after_give u)
