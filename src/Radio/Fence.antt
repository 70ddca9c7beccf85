-- ===== src/Radio/Fence.antt =====
-- radio_wait_idle of firmware/main/radio.c as a fence for the packets in flight.
use esp_now_harness.Common.{
  ℕ, zero, suc, ◌+◌, ◌≤◌, ◌≡◌, refl, ap, Bool, true, false, arith, if◌then◌else◌,
}
use esp_now_harness.Runtime.{EspErr, esp_ok, esp_err_timeout, System, M, Platform, pure, ◌>>◌}
use esp_now_harness.Radio.{give_slots, take_slots, radio_wait_idle}

-- Where the slots are, whatever the other tasks and the callbacks do while the caller waits: `mine` the
-- caller has taken, `rest` are free, with other tasks, or with packets in flight. Taking one makes
-- none and loses none.
pub record Places {W : Type 0} (p : Platform W) : Type 0 where
  pub mine : W → ℕ
  pub rest : W → ℕ
  pub flying : W → ℕ
  pub flying_in_rest : (w : W) → flying w ≤ rest w
  pub take_mine :
      (ms : ℕ) (s : System W)
      → mine (p.semaphore_take ms s).1.world
        ≡ (if (p.semaphore_take ms s).0 then mine s.world + 1 else mine s.world)
  pub take_total :
      (ms : ℕ) (s : System W)
      → mine (p.semaphore_take ms s).1.world + rest (p.semaphore_take ms s).1.world
        ≡ mine s.world + rest s.world

module _ {W : Type 0} (p : Platform W) (x : Places p) where
  open x use {mine, rest, flying}

  -- From `s` a state without packets in flight is passed, from which `n` slots are given.
  abbrev pub Passed : ℕ → System W → Type 0
  Passed n s = (t : System W) × (flying t.world ≡ 0) × (s ≡ (give_slots p n t).1)

  round-Passed :
      (taken : Bool) (n acquired : ℕ) (more : M W EspErr) (t : System W)
      → (taken ≡ true → (more t).0 ≡ esp_ok → Passed n (more t).1)
      → let m = if taken then more else (do give_slots p acquired; pure esp_err_timeout) in
        (m t).0 ≡ esp_ok → Passed n (m t).1
  round-Passed true n acquired more t h e = h refl e
  round-Passed false n acquired more t h e = cc

  take_slots-Passed :
      (ms todo acquired n : ℕ) (s : System W)
      → acquired + todo ≡ n
      → mine s.world ≡ acquired
      → mine s.world + rest s.world ≡ n
      → (take_slots p ms todo acquired s).0 ≡ esp_ok
      → Passed n (take_slots p ms todo acquired s).1
  unfolding take_slots
  take_slots-Passed ms zero acquired n s a h k e =
      let same : acquired ≡ n = omega arith in
      (s, omega (arith, x.flying_in_rest s.world), ap (λ m. (give_slots p m s).1) same)
  take_slots-Passed ms (suc todo) acquired n s a h k e =
      let (taken, t) = p.semaphore_take ms s in
      let more = x.take_mine ms s in
      let total = x.take_total ms s in
      round-Passed taken n acquired (take_slots p ms todo (suc acquired)) t
        (λ y.
          take_slots-Passed ms todo (suc acquired) n t (omega arith) (grind (arith, y, more))
            (omega (arith, total)))
        e

  -- A success of radio_wait_idle passes a state in which no packet is in flight: where the caller has
  -- taken no slot before and the slots in all are the window, it has then taken every one, and from
  -- that state only gives them back. The other tasks and the callbacks may run in every call.
  pub radio_wait_idle-fence :
      (ms : ℕ) (s : System W)
      → mine s.world ≡ 0
      → rest s.world ≡ s.node.current_tx_window
      → (radio_wait_idle p ms s).0 ≡ esp_ok
      → Passed s.node.current_tx_window (radio_wait_idle p ms s).1
  unfolding radio_wait_idle
  radio_wait_idle-fence ms s h k e =
      take_slots-Passed ms s.node.current_tx_window zero s.node.current_tx_window s (omega arith) h
        (omega arith) e
