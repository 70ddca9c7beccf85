-- ===== src/Radio/Interleaving.antt =====
-- The transmit slots of firmware/main/radio.c while tasks, the driver and its callback run in any
-- order: each step is one call on the semaphore tx_ready, or one of esp_now_send or receiver_post_tx.
use esp_now_harness.Common.{ℕ, ◌+◌, ◌-◌, ◌≤◌, ◌≡◌, refl, arith}

pub record Air : Type 0 where
  pub free : ℕ  -- the count of tx_ready
  pub waiting : ℕ  -- slots that radio_wait_idle has taken
  pub tasks : ℕ  -- slots that senders have taken and not used
  pub driver : ℕ  -- packets that the driver has accepted and not completed
  pub callback : ℕ  -- calls of tx_callback between its two lines
  pub accepted : ℕ  -- packets that esp_now_send has accepted so far
  pub posted : ℕ  -- calls of receiver_post_tx so far

-- A step of the senders, the driver and its callback.
pub data Step : Air → Air → Type 0 where
  -- radio_acquire_tx: xSemaphoreTake returns pdTRUE
  acquire : {a : Air} → 1 ≤ a.free → Step a (record a { free = a.free - 1; tasks = a.tasks + 1 })
  -- radio_send_acquired: esp_now_send returns ESP_OK
  accept :
      {a : Air}
      → 1 ≤ a.tasks
      → Step a (record a { tasks = a.tasks - 1; driver = a.driver + 1; accepted = a.accepted + 1 })
  -- radio_send_acquired: esp_now_send returns an error, and the slot is given
  refuse : {a : Air} → 1 ≤ a.tasks → Step a (record a { tasks = a.tasks - 1; free = a.free + 1 })
  -- radio_release_tx
  release : {a : Air} → 1 ≤ a.tasks → Step a (record a { tasks = a.tasks - 1; free = a.free + 1 })
  -- tx_callback: receiver_post_tx
  post :
      {a : Air}
      → 1 ≤ a.driver
      → Step a
          (record a { driver = a.driver - 1; callback = a.callback + 1; posted = a.posted + 1 })
  -- tx_callback: xSemaphoreGive
  give :
      {a : Air}
      → 1 ≤ a.callback
      → Step a (record a { callback = a.callback - 1; free = a.free + 1 })

-- Any number of them, in any order.
pub data Steps : Air → Air → Type 0 where
  stay : {a : Air} → Steps a a
  then_step : {a b c : Air} → Steps a b → Step b c → Steps a c

-- The calls of radio_wait_idle on the semaphore.
abbrev pub taken_by_wait : Air → Air
taken_by_wait a = record a { free = a.free - 1; waiting = a.waiting + 1 }

abbrev pub given_by_wait : Air → Air
given_by_wait a = record a { free = a.free + 1; waiting = a.waiting - 1 }

-- What a run reaches from a window of free slots.
pub data Reached : ℕ → Air → Type 0 where
  start :
      {window : ℕ}
      → Reached window (record {
        free = window;
        waiting = 0;
        tasks = 0;
        driver = 0;
        callback = 0;
        accepted = 0;
        posted = 0;
      })
  other : {window : ℕ} {a b : Air} → Reached window a → Step a b → Reached window b
  take : {window : ℕ} {a : Air} → Reached window a → 1 ≤ a.free → Reached window (taken_by_wait a)
  back :
      {window : ℕ} {a : Air} → Reached window a → 1 ≤ a.waiting → Reached window (given_by_wait a)

-- The slots that radio_wait_idle has not taken.
abbrev pub others : Air → ℕ
others a = a.free + a.tasks + a.driver + a.callback

-- Every slot is in one place, and every packet that the driver has accepted is with it or has its
-- completion posted.
pub record Balanced (window : ℕ) (a : Air) : Type 0 where
  pub slots : a.waiting + others a ≡ window
  pub packets : a.accepted ≡ a.driver + a.posted

Step-Balanced : (window : ℕ) (a b : Air) → Step a b → Balanced window a → Balanced window b
Step-Balanced window a b (acquire h) x = record {
  slots = omega (arith, x.slots);
  packets = x.packets;
}
Step-Balanced window a b (accept h) x = record {
  slots = omega (arith, x.slots);
  packets = omega (arith, x.packets);
}
Step-Balanced window a b (refuse h) x = record {
  slots = omega (arith, x.slots);
  packets = x.packets;
}
Step-Balanced window a b (release h) x = record {
  slots = omega (arith, x.slots);
  packets = x.packets;
}
Step-Balanced window a b (post h) x = record {
  slots = omega (arith, x.slots);
  packets = omega (arith, x.packets);
}
Step-Balanced window a b (give h) x = record { slots = omega (arith, x.slots); packets = x.packets }

-- In every state that any interleaving reaches, the slots that are free, taken by a waiting task or by
-- senders, with a packet in the driver or in a callback are the window; and the packets that the driver
-- has accepted are those that it has and those whose completion is posted.
pub Reached-Balanced : (window : ℕ) (a : Air) → Reached window a → Balanced window a
Reached-Balanced window a start = record { slots = omega arith; packets = refl }
Reached-Balanced window a (other r s) = Step-Balanced window _ a s (Reached-Balanced window _ r)
Reached-Balanced window a (take r h) =
    let x = Reached-Balanced window _ r in
    record { slots = omega (arith, x.slots); packets = x.packets }
Reached-Balanced window a (back r h) =
    let x = Reached-Balanced window _ r in
    record { slots = omega (arith, x.slots); packets = x.packets }

-- The steps of the others leave the slots of the waiting task, and the sum of the rest.
Step-waiting : (a b : Air) → Step a b → (b.waiting ≡ a.waiting) × (others b ≡ others a)
Step-waiting a b (acquire h) = (refl, omega arith)
Step-waiting a b (accept h) = (refl, omega arith)
Step-waiting a b (refuse h) = (refl, omega arith)
Step-waiting a b (release h) = (refl, omega arith)
Step-waiting a b (post h) = (refl, omega arith)
Step-waiting a b (give h) = (refl, omega arith)

pub Steps-waiting : (a b : Air) → Steps a b → (b.waiting ≡ a.waiting) × (others b ≡ others a)
Steps-waiting a b stay = (refl, refl)
Steps-waiting a b (then_step steps s) =
    let (w, o) = Steps-waiting a _ steps in
    let (w', o') = Step-waiting _ b s in (omega (arith, w, w'), omega (arith, o, o'))
