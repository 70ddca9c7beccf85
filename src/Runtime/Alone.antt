-- ===== src/Runtime/Alone.antt =====
-- A platform on which the caller is the only task, and the driver accepts every packet.
use esp_now_harness.Common.{ℕ, zero, suc, ◌+◌, ltb, if◌then◌else◌, Bool, true, false}
use esp_now_harness.Runtime.{esp_ok, Platform, pure}

-- The slots that are free, and those that the caller has.
pub record Slots : Type 0 where
  pub free : ℕ
  pub mine : ℕ

abbrev pub before : ℕ → ℕ
before zero = zero
before (suc n) = n

abbrev pub take_slot : Slots → Bool × Slots
take_slot s = elim s.free [
  | zero ↦ (false, s)
  | suc n ↦ (true, record { free = n; mine = s.mine + 1 })
]

abbrev pub give_slot : Slots → Slots
give_slot s = record { free = if ltb s.free 32 then s.free + 1 else s.free; mine = before s.mine }

abbrev pub alone : Platform Slots
alone = record {
  semaphore_take = λ ms s. let (taken, w) = take_slot s.world in (taken, record s { world = w });
  semaphore_give = λ s. (tt, record s { world = give_slot s.world });
  timer_get_time = pure 5000;
  now_send = λ mac bytes. pure esp_ok;
  task_delay = λ ms. pure tt;
  delay_us = λ us. pure tt;
  task_yield = pure tt;
  create_generator = pure true;
  tick_count = pure 0;
  ms_to_ticks = λ ms. ms;
  notify_take = λ ms. pure true;
}
