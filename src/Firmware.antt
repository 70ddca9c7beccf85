-- ===== src/Firmware.antt =====
-- The dispatcher of firmware/main/control.c with what it calls in radio.c, receiver.c and generator.c.
pub mod Interface
pub mod Settled
pub mod Fenced
pub mod Tests
pub mod FenceTests
use esp_now_harness.Common.{ℕ, Bool, true, false, List, Option, none, some}
use esp_now_harness.Runtime.{M, Platform, pure, ◌>>=◌}
use esp_now_harness.Radio.{radio_wait_idle}
use esp_now_harness.Radio.Configure.{Driver, radio_configure}
use esp_now_harness.Generator.{generator_start}
use esp_now_harness.Generator.Stop.{generator_wait_stopped}
use esp_now_harness.Receiver.Queue.{Mailbox, receiver_flush}
use esp_now_harness.Control.Dispatch.{Services}

-- Fuel that ran out counts as a task that has not stopped.
abbrev pub has_stopped : Option Bool → Bool
has_stopped (some stopped) = stopped
has_stopped none = false

-- `peers` is the fuel of the loop that removes peers, `waits` that of the wait for the generator.
abbrev pub services :
    {W : Type 0} → Platform W → Driver W → Mailbox W → (ℕ → List ℕ) → (peers waits : ℕ) → Services W
services p d mb rest peers waits = record {
  timer_get_time = p.timer_get_time;
  radio_configure = radio_configure p d peers;
  radio_wait_idle = radio_wait_idle p;
  receiver_flush = receiver_flush p mb;
  generator_start = generator_start p rest;
  generator_wait_stopped = λ ms. do
    stopped ← generator_wait_stopped p waits ms
    pure (has_stopped stopped);
}
