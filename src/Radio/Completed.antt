-- ===== src/Radio/Completed.antt =====
-- radio_wait_idle of firmware/main/radio.c while senders, the driver and its callback run in between.
use esp_now_harness.Common.{
  ℕ, zero, suc, ◌+◌, ◌≤◌, ◌≡◌, refl, ap, Bool, true, false, arith, if◌then◌else◌,
}
use esp_now_harness.Runtime.{EspErr, esp_ok, esp_err_timeout, System, M, Platform, pure, ◌>>◌}
use esp_now_harness.Radio.{give_slots, take_slots, radio_wait_idle}
use esp_now_harness.Radio.Interleaving.{
  Air, Step, Steps, stay, then_step, acquire, accept, refuse, release, post, give, Reached,
  taken_by_wait, Reached-Balanced, Steps-waiting,
}

-- What xSemaphoreTake does for radio_wait_idle: the others make any steps while it blocks; then it takes a
-- slot that is free, or times out.
abbrev pub Blocks : Air → Bool → Air → Type 0
Blocks a taken b =
    (mid : Air) × Steps a mid
    × (taken ≡ true → (1 ≤ mid.free) × (b ≡ taken_by_wait mid))
    × (taken ≡ false → b ≡ mid)

-- A system whose states are reached by steps, and in which the caller waits.
pub record Interleaved {W : Type 0} (p : Platform W) (window : ℕ) : Type 0 where
  pub air : W → Air
  pub reached : (w : W) → Reached window (air w)
  pub take_blocks :
      (ms : ℕ) (s : System W)
      → Blocks (air s.world) (p.semaphore_take ms s).0 (air (p.semaphore_take ms s).1.world)

Step-accepted : (a b : Air) → Step a b → a.accepted ≤ b.accepted
Step-accepted a b (acquire h) = omega arith
Step-accepted a b (accept h) = omega arith
Step-accepted a b (refuse h) = omega arith
Step-accepted a b (release h) = omega arith
Step-accepted a b (post h) = omega arith
Step-accepted a b (give h) = omega arith

Steps-accepted : (a b : Air) → Steps a b → a.accepted ≤ b.accepted
Steps-accepted a b stay = omega arith
Steps-accepted a b (then_step steps s) =
    omega (arith, Steps-accepted a _ steps, Step-accepted _ b s)

-- A slot taken is one more of the caller's, and the count of accepted packets does not fall.
taken-waiting :
    (a b : Air) → Blocks a true b → (b.waiting ≡ a.waiting + 1) × (a.accepted ≤ b.accepted)
taken-waiting a b (mid, steps, took, failed) =
    let (w, o) = Steps-waiting a mid steps in
    let grown = Steps-accepted a mid steps in
    let is = (took refl).1 in rw is (omega (arith, w), omega (arith, grown))

module _ {W : Type 0} (p : Platform W) (window : ℕ) (x : Interleaved p window) where
  open x use {air}

  -- A state with all slots taken and all packets completed, from which they are given back.
  abbrev Posted : ℕ → System W → Type 0
  Posted before s =
      (t : System W) × (before ≤ (air t.world).accepted)
      × ((air t.world).posted ≡ (air t.world).accepted)
      × (s ≡ (give_slots p window t).1)

  round-Posted :
      (before : ℕ) (taken : Bool) (acquired : ℕ) (more : M W EspErr) (t : System W)
      → (taken ≡ true → (more t).0 ≡ esp_ok → Posted before (more t).1)
      → let m = if taken then more else (do give_slots p acquired; pure esp_err_timeout) in
        (m t).0 ≡ esp_ok → Posted before (m t).1
  round-Posted before true acquired more t h e = h refl e
  round-Posted before false acquired more t h e = cc

  take_slots-Posted :
      (before ms todo acquired : ℕ) (s : System W)
      → acquired + todo ≡ window
      → (air s.world).waiting ≡ acquired
      → before ≤ (air s.world).accepted
      → (take_slots p ms todo acquired s).0 ≡ esp_ok
      → Posted before (take_slots p ms todo acquired s).1
  unfolding take_slots
  take_slots-Posted before ms zero acquired s a h k e =
      let same : acquired ≡ window = omega arith in
      let b = Reached-Balanced window (air s.world) (x.reached s.world) in
      (s, k, omega (arith, b.slots, b.packets), ap (λ m. (give_slots p m s).1) same)
  take_slots-Posted before ms (suc todo) acquired s a h k e =
      let (taken, t) = p.semaphore_take ms s in
      let blocks = x.take_blocks ms s in
      round-Posted before taken acquired (take_slots p ms todo (suc acquired)) t
        (λ y.
          let (w, grown) = taken-waiting (air s.world) (air t.world) (rw y at blocks) in
          take_slots-Posted before ms todo (suc acquired) t (omega arith) (omega (arith, w))
            (omega (arith, grown)))
        e

  -- A success of radio_wait_idle passes a state in which every packet that the driver has accepted, those
  -- from before the wait among them, has had its completion posted by tx_callback, and from that state
  -- only gives the slots back. The caller has taken no slot before; the senders, the driver and the
  -- callback make their steps in any order, before and during the wait.
  pub radio_wait_idle-posted :
      (ms : ℕ) (s : System W)
      → (air s.world).waiting ≡ 0
      → s.node.current_tx_window ≡ window
      → (radio_wait_idle p ms s).0 ≡ esp_ok
      → (t : System W) × ((air s.world).accepted ≤ (air t.world).accepted)
        × ((air t.world).posted ≡ (air t.world).accepted)
        × ((radio_wait_idle p ms s).1 ≡ (give_slots p window t).1)
  unfolding radio_wait_idle
  radio_wait_idle-posted ms s h w e =
      take_slots-Posted (air s.world).accepted ms s.node.current_tx_window zero s (omega (arith, w))
        h (omega arith) e
