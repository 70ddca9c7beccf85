-- ===== src/Runtime.antt =====
-- What the firmware takes from FreeRTOS and ESP-IDF, and the state that its tasks share.
-- A call of the system acts on the whole state: what the other tasks and the radio's callbacks do
-- while the caller waits is part of the call. Nothing is assumed of a call but what a theorem says.
pub mod Alone
pub mod Frame
use esp_now_harness.Common.{ℕ, Bool, true, false, List, Option}
use esp_now_harness.Harness.{Config, State}
use esp_now_harness.Metrics.{Metrics}

-- esp_err_t, with the codes that the source names.
pub data EspErr : Type 0 where
  esp_ok esp_err_no_mem esp_err_invalid_state esp_err_not_supported esp_err_timeout : EspErr
  esp_err_other : ℕ → EspErr

abbrev pub is_ok : EspErr → Bool
is_ok esp_ok = true
is_ok _ = false

abbrev pub is_invalid_state : EspErr → Bool
is_invalid_state esp_err_invalid_state = true
is_invalid_state _ = false

-- The globals: g_config, g_state, g_metrics; current_tx_window of radio.c; whether `handle` of
-- generator.c and `queue` of receiver.c are set.
pub record Node : Type 0 where
  pub config : Config
  pub state : State
  pub metrics : Metrics
  pub current_tx_window : ℕ
  pub handle : Bool
  pub queue : Bool

-- The rest of the system is `W`.
pub record System (W : Type 0) : Type 0 where
  pub node : Node
  pub world : W

abbrev pub M : Type 0 → Type 0 → Type 0
M W A = System W → A × System W

abbrev pub pure : {W A : Type 0} → A → M W A
pure a s = (a, s)

infixl 5 ◌>>=◌ ◌>>◌
abbrev pub ◌>>=◌ : {W A B : Type 0} → M W A → (A → M W B) → M W B
◌>>=◌ m f s = let (a, s') = m s in f a s'

abbrev pub ◌>>◌ : {W B : Type 0} → M W (Unit {0}) → M W B → M W B
m >> k = m >>= λ _. k

abbrev pub get_node : {W : Type 0} → M W Node
get_node s = (s.node, s)

abbrev pub set_node : {W : Type 0} → Node → M W (Unit {0})
set_node n s = (tt, record s { node = n })

abbrev pub set_state : {W : Type 0} → State → M W (Unit {0})
set_state st s = let n = s.node in (tt, record s { node = record n { state = st } })

abbrev pub set_config : {W : Type 0} → Config → M W (Unit {0})
set_config c s = let n = s.node in (tt, record s { node = record n { config = c } })

abbrev pub set_tx_window : {W : Type 0} → ℕ → M W (Unit {0})
set_tx_window w s = let n = s.node in (tt, record s { node = record n { current_tx_window = w } })

abbrev pub set_handle : {W : Type 0} → Bool → M W (Unit {0})
set_handle h s = let n = s.node in (tt, record s { node = record n { handle = h } })

abbrev pub on_metrics : {W : Type 0} → (Metrics → Metrics) → M W (Unit {0})
on_metrics f s = let n = s.node in (tt, record s { node = record n { metrics = f n.metrics } })

-- The system calls. Times are in milliseconds where the source says so, else in microseconds.
pub record Platform (W : Type 0) : Type 0 where
  pub semaphore_take : ℕ → M W Bool  -- xSemaphoreTake(tx_ready, pdMS_TO_TICKS(ms)) == pdTRUE
  pub semaphore_give : M W (Unit {0})  -- xSemaphoreGive(tx_ready)
  pub timer_get_time : M W ℕ  -- esp_timer_get_time()
  pub now_send : List ℕ → List ℕ → M W EspErr  -- esp_now_send(mac, data, length)
  pub task_delay : ℕ → M W (Unit {0})  -- vTaskDelay(ticks)
  pub delay_us : ℕ → M W (Unit {0})  -- esp_rom_delay_us(us)
  pub task_yield : M W (Unit {0})  -- taskYIELD()
  pub create_generator : M W Bool  -- xTaskCreate(generator_task, …) == pdPASS
  pub tick_count : M W ℕ  -- xTaskGetTickCount()
  pub ms_to_ticks : ℕ → ℕ  -- pdMS_TO_TICKS(ms)
  pub notify_take : ℕ → M W Bool  -- ulTaskNotifyTake(pdTRUE, ms) != 0
