-- ===== src/Host/Scenario.antt =====
-- The traffic of a scenario: Traffic and its part of Scenario::validate in host/src/scenario.rs.
use Prim.Native.String.{String}
use esp_now_harness.Common.{ℕ, ◌^◌, ◌<◌, ◌≡◌, Bool, true, ◌&&◌, not, some, leb, ◌==◌}
use esp_now_harness.Common.Text.{codes}
use esp_now_harness.Harness.{Mode, ping, stream, multi_stream, saturation, latency_load}
use esp_now_harness.Control.Json.{Cjson, Double, whole, string_item, number_item}

pub record Traffic : Type 0 where
  pub mode : Mode
  pub streams : ℕ  -- u16
  pub tx_window : ℕ  -- u16
  pub packet_size : ℕ  -- u16
  pub packet_rate_per_stream : ℕ  -- u32
  pub probe_rate : ℕ  -- u32
  pub background_packet_size : ℕ  -- u16
  pub background_rate : ℕ  -- u32

-- `rename_all = "kebab-case"`
unfoldable pub mode_name : Mode → String
mode_name ping = "ping"
mode_name stream = "stream"
mode_name multi_stream = "multi-stream"
mode_name saturation = "saturation"
mode_name latency_load = "latency-under-load"

-- The last test of `validate`.
unfoldable pub rates_valid : Mode → Traffic → Bool
rates_valid saturation t = true
rates_valid latency_load t =
    not (t.probe_rate == 0)
    && (not (t.background_rate == 0)
        && (leb 28 t.background_packet_size && leb t.background_packet_size 250))
rates_valid _ t = not (t.packet_rate_per_stream == 0)

unfoldable pub traffic_valid : Traffic → Bool
unfolding rates_valid
traffic_valid t =
    (leb 28 t.packet_size && leb t.packet_size 250)
    && ((leb 1 t.streams && leb t.streams 16)
        && ((leb 1 t.tx_window && leb t.tx_window 32) && rates_valid t.mode t))

-- What cJSON reads in the object that serde writes of the traffic.
pub record Written {J : Type 0} (c : Cjson J) (traffic : J) (t : Traffic) : Type 0 where
  pub mode_is : string_item c traffic "mode" ≡ some (codes (mode_name t.mode))
  pub streams_is : (f : Double) → number_item c traffic "streams" f ≡ whole t.streams
  pub tx_window_is : (f : Double) → number_item c traffic "tx_window" f ≡ whole t.tx_window
  pub packet_size_is : (f : Double) → number_item c traffic "packet_size" f ≡ whole t.packet_size
  pub rate_is :
      (f : Double)
      → number_item c traffic "packet_rate_per_stream" f ≡ whole t.packet_rate_per_stream
  pub probe_rate_is : (f : Double) → number_item c traffic "probe_rate" f ≡ whole t.probe_rate
  pub background_size_is :
      (f : Double)
      → number_item c traffic "background_packet_size" f ≡ whole t.background_packet_size
  pub background_rate_is :
      (f : Double) → number_item c traffic "background_rate" f ≡ whole t.background_rate
  pub rate_fits : t.packet_rate_per_stream < 2 ^ 32
  pub probe_rate_fits : t.probe_rate < 2 ^ 32
  pub background_rate_fits : t.background_rate < 2 ^ 32
