-- ===== src/Host/Accepts.antt =====
-- parse_traffic of firmware/main/control.c on a scenario that the host has validated.
use esp_now_harness.Common.{
  ℕ, ◌-◌, ◌%◌, ◌^◌, ◌≤◌, ◌<◌, ◌≡◌, refl, ◌∙◌, true, false, not, ◌&&◌, ◌||◌, List, some, leb, ltb,
  ◌==◌, if◌then◌else◌, arith, Bool-cases, inl, inr,
}
use esp_now_harness.Common.Text.{codes, str_eq}
use esp_now_harness.Harness.{Config, Mode, ping, stream, multi_stream, saturation, latency_load}
use esp_now_harness.Control.Json.{
  Cjson, whole, to_nat, integer_in_range, ge_whole, le_whole, is_whole_times, minus_one,
}
use esp_now_harness.Control.Config.{ok, why, parse_mode, is_saturation, is_latency_load}
use esp_now_harness.Control.Parse.{parse_traffic}
use esp_now_harness.Host.Scenario.{Traffic, Written, mode_name, rates_valid, traffic_valid}

parse_mode-mode_name : (m : Mode) → parse_mode (codes (mode_name m)) ≡ some m
unfolding parse_mode mode_name str_eq
parse_mode-mode_name ping = refl
parse_mode-mode_name stream = refl
parse_mode-mode_name multi_stream = refl
parse_mode-mode_name saturation = refl
parse_mode-mode_name latency_load = refl

integer_in_range-whole : (n lo hi : ℕ) → integer_in_range (whole n) lo hi ≡ (leb lo n && leb n hi)
unfolding integer_in_range ge_whole le_whole is_whole_times
integer_in_range-whole n lo hi = ground arith

to_nat-whole : (n : ℕ) → to_nat (whole n) ≡ n
unfolding to_nat
to_nat-whole n = omega arith

rates_checked :
    (m : Mode) (t : Traffic)
    → rates_valid m t ≡ true
    → ((is_saturation m || (is_latency_load m || not (t.packet_rate_per_stream == 0))) ≡ true)
      × ((not (is_latency_load m)
            || not
                (t.probe_rate == 0 || (t.background_rate == 0 || ltb t.background_packet_size 28)))
          ≡ true)
unfolding rates_valid
rates_checked ping t h = (h, refl)
rates_checked stream t h = (h, refl)
rates_checked multi_stream t h = (h, refl)
rates_checked saturation t h = (refl, refl)
rates_checked latency_load t h = (refl, ground (arith, h))

-- The configuration with the scenario's traffic.
abbrev pub with_traffic : Config → Traffic → Config
with_traffic cfg t = record cfg {
  mode = t.mode;
  packet_size = t.packet_size;
  streams = t.streams;
  tx_window = t.tx_window;
  rate_per_stream = t.packet_rate_per_stream;
  probe_rate = t.probe_rate;
  background_packet_size = t.background_packet_size;
  background_rate = t.background_rate;
}

-- A number of the request passes its check, and its conversion keeps it.
in_range : (n lo hi : ℕ) → lo ≤ n → n ≤ hi → integer_in_range (whole n) lo hi ≡ true
in_range n lo hi low high = integer_in_range-whole n lo hi ∙ ground arith

half_kept : (n : ℕ) → n < 2 ^ 16 → to_nat (whole n) % 2 ^ 16 ≡ n
half_kept n h = rw (to_nat-whole n) (omega arith)

word_kept : (n : ℕ) → n < 2 ^ 32 → to_nat (whole n) % 2 ^ 32 ≡ n
word_kept n h = rw (to_nat-whole n) (omega arith)

module _ {J : Type 0} (c : Cjson J) (sscanf : List ℕ → List ℕ) (cfg : Config) (traffic : J)
    (t : Traffic) (w : Written c traffic t) where
  -- The firmware takes over the traffic of a scenario that the host has validated: every check of
  -- parse_traffic succeeds, and the fields of the traffic in the configuration are the scenario's and the
  -- others stay, unless the scenario's background_packet_size is above 250, which the host allows outside
  -- latency_load and the firmware refuses in every mode. cJSON reads the fields that serde writes, and
  -- those of 32 bits fit.
  pub parse_traffic-Written :
      traffic_valid t ≡ true
      → parse_traffic c sscanf cfg traffic ≡ (
          if leb t.background_packet_size 250
          then ok (with_traffic cfg t)
          else why "invalid traffic numeric field")
  unfolding parse_traffic traffic_valid
  parse_traffic-Written h =
      let (rate, load) = rates_checked t.mode t (ground (arith, h)) in
      let size : (28 ≤ t.packet_size) × (t.packet_size ≤ 250) = ground (arith, h) in
      let streams : (1 ≤ t.streams) × (t.streams ≤ 16) = ground (arith, h) in
      let window : (1 ≤ t.tx_window) × (t.tx_window ≤ 32) = ground (arith, h) in
      let small = 2 ^ 32 - 1 in
      rw
        (
          w.mode_is,
          w.streams_is (whole 1),
          w.tx_window_is (whole 1),
          w.packet_size_is minus_one,
          w.rate_is (whole 0),
          w.probe_rate_is (whole 0),
          w.background_size_is (whole 0),
          w.background_rate_is (whole 0),
          parse_mode-mode_name t.mode,
          in_range t.packet_size 28 250 size.0 size.1,
          in_range t.streams 1 16 streams.0 streams.1,
          in_range t.packet_rate_per_stream 0 small (omega arith) (omega (arith, w.rate_fits)),
          in_range t.tx_window 1 32 window.0 window.1,
          in_range t.probe_rate 0 small (omega arith) (omega (arith, w.probe_rate_fits)),
        )
        (elim (Bool-cases (leb t.background_packet_size 250)) [
          | inl e ↦
              let background : t.background_packet_size ≤ 250 = ground (arith, e) in
              rw
                (
                  in_range t.background_packet_size 0 250 (omega arith) background,
                  in_range t.background_rate 0 small (omega arith)
                      (omega (arith, w.background_rate_fits)),
                  half_kept t.packet_size (omega (arith, size.1)),
                  half_kept t.streams (omega (arith, streams.1)),
                  half_kept t.tx_window (omega (arith, window.1)),
                  half_kept t.background_packet_size (omega (arith, background)),
                  word_kept t.packet_rate_per_stream w.rate_fits,
                  word_kept t.probe_rate w.probe_rate_fits,
                  word_kept t.background_rate w.background_rate_fits,
                  rate,
                  load,
                  e,
                )
                refl
          | inr e ↦
              let refused : integer_in_range (whole t.background_packet_size) 0 250 ≡ false =
                integer_in_range-whole t.background_packet_size 0 250 ∙ ground (arith, e) in
              rw (refused, e) refl
        ])
