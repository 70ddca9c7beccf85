-- ===== src/Host/ScenarioTests.antt =====
-- The traffic of a scenario with load, as the firmware reads it.
use esp_now_harness.Common.{◌≡◌, refl, true, leb, if◌then◌else◌, arith}
use esp_now_harness.Harness.{latency_load}
use esp_now_harness.Control.Json.{whole, string_item, number_item}
use esp_now_harness.Control.Config.{ok, why, zero_config}
use esp_now_harness.Control.Parse.{parse_traffic}
use esp_now_harness.Control.Tests.{Json, text, number, object, nil, member, cjson, octets}
use esp_now_harness.Common.Text.{str_eq}
use esp_now_harness.Host.Scenario.{Traffic, Written, mode_name, rates_valid, traffic_valid}
use esp_now_harness.Host.Accepts.{with_traffic, parse_traffic-Written}

abbrev load : Traffic
load = record {
  mode = latency_load;
  streams = 1;
  tx_window = 8;
  packet_size = 64;
  packet_rate_per_stream = 0;
  probe_rate = 100;
  background_packet_size = 250;
  background_rate = 2000;
}

abbrev traffic : Json
traffic = object (
    member "mode" (text "latency-under-load") (
      member "streams" (number (whole 1)) (
        member "tx_window" (number (whole 8)) (
          member "packet_size" (number (whole 64)) (
            member "packet_rate_per_stream" (number (whole 0)) (
              member "probe_rate" (number (whole 100)) (
                member "background_packet_size" (number (whole 250))
                  (member "background_rate" (number (whole 2000)) nil))))))))

load-Written : Written cjson traffic load
unfolding string_item number_item str_eq mode_name
load-Written = record {
  mode_is = refl;
  streams_is = λ f. refl;
  tx_window_is = λ f. refl;
  packet_size_is = λ f. refl;
  rate_is = λ f. refl;
  probe_rate_is = λ f. refl;
  background_size_is = λ f. refl;
  background_rate_is = λ f. refl;
  rate_fits = omega arith;
  probe_rate_fits = omega arith;
  background_rate_fits = omega arith;
}

load_valid : traffic_valid load ≡ true
unfolding traffic_valid rates_valid
load_valid = refl

parse_traffic-Written_example : parse_traffic cjson octets zero_config traffic ≡ (
    if leb 250 250 then ok (with_traffic zero_config load) else why "invalid traffic numeric field")
parse_traffic-Written_example =
    parse_traffic-Written cjson octets zero_config traffic load load-Written load_valid
