-- ===== src/Control/Accepted.antt =====
-- What parse_config of firmware/main/control.c guarantees of a configuration that it accepts.
use esp_now_harness.Common.{
  ℕ, ◌-◌, ◌^◌, ◌≤◌, ◌<◌, ◌≡◌, ◌≢◌, ◌⊎◌, inl, inr, refl, true, false, List, some, arith, length,
}
use Prim.Native.String.{String}
use esp_now_harness.Common.Options.{option_cases}
use esp_now_harness.Harness.{Config, none_role}
use esp_now_harness.Control.Fields.{parse_mac, parse_key, channel_valid, phy_valid}
use esp_now_harness.Control.Config.{
  Parsed, ok, why, parse_role, country_valid, is_saturation, is_latency_load,
}
use esp_now_harness.Control.Parse.{parse_run, parse_radio, parse_traffic, parse_config}
use esp_now_harness.Control.Json.{Cjson, string_item, number_item, minus_one, whole}
use esp_now_harness.Control.Ranges.{integer_in_range_bounds, power_valid_bounds}
use esp_now_harness.Control.Sizes.{
  length-parse_mac, length-parse_key, parse_role_given, take-phy_valid,
}

-- The parts of an accepted configuration that each stage of the parser settles.
pub record RunAccepted (cfg : Config) : Type 0 where
  pub run_id_range : (1 ≤ cfg.run_id) × (cfg.run_id < 2 ^ 32)
  pub duration_range : (1 ≤ cfg.duration_us) × (cfg.duration_us ≤ 86400000000)
  pub mac_length : length cfg.peer_mac ≡ 6
  pub role_given : cfg.role ≢ none_role

pub record RadioAccepted (cfg : Config) : Type 0 where
  pub channel_supported : channel_valid cfg.band_5ghz cfg.channel ≡ true
  pub country_upper : country_valid cfg.country ≡ true
  pub rate_known : phy_valid (some cfg.phy_rate) cfg.band_5ghz ≡ true
  pub power_range : (8 ≤ cfg.tx_power_qdbm) × (cfg.tx_power_qdbm ≤ 80)
  pub key_length : cfg.encryption ≡ true → length cfg.key ≡ 16

pub record TrafficAccepted (cfg : Config) : Type 0 where
  pub packet_range : (28 ≤ cfg.packet_size) × (cfg.packet_size ≤ 250)
  pub streams_range : (1 ≤ cfg.streams) × (cfg.streams ≤ 16)
  pub window_range : (1 ≤ cfg.tx_window) × (cfg.tx_window ≤ 32)
  pub rate_positive :
      is_saturation cfg.mode ≡ false
      → is_latency_load cfg.mode ≡ false
      → (1 ≤ cfg.rate_per_stream) × (cfg.rate_per_stream < 2 ^ 32)
  pub load_positive :
      is_latency_load cfg.mode ≡ true
      → (1 ≤ cfg.probe_rate)
        × (1 ≤ cfg.background_rate)
        × (28 ≤ cfg.background_packet_size)
        × (cfg.background_packet_size ≤ 250)

pub parsed_cases :
    {A : Type 0} (m : Parsed A) → ((e : String) × (m ≡ why e)) ⊎ ((a : A) × (m ≡ ok a))
parsed_cases (why e) = inl (e, refl)
parsed_cases (ok a) = inr (a, refl)

module _ {J : Type 0} (c : Cjson J) (sscanf : List ℕ → List ℕ) where
  parse_traffic-TrafficAccepted :
      (cfg cfg' : Config) (traffic : J)
      → parse_traffic c sscanf cfg traffic ≡ ok cfg'
      → TrafficAccepted cfg'
  unfolding parse_traffic
  parse_traffic-TrafficAccepted cfg cfg' traffic e = record {
    packet_range =
        ground
          (arith, integer_in_range_bounds (number_item c traffic "packet_size" minus_one) 28 250);
    streams_range =
        ground (arith, integer_in_range_bounds (number_item c traffic "streams" (whole 1)) 1 16);
    window_range =
        ground (arith, integer_in_range_bounds (number_item c traffic "tx_window" (whole 1)) 1 32);
    rate_positive = λ h k. ground arith;
    load_positive = λ h. ground (
      arith,
      integer_in_range_bounds (number_item c traffic "background_packet_size" (whole 0)) 0 250,
    );
  }

  parse_run-RunAccepted :
      (cfg : Config) (root radio traffic : J)
      → parse_run c sscanf root ≡ ok (cfg, radio, traffic)
      → RunAccepted cfg
  unfolding parse_run
  parse_run-RunAccepted cfg root radio traffic e = record {
    run_id_range =
        ground
          (arith, integer_in_range_bounds (number_item c root "run_id" minus_one) 1 (2 ^ 32 - 1));
    duration_range =
        ground (
          arith,
          integer_in_range_bounds (number_item c root "duration_us" minus_one) 1 86400000000,
        );
    mac_length = elim (option_cases (string_item c root "peer_mac")) [
      | inl q ↦ ground arith
      | inr (text, q) ↦ elim (option_cases (parse_mac sscanf (some text))) [
        | inl r ↦ ground arith
        | inr (mac, r) ↦ ground (arith, length-parse_mac sscanf text mac)
      ]
    ];
    role_given = elim (option_cases (string_item c root "role")) [
      | inl q ↦ ground arith
      | inr (text, q) ↦ elim (option_cases (parse_role text)) [
        | inl r ↦ ground arith
        | inr (role, r) ↦ ground (arith, parse_role_given text role)
      ]
    ];
  }

  parse_radio-RadioAccepted :
      (cfg cfg' : Config) (radio : J)
      → parse_radio c sscanf cfg radio ≡ ok cfg'
      → RadioAccepted cfg'
  unfolding parse_radio
  parse_radio-RadioAccepted cfg cfg' radio e = record {
    channel_supported = ground arith;
    country_upper = ground arith;
    rate_known = elim (option_cases (string_item c radio "phy_rate")) [
      | inl q ↦ ground arith
      | inr (name, q) ↦ ground (arith, take-phy_valid name true, take-phy_valid name false)
    ];
    power_range = ground (arith, power_valid_bounds (number_item c radio "tx_power_dbm" minus_one));
    key_length = λ h. elim (option_cases (parse_key (string_item c radio "key"))) [
      | inl r ↦ ground arith
      | inr (key, r) ↦ ground (arith, length-parse_key (string_item c radio "key") key)
    ];
  }

  -- What parse_radio and parse_traffic leave as it was.
  parse_radio_keeps :
      (cfg cfg' : Config) (radio : J)
      → parse_radio c sscanf cfg radio ≡ ok cfg'
      → RunAccepted cfg
      → RunAccepted cfg'
  unfolding parse_radio
  parse_radio_keeps cfg cfg' radio e r = record {
    run_id_range = ground (arith, r.run_id_range);
    duration_range = ground (arith, r.duration_range);
    mac_length = ground (arith, r.mac_length);
    role_given = ground (arith, r.role_given);
  }

  parse_traffic_keeps :
      (cfg cfg' : Config) (traffic : J)
      → parse_traffic c sscanf cfg traffic ≡ ok cfg'
      → RunAccepted cfg × RadioAccepted cfg
      → RunAccepted cfg' × RadioAccepted cfg'
  unfolding parse_traffic
  parse_traffic_keeps cfg cfg' traffic e r = (
    record {
      run_id_range = ground (arith, r.0.run_id_range);
      duration_range = ground (arith, r.0.duration_range);
      mac_length = ground (arith, r.0.mac_length);
      role_given = ground (arith, r.0.role_given);
    },
    record {
      channel_supported = ground (arith, r.1.channel_supported);
      country_upper = ground (arith, r.1.country_upper);
      rate_known = ground (arith, r.1.rate_known);
      power_range = ground (arith, r.1.power_range);
      key_length = ground (arith, r.1.key_length);
    },
  )

  -- Every configuration that parse_config accepts, for any JSON tree and any sscanf, has: a run id
  -- from 1 to 2^32 - 1, a duration from 1 us to a day, six octets of peer address and a role; a
  -- channel of its band, a two-letter upper-case country, a rate that is valid in the band, a power
  -- from 8 to 80 quarter dBm and, with encryption, a key of 16 bytes; packets of 28 to 250 bytes, 1 to
  -- 16 streams, a window of 1 to 32; a positive rate unless the mode is saturation or latency under
  -- load, and for the latter positive probe and background rates and a background packet size from
  -- 28 to 250.
  pub parse_config-Accepted :
      (root : J) (cfg : Config)
      → parse_config c sscanf root ≡ ok cfg
      → RunAccepted cfg × RadioAccepted cfg × TrafficAccepted cfg
  unfolding parse_config
  parse_config-Accepted root cfg e = elim (parsed_cases (parse_run c sscanf root)) [
    | inl (m, q) ↦ ground arith
    | inr ((a, radio, traffic), q) ↦ elim (parsed_cases (parse_radio c sscanf a radio)) [
      | inl (m, r) ↦ ground arith
      | inr (b, r) ↦
          let t : parse_traffic c sscanf b traffic ≡ ok cfg = ground (arith, e, q, r) in
          let run = parse_radio_keeps a b radio r (parse_run-RunAccepted a root radio traffic q) in
          let (u, v) =
            parse_traffic_keeps b cfg traffic t (run, parse_radio-RadioAccepted a b radio r) in
          (u, v, parse_traffic-TrafficAccepted b cfg traffic t)
    ]
  ]
