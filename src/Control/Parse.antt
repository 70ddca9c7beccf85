-- ===== src/Control/Parse.antt =====
-- The stages of parse_config.
use Prim.Native.String.{String}
use esp_now_harness.Common.{
  ℕ, ◌-◌, ◌^◌, false, ◌&&◌, ◌||◌, not, List, some, ltb, ◌==◌, if◌then◌else◌, take, u8, u16, u32,
  u64,
}
use esp_now_harness.Common.Text.{codes, str_eq}
use esp_now_harness.Harness.{
  Config, harness_max_streams, harness_max_packet_size, harness_max_tx_window,
}
use esp_now_harness.Protocol.{bench_header_size}
use esp_now_harness.Control.Json.{
  whole, minus_one, to_nat, integer_in_range, Cjson, object_item, string_item, number_item,
  bool_item,
}
use esp_now_harness.Control.Fields.{parse_mac, parse_key, channel_valid, phy_valid}
use esp_now_harness.Control.Config.{
  Parsed, ok, ◌>>=◌, ◌>>◌, check, need, zero_config, parse_role, parse_mode, country_valid,
  power_valid, quadruple, is_saturation, is_latency_load,
}

module _ {J : Type 0} (c : Cjson J) (sscanf : List ℕ → List ℕ) where
  -- Up to the role.
  unfoldable pub parse_run : J → Parsed (Config × J × J)
  parse_run root =
      let message : String = "invalid run_id, duration_us, role, peer_mac, radio, or traffic" in
      let run_id = number_item c root "run_id" minus_one in
      let duration = number_item c root "duration_us" minus_one in
      do
        radio ← need (object_item c root "radio") message
        traffic ← need (object_item c root "traffic") message
        role ← need (string_item c root "role") message
        peer ← need (string_item c root "peer_mac") message
        check (integer_in_range run_id 1 (2 ^ 32 - 1)) message
        check (integer_in_range duration 1 86400000000) message
        peer_mac ← need (parse_mac sscanf (some peer)) "peer_mac must be six hexadecimal octets"
        role' ← need (parse_role role) "unsupported role"
        ok (
          record zero_config {
            run_id = u32 (to_nat run_id);
            duration_us = u64 (to_nat duration);
            peer_mac = peer_mac;
            role = role';
          },
          radio,
          traffic,
        )

  -- The radio's settings.
  unfoldable pub parse_radio : Config → J → Parsed Config
  parse_radio cfg radio =
      let message : String = "invalid band, country, channel, or tx_power_dbm" in
      let phy = string_item c radio "phy_rate" in
      let channel = number_item c radio "channel" minus_one in
      let tx_power = number_item c radio "tx_power_dbm" minus_one in
      let encryption = bool_item c radio "encryption" false in
      do
        band ← need (string_item c radio "band") message
        check (str_eq band (codes "2.4ghz") || str_eq band (codes "5ghz")) message
        country ← need (string_item c radio "country") message
        check (country_valid country) message
        check (integer_in_range channel 1 255) message
        check (power_valid tx_power) message
        let band_5ghz = str_eq band (codes "5ghz")
        let channel' = u8 (to_nat channel)
        check (channel_valid band_5ghz channel' && phy_valid phy band_5ghz)
            "unsupported channel or PHY rate for selected band"
        name ← need phy "unsupported channel or PHY rate for selected band"
        key ←
            if encryption
            then need (parse_key (string_item c radio "key")) "key must be 32 hexadecimal digits"
            else ok cfg.key
        ok (record cfg {
          band_5ghz = band_5ghz;
          channel = channel';
          country = country;
          phy_rate = take 15 name;
          tx_power_qdbm = to_nat (quadruple tx_power);
          power_save = bool_item c radio "power_save" false;
          encryption = encryption;
          key = key;
        })

  -- The traffic.
  unfoldable pub parse_traffic : Config → J → Parsed Config
  parse_traffic cfg traffic =
      let message : String = "invalid traffic numeric field" in
      let packet_size = number_item c traffic "packet_size" minus_one in
      let streams = number_item c traffic "streams" (whole 1) in
      let tx_window = number_item c traffic "tx_window" (whole 1) in
      let rate = number_item c traffic "packet_rate_per_stream" (whole 0) in
      let probe_rate = number_item c traffic "probe_rate" (whole 0) in
      let background_size = number_item c traffic "background_packet_size" (whole 0) in
      let background_rate = number_item c traffic "background_rate" (whole 0) in
      do
        name ← need (string_item c traffic "mode") "missing traffic.mode"
        mode ← need (parse_mode name) "unsupported mode"
        check (integer_in_range packet_size bench_header_size harness_max_packet_size) message
        check (integer_in_range streams 1 harness_max_streams) message
        check (integer_in_range rate 0 (2 ^ 32 - 1)) message
        check (integer_in_range tx_window 1 harness_max_tx_window) message
        check (integer_in_range probe_rate 0 (2 ^ 32 - 1)) message
        check (integer_in_range background_size 0 harness_max_packet_size) message
        check (integer_in_range background_rate 0 (2 ^ 32 - 1)) message
        let size' = u16 (to_nat background_size)
        let probe' = u32 (to_nat probe_rate)
        let background' = u32 (to_nat background_rate)
        let rate' = u32 (to_nat rate)
        check (is_saturation mode || (is_latency_load mode || not (rate' == 0)))
            "packet_rate_per_stream must be positive"
        check
            (not (is_latency_load mode)
              || not (probe' == 0 || (background' == 0 || ltb size' bench_header_size)))
            "invalid latency-under-load rates or background size"
        ok (record cfg {
          mode = mode;
          packet_size = u16 (to_nat packet_size);
          streams = u16 (to_nat streams);
          tx_window = u16 (to_nat tx_window);
          rate_per_stream = rate';
          probe_rate = probe';
          background_packet_size = size';
          background_rate = background';
        })

  -- The configuration that is stored in `g_config`, or the message.
  unfoldable pub parse_config : J → Parsed Config
  parse_config root = do
    (cfg, radio, traffic) ← parse_run root
    cfg' ← parse_radio cfg radio
    parse_traffic cfg' traffic
