-- ===== src/Control/Response.antt =====
-- The responses of firmware/main/control.c: response, send_error, send_state and send_info.
use Prim.Native.String.{String}
use esp_now_harness.Common.{
  ℕ, ◌+◌, ◌/◌, ◌%◌, Bool, true, false, List, [], ◌∷◌, ◌++◌, map, ltb, ◌==◌, if◌then◌else◌,
}
use esp_now_harness.Common.Text.{codes}
use esp_now_harness.Harness.{
  harness_control_version, harness_max_packet_size, harness_max_streams, harness_max_tx_window,
}
use esp_now_harness.Runtime.{EspErr, M, pure}
use esp_now_harness.Metrics.Rates.{Doubles, DoubleReport}
use esp_now_harness.Metrics.Tree.{report_tree}
use esp_now_harness.Output.{Builder, Fields, object, array, string, add_fields, u64_item}
use esp_now_harness.Control.Json.{Double}
use esp_now_harness.Control.Dispatch.{
  info_body, state_body, result_body, error_body, failure_body, Reply,
}

-- `%02x` of a byte.
unfoldable pub hex_digit : ℕ → ℕ
hex_digit n = if ltb n 10 then 48 + n else 87 + n

unfoldable pub hex_byte : ℕ → List ℕ
unfolding hex_digit
hex_byte n = hex_digit (n / 16) ∷ hex_digit (n % 16) ∷ []

-- `%02x:%02x:%02x:%02x:%02x:%02x`: a colon, which is 58, between bytes.
unfoldable pub mac_text : List ℕ → List ℕ
unfolding hex_byte
mac_text [] = []
mac_text (n ∷ []) = hex_byte n
mac_text (n ∷ ns) = hex_byte n ++ (58 ∷ mac_text ns)

-- boot_id: the static `id`, chosen at random where it is 0.
unfoldable pub boot_id : {W : Type 0} → M W ℕ → ℕ → M W ℕ
boot_id esp_random id = if id == 0 then esp_random else pure id

-- What the system says of the node.
pub record About : Type 0 where
  pub mac_bytes : List ℕ  -- esp_read_mac
  pub firmware_version : List ℕ  -- HARNESS_FW_VERSION
  pub idf_version : List ℕ  -- esp_get_idf_version()
  pub boot : ℕ  -- boot_id()

module _ {J D : Type 0} (b : Builder J D) (d : Doubles D) (double : Double → D)
    (err_to_name : EspErr → List ℕ) where
  open b use {create_number, create_string, create_bool}

  unfoldable pub response_fields : Double → Bool → Fields J
  response_fields id ok =
      ("type", string b "response")
      ∷ ("id", create_number (double id))
      ∷ ("ok", create_bool ok)
      ∷ []

  unfoldable pub response : Double → Bool → J
  unfolding response_fields
  response id ok = object b (response_fields id ok)

  unfoldable pub send_error : Double → List ℕ → List ℕ → J
  unfolding response
  send_error id code message =
      add_fields b (response id false)
        (("code", create_string code) ∷ ("message", create_string message) ∷ [])

  abbrev pub phy_names : List String
  phy_names = "1m" ∷ "6m" ∷ "24m" ∷ "54m" ∷ "mcs0" ∷ "mcs7" ∷ "he-mcs0" ∷ "he-mcs7" ∷ []

  unfoldable pub capabilities : J
  capabilities = object b (
      ("max_packet_size", u64_item b d harness_max_packet_size)
      ∷ ("max_streams", u64_item b d harness_max_streams)
      ∷ ("max_tx_window", u64_item b d harness_max_tx_window)
      ∷ ("bands", array b (string b "2.4ghz" ∷ string b "5ghz" ∷ []))
      ∷ ("phy_rates", array b (map (string b) phy_names))
      ∷ ("encryption", create_bool true)
      ∷ [])

  unfoldable pub info_tree : About → J
  unfolding capabilities
  info_tree about = object b (
      ("protocol_version", u64_item b d harness_control_version)
      ∷ ("mac", create_string (mac_text about.mac_bytes))
      ∷ ("chip", string b "ESP32-C5")
      ∷ ("firmware_version", create_string about.firmware_version)
      ∷ ("idf_version", create_string about.idf_version)
      ∷ ("boot_id", u64_item b d about.boot)
      ∷ ("capabilities", capabilities)
      ∷ [])

  unfoldable pub send_info : Double → About → J
  unfolding response info_tree
  send_info id about = add_fields b (response id true) (("info", info_tree about) ∷ [])

  -- The line that a reply is printed as. The doubles of a report are those of the metrics that the
  -- report is of.
  unfoldable pub reply_tree : About → DoubleReport D → Reply → J
  unfolding response send_error send_info
  reply_tree about doubles reply = elim reply.body [
    | info_body ↦ send_info reply.id about
    | state_body name ↦ add_fields b (response reply.id true) (("state", string b name) ∷ [])
    | result_body report ↦
        add_fields b (response reply.id true) (("result", report_tree b d report doubles) ∷ [])
    | error_body code message ↦ send_error reply.id (codes code) (codes message)
    | failure_body code error ↦ send_error reply.id (codes code) (err_to_name error)
  ]
