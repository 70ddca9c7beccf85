-- ===== src/Control/Tests.antt =====
-- A request as the controller of the host sends it, and what parse_config makes of it.
use Prim.Native.String.{String}
use esp_now_harness.Common.{
  ℕ, ◌+◌, ◌*◌, ◌≡◌, ◌≢◌, refl, Bool, true, false, List, [], ◌∷◌, Option, none, some, if◌then◌else◌,
  contains, inl,
}
use esp_now_harness.Common.Text.{codes, str_eq}
use esp_now_harness.Harness.{Config, generator, stream, State, armed, running, finished}
use esp_now_harness.Control.Fields.{hex_value, parse_mac, channel_valid, phy_valid}
use esp_now_harness.Control.Config.{
  ok, zero_config, parse_role, parse_mode, country_valid, power_valid, quadruple,
}
use esp_now_harness.Control.Parse.{parse_config, parse_run, parse_radio, parse_traffic}
use esp_now_harness.Control.Json.{
  eq_whole, object_item, string_item, number_item, bool_item, integer_in_range, to_nat, Cjson,
  Double, nan, whole,
}
use esp_now_harness.Control.Accepted.{
  RunAccepted, RadioAccepted, TrafficAccepted, parse_config-Accepted,
}
use esp_now_harness.Control.Rates.{parse_config-make_rate_config}
use esp_now_harness.Metrics.{metrics_reset}
use esp_now_harness.Metrics.Distribution.Quantile.{Quantile}
use esp_now_harness.Runtime.{esp_ok, Platform, System, pure}
use esp_now_harness.Control.Calm.{IsCalm, CalmServices, Calm-refl}
use esp_now_harness.Control.Dispatch.{
  Services, dispatch, is_running_or_armed, checked_command, command_body, checked_run, run_command,
  start, stop, finish_run, when_drained, stopped_and_drained, drain_measurement_events,
  wait_idle_ok, send_state, run_mismatch,
}
use esp_now_harness.Control.Step.{Step}
use esp_now_harness.Control.Transitions.{dispatch-Step}
use esp_now_harness.Control.Valid.{IsValid}
use esp_now_harness.Control.Session.{Console, control_run, control_run-IsValid}
use esp_now_harness.Radio.{make_rate_config}

mutual
  pub data Json : Type 0 where
    text : String → Json
    number : Double → Json
    bool : Bool → Json
    object : Members → Json

  pub data Members : Type 0 where
    nil : Members
    member : String → Json → Members → Members

abbrev pub lookup : Members → String → Option Json
lookup nil name = none
lookup (member key j rest) name =
    let found = lookup rest name in if str_eq (codes key) (codes name) then some j else found

abbrev pub item : Json → String → Option Json
item (object ms) name = lookup ms name
item _ name = none

abbrev pub text_of : Json → List ℕ
text_of (text s) = codes s
text_of _ = []

abbrev pub number_of : Json → Double
number_of (number v) = v
number_of _ = nan

abbrev pub cjson : Cjson Json
cjson = record {
  get_object_item = item;
  is_object = λ j. elim j [ object ms ↦ true | _ ↦ false ];
  is_string = λ j. elim j [ text s ↦ true | _ ↦ false ];
  is_number = λ j. elim j [ number v ↦ true | _ ↦ false ];
  is_bool = λ j. elim j [ bool b ↦ true | _ ↦ false ];
  is_true = λ j. elim j [ bool b ↦ b | _ ↦ false ];
  valuestring = text_of;
  valuedouble = number_of;
}

abbrev octet : Option ℕ → Option ℕ → List ℕ → List ℕ
octet (some h) (some l) rest = (h * 16 + l) ∷ rest
octet _ _ rest = []

-- Two digits and a colon at a time.
abbrev pub octets : List ℕ → List ℕ
unfolding hex_value
octets (h ∷ l ∷ []) = octet (hex_value h) (hex_value l) []
octets (h ∷ l ∷ colon ∷ rest) = octet (hex_value h) (hex_value l) (octets rest)
octets _ = []

abbrev radio_5ghz : Json
radio_5ghz = object (
    member "band" (text "5ghz") (
      member "country" (text "US") (
        member "channel" (number (whole 36))
          (member "phy_rate" (text "he-mcs7") (member "tx_power_dbm" (number (whole 15)) nil)))))

abbrev stream_traffic : Json
stream_traffic = object (
    member "mode" (text "stream") (
      member "packet_size" (number (whole 200))
        (member "packet_rate_per_stream" (number (whole 500)) nil)))

abbrev request : Json
request = object (
    member "run_id" (number (whole 7)) (
      member "duration_us" (number (whole 10000000)) (
        member "role" (text "generator") (
          member "peer_mac" (text "24:6f:28:aa:bb:0c")
            (member "radio" radio_5ghz (member "traffic" stream_traffic nil))))))

abbrev requested : Config
requested = record zero_config {
  run_id = 7;
  duration_us = 10000000;
  role = generator;
  peer_mac = 36 ∷ 111 ∷ 40 ∷ 170 ∷ 187 ∷ 12 ∷ [];
  band_5ghz = true;
  country = codes "US";
  channel = 36;
  phy_rate = codes "he-mcs7";
  tx_power_qdbm = 60;
  mode = stream;
  packet_size = 200;
  streams = 1;
  tx_window = 1;
  rate_per_stream = 500;
}

request_accepted : parse_config cjson octets request ≡ ok requested
unfolding parse_config parse_run parse_radio parse_traffic object_item string_item number_item
    bool_item integer_in_range to_nat str_eq parse_mac parse_role parse_mode country_valid
    power_valid quadruple channel_valid phy_valid octets contains
request_accepted = refl

parse_config-Accepted_example :
    RunAccepted requested × RadioAccepted requested × TrafficAccepted requested
parse_config-Accepted_example =
    parse_config-Accepted cjson octets request requested request_accepted

parse_config-make_rate_config_example : make_rate_config requested ≢ none
parse_config-make_rate_config_example =
    parse_config-make_rate_config cjson octets request requested request_accepted

-- A system without other tasks.
abbrev services : Services (Unit {0})
services = record {
  timer_get_time = pure 1000;
  radio_configure = pure esp_ok;
  radio_wait_idle = λ ms. pure esp_ok;
  receiver_flush = λ ms. pure true;
  generator_start = pure esp_ok;
  generator_wait_stopped = λ ms. pure true;
}

services-CalmServices : CalmServices services
unfolding IsCalm
services-CalmServices = record {
  timer_get_time_calm = λ s. Calm-refl s.node;
  radio_configure_calm = λ s. Calm-refl s.node;
  radio_wait_idle_calm = λ ms s. Calm-refl s.node;
  receiver_flush_calm = λ ms s. Calm-refl s.node;
  generator_wait_stopped_calm = λ ms s. Calm-refl s.node;
  generator_start_started = λ s. record { config_kept = refl; state_moves = inl refl };
}

abbrev command : String → Json
command name = object (
    member "cmd" (text name) (
      member "id" (number (whole 1))
        (member "version" (number (whole 2)) (member "run_id" (number (whole 7)) nil))))

abbrev node_in : State → System (Unit {0})
node_in state = record {
  node = record {
    config = requested;
    state = state;
    metrics = metrics_reset;
    current_tx_window = 1;
    handle = false;
    queue = true;
  };
  world = tt;
}

abbrev percent : Quantile → ℕ → ℕ
percent q n = n

abbrev after : String → State → State
unfolding dispatch
after name state =
    (dispatch services cjson octets percent (command name) (node_in state)).1.node.state

started : after "start" armed ≡ running
unfolding dispatch checked_command command_body checked_run run_command start send_state string_item
    number_item integer_in_range str_eq eq_whole run_mismatch after
started = refl

stopped : after "stop" running ≡ finished
unfolding dispatch checked_command command_body checked_run run_command stop finish_run when_drained
    stopped_and_drained drain_measurement_events wait_idle_ok send_state string_item number_item
    integer_in_range str_eq eq_whole run_mismatch is_running_or_armed after
stopped = refl

dispatch-Step_example :
    let n = (dispatch services cjson octets percent (command "start") (node_in armed)).1.node in
    Step false armed n.state × (is_running_or_armed armed ≡ true → n.config ≡ requested)
dispatch-Step_example =
    dispatch-Step services cjson octets percent services-CalmServices (command "start")
      (node_in armed)

-- The same system below the dispatcher, and a console on which the same line comes again and again.
abbrev still : Platform (Unit {0})
still = record {
  semaphore_take = λ ms. pure true;
  semaphore_give = pure tt;
  timer_get_time = pure 1000;
  now_send = λ mac bytes. pure esp_ok;
  task_delay = λ ticks. pure tt;
  delay_us = λ us. pure tt;
  task_yield = pure tt;
  create_generator = pure true;
  tick_count = pure 0;
  ms_to_ticks = λ ms. ms;
  notify_take = λ ms. pure true;
}

abbrev insisting : Json → Console (Unit {0}) Json
insisting j = record { fgets = pure (some []); parse = λ line. some j }

IsCalm-delay : (ticks : ℕ) → IsCalm (still.task_delay ticks)
unfolding IsCalm
IsCalm-delay ticks s = Calm-refl s.node

IsCalm-fgets : (j : Json) → IsCalm (insisting j).fgets
unfolding IsCalm
IsCalm-fgets j s = Calm-refl s.node

control_run-IsValid_example :
    IsValid
      (control_run services cjson octets percent still
        (insisting (command "start"))
        3
        (node_in armed)).1.node
control_run-IsValid_example =
    control_run-IsValid services cjson octets percent still (insisting (command "start"))
      services-CalmServices IsCalm-delay (IsCalm-fgets (command "start")) 3 (node_in armed)
      (λ live. parse_config-Accepted cjson octets request requested request_accepted)
