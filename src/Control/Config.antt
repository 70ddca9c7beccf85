-- ===== src/Control/Config.antt =====
-- parse_config of firmware/main/control.c. Its checks and assignments come in three stages, in the
-- order of the source; `why` is the message of the first check that fails.
use Prim.Native.String.{String}
use esp_now_harness.Common.{
  ℕ, ◌*◌, Bool, true, false, ◌&&◌, List, [], Option, none, some, leb, ◌==◌, if◌then◌else◌, length,
  get_or, replicate,
}
use esp_now_harness.Common.Text.{codes, str_eq}
use esp_now_harness.Harness.{
  Config, Role, none_role, generator, sink, ping_initiator, echo_responder, Mode, ping, stream,
  multi_stream, saturation, latency_load,
}
use esp_now_harness.Control.Json.{Double, finite, isfinite, ge_whole, le_whole, is_whole_times}

pub data Parsed (A : Type 0) : Type 0 where
  ok : A → Parsed A
  why : String → Parsed A

infixl 5 ◌>>=◌ ◌>>◌
abbrev pub ◌>>=◌ : {A B : Type 0} → Parsed A → (A → Parsed B) → Parsed B
ok a >>= f = f a
why e >>= f = why e

abbrev pub ◌>>◌ : {B : Type 0} → Parsed (Unit {0}) → Parsed B → Parsed B
m >> k = m >>= λ _. k

abbrev pub check : Bool → String → Parsed (Unit {0})
check true e = ok tt
check false e = why e

abbrev pub need : {A : Type 0} → Option A → String → Parsed A
need none e = why e
need (some a) e = ok a

-- `harness_config_t cfg = {0};`
abbrev pub zero_config : Config
zero_config = record {
  run_id = 0;
  role = none_role;
  mode = ping;
  peer_mac = replicate 6 0;
  band_5ghz = false;
  country = [];
  channel = 0;
  phy_rate = [];
  tx_power_qdbm = 0;
  power_save = false;
  encryption = false;
  key = replicate 16 0;
  duration_us = 0;
  packet_size = 0;
  streams = 0;
  tx_window = 0;
  rate_per_stream = 0;
  probe_rate = 0;
  background_packet_size = 0;
  background_rate = 0;
}

unfoldable pub parse_role : List ℕ → Option Role
parse_role role =
    if str_eq role (codes "generator")
    then some generator
    else if str_eq role (codes "sink")
    then some sink
    else if str_eq role (codes "ping_initiator")
    then some ping_initiator
    else if str_eq role (codes "echo_responder")
    then some echo_responder
    else none

unfoldable pub parse_mode : List ℕ → Option Mode
parse_mode mode =
    if str_eq mode (codes "ping")
    then some ping
    else if str_eq mode (codes "stream")
    then some stream
    else if str_eq mode (codes "multi-stream")
    then some multi_stream
    else if str_eq mode (codes "saturation")
    then some saturation
    else if str_eq mode (codes "latency-under-load")
    then some latency_load
    else none

-- isupper of the C locale.
abbrev pub isupper : ℕ → Bool
isupper c = leb b'A' c && leb c b'Z'

unfoldable pub country_valid : List ℕ → Bool
country_valid country =
    (length country == 2) && (isupper (get_or country 0 0) && isupper (get_or country 1 0))

-- From 2 to 20 dBm in quarters.
unfoldable pub power_valid : Double → Bool
power_valid v = isfinite v && (ge_whole v 2 && (le_whole v 20 && is_whole_times 4 v))

-- `tx_power * 4`
unfoldable pub quadruple : Double → Double
quadruple (finite negative num scale) = finite negative (num * 4) scale
quadruple v = v

abbrev pub is_some : {A : Type 0} → Option A → Bool
is_some none = false
is_some (some a) = true

-- `mode == MODE_SATURATION` and `mode == MODE_LATENCY_LOAD`
abbrev pub is_saturation : Mode → Bool
is_saturation saturation = true
is_saturation _ = false

abbrev pub is_latency_load : Mode → Bool
is_latency_load latency_load = true
is_latency_load _ = false
