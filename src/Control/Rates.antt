-- ===== src/Control/Rates.antt =====
-- parse_config of firmware/main/control.c and make_rate_config of firmware/main/radio.c: the names
-- of rates that the one accepts and the other translates.
use esp_now_harness.Common.{ℕ, ◌≡◌, ◌≢◌, true, List, none, some, arith}
use esp_now_harness.Harness.{Config}
use esp_now_harness.Control.Fields.{phy_valid, any_eq}
use esp_now_harness.Control.Config.{ok}
use esp_now_harness.Control.Parse.{parse_config}
use esp_now_harness.Control.Json.{Cjson}
use esp_now_harness.Control.Accepted.{parse_config-Accepted}
use esp_now_harness.Radio.{make_rate_config}

phy_valid-make_rate_config :
    (cfg : Config)
    → phy_valid (some cfg.phy_rate) cfg.band_5ghz ≡ true
    → make_rate_config cfg ≢ none
unfolding make_rate_config phy_valid any_eq
phy_valid-make_rate_config cfg h = ground arith

module _ {J : Type 0} (c : Cjson J) (sscanf : List ℕ → List ℕ) where
  -- The radio translates the PHY rate of every configuration that the controller's request is
  -- accepted with, for any JSON tree and any sscanf: make_rate_config does not fail on it.
  pub parse_config-make_rate_config :
      (root : J) (cfg : Config) → parse_config c sscanf root ≡ ok cfg → make_rate_config cfg ≢ none
  parse_config-make_rate_config root cfg e =
      phy_valid-make_rate_config cfg (parse_config-Accepted c sscanf root cfg e).1.rate_known
