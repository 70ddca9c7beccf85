-- ===== src/Control/Fields.antt =====
-- parse_mac, hex_value, parse_key, channel_valid and phy_valid of firmware/main/control.c.
use esp_now_harness.Common.{
  ℕ, ◌+◌, ◌-◌, ◌*◌, Bool, false, ◌&&◌, ◌||◌, List, [], ◌∷◌, map, Option, none, some, leb, ◌==◌,
  if◌then◌else◌, length, u8, contains,
}
use esp_now_harness.Common.Text.{codes, str_eq}
use esp_now_harness.Harness.{harness_key_size}

-- The numbers that sscanf converts by "%2x:%2x:%2x:%2x:%2x:%2x" are a parameter: at most six.
unfoldable pub parse_mac : (List ℕ → List ℕ) → Option (List ℕ) → Option (List ℕ)
parse_mac sscanf none = none
parse_mac sscanf (some text) =
    let value = sscanf text in if length value == 6 then some (map u8 value) else none

-- tolower of the C locale.
unfoldable pub tolower : ℕ → ℕ
tolower c = if leb b'A' c && leb c b'Z' then c + 32 else c

-- `none` is -1.
unfoldable pub hex_value : ℕ → Option ℕ
unfolding tolower
hex_value c =
    let c' = tolower c in
    if leb b'0' c && leb c b'9'
    then some (c - b'0')
    else if leb b'a' c' && leb c' b'f'
    then some (c' - b'a' + 10)
    else none

-- `(high << 4) | low`, where low is below 16; the loop stops at the first bad digit.
unfoldable pub key_byte : Option ℕ → Option ℕ → Option (List ℕ) → Option (List ℕ)
key_byte (some high) (some low) (some rest) = some (u8 (high * 16 + low) ∷ rest)
key_byte _ _ _ = none

unfoldable pub key_bytes : List ℕ → Option (List ℕ)
unfolding hex_value key_byte
key_bytes [] = some []
key_bytes (h ∷ []) = some []
key_bytes (h ∷ l ∷ rest) = key_byte (hex_value h) (hex_value l) (key_bytes rest)

unfoldable pub parse_key : Option (List ℕ) → Option (List ℕ)
unfolding key_bytes
parse_key none = none
parse_key (some text) = if length text == harness_key_size * 2 then key_bytes text else none

abbrev pub channels_5ghz : List ℕ
channels_5ghz = 36 ∷ 40 ∷ 44 ∷ 48 ∷ 149 ∷ 153 ∷ 157 ∷ 161 ∷ 165 ∷ []

unfoldable pub channel_valid : Bool → ℕ → Bool
channel_valid band_5ghz channel =
    if band_5ghz then contains channels_5ghz channel else leb 1 channel && leb channel 14

abbrev pub valid_rates : List (List ℕ)
valid_rates =
    codes "1m"
    ∷ codes "6m"
    ∷ codes "24m"
    ∷ codes "54m"
    ∷ codes "mcs0"
    ∷ codes "mcs7"
    ∷ codes "he-mcs0"
    ∷ codes "he-mcs7"
    ∷ []

-- The loop over the valid names.
unfoldable pub any_eq : List ℕ → List (List ℕ) → Bool
any_eq phy [] = false
any_eq phy (name ∷ names) = str_eq phy name || any_eq phy names

unfoldable pub phy_valid : Option (List ℕ) → Bool → Bool
unfolding any_eq
phy_valid none band_5ghz = false
phy_valid (some phy) band_5ghz =
    if band_5ghz && str_eq phy (codes "1m") then false else any_eq phy valid_rates
