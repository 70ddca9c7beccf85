-- ===== src/Control/Json.antt =====
-- Reading a request: object_item, string_item, number_item, bool_item and integer_in_range of
-- firmware/main/control.c, over the tree that cJSON parsed.
use Prim.Native.String.{String}
use esp_now_harness.Common.{
  ℕ, ◌*◌, ◌/◌, ◌%◌, ◌^◌, Bool, true, false, ◌&&◌, List, Option, none, some, leb, ◌==◌,
  if◌then◌else◌,
}

-- A double: a finite one is a sign, and num / 2 ^ scale.
pub data Double : Type 0 where
  nan : Double
  infinite : Bool → Double
  finite : Bool → ℕ → ℕ → Double

-- A whole number, and -1.
abbrev pub whole : ℕ → Double
whole n = finite false n 0

abbrev pub minus_one : Double
minus_one = finite true 1 0

abbrev pub isfinite : Double → Bool
isfinite (finite negative num scale) = true
isfinite _ = false

-- `value >= n`, `value <= n` and `value == n` for a whole number n.
unfoldable pub ge_whole : Double → ℕ → Bool
ge_whole nan n = false
ge_whole (infinite negative) n = if negative then false else true
ge_whole (finite negative num scale) n =
    if negative then (num == 0) && (n == 0) else leb (n * 2 ^ scale) num

unfoldable pub le_whole : Double → ℕ → Bool
le_whole nan n = false
le_whole (infinite negative) n = negative
le_whole (finite negative num scale) n = if negative then true else leb num (n * 2 ^ scale)

unfoldable pub eq_whole : Double → ℕ → Bool
eq_whole nan n = false
eq_whole (infinite negative) n = false
eq_whole (finite negative num scale) n =
    if negative then (num == 0) && (n == 0) else num == n * 2 ^ scale

-- `floor(value * k) == value * k` for k = 1 and k = 4, where the product is exact.
unfoldable pub is_whole_times : ℕ → Double → Bool
is_whole_times k nan = false
is_whole_times k (infinite negative) = true
is_whole_times k (finite negative num scale) = (num * k) % 2 ^ scale == 0

-- The conversion of a value that is at least 0 to an unsigned integer that holds it.
unfoldable pub to_nat : Double → ℕ
to_nat (finite negative num scale) = if negative then 0 else num / 2 ^ scale
to_nat _ = 0

-- The bounds of the source are whole numbers that a double holds.
unfoldable pub integer_in_range : Double → ℕ → ℕ → Bool
unfolding ge_whole le_whole is_whole_times
integer_in_range value lo hi =
    isfinite value && (ge_whole value lo && (le_whole value hi && is_whole_times 1 value))

-- The calls of cJSON on an item `J` that is not NULL; `none` is NULL.
pub record Cjson (J : Type 0) : Type 0 where
  pub get_object_item : J → String → Option J  -- cJSON_GetObjectItemCaseSensitive
  pub is_object : J → Bool
  pub is_string : J → Bool
  pub is_number : J → Bool
  pub is_bool : J → Bool
  pub is_true : J → Bool
  pub valuestring : J → List ℕ
  pub valuedouble : J → Double

-- An item of the wanted kind, or NULL.
abbrev pub keep_if : {J : Type 0} → (J → Bool) → Option J → Option J
keep_if test none = none
keep_if test (some j) = if test j then some j else none

module _ {J : Type 0} (c : Cjson J) where
  open c use {
    get_object_item, is_object, is_string, is_number, is_bool, is_true, valuestring, valuedouble,
  }

  unfoldable pub object_item : J → String → Option J
  object_item parent name = keep_if is_object (get_object_item parent name)

  unfoldable pub string_item : J → String → Option (List ℕ)
  string_item parent name = elim (keep_if is_string (get_object_item parent name)) [
    | none ↦ none
    | some item ↦ some (valuestring item)
  ]

  unfoldable pub number_item : J → String → Double → Double
  number_item parent name fallback = elim (keep_if is_number (get_object_item parent name)) [
    | none ↦ fallback
    | some item ↦ valuedouble item
  ]

  unfoldable pub bool_item : J → String → Bool → Bool
  bool_item parent name fallback = elim (keep_if is_bool (get_object_item parent name)) [
    | none ↦ fallback
    | some item ↦ is_true item
  ]
