-- ===== src/Output.antt =====
-- The JSON trees that firmware/main/control.c and metrics.c write, made by the calls of cJSON.
pub mod Object
use Prim.Native.String.{String}
use esp_now_harness.Common.{
  ℕ, Bool, true, ◌&&◌, not, List, [], ◌∷◌, Option, none, some, if◌then◌else◌,
}
use esp_now_harness.Common.Text.{codes, str_eq}
use esp_now_harness.Metrics.Rates.{Doubles}

-- The calls of cJSON that make items `J` with numbers `D`. An add returns the changed parent.
pub record Builder (J D : Type 0) : Type 0 where
  pub create_object : J
  pub create_array : J
  pub create_number : D → J
  pub create_string : List ℕ → J
  pub create_bool : Bool → J
  pub add_item_to_object : J → String → J → J
  pub add_item_to_array : J → J → J

-- The names of an object with their items, in the order in which they are added.
abbrev pub Fields : Type 0 → Type 0
Fields J = List (String × J)

-- Whether no field, and whether no two fields, have the name.
unfoldable pub is_fresh : {J : Type 0} → List ℕ → Fields J → Bool
is_fresh name [] = true
is_fresh name ((other, item) ∷ fields) = not (str_eq (codes other) name) && is_fresh name fields

unfoldable pub is_distinct : {J : Type 0} → Fields J → Bool
unfolding is_fresh
is_distinct [] = true
is_distinct ((name, item) ∷ fields) = is_fresh (codes name) fields && is_distinct fields

unfoldable pub field : {J : Type 0} → String → Fields J → Option J
field name [] = none
field name ((other, item) ∷ fields) =
    if str_eq (codes other) (codes name) then some item else field name fields

module _ {J D : Type 0} (b : Builder J D) where
  open b use {
    create_object, create_array, create_number, create_string, add_item_to_object,
    add_item_to_array,
  }

  unfoldable pub add_fields : J → Fields J → J
  add_fields object [] = object
  add_fields object ((name, item) ∷ fields) =
      add_fields (add_item_to_object object name item) fields

  unfoldable pub add_items : J → List J → J
  add_items array [] = array
  add_items array (item ∷ items) = add_items (add_item_to_array array item) items

  abbrev pub object : Fields J → J
  object fields = add_fields create_object fields

  abbrev pub array : List J → J
  array items = add_items create_array items

  abbrev pub string : String → J
  string text = create_string (codes text)

  -- add_u64
  unfoldable pub u64_item : Doubles D → ℕ → J
  u64_item d value = create_number (d.of_nat value)
