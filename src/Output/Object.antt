-- ===== src/Output/Object.antt =====
-- Reading the JSON trees of Output, with the calls of a JSON library.
use Prim.Native.String.{String}
use esp_now_harness.Common.{
  ℕ, ◌^◌, ◌<◌, ◌≡◌, refl, sym, ◌∙◌, ap, inl, inr, Bool, true, false, List, [], ◌∷◌, ◌++◌, Option,
  none, some, Bool-cases, arith,
}
use mathlib.Core.List.{append-nil, append_assoc}
use esp_now_harness.Common.Text.{codes, str_eq, str_eq→eq}
use esp_now_harness.Metrics.Rates.{Doubles}
use esp_now_harness.Output.{
  Builder, Fields, is_fresh, is_distinct, field, object, add_fields, add_items,
}

-- The calls that read an item.
pub record Reader (J : Type 0) : Type 0 where
  pub is_object : J → Bool
  pub get : J → String → Option J
  pub as_array : J → Option (List J)
  pub as_u64 : J → Option ℕ
  pub as_str : J → Option (List ℕ)
  pub as_bool : J → Option Bool

-- What a reader finds in what cJSON made, printed and parsed again. cJSON prints fewer than sixteen
-- digits of a whole number as they are, and larger ones with an exponent.
pub record Reads {J D : Type 0} (b : Builder J D) (d : Doubles D) (r : Reader J) : Type 0 where
  pub object_new : r.is_object b.create_object ≡ true
  pub object_add :
      (object item : J) (name : String)
      → r.is_object object ≡ true
      → r.is_object (b.add_item_to_object object name item) ≡ true
  pub get_new : (name : String) → r.get b.create_object name ≡ none
  pub get_same :
      (object item : J) (name other : String)
      → r.is_object object ≡ true
      → r.get object name ≡ none
      → str_eq (codes other) (codes name) ≡ true
      → r.get (b.add_item_to_object object other item) name ≡ some item
  pub get_other :
      (object item : J) (name other : String)
      → r.is_object object ≡ true
      → str_eq (codes other) (codes name) ≡ false
      → r.get (b.add_item_to_object object other item) name ≡ r.get object name
  pub array_new : r.as_array b.create_array ≡ some []
  pub array_add :
      (array item : J) (items : List J)
      → r.as_array array ≡ some items
      → r.as_array (b.add_item_to_array array item) ≡ some (items ++ (item ∷ []))
  pub whole : (n : ℕ) → n < 10 ^ 15 → r.as_u64 (b.create_number (d.of_nat n)) ≡ some n
  pub string_kept : (text : List ℕ) → r.as_str (b.create_string text) ≡ some text
  pub bool_kept : (test : Bool) → r.as_bool (b.create_bool test) ≡ some test

module _ {J D : Type 0} (b : Builder J D) (d : Doubles D) (r : Reader J) (x : Reads b d r) where
  pub is_object-add_fields :
      (object : J) (fields : Fields J)
      → r.is_object object ≡ true
      → r.is_object (add_fields b object fields) ≡ true
  unfolding add_fields
  is_object-add_fields object [] o = o
  is_object-add_fields object ((name, item) ∷ fields) o =
      is_object-add_fields (b.add_item_to_object object name item) fields
        (x.object_add object item name o)

  -- Other fields leave what an object has under a name.
  pub get-add_fields_fresh :
      (object : J) (name : String) (fields : Fields J)
      → r.is_object object ≡ true
      → is_fresh (codes name) fields ≡ true
      → r.get (add_fields b object fields) name ≡ r.get object name
  unfolding add_fields is_fresh
  get-add_fields_fresh object name [] o h = refl
  get-add_fields_fresh object name ((other, item) ∷ fields) o h =
      elim (Bool-cases (str_eq (codes other) (codes name))) [
        | inl e ↦ absurd (ground (arith, e, h))
        | inr e ↦
            get-add_fields_fresh (b.add_item_to_object object other item) name fields
              (x.object_add object item other o) (ground (arith, e, h))
            ∙ x.get_other object item name other o e
      ]

  -- A field of an object whose names are distinct.
  get-add_fields :
      (object : J) (name : String) (fields : Fields J)
      → r.is_object object ≡ true
      → is_distinct fields ≡ true
      → r.get object name ≡ none
      → r.get (add_fields b object fields) name ≡ field name fields
  unfolding add_fields is_distinct field
  get-add_fields object name [] o h n = n
  get-add_fields object name ((other, item) ∷ fields) o h n =
      let more = b.add_item_to_object object other item in
      let p = x.object_add object item other o in
      elim (Bool-cases (str_eq (codes other) (codes name))) [
        | inl e ↦
            let same = str_eq→eq (codes other) (codes name) e in
            let fresh : is_fresh (codes name) fields ≡ true = rw (← same) (ground (arith, h)) in
            rw e (
              get-add_fields_fresh more name fields p fresh
              ∙ x.get_same object item name other o n e)
        | inr e ↦ rw e (
            get-add_fields more name fields p (ground (arith, h))
              (x.get_other object item name other o e ∙ n))
      ]

  pub get-object :
      (name : String) (fields : Fields J)
      → is_distinct fields ≡ true
      → r.get (object b fields) name ≡ field name fields
  get-object name fields distinct =
      get-add_fields b.create_object name fields x.object_new distinct (x.get_new name)

  pub is_object-object : (fields : Fields J) → r.is_object (object b fields) ≡ true
  is_object-object fields = is_object-add_fields b.create_object fields x.object_new

  pub as_array-add_items :
      (array : J) (first items : List J)
      → r.as_array array ≡ some first
      → r.as_array (add_items b array items) ≡ some (first ++ items)
  unfolding add_items
  as_array-add_items array first [] h = h ∙ ap (λ vs. some vs) (sym (append-nil first))
  as_array-add_items array first (item ∷ items) h =
      as_array-add_items (b.add_item_to_array array item) (first ++ (item ∷ [])) items
        (x.array_add array item first h)
      ∙ ap (λ vs. some vs) (append_assoc first (item ∷ []) items)
