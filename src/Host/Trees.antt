-- ===== src/Host/Trees.antt =====
-- JSON as a data type, with fractions in place of doubles: it keeps the laws of Output.Object.
use Prim.Native.String.{String}
use esp_now_harness.Common.{
  ℕ, ◌≡◌, refl, ap, Bool, true, false, List, [], ◌∷◌, ◌++◌, Option, none, some, ◌==◌, if◌then◌else◌,
}
use esp_now_harness.Common.Text.{codes, str_eq}
use esp_now_harness.Output.{Builder}
use esp_now_harness.Output.Object.{Reader, Reads}
use esp_now_harness.Metrics.Rates.Tests.{Fraction, fractions}

-- The last field of an object and the last item of an array stand outermost.
mutual
  pub data Json : Type 0 where
    number : Fraction → Json
    text : List ℕ → Json
    truth : Bool → Json
    object : Members → Json
    array : Items → Json

  pub data Members : Type 0 where
    no_members : Members
    also : Members → String → Json → Members

  pub data Items : Type 0 where
    no_items : Items
    then_item : Items → Json → Items

abbrev pub lookup : Members → String → Option Json
lookup no_members name = none
lookup (also ms key j) name = elim (lookup ms name) [
  | none ↦ if str_eq (codes key) (codes name) then some j else none
  | some v ↦ some v
]

abbrev pub to_list : Items → List Json
to_list no_items = []
to_list (then_item is j) = to_list is ++ (j ∷ [])

abbrev pub with_member : Json → String → Json → Json
with_member (object ms) key j = object (also ms key j)
with_member o key j = o

abbrev pub with_item : Json → Json → Json
with_item (array is) j = array (then_item is j)
with_item a j = a

abbrev pub builder : Builder Json Fraction
builder = record {
  create_object = object no_members;
  create_array = array no_items;
  create_number = λ n. number n;
  create_string = λ s. text s;
  create_bool = λ t. truth t;
  add_item_to_object = with_member;
  add_item_to_array = with_item;
}

abbrev pub whole_of : Fraction → Option ℕ
whole_of f = if f.1 == 1 then some f.0 else none

abbrev pub reader : Reader Json
reader = record {
  is_object = λ j. elim j [ object ms ↦ true | _ ↦ false ];
  get = λ j name. elim j [ object ms ↦ lookup ms name | _ ↦ none ];
  as_array = λ j. elim j [ array is ↦ some (to_list is) | _ ↦ none ];
  as_u64 = λ j. elim j [ number n ↦ whole_of n | _ ↦ none ];
  as_str = λ j. elim j [ text s ↦ some s | _ ↦ none ];
  as_bool = λ j. elim j [ truth t ↦ some t | _ ↦ none ];
}

stays_object :
    (o item : Json) (name : String)
    → reader.is_object o ≡ true
    → reader.is_object (builder.add_item_to_object o name item) ≡ true
stays_object (object ms) item name h = refl
stays_object (number n) item name h = h
stays_object (text s) item name h = h
stays_object (truth t) item name h = h
stays_object (array is) item name h = h

finds_same :
    (o item : Json) (name other : String)
    → reader.is_object o ≡ true
    → reader.get o name ≡ none
    → str_eq (codes other) (codes name) ≡ true
    → reader.get (builder.add_item_to_object o other item) name ≡ some item
finds_same (object ms) item name other h absent e = rw (absent, e) refl
finds_same (number n) item name other h absent e = cc
finds_same (text s) item name other h absent e = cc
finds_same (truth t) item name other h absent e = cc
finds_same (array is) item name other h absent e = cc

finds_other :
    (o item : Json) (name other : String)
    → reader.is_object o ≡ true
    → str_eq (codes other) (codes name) ≡ false
    → reader.get (builder.add_item_to_object o other item) name ≡ reader.get o name
finds_other (object ms) item name other h e =
    elim (lookup ms name)
      as (λ v.
        (elim v [
          | none ↦ if str_eq (codes other) (codes name) then some item else none
          | some w ↦ some w
        ])
        ≡ v) [ none ↦ rw e refl | some v ↦ refl ]
finds_other (number n) item name other h e = refl
finds_other (text s) item name other h e = refl
finds_other (truth t) item name other h e = refl
finds_other (array is) item name other h e = refl

adds_item :
    (a item : Json) (items : List Json)
    → reader.as_array a ≡ some items
    → reader.as_array (builder.add_item_to_array a item) ≡ some (items ++ (item ∷ []))
adds_item (array is) item items h =
    ap (λ v. elim v [ none ↦ none | some vs ↦ some (vs ++ (item ∷ [])) ]) h
adds_item (object ms) item items h = cc
adds_item (number n) item items h = cc
adds_item (text s) item items h = cc
adds_item (truth t) item items h = cc

pub reads : Reads builder fractions reader
reads = record {
  object_new = refl;
  object_add = stays_object;
  get_new = λ name. refl;
  get_same = finds_same;
  get_other = finds_other;
  array_new = refl;
  array_add = adds_item;
  whole = λ n h. refl;
  string_kept = λ s. refl;
  bool_kept = λ t. refl;
}
