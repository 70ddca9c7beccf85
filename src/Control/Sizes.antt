-- ===== src/Control/Sizes.antt =====
-- The sizes of the fields that a request gives as text, in firmware/main/control.c.
use esp_now_harness.Common.{
  ℕ, zero, suc, ◌+◌, ◌*◌, ◌≡◌, ◌≢◌, inl, inr, refl, sym, ap, ◌∙◌, ==_iff, Bool, true, false, ◌&&◌,
  List, [], ◌∷◌, Option, none, some, arith, ◌==◌, if◌then◌else◌, length, take, map, u8,
}
use mathlib.Core.Option.{some-injective}
use esp_now_harness.Harness.{Role, none_role}
use esp_now_harness.Control.Fields.{
  parse_mac, parse_key, key_byte, key_bytes, hex_value, phy_valid, any_eq, valid_rates,
}
use esp_now_harness.Common.Text.{str_eq, str_eq→eq}
use esp_now_harness.Common.{Bool-cases}
use esp_now_harness.Control.Config.{parse_role}

length-map : (f : ℕ → ℕ) (xs : List ℕ) → length (map f xs) ≡ length xs
length-map f [] = refl
length-map f (x ∷ xs) = omega (arith, length-map f xs)

guarded_inv :
    (b : Bool) (o : Option (List ℕ)) (x : List ℕ)
    → (if b then o else none) ≡ some x
    → (b ≡ true) × (o ≡ some x)
guarded_inv true o x h = (refl, h)
guarded_inv false o x h = cc

pub length-parse_mac :
    (sscanf : List ℕ → List ℕ) (text mac : List ℕ)
    → parse_mac sscanf (some text) ≡ some mac
    → length mac ≡ 6
unfolding parse_mac
length-parse_mac sscanf text mac h =
    let (six, same) = guarded_inv (length (sscanf text) == 6) _ mac h in
    ap length (sym (some-injective _ _ same))
    ∙ length-map u8 (sscanf text)
    ∙ (==_iff (length (sscanf text)) 6).0 six

length-key_byte :
    (a b : Option ℕ) (r : Option (List ℕ)) (key : List ℕ)
    → key_byte a b r ≡ some key
    → (rest : List ℕ) × (r ≡ some rest) × (length key ≡ suc (length rest))
unfolding key_byte
length-key_byte none b r key h = ground (arith, h)
length-key_byte (some a) none r key h = ground (arith, h)
length-key_byte (some a) (some b) none key h = ground (arith, h)
length-key_byte (some a) (some b) (some rest) key h =
    (rest, refl, ap length (sym (some-injective _ _ h)))

length-key_bytes :
    (n : ℕ) (text key : List ℕ) → length text ≡ n + n → key_bytes text ≡ some key → length key ≡ n
unfolding key_bytes
length-key_bytes n [] key h e = ap length (sym (some-injective _ _ e)) ∙ omega arith
length-key_bytes n (x ∷ []) key h e = absurd (omega arith)
length-key_bytes zero (x ∷ y ∷ text) key h e = absurd (omega arith)
length-key_bytes (suc n) (x ∷ y ∷ text) key h e =
    let (rest, r, l) = length-key_byte (hex_value x) (hex_value y) (key_bytes text) key e in
    omega (arith, length-key_bytes n text rest (omega arith) r)

pub length-parse_key :
    (text : Option (List ℕ)) (key : List ℕ) → parse_key text ≡ some key → length key ≡ 16
unfolding parse_key
length-parse_key none key h = ground (arith, h)
length-parse_key (some text) key h =
    let (size, found) = guarded_inv (length text == 16 * 2) (key_bytes text) key h in
    length-key_bytes 16 text key ((==_iff (length text) 32).0 size) found

pub parse_role_given :
    (name : List ℕ) (role : Role) → parse_role name ≡ some role → role ≢ none_role
unfolding parse_role
parse_role_given name role h = ground arith

abbrev short : List (List ℕ) → Bool
short [] = true
short (x ∷ xs) = str_eq (take 15 x) x && short xs

take-any_eq :
    (names : List (List ℕ)) (name : List ℕ)
    → any_eq name names ≡ true
    → short names ≡ true
    → take 15 name ≡ name
unfolding any_eq
take-any_eq [] name h k = cc
take-any_eq (x ∷ names) name h k = elim (Bool-cases (str_eq name x)) [
  | inl e ↦ rw (str_eq→eq name x e) (str_eq→eq (take 15 x) x (ground (arith, k)))
  | inr e ↦ take-any_eq names name (ground (arith, h, e)) (ground (arith, k))
]

pub take-phy_valid :
    (name : List ℕ) (band : Bool) → phy_valid (some name) band ≡ true → take 15 name ≡ name
unfolding phy_valid str_eq
take-phy_valid name band h = take-any_eq valid_rates name (ground (arith, h)) refl
