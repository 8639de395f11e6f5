-- ===== src/Webhooks/Values.antt =====
-- webhooks.py: what the parsers do with the values of a payload, which may have any type.
use Prim.Native.Char.{code}
use Prim.Native.String.{String, [], ◌∷◌}
use nixbot.Prelude.{
  ℕ, ◌+◌, ◌*◌, Bool, true, false, not, ◌&&◌, Option, none, some, Result, ok, err, ◌>>=◌,
  if◌then◌else◌, ◌==◌, string_eq, nat_eq,
}
use nixbot.Prelude.Json.{
  Json, Items, Fields, null, bool, num, str, arr, obj, nil, cons, end, field, get_field, truthy,
}
use nixbot.Prelude.Prefixes.{is_infix}

-- The exceptions that a value of another type than the code expects raises.
pub data Exception : Type 0 where
  attribute_error type_error value_error : Exception

-- What Python says of texts and does not stand in the sources: `str(value)`, and the Unicode
-- tables that `str.isdigit`, `int` and `str.strip` read, on the codes of characters.
pub record Python : Type 0 where
  pub text_of : Json → String
  pub is_digit : ℕ → Bool
  pub decimal : ℕ → Option ℕ
  pub is_space : ℕ → Bool

-- `fields.get(key, default)`
abbrev pub value_or : Json → Option Json → Json
value_or default none = default
value_or default (some v) = v

abbrev pub get_or : Json → String → Fields → Json
get_or default k fs = value_or default (get_field k fs)

-- `value or {}`
abbrev pub or_empty : Json → Json
or_empty v = if truthy v then v else obj end

-- `value.get(key, default)` on a value of any type
unfoldable pub lookup_or : Json → String → Json → Result Exception Json
lookup_or default k (obj fs) = ok (get_or default k fs)
lookup_or default k _ = err attribute_error

abbrev pub lookup : String → Json → Result Exception Json
lookup = lookup_or null

-- `value == text` for a constant text
abbrev pub is_str : String → Json → Bool
is_str t (str s) = t == s
is_str t _ = false

abbrev pub is_null : Json → Bool
is_null null = true
is_null _ = false

-- a value that has to be a text: `startswith`, `removeprefix` and `split` exist only there
unfoldable pub as_str : Json → Result Exception String
as_str (str s) = ok s
as_str _ = err attribute_error

-- `[*s]`, the characters of a text, and the keys of a dict
unfoldable pub chars : String → Items
chars [] = nil
chars (c ∷ s) = cons (str (c ∷ [])) (chars s)

unfoldable pub keys : Fields → Items
keys end = nil
keys (field k v fs) = cons (str k) (keys fs)

-- What `for item in value` and `set(value)` go through.
unfoldable pub iterate : Json → Result Exception Items
iterate (arr items) = ok items
iterate (str s) = ok (chars s)
iterate (obj fs) = ok (keys fs)
iterate _ = err type_error

abbrev pub hashable : Json → Bool
hashable (arr _) = false
hashable (obj _) = false
hashable _ = true

unfoldable pub all_items : (Json → Bool) → Items → Bool
all_items p nil = true
all_items p (cons v vs) = p v && all_items p vs

-- `set(value) == {"0"}` for a value that is truthy, hence not empty
unfoldable pub is_zeros : Json → Result Exception Bool
is_zeros v = do
  items ← iterate v
  if all_items hashable items then ok (all_items (is_str "0") items) else err type_error

-- `key in value` for a constant text
unfoldable pub contains : String → Json → Result Exception Bool
contains k (obj fs) = ok (elim (get_field k fs) [ some _ ↦ true | none ↦ false ])
contains k (arr items) = ok (not (all_items (λ v. not (is_str k v)) items))
contains k (str s) = ok (is_infix k s)
contains k _ = err type_error

-- `value == value`: a Boolean is the number 0 or 1, and a dict has no order.
abbrev pub bool_num : Bool → ℕ
bool_num b = if b then 1 else 0

unfoldable pub count_fields : Fields → ℕ
count_fields end = 0
count_fields (field _ _ fs) = 1 + count_fields fs

unfoldable mutual
  pub json_beq : Json → Json → Bool
  json_beq null null = true
  json_beq (bool a) (bool b) = bool_num a == bool_num b
  json_beq (bool a) (num n) = bool_num a == n
  json_beq (num m) (bool b) = m == bool_num b
  json_beq (num m) (num n) = m == n
  json_beq (str s) (str t) = s == t
  json_beq (arr vs) (arr ws) = items_beq vs ws
  json_beq (obj fs) (obj gs) = count_fields fs == count_fields gs && fields_in fs gs
  json_beq _ _ = false

  pub items_beq : Items → Items → Bool
  items_beq nil nil = true
  items_beq (cons v vs) (cons w ws) = json_beq v w && items_beq vs ws
  items_beq _ _ = false

  pub fields_in : Fields → Fields → Bool
  fields_in end gs = true
  fields_in (field k v fs) gs = elim (get_field k gs) [
    | none ↦ false
    | some w ↦ json_beq v w && fields_in fs gs
  ]

-- `int(text)` on a text of digits; a digit without a decimal value raises ValueError.
unfoldable pub digits_from : Python → ℕ → String → Result Exception ℕ
digits_from py total [] = ok total
digits_from py total (c ∷ s) = elim (py.decimal (code c)) [
  | none ↦ err value_error
  | some d ↦ digits_from py (10 * total + d) s
]

abbrev pub digits : Python → String → Result Exception ℕ
digits py text = digits_from py 0 text
