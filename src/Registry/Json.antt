-- ===== src/Registry/Json.antt =====
-- What `json.loads` returns, as far as modelstore/registry/manifest.py reads it. The parser keeps one
-- value for each key, so no key of an object occurs twice.
use kenaz_ml.Prelude.{
  ℕ, String, string_eq, ◌==◌, Bool, true, false, not, Option, none, some, List, [], ◌∷◌,
  if◌then◌else◌, nat_beq,
}
use kenaz_ml.Exceptions.{value_error, overflow_error, Exc, ok, raised}

-- An integer by its sign and absolute value; `neg n` is -(n + 1).
pub data ℤ : Type 0 where
  pos : ℕ → ℤ
  negsuc : ℕ → ℤ

-- A float: a finite one by what `int` and `bool` make of it, and its text; `json.loads` also accepts
-- NaN and the infinities.
pub data Real : Type 0 where
  finite : ℤ → Bool → String → Real
  nan infinite : Real

mutual
  pub data Json : Type 0 where
    null : Json
    boolean : Bool → Json
    integer : ℤ → Json
    real : Real → Json
    string : String → Json
    array : Items → Json
    object : Fields → Json

  pub data Items : Type 0 where
    nil : Items
    cons : Json → Items → Items

  pub data Fields : Type 0 where
    end : Fields
    field : String → Json → Fields → Fields

-- raw.get(key)
unfoldable pub lookup : String → Fields → Option Json
lookup key end = none
lookup key (field k v fields) = if k == key then some v else lookup key fields

-- raw.get(key, default), and raw.get(key) with the default null
abbrev pub json_or : Json → Option Json → Json
json_or default none = default
json_or default (some v) = v

unfoldable pub lookup_or : String → Json → Fields → Json
unfolding lookup
lookup_or key default fields = json_or default (lookup key fields)

abbrev is_zero : ℤ → Bool
is_zero (pos n) = nat_beq n 0
is_zero (negsuc n) = false

-- bool(value)
unfoldable pub truthy : Json → Bool
truthy null = false
truthy (boolean b) = b
truthy (integer n) = not (is_zero n)
truthy (real (finite n zero text)) = not zero
truthy (real nan) = true
truthy (real infinite) = true
truthy (string s) = not (s == "")
truthy (array nil) = false
truthy (array (cons v items)) = true
truthy (object end) = false
truthy (object (field k v fields)) = true

-- `_section`
unfoldable pub section_of : Json → Fields
section_of (object fields) = fields
section_of _ = end

-- `_int_or_none`: `int` of a float that is no number raises.
unfoldable pub int_or_none : Json → Exc (Option ℤ)
int_or_none (integer n) = ok (some n)
int_or_none (real (finite n zero text)) = ok (some n)
int_or_none (real nan) = raised value_error
int_or_none (real infinite) = raised overflow_error
int_or_none _ = ok none

-- list(names), and an integer or None, as JSON values
abbrev pub name_items : List String → Items
name_items [] = nil
name_items (name ∷ names) = cons (string name) (name_items names)

abbrev pub int_or_null : Option ℤ → Json
int_or_null none = null
int_or_null (some n) = integer n

abbrev pub contains : List String → String → Bool
contains [] key = false
contains (k ∷ keys) key = if k == key then true else contains keys key

-- `_unknown`: the fields whose key is not known, in their order
unfoldable pub unknown : List String → Fields → Fields
unknown known end = end
unknown known (field k v fields) =
    let rest = unknown known fields in if contains known k then rest else field k v rest

-- `str` of a value that is no text is the library's: a parameter.
module _ (repr : Json → String) where
  unfoldable pub py_str : Json → String
  py_str (string s) = s
  py_str v = repr v

  -- `_str_or_none`
  unfoldable pub str_or_none : Json → Option String
  unfolding py_str
  str_or_none null = none
  str_or_none v = some (py_str v)

  unfoldable pub str_items : Items → List String
  unfolding py_str
  str_items nil = []
  str_items (cons v items) = py_str v ∷ str_items items

  -- `_str_tuple`
  unfoldable pub str_tuple : Json → List String
  unfolding str_items
  str_tuple (array items) = str_items items
  str_tuple _ = []
