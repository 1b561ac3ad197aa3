-- ===== src/Retained.antt =====
-- modelstore/registry/retained.py: the retained training set of a model, a file with a header line
-- and a line for each example. This module has the records and their lines; its children read and
-- change the file.
pub mod File
pub mod Write
pub mod Reset
mod Lines
mod Held
mod Cut
mod Outcome
mod Appends
mod Reads
mod Renewal
mod Expiry
mod Losses
mod Mirrored
mod Fixtures
mod Scenarios
use kenaz_ml.Prelude.{
  ℕ, leb, nat_beq, ◌||◌, String, string_eq, ◌==◌, Bool, true, false, ◌&&◌, Option, none, some, List,
  [], ◌∷◌, ◌≡◌, Text, if◌then◌else◌,
}
use kenaz_ml.Exceptions.{Exc, ok, raised, overflow_error, ◌>>=◌}
use kenaz_ml.Registry.Json.{
  name_items, int_or_null, ℤ, Real, finite, nan, infinite, Json, null, boolean, integer, real,
  string, array, object, Items, nil, cons, Fields, end, field, lookup_or, unknown,
}

-- `Example`
pub record RetainedExample : Type 0 where
  pub x : List Real
  pub y : Real
  pub as_of_ms : Option ℤ

-- `RetainedHeader`; `created_at` is null, an integer or, as Python has it, a Boolean.
pub record RetainedHeader : Type 0 where
  pub contract_version : String
  pub generation : String
  pub names : List String
  pub created_at : Json
  pub extra : Fields

-- What is taken from Python: `json.loads` of a stripped piece of the file (`none` when it raises),
-- the line of a value (`none` when it holds a number that is not finite), whether a piece is blank,
-- `float` and `int` with the name_items of integers.
pub record JsonLines : Type 0 where
  pub loads : Text → Option Json
  pub dumps : Json → Option Text
  pub is_blank : Text → Bool
  pub float_of_int : ℤ → Option Real
  pub int_of_text : String → Option ℤ
  pub text_of_int : ℤ → String

abbrev pub finite_number : Real → Bool
finite_number (finite n zero text) = true
finite_number nan = false
finite_number infinite = false

-- b.strip() leaves nothing
abbrev pub is_white : ℕ → Bool
is_white b = (leb 9 b && leb b 13) || nat_beq b 32

abbrev pub all_white : Text → Bool
all_white [] = true
all_white (b ∷ bytes) = is_white b && all_white bytes

-- A line that was written reads as the value it was written for, and is not blank.
pub record IsFaithfulJson (c : JsonLines) : Type 0 where
  pub loads-dumps : (v : Json) (line : Text) → c.dumps v ≡ some line → c.loads line ≡ some v
  pub not_blank : (v : Json) (line : Text) → c.dumps v ≡ some line → c.is_blank line ≡ false
  pub not_white : (v : Json) (line : Text) → c.dumps v ≡ some line → all_white line ≡ false

abbrev pub floats : List Real → Items
floats [] = nil
floats (v ∷ x) = cons (real v) (floats x)

-- The payload of `_header_line`: the keys of `extra` are none of the others.
abbrev pub header_payload : RetainedHeader → Json
header_payload h = object (
    field "record" (string "header") (
      field "contract_version" (string h.contract_version) (
        field "generation" (string h.generation)
          (field "names" (array (name_items h.names)) (field "created_at" h.created_at h.extra)))))

-- The payload of `_example_line`
abbrev pub example_payload : RetainedExample → Json
example_payload ex = object (
    field "record" (string "example") (
      field "x" (array (floats ex.x))
        (field "y" (real ex.y) (field "as_of_ms" (int_or_null ex.as_of_ms) end))))

unfoldable pub header_line : JsonLines → RetainedHeader → Option Text
header_line c h = c.dumps (header_payload h)

unfoldable pub example_line : JsonLines → RetainedExample → Option Text
example_line c ex = c.dumps (example_payload ex)

abbrev pub text_or_none : Json → Option String
text_or_none (string s) = some s
text_or_none _ = none

abbrev pub consed : Option String → Option (List String) → Option (List String)
consed none names = none
consed (some name) none = none
consed (some name) (some names) = some (name ∷ names)

-- all(isinstance(n, str) for n in raw_names), with the names
abbrev pub all_texts : Items → Option (List String)
all_texts nil = some []
all_texts (cons v items) = consed (text_or_none v) (all_texts items)

abbrev pub or_empty : Option (List String) → List String
or_empty none = []
or_empty (some names) = names

abbrev pub names_of : Json → List String
names_of (array items) = or_empty (all_texts items)
names_of _ = []

-- isinstance(created_at, int), which a Boolean is too
abbrev pub whole_or_null : Json → Json
whole_or_null (integer n) = integer n
whole_or_null (boolean b) = boolean b
whole_or_null _ = null

abbrev pub header_keys : List String
header_keys = "record" ∷ "contract_version" ∷ "generation" ∷ "names" ∷ "created_at" ∷ []

abbrev pub has_text : String → Json → Bool
has_text s (string t) = t == s
has_text s _ = false

abbrev pub stamped_header : Fields → Option String → Option String → Option RetainedHeader
stamped_header fields none generation = none
stamped_header fields (some version) none = none
stamped_header fields (some version) (some generation) = some (record {
  contract_version = version;
  generation = generation;
  names = names_of (lookup_or "names" null fields);
  created_at = whole_or_null (lookup_or "created_at" null fields);
  extra = unknown header_keys fields;
})

unfoldable pub header_of : Option Json → Option RetainedHeader
header_of (some (object fields)) =
    if has_text "header" (lookup_or "record" null fields)
    then stamped_header fields (text_or_none (lookup_or "contract_version" null fields))
        (text_or_none (lookup_or "generation" null fields))
    else none
header_of _ = none

-- `_parse_header`
abbrev pub parse_header : JsonLines → Text → Option RetainedHeader
parse_header c line = header_of (c.loads line)

abbrev pub finite_or_none : Real → Option Real
finite_or_none v = if finite_number v then some v else none

-- A number of an example: `none` when it is no number or not finite, and `float` of an integer
-- beyond the floats raises.
abbrev pub from_int : Option Real → Exc (Option Real)
from_int none = raised overflow_error
from_int (some v) = ok (finite_or_none v)

abbrev pub number_of : JsonLines → Json → Exc (Option Real)
number_of c (integer n) = from_int (c.float_of_int n)
number_of c (real v) = ok (finite_or_none v)
number_of c _ = ok none

-- The values before the first that is no finite number are converted.
abbrev pub with_value : Option Real → Exc (Option (List Real)) → Exc (Option (List Real))
with_value none rest = ok none
with_value (some v) (raised e) = raised e
with_value (some v) (ok none) = ok none
with_value (some v) (ok (some values)) = ok (some (v ∷ values))

abbrev pub next_value : Exc (Option Real) → Exc (Option (List Real)) → Exc (Option (List Real))
next_value (raised e) rest = raised e
next_value (ok v) rest = with_value v rest

abbrev pub numbers : JsonLines → Items → Exc (Option (List Real))
numbers c nil = ok (some [])
numbers c (cons v items) = next_value (number_of c v) (numbers c items)

abbrev pub integer_or_none : Json → Option ℤ
integer_or_none (integer n) = some n
integer_or_none _ = none

abbrev pub is_number : Json → Bool
is_number (integer n) = true
is_number (real v) = true
is_number _ = false

abbrev pub with_y : Fields → List Real → Option Real → Option RetainedExample
with_y fields x none = none
with_y fields x (some y) =
    some (record { x = x; y = y; as_of_ms = integer_or_none (lookup_or "as_of_ms" null fields) })

-- `float(raw_y)` after the values of x
abbrev pub on_values : JsonLines → Fields → Option (List Real) → Exc (Option RetainedExample)
on_values c fields none = ok none
on_values c fields (some x) = do y ← number_of c (lookup_or "y" null fields); ok (with_y fields x y)

abbrev pub on_x : JsonLines → Fields → Json → Exc (Option RetainedExample)
on_x c fields (array items) = numbers c items >>= on_values c fields
on_x c fields _ = ok none

-- `_parse_example` after `json.loads`: a line that is no usable example, or an OverflowError.
unfoldable pub parsed_example : JsonLines → Option Json → Exc (Option RetainedExample)
parsed_example c (some (object fields)) =
    if has_text "example" (lookup_or "record" null fields) && is_number (lookup_or "y" null fields)
    then on_x c fields (lookup_or "x" null fields)
    else ok none
parsed_example c _ = ok none

abbrev pub parse_example : JsonLines → Text → Exc (Option RetainedExample)
parse_example c line = parsed_example c (c.loads line)
