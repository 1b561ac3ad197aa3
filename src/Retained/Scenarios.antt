-- ===== src/Retained/Scenarios.antt =====
-- The theorems at a file with a header and an example, a batch of two examples, and a torn line.
use kenaz_ml.Prelude.{
  ℕ, ◌+◌, ◌≤◌, String, string_eq, true, false, Option, none, some, List, [], ◌∷◌, ◌++◌, ◌≡◌, refl,
  arith, length, filter, Text, All,
}
use kenaz_ml.Exceptions.{ok, raised, overflow_error}
use kenaz_ml.Registry.Json.{
  pos, Real, finite, Json, integer, string, array, object, field, end, cons, nil, real, lookup,
  lookup_or, unknown,
}
use kenaz_ml.Registry.Manifest.{FeatureContract}
use kenaz_ml.Retained.Outcome.{AppendOutcome, stored}
use kenaz_ml.Retained.{
  RetainedExample, RetainedHeader, JsonLines, header_payload, example_payload, header_line,
  example_line, parse_example, parsed_example, header_of,
}
use kenaz_ml.Retained.File.{
  RetainedFile, OnDisk, read_retained, no_set, unreadable, examples_in, header_in, read_set,
  read_header_only, from_first, read_file, read_examples,
}
use kenaz_ml.Retained.Write.{
  Faults, AppendResult, kept_in, append_examples, fresh_header, glue, st_size, size_of,
  retain_within, keep_within, flip_onto, example_lines,
}
use kenaz_ml.Retained.Reset.{
  ResetResult, reset_retained, next_generation, delete_retained, expire_examples, is_young,
}
use kenaz_ml.Retained.Lines.{IsTrainable, IsHeader}
use kenaz_ml.Retained.Held.{IsHeld, clean_file}
use kenaz_ml.Retained.Appends.{append-AppendOutcome}
use kenaz_ml.Retained.Reads.{append-read}
use kenaz_ml.Retained.Renewal.{Follows, reset-read}
use kenaz_ml.Retained.Expiry.{expire-read}
use kenaz_ml.Retained.Losses.{overflow_hides_set, append_unreadable, append_after_torn}
use kenaz_ml.Retained.Fixtures.{codec_of, codec_of-IsFaithful}

abbrev one : Real
one = finite (pos 1) false "1.0"

abbrev example_at : ℕ → RetainedExample
example_at at = record { x = one ∷ []; y = one; as_of_ms = some (pos at) }

abbrev header_of_generation : String → RetainedHeader
header_of_generation generation = fresh_header "v1" generation ("a" ∷ []) (pos 7)

-- An example whose value is an integer, which this codec has no float for.
abbrev too_large : Json
too_large = object (
    field "record" (string "example")
      (field "x" (array (cons (integer (pos 9)) nil)) (field "y" (real one) end)))

abbrev table : List Json
table =
    header_payload (header_of_generation "1")
    ∷ header_payload (header_of_generation "2")
    ∷ example_payload (example_at 10)
    ∷ example_payload (example_at 20)
    ∷ example_payload (example_at 30)
    ∷ too_large
    ∷ []

abbrev codec : JsonLines
codec = codec_of table

abbrev healthy : Faults
healthy = record {
  read_fails = false;
  write_fails = false;
  append_fails = none;
  evict_fails = false;
  unlink_fails = false;
}

abbrev unread : Faults
unread = record healthy { read_fails = true }

abbrev contract : Option FeatureContract
contract = some (record {
  service = none;
  service_version = some "v1";
  names = "a" ∷ [];
  dtypes = [];
  extra = end;
})

abbrev line : ℕ → Text
line n = n ∷ []

abbrev before : RetainedFile
before = clean_file (line 65) (line 67 ∷ [])

abbrev batch : List RetainedExample
batch = example_at 20 ∷ example_at 30 ∷ []

before_lines :
    (header_line codec (header_of_generation "1") ≡ some (line 65))
    × (example_lines codec (example_at 10 ∷ []) ≡ some (line 67 ∷ []))
unfolding header_line example_line
before_lines = (refl, refl)

before-IsHeader : IsHeader (header_of_generation "1")
unfolding unknown
before-IsHeader = (refl, refl)

before-IsHeld : IsHeld codec before (header_of_generation "1") (example_at 10 ∷ [])
before-IsHeld = record {
  first = line 65;
  rest = line 67 ∷ [];
  whole = refl;
  header = before_lines.0;
  examples = before_lines.1;
  is_header = before-IsHeader;
  trainable = (((refl, tt), refl), tt);
}

abbrev appended : AppendResult × OnDisk
appended = append_examples codec healthy 6 contract "1" (pos 7) batch (some before)

abbrev after : OnDisk
after = some (clean_file (line 65) (line 68 ∷ line 69 ∷ []))

-- The header and three examples are eight bytes; six are allowed.
evicts : appended ≡ (kept_in 2 1 false "1", after)
unfolding append_examples read_header_only from_first header_of lookup_or lookup unknown
    example_line glue retain_within size_of keep_within flip_onto
evicts = refl

trains : All IsTrainable batch
trains = (((refl, tt), refl), (((refl, tt), refl), tt))

append-AppendOutcome_example :
    AppendOutcome codec healthy 6 2 false
      (header_of_generation "1")
      (example_at 10 ∷ batch)
      (some before)
      appended
append-AppendOutcome_example =
    append-AppendOutcome codec healthy 6 contract "v1" "1" ("a" ∷ []) (pos 7)
      (some (header_of_generation "1")) (example_at 10 ∷ []) batch (some before)
      (codec_of-IsFaithful table) refl refl (stored before-IsHeld) trains

append-read_example :
    (header_in (read_retained codec false after) ≡ some (header_of_generation "1"))
    × ((older : List RetainedExample) × (example_at 10 ∷ batch
          ≡ older ++ examples_in (read_retained codec false after))
        × (length older ≡ 1))
append-read_example =
    append-read codec healthy 6 contract "v1" "1" ("a" ∷ []) (pos 7)
      (some (header_of_generation "1")) (example_at 10 ∷ []) batch (some before) after 2 1 false "1"
      (codec_of-IsFaithful table) refl refl (stored before-IsHeld) trains evicts

abbrev reset_result : ResetResult
reset_result = record {
  previous_generation = some "1";
  next_generation = "2";
  deleted = true;
  header_written = true;
}

abbrev reset_file : OnDisk
reset_file = some (clean_file (line 66) [])

resets :
    reset_retained codec healthy contract (pos 7) (some before) ≡ (some reset_result, reset_file)
unfolding reset_retained read_header_only from_first header_of lookup_or lookup unknown
    delete_retained next_generation header_line
resets = refl

reset-read_example :
    let read = read_retained codec false reset_file in
    (examples_in read ≡ [])
    × (header_in read ≡ some (header_of_generation "2"))
    × Follows codec healthy (some "1") "2"
    × (reset_result.previous_generation ≡ some "1")
    × (reset_result.deleted ≡ true)
    × (reset_result.header_written ≡ true)
reset-read_example =
    reset-read codec healthy contract "v1" ("a" ∷ []) (pos 7) (some (header_of_generation "1"))
      (example_at 10 ∷ []) (some before) reset_file reset_result (codec_of-IsFaithful table) refl
      refl (stored before-IsHeld) resets

expires :
    expire_examples codec healthy (pos 15) (some before) ≡ (some 1, some (clean_file (line 65) []))
unfolding expire_examples read_retained read_file from_first header_of lookup_or lookup unknown
    header_line parsed_example read_examples
expires = refl

expire-read_example :
    let read = read_retained codec false (some (clean_file (line 65) [])) in
    (header_in read ≡ some (header_of_generation "1"))
    × (examples_in read ≡ filter (is_young (pos 15)) (example_at 10 ∷ []))
    × (1 + length (examples_in read) ≡ 1)
expire-read_example =
    expire-read codec healthy (pos 15) (header_of_generation "1") (example_at 10 ∷ []) before
      (some (clean_file (line 65) [])) 1 (codec_of-IsFaithful table) refl before-IsHeld expires

large_line : parse_example codec (line 70) ≡ raised overflow_error
unfolding parsed_example lookup_or lookup
large_line = refl

overflow_hides_set_example :
    read_retained codec false (some (clean_file (line 65) (line 67 ∷ line 70 ∷ line 68 ∷ [])))
    ≡ no_set unreadable
overflow_hides_set_example =
    overflow_hides_set codec (codec_of-IsFaithful table) (header_of_generation "1")
      (example_at 10 ∷ []) (line 65) (line 70) (line 67 ∷ []) (line 68 ∷ []) before-IsHeader
      before_lines.0 (((refl, tt), refl), tt) before_lines.1 refl large_line

whole_lines :
    (header_line codec (header_of_generation "1") ≡ some (line 65))
    × (example_lines codec batch ≡ some (line 68 ∷ line 69 ∷ []))
unfolding header_line example_line
whole_lines = (refl, refl)

batch_fits : st_size (clean_file (line 65) (line 68 ∷ line 69 ∷ [])) ≤ 6
unfolding size_of
batch_fits = omega arith

append_unreadable_example :
    append_examples codec unread 6 contract "1" (pos 7) batch (some before)
    ≡ (kept_in (length batch) 0 true "1", some (clean_file (line 65) (line 68 ∷ line 69 ∷ [])))
append_unreadable_example =
    append_unreadable codec unread 6 contract "v1" "1" ("a" ∷ []) (pos 7) batch before (line 65)
      (line 68 ∷ line 69 ∷ []) refl refl refl whole_lines.0 whole_lines.1 batch_fits

torn_line : parse_example codec (67 ∷ 68 ∷ []) ≡ ok none
unfolding parsed_example
torn_line = refl

abbrev glued : RetainedFile
glued = clean_file (line 65) (line 67 ∷ (67 ∷ 68 ∷ []) ∷ line 69 ∷ [])

batch_lines :
    (example_line codec (example_at 20) ≡ some (line 68))
    × (example_lines codec (example_at 30 ∷ []) ≡ some (line 69 ∷ []))
unfolding example_line
batch_lines = (refl, refl)

glued_size : st_size glued ≤ 20
unfolding size_of
glued_size = omega arith

append_after_torn_example :
    (append_examples codec healthy 20 contract "1"
        (pos 7)
        batch
        (some (record { lines = line 65 ∷ line 67 ∷ []; tail = line 67 }))
      ≡ (kept_in 2 0 false "1", some glued))
    × (read_retained codec false (some glued)
        ≡ read_set (header_of_generation "1") (record {
          examples = example_at 10 ∷ example_at 30 ∷ [];
          skipped_lines = 1;
          truncated_final_line = false;
        }))
append_after_torn_example =
    append_after_torn codec healthy 20 contract "1" (pos 7) (header_of_generation "1")
      (example_at 10 ∷ []) (example_at 30 ∷ []) (example_at 20) (line 65) (line 68) [] 67
      (line 67 ∷ []) (line 69 ∷ []) (codec_of-IsFaithful table) refl refl refl before-IsHeader
      before_lines.0 (((refl, tt), refl), tt) before_lines.1 (((refl, tt), refl), tt) batch_lines.0
      batch_lines.1 refl torn_line glued_size
