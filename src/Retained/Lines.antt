-- ===== src/Retained/Lines.antt =====
-- What the reader of modelstore/registry/retained.py makes of the lines that its writers make.
use kenaz_ml.Prelude.{
  suc, length, subst, String, string_eq, true, false, Option, none, some, List, [], ◌∷◌, ◌++◌, ◌≡◌,
  refl, sym, ap, ◌∙◌, Text, All, arith, Bool-cases, inl, inr,
}
use kenaz_ml.Exceptions.{ok}
use kenaz_ml.Registry.Json.{
  int_or_null, name_items, ℤ, Real, Json, null, boolean, real, integer, string, array, object,
  Fields, end, field, lookup, lookup_or, unknown, contains,
}
use kenaz_ml.Retained.{
  RetainedExample, RetainedHeader, JsonLines, IsFaithfulJson, finite_number, floats, numbers,
  all_texts, header_line, example_line, header_payload, integer_or_none, whole_or_null, header_keys,
  header_of, stamped_header, has_text, parsed_example, parse_header, parse_example, example_payload,
}
use kenaz_ml.Retained.File.{read_examples}
use kenaz_ml.Retained.Write.{line_with, example_lines}

-- The numbers of an example are finite.
abbrev pub IsTrainable : RetainedExample → Type 0
IsTrainable ex = All (λ v. finite_number v ≡ true) ex.x × (finite_number ex.y ≡ true)

numbers-floats :
    (c : JsonLines) (x : List Real)
    → All (λ v. finite_number v ≡ true) x
    → numbers c (floats x) ≡ ok (some x)
numbers-floats c [] h = refl
numbers-floats c (v ∷ x) (f, h) = rw (f, numbers-floats c x h) refl

pub all_texts-name_items : (names : List String) → all_texts (name_items names) ≡ some names
all_texts-name_items [] = refl
all_texts-name_items (name ∷ names) = rw (all_texts-name_items names) refl

int_or_null-integer_or_none : (n : Option ℤ) → integer_or_none (int_or_null n) ≡ n
int_or_null-integer_or_none none = refl
int_or_null-integer_or_none (some n) = refl

pub some_injective {ℓ} : {A : Type ℓ} {a b : A} → some a ≡ some b → a ≡ b
some_injective e = cc

tail_injective :
    {line first : Text} {lines rest : List Text} → line ∷ lines ≡ first ∷ rest → lines ≡ rest
tail_injective e = cc

pub not_blank-example_line :
    (c : JsonLines) (ex : RetainedExample) (line : Text)
    → IsFaithfulJson c
    → example_line c ex ≡ some line
    → c.is_blank line ≡ false
unfolding example_line
not_blank-example_line c ex line faithful e = faithful.not_blank (example_payload ex) line e

pub parse_example-example_line :
    (c : JsonLines) (ex : RetainedExample) (line : Text)
    → IsFaithfulJson c
    → IsTrainable ex
    → example_line c ex ≡ some line
    → parse_example c line ≡ ok (some ex)
unfolding example_line parsed_example lookup_or lookup
parse_example-example_line c ex line faithful (fx, fy) e =
    rw (faithful.loads-dumps (example_payload ex) line e, numbers-floats c ex.x fx, fy)
      (ap (λ as_of. ok (some (record ex { as_of_ms = as_of })))
        (int_or_null-integer_or_none ex.as_of_ms))

-- A header that its line gives back: `created_at` is a whole number or null, and `extra` has none
-- of the header's own keys.
abbrev pub IsHeader : RetainedHeader → Type 0
IsHeader h = (whole_or_null h.created_at ≡ h.created_at) × (unknown header_keys h.extra ≡ h.extra)

pub parse_header-header_line :
    (c : JsonLines) (h : RetainedHeader) (line : Text)
    → IsFaithfulJson c
    → IsHeader h
    → header_line c h ≡ some line
    → parse_header c line ≡ some h
unfolding header_line header_of lookup_or lookup unknown
parse_header-header_line c h line faithful (at, kept) e =
    rw (faithful.loads-dumps (header_payload h) line e, all_texts-name_items h.names, at, kept) refl

whole_or_null_idem : (v : Json) → whole_or_null (whole_or_null v) ≡ whole_or_null v
whole_or_null_idem null = refl
whole_or_null_idem (boolean b) = refl
whole_or_null_idem (integer n) = refl
whole_or_null_idem (real r) = refl
whole_or_null_idem (string s) = refl
whole_or_null_idem (array items) = refl
whole_or_null_idem (object fields) = refl

unknown_idem :
    (known : List String) (fields : Fields)
    → unknown known (unknown known fields) ≡ unknown known fields
unfolding unknown
unknown_idem known end = refl
unknown_idem known (field k v fields) = elim (Bool-cases (contains known k)) [
  | inl e ↦ rw e (unknown_idem known fields)
  | inr e ↦ rw (e, e) (ap (λ rest. field k v rest) (unknown_idem known fields))
]

stamped_header-IsHeader :
    (fields : Fields) (version generation : Option String) (h : RetainedHeader)
    → stamped_header fields version generation ≡ some h
    → IsHeader h
stamped_header-IsHeader fields none generation h e = absurd (ground (arith, e))
stamped_header-IsHeader fields (some version) none h e = absurd (ground (arith, e))
stamped_header-IsHeader fields (some version) (some generation) h e =
    subst IsHeader (some_injective e)
      (whole_or_null_idem (lookup_or "created_at" null fields), unknown_idem header_keys fields)

-- A header that was read is given back by its line.
pub header_of-IsHeader : (v : Json) (h : RetainedHeader) → header_of (some v) ≡ some h → IsHeader h
unfolding header_of
header_of-IsHeader (object fields) h e =
    elim (Bool-cases (has_text "header" (lookup_or "record" null fields))) [
      | inl tagged ↦ stamped_header-IsHeader fields _ _ h (rw tagged at e)
      | inr other ↦ absurd (ground (arith, e, other))
    ]
header_of-IsHeader null h e = absurd (ground (arith, e))
header_of-IsHeader (boolean b) h e = absurd (ground (arith, e))
header_of-IsHeader (integer n) h e = absurd (ground (arith, e))
header_of-IsHeader (real r) h e = absurd (ground (arith, e))
header_of-IsHeader (string s) h e = absurd (ground (arith, e))
header_of-IsHeader (array items) h e = absurd (ground (arith, e))

line_with-some :
    (first : Option Text) (rest : Option (List Text)) (lines : List Text)
    → line_with first rest ≡ some lines
    → (line : Text) × (more : List Text) × (first ≡ some line)
      × (rest ≡ some more)
      × (lines ≡ line ∷ more)
line_with-some none rest lines e = absurd (ground (arith, e))
line_with-some (some line) none lines e = absurd (ground (arith, e))
line_with-some (some line) (some more) lines e = (line, more, refl, refl, sym (some_injective e))

-- The lines of a list that is not empty are those of its head and its tail.
pub example_lines-cons :
    (c : JsonLines) (ex : RetainedExample) (xs : List RetainedExample) (lines : List Text)
    → example_lines c (ex ∷ xs) ≡ some lines
    → (line : Text) × (more : List Text) × (example_line c ex ≡ some line)
      × (example_lines c xs ≡ some more)
      × (lines ≡ line ∷ more)
example_lines-cons c ex xs lines e = line_with-some (example_line c ex) (example_lines c xs) lines e

pub example_lines-append :
    (c : JsonLines) (xs ys : List RetainedExample) (lines more : List Text)
    → example_lines c xs ≡ some lines
    → example_lines c ys ≡ some more
    → example_lines c (xs ++ ys) ≡ some (lines ++ more)
example_lines-append c [] ys lines more e f =
    f ∙ ap (λ none_of. some (none_of ++ more)) (some_injective e)
example_lines-append c (ex ∷ xs) ys lines more e f =
    let (line, rest, first, others, same) = example_lines-cons c ex xs lines e in
    rw (first, example_lines-append c xs ys rest more others f)
      (ap (λ all. some (all ++ more)) (sym same))

pub length-example_lines :
    (c : JsonLines) (xs : List RetainedExample) (lines : List Text)
    → example_lines c xs ≡ some lines
    → length lines ≡ length xs
length-example_lines c [] lines e = ap length (sym (some_injective e))
length-example_lines c (ex ∷ xs) lines e =
    let (line, more, first, others, same) = example_lines-cons c ex xs lines e in
    ap length same ∙ ap suc (length-example_lines c xs more others)

-- The examples of the last lines.
pub example_lines-split :
    (c : JsonLines) (xs : List RetainedExample) (gone kept : List Text)
    → example_lines c xs ≡ some (gone ++ kept)
    → (older : List RetainedExample) × (ys : List RetainedExample) × (xs ≡ older ++ ys)
      × (length older ≡ length gone)
      × (example_lines c ys ≡ some kept)
example_lines-split c xs [] kept e = ([], xs, refl, refl, e)
example_lines-split c [] (line ∷ gone) kept e = absurd (ground (arith, e))
example_lines-split c (ex ∷ xs) (line ∷ gone) kept e =
    let (first, rest, f, others, same) = example_lines-cons c ex xs _ e in
    let (older, ys, split, count, left) =
      example_lines-split c xs gone kept (others ∙ ap some (sym (tail_injective same))) in
    (ex ∷ older, ys, ap (λ more. ex ∷ more) split, ap suc count, left)

pub read_examples-example_lines :
    (c : JsonLines) (xs : List RetainedExample) (lines : List Text)
    → IsFaithfulJson c
    → All IsTrainable xs
    → example_lines c xs ≡ some lines
    → read_examples c false lines
      ≡ ok (record { examples = xs; skipped_lines = 0; truncated_final_line = false })
unfolding read_examples
read_examples-example_lines c [] lines faithful h e =
    ap (λ none_of. read_examples c false none_of) (sym (some_injective e))
read_examples-example_lines c (ex ∷ xs) lines faithful (trains, h) e =
    let (line, more, first, others, same) = example_lines-cons c ex xs lines e in
    rw
      (
        same,
        not_blank-example_line c ex line faithful first,
        parse_example-example_line c ex line faithful trains first,
        read_examples-example_lines c xs more faithful h others,
      )
      refl
