-- ===== src/Retained/Held.antt =====
-- Files of modelstore/registry/retained.py that hold a header and examples, as the writers leave
-- them, and what an eviction leaves of one.
use kenaz_ml.Prelude.{
  ℕ, ◌+◌, ◌≤◌, false, some, List, [], ◌∷◌, ◌++◌, ◌≡◌, refl, sym, ap, ◌∙◌, Text, All, arith, length,
  leb, Bool-cases, inl, inr,
}
use mathlib.Core.List.{append_assoc, append-nil}
use kenaz_ml.Retained.{
  RetainedExample, RetainedHeader, JsonLines, IsFaithfulJson, header_line, header_payload,
  all_white,
}
use kenaz_ml.Retained.File.{
  RetainedFile, from_first, read_file, read_set, read_retained, read_header_only,
}
use kenaz_ml.Retained.Write.{example_lines, size_of, flip_onto, keep_within}
use kenaz_ml.Retained.Lines.{
  IsTrainable, IsHeader, parse_header-header_line, read_examples-example_lines,
}

abbrev pub clean_file : Text → List Text → RetainedFile
clean_file first rest = record { lines = first ∷ rest; tail = [] }

-- The file holds the line of the header, then the lines of the examples, and ends in a newline.
pub record IsHeld (c : JsonLines) (file : RetainedFile) (h : RetainedHeader)
    (xs : List RetainedExample) : Type 0 where
  pub first : Text
  pub rest : List Text
  pub whole : file ≡ record { lines = first ∷ rest; tail = [] }
  pub header : header_line c h ≡ some first
  pub examples : example_lines c xs ≡ some rest
  pub is_header : IsHeader h
  pub trainable : All IsTrainable xs

pub not_blank-header_line :
    (c : JsonLines) (h : RetainedHeader) (line : Text)
    → IsFaithfulJson c
    → header_line c h ≡ some line
    → (c.is_blank line ≡ false) × (all_white line ≡ false)
unfolding header_line
not_blank-header_line c h line faithful e =
    (faithful.not_blank (header_payload h) line e, faithful.not_white (header_payload h) line e)

-- Such a file is read as its header and its examples.
pub read-IsHeld :
    (c : JsonLines) (file : RetainedFile) (h : RetainedHeader) (xs : List RetainedExample)
    → IsFaithfulJson c
    → IsHeld c file h xs
    → read_retained c false (some file)
      ≡ read_set h (record { examples = xs; skipped_lines = 0; truncated_final_line = false })
unfolding read_retained read_file from_first
read-IsHeld c file h xs faithful held =
    let (shown, dark) = not_blank-header_line c h held.first faithful held.header in
    rw
      (
        held.whole,
        dark,
        shown,
        parse_header-header_line c h held.first faithful held.is_header held.header,
        read_examples-example_lines c xs held.rest faithful held.trainable held.examples,
      )
      refl

pub header-IsHeld :
    (c : JsonLines) (file : RetainedFile) (h : RetainedHeader) (xs : List RetainedExample)
    → IsFaithfulJson c
    → IsHeld c file h xs
    → read_header_only c false (some file) ≡ some h
unfolding read_header_only from_first
header-IsHeld c file h xs faithful held =
    let (shown, dark) = not_blank-header_line c h held.first faithful held.header in
    rw
      (
        held.whole,
        shown,
        parse_header-header_line c h held.first faithful held.is_header held.header,
      )
      refl

flip_onto_append : (lines acc : List Text) → flip_onto lines acc ≡ flip_onto lines [] ++ acc
unfolding flip_onto
flip_onto_append [] acc = refl
flip_onto_append (line ∷ lines) acc =
    flip_onto_append lines (line ∷ acc)
    ∙ sym (append_assoc (flip_onto lines []) (line ∷ []) acc)
    ∙ ap (λ before. before ++ acc) (sym (flip_onto_append lines (line ∷ [])))

flip_onto_twice :
    (lines acc back : List Text)
    → flip_onto (flip_onto lines acc) back ≡ flip_onto acc (lines ++ back)
unfolding flip_onto
flip_onto_twice [] acc back = refl
flip_onto_twice (line ∷ lines) acc back = flip_onto_twice lines (line ∷ acc) back

keep_within_lem :
    (budget used : ℕ) (kept lines : List Text)
    → used ≡ size_of kept
    → used ≤ budget
    → let result = keep_within budget used kept lines in
      (older : List Text) × (flip_onto lines kept ≡ flip_onto older result)
      × (size_of result ≤ budget)
unfolding keep_within flip_onto size_of
keep_within_lem budget used kept [] e le = ([], refl, omega (arith, e, le))
keep_within_lem budget used kept (line ∷ lines) e le =
    elim (Bool-cases (leb (used + (length line + 1)) budget)) [
      | inl fits ↦ rw fits (
          keep_within_lem budget (used + (length line + 1)) (line ∷ kept) lines (omega (arith, e))
            (ground (arith, fits)))
      | inr over ↦ rw over (line ∷ lines, refl, omega (arith, e, le))
    ]

-- The lines that an eviction keeps are the newest, and fit into the budget.
pub kept_newest :
    (budget : ℕ) (lines : List Text)
    → let kept = keep_within budget 0 [] (flip_onto lines []) in
      (gone : List Text) × (lines ≡ gone ++ kept) × (size_of kept ≤ budget)
unfolding flip_onto size_of
kept_newest budget lines =
    let (older, e, le) = keep_within_lem budget 0 [] (flip_onto lines []) refl (omega arith) in
    (
      flip_onto older [],
      sym (append-nil lines) ∙ sym (flip_onto_twice lines [] []) ∙ e ∙ flip_onto_append older _,
      le,
    )
