-- ===== src/Retained/Losses.antt =====
-- Where modelstore/registry/retained.py gives up examples that a file still holds: a torn last
-- line, a header that cannot be read for a moment, and a number beyond the floats.
use kenaz_ml.Prelude.{
  ℕ, suc, ◌≤◌, String, string_eq, ◌==◌, list_eq, Bool, true, false, ◌&&◌, not, Option, none, some,
  List, [], ◌∷◌, ◌++◌, ◌≡◌, refl, sym, ap, ◌∙◌, Text, All, arith, length,
}
use kenaz_ml.Exceptions.{Exc, ok, raised, overflow_error}
use kenaz_ml.Registry.Json.{ℤ}
use kenaz_ml.Registry.Manifest.{FeatureContract}
use kenaz_ml.Retained.{
  RetainedExample, RetainedHeader, JsonLines, IsFaithfulJson, header_line, example_line,
  parse_example,
}
use kenaz_ml.Retained.File.{
  RetainedFile, Examples, on_example, read_examples, from_first, read_file, read_retained,
  read_header_only, no_set, unreadable, read_set, is_nil,
}
use kenaz_ml.Retained.Write.{
  Faults, stamp_of, example_lines, fresh_header, append_examples, kept_in, glue, st_size,
  retain_within, torn_or, put_back,
}
use kenaz_ml.Retained.Lines.{
  IsTrainable, IsHeader, example_lines-cons, not_blank-example_line, parse_example-example_line,
  parse_header-header_line, read_examples-example_lines, length-example_lines, some_injective,
}
use kenaz_ml.Retained.Held.{clean_file, not_blank-header_line}

-- The lines of examples before others add them to what is read of those.
abbrev with_examples : List RetainedExample → Exc Examples → Exc Examples
with_examples xs (raised e) = raised e
with_examples xs (ok read) = ok (record read { examples = xs ++ read.examples })

module _ (c : JsonLines) (faithful : IsFaithfulJson c) where
  with_examples-nil : (read : Exc Examples) → with_examples [] read ≡ read
  with_examples-nil (raised e) = refl
  with_examples-nil (ok read) = refl

  on_example-with_examples :
      (torn : Bool) (ex : RetainedExample) (xs : List RetainedExample) (read : Exc Examples)
      → on_example torn (ok (some ex)) (with_examples xs read) ≡ with_examples (ex ∷ xs) read
  on_example-with_examples torn ex xs (raised e) = refl
  on_example-with_examples torn ex xs (ok read) = refl

  read_examples-append :
      (xs : List RetainedExample) (lines more : List Text)
      → All IsTrainable xs
      → example_lines c xs ≡ some lines
      → read_examples c false (lines ++ more) ≡ with_examples xs (read_examples c false more)
  unfolding read_examples
  read_examples-append [] lines more h e =
      ap (λ none_of. read_examples c false (none_of ++ more)) (sym (some_injective e))
      ∙ sym (with_examples-nil (read_examples c false more))
  read_examples-append (ex ∷ xs) lines more (trains, h) e =
      let (line, rest, first, others, same) = example_lines-cons c ex xs lines e in
      rw
        (
          same,
          not_blank-example_line c ex line faithful first,
          parse_example-example_line c ex line faithful trains first,
          read_examples-append xs rest more h others,
        )
        (on_example-with_examples (is_nil (rest ++ more) && false) ex xs
          (read_examples c false more))

  -- One line with an integer beyond the floats, after the header and other examples, makes the
  -- whole set unreadable, though every other line is sound.
  pub overflow_hides_set :
      (h : RetainedHeader) (xs : List RetainedExample) (first bad : Text) (lines more : List Text)
      → IsHeader h
      → header_line c h ≡ some first
      → All IsTrainable xs
      → example_lines c xs ≡ some lines
      → c.is_blank bad ≡ false
      → parse_example c bad ≡ raised overflow_error
      → read_retained c false (some (clean_file first (lines ++ (bad ∷ more)))) ≡ no_set unreadable
  unfolding read_retained read_file from_first read_examples
  overflow_hides_set h xs first bad lines more is_header header trains e shown over =
      let (dark, white) = not_blank-header_line c h first faithful header in
      rw
        (
          white,
          dark,
          parse_header-header_line c h first faithful is_header header,
          read_examples-append xs lines (bad ∷ more) trains e,
          shown,
          over,
        )
        refl

module _ (c : JsonLines) (faults : Faults) (max_bytes : ℕ) where
  retain_fitting :
      (fails : Bool) (file : RetainedFile)
      → st_size file ≤ max_bytes
      → retain_within fails max_bytes file ≡ (file, 0)
  unfolding retain_within
  retain_fitting fails file fits = ground (arith, fits)

  -- When the header of a file cannot be read, whatever the file holds, an append of a batch under a
  -- contract with a version, whose lines can be made and written and stay within the bound, reports
  -- the whole batch as written, and leaves a file of a fresh header and the batch alone: all that
  -- the file held is gone.
  pub append_unreadable :
      (contract : Option FeatureContract) (version generation : String) (names : List String)
      (created_at : ℤ) (batch : List RetainedExample) (file : RetainedFile) (first : Text)
      (lines : List Text)
      → stamp_of contract ≡ some (version, names)
      → faults.read_fails ≡ true
      → faults.write_fails ≡ false
      → header_line c (fresh_header version generation names created_at) ≡ some first
      → example_lines c batch ≡ some lines
      → st_size (clean_file first lines) ≤ max_bytes
      → append_examples c faults max_bytes contract generation created_at batch (some file)
        ≡ (kept_in (length batch) 0 true generation, some (clean_file first lines))
  unfolding append_examples read_header_only
  append_unreadable contract version generation names created_at batch file first lines stamped
        broken writes header made fits =
      rw (stamped, ap (λ fails. read_header_only c fails (some file)) broken, made, header, writes)
        (ap (λ cut. put_back cut (length lines) true generation)
            (retain_fitting faults.evict_fails (clean_file first lines) fits)
          ∙ ap (λ n. (kept_in n 0 true generation, some (clean_file first lines)))
              (length-example_lines c batch lines made))

  agreeing : (names : List String) → (not (is_nil names) && not (names == names)) ≡ false
  agreeing [] = refl
  agreeing (name ∷ names) = ap not ((list_eq.beq_iff (name ∷ names) (name ∷ names)).1 refl)

  never_torn : {A : Type 0} (more : List A) → (is_nil more && false) ≡ false
  never_torn [] = refl
  never_torn (x ∷ more) = refl

  -- The piece that an append onto a torn file makes, and the file after it.
  abbrev torn_file : Text → List Text → ℕ → Text → RetainedFile
  torn_file first lines b torn = record { lines = first ∷ lines; tail = b ∷ torn }

  abbrev glued_file : Text → List Text → ℕ → Text → Text → List Text → RetainedFile
  glued_file first lines b torn line more = record {
    lines = (first ∷ lines) ++ (((b ∷ torn) ++ line) ∷ more);
    tail = [];
  }

  glued-read :
      (h : RetainedHeader) (xs batch : List RetainedExample) (first : Text) (lines : List Text)
      (bad : Text) (more : List Text)
      → IsFaithfulJson c
      → IsHeader h
      → header_line c h ≡ some first
      → All IsTrainable xs
      → example_lines c xs ≡ some lines
      → All IsTrainable batch
      → example_lines c batch ≡ some more
      → c.is_blank bad ≡ false
      → parse_example c bad ≡ ok none
      → read_retained c false (some (clean_file first (lines ++ (bad ∷ more))))
        ≡ read_set h
            (record { examples = xs ++ batch; skipped_lines = 1; truncated_final_line = false })
  unfolding read_retained read_file from_first read_examples
  glued-read h xs batch first lines bad more faithful is_header header trains e trained f shown
        unusable =
      let (dark, white) = not_blank-header_line c h first faithful header in
      rw
        (
          white,
          dark,
          parse_header-header_line c h first faithful is_header header,
          read_examples-append c faithful xs lines (bad ∷ more) trains e,
          shown,
          unusable,
          read_examples-example_lines c batch more faithful trained f,
          never_torn more,
        )
        refl

  -- An append onto a file that ends in a torn piece goes on in that piece: when the two together
  -- are no usable line and the file stays within the bound, then the append reports the whole batch
  -- as written, but the next read has the earlier examples and the batch without its first example.
  pub append_after_torn :
      (contract : Option FeatureContract) (generation : String) (created_at : ℤ)
      (h : RetainedHeader) (xs batch : List RetainedExample) (ex : RetainedExample)
      (first line torn : Text) (b : ℕ) (lines more : List Text)
      → let after = glued_file first lines b torn line more in
        IsFaithfulJson c
        → stamp_of contract ≡ some (h.contract_version, h.names)
        → faults.read_fails ≡ false
        → faults.append_fails ≡ none
        → IsHeader h
        → header_line c h ≡ some first
        → All IsTrainable xs
        → example_lines c xs ≡ some lines
        → All IsTrainable batch
        → example_line c ex ≡ some line
        → example_lines c batch ≡ some more
        → c.is_blank ((b ∷ torn) ++ line) ≡ false
        → parse_example c ((b ∷ torn) ++ line) ≡ ok none
        → st_size after ≤ max_bytes
        → (append_examples c faults max_bytes contract generation created_at
              (ex ∷ batch)
              (some (torn_file first lines b torn))
            ≡ (kept_in (suc (length batch)) 0 false h.generation, some after))
          × (read_retained c false (some after)
              ≡ read_set h (record {
                examples = xs ++ batch;
                skipped_lines = 1;
                truncated_final_line = false;
              }))
  unfolding append_examples read_header_only from_first glue
  append_after_torn contract generation created_at h xs batch ex first line torn b lines more
        faithful stamped reads whole is_header header trains e trained d f shown unusable fits =
      let (dark, white) = not_blank-header_line c h first faithful header in
      (
        rw
            (
              stamped,
              ap (λ fails. read_header_only c fails (some (torn_file first lines b torn))) reads,
              dark,
              parse_header-header_line c h first faithful is_header header,
              (string_eq.beq_iff h.contract_version h.contract_version).1 refl,
              agreeing h.names,
              d,
              f,
            )
            (ap
                (λ broken.
                  torn_or c faults max_bytes broken (line ∷ more) (torn_file first lines b torn)
                    h.generation)
                whole
              ∙ ap (λ cut. put_back cut (suc (length more)) false h.generation)
                  (retain_fitting faults.evict_fails (glued_file first lines b torn line more) fits)
              ∙ ap
                  (λ n. (
                    kept_in (suc n) 0 false h.generation,
                    some (glued_file first lines b torn line more),
                  ))
                  (length-example_lines c batch more f)),
        glued-read h xs batch first lines ((b ∷ torn) ++ line) more faithful is_header header trains
            e trained f shown unusable,
      )
