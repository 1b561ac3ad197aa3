-- ===== src/Retained/Outcome.antt =====
-- What an append of modelstore/registry/retained.py ends with, and the two writes that keep a
-- batch.
use kenaz_ml.Prelude.{
  ℕ, ◌+◌, ◌≤◌, ◌<◌, String, string_eq, list_eq, Bool, true, false, Option, none, some, List, [],
  ◌∷◌, ◌++◌, ◌≡◌, refl, sym, ap, ◌∙◌, ◌⊎◌, inl, inr, subst, Text, All, length, Bool-cases,
  if◌then◌else◌,
}
use mathlib.Core.List.{append-nil}
use kenaz_ml.Retained.Cut.{st_size-clean_file, retain_within-IsCut}
use kenaz_ml.Retained.{RetainedExample, RetainedHeader, JsonLines, header_line}
use kenaz_ml.Retained.File.{RetainedFile, OnDisk}
use kenaz_ml.Retained.Write.{
  Faults, AppendResult, kept_in, refused_append, append_ends, example_lines, glue, st_size,
  retain_within, within_bound, written_anew, write_fresh,
}
use kenaz_ml.Retained.Lines.{
  IsTrainable, IsHeader, example_lines-append, length-example_lines, some_injective,
}
use kenaz_ml.Retained.Held.{IsHeld, clean_file}

-- What stands on the disk: no file, or one that holds a header and examples.
pub data Stands (c : JsonLines)
    : OnDisk → Option RetainedHeader → List RetainedExample → Type 0 where
  nothing : Stands c none none []
  stored :
      {file : RetainedFile} {h : RetainedHeader} {xs : List RetainedExample}
      → IsHeld c file h xs
      → Stands c (some file) (some h) xs

-- The header that an append leaves: the one that stands, or a fresh one.
abbrev pub header_after : Option RetainedHeader → RetainedHeader → RetainedHeader
header_after none fresh = fresh
header_after (some h) fresh = h

abbrev pub none_stands : Option RetainedHeader → Bool
none_stands none = true
none_stands (some h) = false

All-both :
    (xs ys : List RetainedExample)
    → All IsTrainable xs
    → All IsTrainable ys
    → All IsTrainable (xs ++ ys)
All-both [] ys h k = k
All-both (ex ∷ xs) ys (t, h) k = (t, All-both xs ys h k)

module _ (c : JsonLines) (faults : Faults) (max_bytes : ℕ) where
  -- The file after an append: the header, and the newest of the examples: all of them, unless a
  -- file of them all is over the bound. The file is within the bound if its header is, and the
  -- rewrite of an eviction goes through.
  pub record IsAppended (h : RetainedHeader) (all : List RetainedExample) (after : OnDisk)
      (evicted : ℕ) : Type 0 where
    pub older : List RetainedExample
    pub kept : List RetainedExample
    pub split : all ≡ older ++ kept
    pub count : length older ≡ evicted
    pub file : RetainedFile
    pub stands : after ≡ some file
    pub held : IsHeld c file h kept
    pub over :
        (older ≡ [])
        ⊎ ((first : Text) × (lines : List Text) × (header_line c h ≡ some first)
            × (example_lines c all ≡ some lines)
            × (max_bytes < st_size (clean_file first lines)))
    pub within :
        (line : Text)
        → header_line c h ≡ some line
        → length line + 1 ≤ max_bytes
        → 0 < max_bytes
        → faults.evict_fails ≡ false
        → st_size file ≤ max_bytes

  -- What an append of `n` examples ends with: the batch is kept under the header, or nothing
  -- changes and the call is refused, or it ends by an exception, and then only a broken append
  -- changes the file.
  abbrev pub AppendOutcome :
      ℕ → Bool → RetainedHeader → List RetainedExample → OnDisk → AppendResult × OnDisk → Type 0
  AppendOutcome n fresh h all disk (kept_in m evicted is_fresh generation, after) =
      (m ≡ n) × (is_fresh ≡ fresh) × (generation ≡ h.generation) × IsAppended h all after evicted
  AppendOutcome n fresh h all disk (refused_append reason generation, after) = after ≡ disk
  AppendOutcome n fresh h all disk (append_ends, after) =
      (after ≡ disk)
      ⊎ ((torn : RetainedFile) × (faults.append_fails ≡ some torn) × (after ≡ some torn))

  pub within_bound-AppendOutcome :
      (file : RetainedFile) (n : ℕ) (fresh : Bool) (h : RetainedHeader) (all : List RetainedExample)
      (disk : OnDisk)
      → IsHeld c file h all
      → AppendOutcome n fresh h all disk (within_bound c faults max_bytes file n fresh h.generation)
  within_bound-AppendOutcome file n fresh h all disk held =
      let cut = retain_within-IsCut c faults.evict_fails max_bytes h all file held in
      (
        refl,
        refl,
        refl,
        record {
          older = cut.older;
          kept = cut.kept;
          split = cut.split;
          count = cut.count;
          file = (retain_within faults.evict_fails max_bytes file).0;
          stands = refl;
          held = cut.held;
          over = elim cut.over [
            | inl all_kept ↦ inl all_kept
            | inr (lines, made, large) ↦ inr (
              held.first,
              lines,
              held.header,
              made,
              subst (λ size. max_bytes < size) (sym (st_size-clean_file held.first lines)) large,
            )
          ];
          within = λ line e room positive works. cut.within positive works (
              subst (λ text. length text + 1 ≤ max_bytes) (some_injective (sym e ∙ held.header))
                room);
        },
      )

  works_anew :
      (first : Text) (lines : List Text) (generation : String) (disk : OnDisk)
      → faults.write_fails ≡ false
      → written_anew c faults max_bytes (some first) lines generation disk
        ≡ within_bound c faults max_bytes (clean_file first lines) (length lines) true generation
  works_anew first lines generation disk works =
      ap
        (λ fails.
          if◌then◌else◌ {A = AppendResult × OnDisk} fails (append_ends, disk)
            (within_bound c faults max_bytes (clean_file first lines) (length lines) true
              generation))
        works

  written_anew-AppendOutcome :
      (h : RetainedHeader) (batch : List RetainedExample) (first : Option Text) (lines : List Text)
      (disk : OnDisk)
      → IsHeader h
      → All IsTrainable batch
      → header_line c h ≡ first
      → example_lines c batch ≡ some lines
      → AppendOutcome
          (length batch)
          true
          h
          batch
          disk
          (written_anew c faults max_bytes first lines h.generation disk)
  written_anew-AppendOutcome h batch none lines disk is_header trains header e = inl refl
  written_anew-AppendOutcome h batch (some first) lines disk is_header trains header e =
      elim (Bool-cases faults.write_fails) [
        | inl broken ↦ rw broken (inl refl)
        | inr works ↦
            subst (AppendOutcome (length batch) true h batch disk)
              (sym (
                works_anew first lines h.generation disk works
                ∙ ap
                    (λ n.
                      within_bound c faults max_bytes (clean_file first lines) n true h.generation)
                    (length-example_lines c batch lines e)))
              (within_bound-AppendOutcome (clean_file first lines) (length batch) true h batch disk
                record {
                  first = first;
                  rest = lines;
                  whole = refl;
                  header = header;
                  examples = e;
                  is_header = is_header;
                  trainable = trains;
                })
      ]

  pub write_fresh-AppendOutcome :
      (h : RetainedHeader) (batch : List RetainedExample) (lines : Option (List Text))
      (disk : OnDisk)
      → IsHeader h
      → All IsTrainable batch
      → example_lines c batch ≡ lines
      → AppendOutcome (length batch) true h batch disk (write_fresh c faults max_bytes h lines disk)
  write_fresh-AppendOutcome h batch none disk is_header trains e = refl
  write_fresh-AppendOutcome h batch (some lines) disk is_header trains e =
      written_anew-AppendOutcome h batch (header_line c h) lines disk is_header trains refl e

  glue_lines :
      (first : Text) (rest lines : List Text)
      → glue lines (clean_file first rest) ≡ clean_file first (rest ++ lines)
  unfolding glue
  glue_lines first rest [] = ap (clean_file first) (sym (append-nil rest))
  glue_lines first rest (line ∷ lines) = refl

  glue-IsHeld :
      (h : RetainedHeader) (file : RetainedFile) (xs batch : List RetainedExample)
      (lines : List Text)
      → IsHeld c file h xs
      → All IsTrainable batch
      → example_lines c batch ≡ some lines
      → IsHeld c (glue lines file) h (xs ++ batch)
  glue-IsHeld h file xs batch lines held trains e = record {
    first = held.first;
    rest = held.rest ++ lines;
    whole = ap (glue lines) held.whole ∙ glue_lines held.first held.rest lines;
    header = held.header;
    examples = example_lines-append c xs batch held.rest lines held.examples e;
    is_header = held.is_header;
    trainable = All-both xs batch held.trainable trains;
  }

  pub glued-AppendOutcome :
      (h : RetainedHeader) (file : RetainedFile) (xs batch : List RetainedExample)
      (lines : List Text)
      → IsHeld c file h xs
      → All IsTrainable batch
      → example_lines c batch ≡ some lines
      → AppendOutcome
          (length batch)
          false
          h
          (xs ++ batch)
          (some file)
          (within_bound c faults max_bytes (glue lines file) (length lines) false h.generation)
  glued-AppendOutcome h file xs batch lines held trains e =
      rw (length-example_lines c batch lines e) (
        within_bound-AppendOutcome (glue lines file) (length batch) false h (xs ++ batch)
          (some file) (glue-IsHeld h file xs batch lines held trains e))
