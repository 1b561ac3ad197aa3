-- ===== src/Retained/Cut.antt =====
-- What an eviction of modelstore/registry/retained.py leaves of a file that holds a header and
-- examples.
use kenaz_ml.Prelude.{
  ℕ, ◌+◌, ◌-◌, ◌≤◌, ◌<◌, Bool, true, false, some, List, [], ◌∷◌, ◌++◌, ◌⊎◌, ◌≡◌, refl, sym, ap, ◌∙◌,
  subst, Text, All, arith, length, length-append, leb, nat_beq, Bool-cases, inl, inr, if◌then◌else◌,
}
use kenaz_ml.Retained.{RetainedExample, RetainedHeader, JsonLines, header_line}
use kenaz_ml.Retained.File.{RetainedFile}
use kenaz_ml.Retained.Write.{example_lines, size_of, st_size, evict_to, retain_within}
use kenaz_ml.Retained.Lines.{IsTrainable, IsHeader, example_lines-split}
use kenaz_ml.Retained.Held.{IsHeld, clean_file, kept_newest}

nil_of_length : (xs : List Text) → length xs ≡ 0 → xs ≡ []
nil_of_length [] e = refl
nil_of_length (x ∷ xs) e = absurd (omega (arith, e))

pub st_size-clean_file :
    (first : Text) (lines : List Text)
    → st_size (clean_file first lines) ≡ length first + 1 + size_of lines
unfolding size_of
st_size-clean_file first lines = omega arith

-- What an eviction leaves: a held file of the same header with the newest examples, as many gone as
-- it reports; and the file is within the bound if the header is and the rewrite goes through.
pub record IsCut (c : JsonLines) (fails : Bool) (max_bytes : ℕ) (first : Text) (h : RetainedHeader)
    (xs : List RetainedExample) (after : RetainedFile) (dropped : ℕ) : Type 0 where
  pub older : List RetainedExample
  pub kept : List RetainedExample
  pub split : xs ≡ older ++ kept
  pub count : length older ≡ dropped
  pub held : IsHeld c after h kept
  pub over :
      (older ≡ [])
      ⊎ ((lines : List Text) × (example_lines c xs ≡ some lines)
          × (max_bytes < length first + 1 + size_of lines))
  pub within :
      0 < max_bytes → fails ≡ false → length first + 1 ≤ max_bytes → st_size after ≤ max_bytes

module _ (c : JsonLines) (fails : Bool) (max_bytes : ℕ) (h : RetainedHeader) where
  All-append :
      (older kept : List RetainedExample) → All IsTrainable (older ++ kept) → All IsTrainable kept
  All-append [] kept all = all
  All-append (ex ∷ older) kept (trains, all) = All-append older kept all

  uncut :
      (first : Text) (xs : List RetainedExample) (file : RetainedFile)
      → IsHeld c file h xs
      → (0 < max_bytes → fails ≡ false → length first + 1 ≤ max_bytes → st_size file ≤ max_bytes)
      → IsCut c fails max_bytes first h xs file 0
  uncut first xs file held within = record {
    older = [];
    kept = xs;
    split = refl;
    count = refl;
    held = held;
    over = inl refl;
    within = within;
  }

  -- The rewrite goes through or fails.
  rewritten-IsCut :
      (b : Bool) (xs : List RetainedExample) (first : Text) (rest gone kept : List Text)
      → let file = clean_file first rest in
        b ≡ fails
        → IsHeld c file h xs
        → header_line c h ≡ some first
        → example_lines c xs ≡ some (gone ++ kept)
        → IsHeader h
        → All IsTrainable xs
        → length rest ≡ length gone + length kept
        → max_bytes < length first + 1 + size_of (gone ++ kept)
        → size_of kept ≤ max_bytes - (length first + 1)
        → let (after, dropped) =
            if◌then◌else◌ {A = RetainedFile × ℕ} b
              (file, 0)
              (clean_file first kept, length rest - length kept) in
          IsCut c fails max_bytes first h xs after dropped
  unfolding size_of
  rewritten-IsCut true xs first rest gone kept broken held header examples is_header trains count
        large fits =
      uncut first xs _ held (λ positive works. absurd (cc (broken, works)))
  rewritten-IsCut false xs first rest gone kept works held header examples is_header trains count
        large fits =
      let (older, ys, parts, counted, left) = example_lines-split c xs gone kept examples in
      record {
        older = older;
        kept = ys;
        split = parts;
        count = counted ∙ omega (arith, count);
        held = record {
          first = first;
          rest = kept;
          whole = refl;
          header = header;
          examples = left;
          is_header = is_header;
          trainable = All-append older ys (subst (All IsTrainable) parts trains);
        };
        over = inr (gone ++ kept, examples, large);
        within = λ positive works room. omega (arith, fits, room);
      }

  evict_to-IsCut :
      (xs : List RetainedExample) (first : Text) (rest gone kept : List Text)
      → let file = clean_file first rest in
        IsHeld c file h xs
        → header_line c h ≡ some first
        → example_lines c xs ≡ some rest
        → IsHeader h
        → All IsTrainable xs
        → rest ≡ gone ++ kept
        → max_bytes < length first + 1 + size_of rest
        → size_of kept ≤ max_bytes - (length first + 1)
        → let (after, dropped) = evict_to fails file first kept (length rest - length kept) in
          IsCut c fails max_bytes first h xs after dropped
  unfolding size_of
  evict_to-IsCut xs first rest gone kept held header examples is_header trains split large fits =
      let count = ap length split ∙ length-append gone kept in
      elim (Bool-cases (nat_beq (length rest - length kept) 0)) [
        | inl none_gone ↦
            let bare : gone ≡ [] = nil_of_length gone (ground (arith, none_gone, count)) in
            rw none_gone (
              uncut first xs _ held (λ positive works room.
                omega (arith, ap size_of split, ap (λ g. size_of (g ++ kept)) bare, fits, room)))
        | inr some_gone ↦ rw some_gone (
            rewritten-IsCut fails xs first rest gone kept refl held header
              (examples ∙ ap some split) is_header trains count
              (subst (λ lines. max_bytes < length first + 1 + size_of lines) split large) fits)
      ]

  lines-IsCut :
      (xs : List RetainedExample) (first : Text) (rest : List Text)
      → let file = clean_file first rest in
        header_line c h ≡ some first
        → example_lines c xs ≡ some rest
        → IsHeader h
        → All IsTrainable xs
        → let (after, dropped) = retain_within fails max_bytes file in
          IsCut c fails max_bytes first h xs after dropped
  unfolding retain_within
  lines-IsCut xs first rest header examples is_header trains =
      let held : IsHeld c (clean_file first rest) h xs = record {
        first = first;
        rest = rest;
        whole = refl;
        header = header;
        examples = examples;
        is_header = is_header;
        trainable = trains;
      } in
      let (gone, split, fits) = kept_newest (max_bytes - (length first + 1)) rest in
      elim (Bool-cases (nat_beq max_bytes 0)) [
        | inl unbounded ↦
            rw unbounded
              (uncut first xs _ held (λ positive. absurd (ground (arith, unbounded, positive))))
        | inr some_bound ↦ elim (Bool-cases (leb (st_size (clean_file first rest)) max_bytes)) [
          | inl small ↦
              rw (some_bound, small)
                (uncut first xs _ held (λ positive works room. ground (arith, small)))
          | inr large ↦
              rw (some_bound, large)
                (evict_to-IsCut xs first rest gone _ held header examples is_header trains split
                  (ground (arith, large, st_size-clean_file first rest)) fits)
        ]
      ]

  pub retain_within-IsCut :
      (xs : List RetainedExample) (file : RetainedFile) (held : IsHeld c file h xs)
      → let (after, dropped) = retain_within fails max_bytes file in
        IsCut c fails max_bytes held.first h xs after dropped
  retain_within-IsCut xs file held =
      subst
        (λ file.
          let (after, dropped) = retain_within fails max_bytes file in
          IsCut c fails max_bytes held.first h xs after dropped)
        (sym held.whole)
        (lines-IsCut xs held.first held.rest held.header held.examples held.is_header
          held.trainable)
