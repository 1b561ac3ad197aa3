-- ===== src/Retained/Reads.antt =====
-- What is read of a retention file of modelstore/registry/retained.py after an append.
use kenaz_ml.Prelude.{
  Text, ◌<◌, ℕ, String, Bool, false, Option, some, List, [], ◌++◌, ◌≡◌, sym, ap, ◌∙◌, ◌⊎◌, subst,
  All, length,
}
use kenaz_ml.Registry.Json.{ℤ}
use kenaz_ml.Registry.Manifest.{FeatureContract}
use kenaz_ml.Retained.Outcome.{AppendOutcome, IsAppended, Stands, header_after, none_stands}
use kenaz_ml.Retained.{header_line, RetainedExample, RetainedHeader, JsonLines, IsFaithfulJson}
use kenaz_ml.Retained.File.{OnDisk, read_retained, examples_in, header_in}
use kenaz_ml.Retained.Write.{
  example_lines, st_size, Faults, kept_in, stamp_of, fresh_header, append_examples,
}
use kenaz_ml.Retained.Lines.{IsTrainable}
use kenaz_ml.Retained.Held.{clean_file, read-IsHeld}
use kenaz_ml.Retained.Appends.{append-AppendOutcome}

module _ (c : JsonLines) (faults : Faults) (max_bytes : ℕ) where
  read-AppendOutcome :
      (h : RetainedHeader) (all : List RetainedExample) (after : OnDisk) (evicted : ℕ)
      → IsFaithfulJson c
      → IsAppended c faults max_bytes h all after evicted
      → let read = read_retained c false after in
        (header_in read ≡ some h)
        × ((older : List RetainedExample) × (all ≡ older ++ examples_in read)
            × (length older ≡ evicted))
  read-AppendOutcome h all after evicted faithful kept =
      let same =
        ap (read_retained c false) kept.stands
        ∙ read-IsHeld c kept.file h kept.kept faithful kept.held in
      (
        ap header_in same,
        (
          kept.older,
          kept.split ∙ ap (λ read. kept.older ++ examples_in read) (sym same),
          kept.count,
        ),
      )

  -- The examples that went, and a file of all examples that was over the bound where some went.
  abbrev pub IsOver : RetainedHeader → List RetainedExample → List RetainedExample → Type 0
  IsOver h all older =
      (older ≡ [])
      ⊎ ((first : Text) × (lines : List Text) × (header_line c h ≡ some first)
          × (example_lines c all ≡ some lines)
          × (max_bytes < st_size (clean_file first lines)))

  pub read-IsOver :
      (h : RetainedHeader) (all : List RetainedExample) (after : OnDisk) (evicted : ℕ)
      → IsFaithfulJson c
      → IsAppended c faults max_bytes h all after evicted
      → let read = read_retained c false after in
        (header_in read ≡ some h)
        × ((older : List RetainedExample) × (all ≡ older ++ examples_in read) × IsOver h all older)
  read-IsOver h all after evicted faithful kept =
      let same =
        ap (read_retained c false) kept.stands
        ∙ read-IsHeld c kept.file h kept.kept faithful kept.held in
      (
        ap header_in same,
        (
          kept.older,
          kept.split ∙ ap (λ read. kept.older ++ examples_in read) (sym same),
          kept.over,
        ),
      )

  -- What an append that keeps the batch has left.
  pub append-IsAppended :
      (contract : Option FeatureContract) (version generation : String) (names : List String)
      (created_at : ℤ) (old : Option RetainedHeader) (xs batch : List RetainedExample)
      (disk after : OnDisk) (n evicted : ℕ) (fresh : Bool) (kept_generation : String)
      → IsFaithfulJson c
      → stamp_of contract ≡ some (version, names)
      → faults.read_fails ≡ false
      → Stands c disk old xs
      → All IsTrainable batch
      → append_examples c faults max_bytes contract generation created_at batch disk
        ≡ (kept_in n evicted fresh kept_generation, after)
      → IsAppended c faults max_bytes
          (header_after old (fresh_header version generation names created_at))
          (xs ++ batch)
          after
          evicted
  append-IsAppended contract version generation names created_at old xs batch disk after n evicted
        fresh kept_generation faithful stamped reads stands trains e =
      let h = header_after old (fresh_header version generation names created_at) in
      let kept =
        subst
          (AppendOutcome c faults max_bytes (length batch) (none_stands old) h (xs ++ batch) disk) e
          (append-AppendOutcome c faults max_bytes contract version generation names created_at old
            xs batch disk faithful stamped reads stands trains) in
      kept.3

  -- After an append of examples with finite numbers that keeps the batch, on a missing file or one
  -- that holds a header and examples, under a contract with a version and where the header can be
  -- read, the next read returns the header that stood, or a fresh one of the contract, and the
  -- earlier examples and the batch in their order without as many of the oldest as the append
  -- reports evicted.
  pub append-read :
      (contract : Option FeatureContract) (version generation : String) (names : List String)
      (created_at : ℤ) (old : Option RetainedHeader) (xs batch : List RetainedExample)
      (disk after : OnDisk) (n evicted : ℕ) (fresh : Bool) (kept_generation : String)
      → IsFaithfulJson c
      → stamp_of contract ≡ some (version, names)
      → faults.read_fails ≡ false
      → Stands c disk old xs
      → All IsTrainable batch
      → append_examples c faults max_bytes contract generation created_at batch disk
        ≡ (kept_in n evicted fresh kept_generation, after)
      → let read = read_retained c false after in
        (header_in read
          ≡ some (header_after old (fresh_header version generation names created_at)))
        × ((older : List RetainedExample) × (xs ++ batch ≡ older ++ examples_in read)
            × (length older ≡ evicted))
  append-read contract version generation names created_at old xs batch disk after n evicted fresh
        kept_generation faithful stamped reads stands trains e =
      read-AppendOutcome (header_after old (fresh_header version generation names created_at))
        (xs ++ batch) after evicted faithful
        (append-IsAppended contract version generation names created_at old xs batch disk after n
          evicted fresh kept_generation faithful stamped reads stands trains e)
