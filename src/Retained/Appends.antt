-- ===== src/Retained/Appends.antt =====
-- `append_examples` of modelstore/registry/retained.py on every branch: what it leaves of the file,
-- and what it says.
use kenaz_ml.Prelude.{
  ℕ, String, string_eq, ◌==◌, list_eq, false, ◌&&◌, not, Option, none, some, List, [], ◌∷◌, ◌++◌,
  ◌≡◌, refl, ap, ◌∙◌, inl, inr, Text, All, length, Bool-cases,
}
use kenaz_ml.Registry.Json.{ℤ, unknown}
use kenaz_ml.Registry.Manifest.{FeatureContract}
use kenaz_ml.Retained.{RetainedExample, RetainedHeader, JsonLines, IsFaithfulJson}
use kenaz_ml.Retained.File.{RetainedFile, OnDisk, is_nil, read_header_only}
use kenaz_ml.Retained.Write.{
  Faults, stamp_of, example_lines, glue, fresh_header, torn_or, write_more, under, stamped_append,
  append_examples,
}
use kenaz_ml.Retained.Lines.{IsTrainable}
use kenaz_ml.Retained.Held.{IsHeld, header-IsHeld}
use kenaz_ml.Retained.Outcome.{
  Stands, nothing, stored, header_after, none_stands, AppendOutcome, write_fresh-AppendOutcome,
  glued-AppendOutcome,
}

module _ (c : JsonLines) (faults : Faults) (max_bytes : ℕ) where
  torn_or-AppendOutcome :
      (torn : Option RetainedFile) (h : RetainedHeader) (file : RetainedFile)
      (xs batch : List RetainedExample) (lines : List Text)
      → faults.append_fails ≡ torn
      → IsHeld c file h xs
      → All IsTrainable batch
      → example_lines c batch ≡ some lines
      → AppendOutcome c faults max_bytes
          (length batch)
          false
          h
          (xs ++ batch)
          (some file)
          (torn_or c faults max_bytes torn lines file h.generation)
  torn_or-AppendOutcome none h file xs batch lines broken held trains e =
      glued-AppendOutcome c faults max_bytes h file xs batch lines held trains e
  torn_or-AppendOutcome (some torn) h file xs batch lines broken held trains e =
      inr (torn, broken, refl)

  write_more-AppendOutcome :
      (h : RetainedHeader) (file : RetainedFile) (xs batch : List RetainedExample)
      (lines : Option (List Text))
      → IsHeld c file h xs
      → All IsTrainable batch
      → example_lines c batch ≡ lines
      → AppendOutcome c faults max_bytes
          (length batch)
          false
          h
          (xs ++ batch)
          (some file)
          (write_more c faults max_bytes h lines (some file))
  unfolding glue
  write_more-AppendOutcome h file xs batch none held trains e = refl
  write_more-AppendOutcome h file xs batch (some []) held trains e =
      glued-AppendOutcome c faults max_bytes h file xs batch [] held trains e
  write_more-AppendOutcome h file xs batch (some (line ∷ lines)) held trains e =
      torn_or-AppendOutcome faults.append_fails h file xs batch (line ∷ lines) refl held trains e

  under-AppendOutcome :
      (version generation : String) (names : List String) (created_at : ℤ)
      (old : Option RetainedHeader) (xs batch : List RetainedExample) (disk : OnDisk)
      → Stands c disk old xs
      → All IsTrainable batch
      → AppendOutcome c faults max_bytes
          (length batch)
          (none_stands old)
          (header_after old (fresh_header version generation names created_at))
          (xs ++ batch)
          disk
          (under c faults max_bytes version names generation created_at batch disk old)
  unfolding unknown
  under-AppendOutcome version generation names created_at none xs batch disk nothing trains =
      write_fresh-AppendOutcome c faults max_bytes
        (fresh_header version generation names created_at) batch _ disk (refl, refl) trains refl
  under-AppendOutcome version generation names created_at (some h) xs batch none x trains =
      elim x [ ]
  under-AppendOutcome version generation names created_at (some h) xs batch (some file)
        (stored held) trains =
      elim (Bool-cases (not (h.contract_version == version))) [
        | inl other ↦ rw other refl
        | inr same ↦ elim (Bool-cases (not (is_nil h.names) && not (h.names == names))) [
          | inl renamed ↦ rw (same, renamed) refl
          | inr agree ↦
              rw (same, agree) (write_more-AppendOutcome h file xs batch _ held trains refl)
        ]
      ]

  pub header-Stands :
      (disk : OnDisk) (old : Option RetainedHeader) (xs : List RetainedExample)
      → IsFaithfulJson c
      → Stands c disk old xs
      → read_header_only c false disk ≡ old
  unfolding read_header_only
  header-Stands none none [] faithful nothing = refl
  header-Stands none none (x ∷ xs) faithful s = elim s [ ]
  header-Stands none (some h) xs faithful s = elim s [ ]
  header-Stands (some file) none xs faithful s = elim s [ ]
  header-Stands (some file) (some h) xs faithful (stored held) =
      header-IsHeld c file h xs faithful held

  stamped-AppendOutcome :
      (stamp : Option (String × List String)) (version generation : String) (names : List String)
      (created_at : ℤ) (old : Option RetainedHeader) (xs batch : List RetainedExample)
      (disk : OnDisk)
      → stamp ≡ some (version, names)
      → read_header_only c faults.read_fails disk ≡ old
      → Stands c disk old xs
      → All IsTrainable batch
      → AppendOutcome c faults max_bytes
          (length batch)
          (none_stands old)
          (header_after old (fresh_header version generation names created_at))
          (xs ++ batch)
          disk
          (stamped_append c faults max_bytes stamp generation created_at batch disk)
  stamped-AppendOutcome stamp version generation names created_at old xs batch disk stamped read
        stands trains =
      rw (stamped, read)
        (under-AppendOutcome version generation names created_at old xs batch disk stands trains)

  -- On a missing file, or one that holds a header and examples, an append of examples with finite
  -- numbers, under a contract with a version and where the header can be read, ends in one of three
  -- ways. It keeps the batch: the file then holds the header that stood, or a fresh one of the
  -- contract and the generation given, with the newest of the earlier examples and the batch in
  -- their order, as many gone as it reports. Or it is refused, and nothing changes. Or it ends by
  -- an exception, and only an append that breaks off changes the file.
  pub append-AppendOutcome :
      (contract : Option FeatureContract) (version generation : String) (names : List String)
      (created_at : ℤ) (old : Option RetainedHeader) (xs batch : List RetainedExample)
      (disk : OnDisk)
      → IsFaithfulJson c
      → stamp_of contract ≡ some (version, names)
      → faults.read_fails ≡ false
      → Stands c disk old xs
      → All IsTrainable batch
      → AppendOutcome c faults max_bytes
          (length batch)
          (none_stands old)
          (header_after old (fresh_header version generation names created_at))
          (xs ++ batch)
          disk
          (append_examples c faults max_bytes contract generation created_at batch disk)
  unfolding append_examples
  append-AppendOutcome contract version generation names created_at old xs batch disk faithful
        stamped reads stands trains =
      stamped-AppendOutcome (stamp_of contract) version generation names created_at old xs batch
        disk stamped
        (ap (λ fails. read_header_only c fails disk) reads
          ∙ header-Stands disk old xs faithful stands)
        stands trains
