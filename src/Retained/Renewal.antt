-- ===== src/Retained/Renewal.antt =====
-- Resetting a retention file of modelstore/registry/retained.py, as a read sees it.
use kenaz_ml.Prelude.{
  ◌⊎◌, inl, inr, Option-cases, Bool-cases, ◌&&◌, not, String, Bool, true, false, Option, none, some,
  List, [], ◌≡◌, refl, sym, ap, ◌∙◌, subst, Text, All, arith,
}
use kenaz_ml.Registry.Json.{ℤ, unknown}
use kenaz_ml.Registry.Manifest.{FeatureContract}
use kenaz_ml.Shadow.{minus}
use kenaz_ml.Retained.Outcome.{Stands, stored}
use kenaz_ml.Retained.{RetainedExample, RetainedHeader, JsonLines, IsFaithfulJson, header_line}
use kenaz_ml.Retained.File.{
  RetainedFile, OnDisk, read_retained, read_header_only, examples_in, header_in,
}
use kenaz_ml.Retained.Write.{Faults, stamp_of, example_lines, fresh_header}
use kenaz_ml.Retained.Reset.{
  next_generation, delete_retained, on_disk, succ, counted_on, file_of, replacing, ResetResult,
  known_generation, reset_under, reset_retained,
}
use kenaz_ml.Retained.Lines.{IsTrainable, IsHeader, some_injective}
use kenaz_ml.Retained.Held.{IsHeld, read-IsHeld}
use kenaz_ml.Retained.Appends.{header-Stands}

module _ (c : JsonLines) (faults : Faults) where
  -- A file that was made of a header and examples holds them.
  pub file_of-IsHeld :
      (h : RetainedHeader) (xs : List RetainedExample) (first : Option Text)
      (lines : Option (List Text)) (file : RetainedFile)
      → header_line c h ≡ first
      → example_lines c xs ≡ lines
      → IsHeader h
      → All IsTrainable xs
      → file_of first lines ≡ some file
      → IsHeld c file h xs
  file_of-IsHeld h xs none lines file header e is_header trains made = absurd (ground (arith, made))
  file_of-IsHeld h xs (some first) none file header e is_header trains made =
      absurd (ground (arith, made))
  file_of-IsHeld h xs (some first) (some lines) file header e is_header trains made = record {
    first = first;
    rest = lines;
    whole = sym (some_injective made);
    header = header;
    examples = e;
    is_header = is_header;
    trainable = trains;
  }

  -- A replacement that returned has put the file there.
  pub replacing-done {ℓ} :
      {A : Type ℓ} (fails : Bool) (result told : A) (made : Option RetainedFile)
      (disk after : OnDisk)
      → replacing fails result made disk ≡ (some told, after)
      → (file : RetainedFile) × (made ≡ some file) × (after ≡ some file) × (result ≡ told)
  replacing-done fails result told none disk after e = absurd (ground (arith, e))
  replacing-done true result told (some file) disk after e = absurd (ground (arith, e))
  replacing-done {A = A} false result told (some file) disk after e = (
    file,
    refl,
    sym (ap (λ (p : Option A × OnDisk). p.1) e),
    some_injective (ap (λ (p : Option A × OnDisk). p.0) e),
  )

  reset_under-read :
      (version : String) (names : List String) (created_at : ℤ) (result r : ResetResult)
      (disk after : OnDisk)
      → IsFaithfulJson c
      → reset_under c faults (some (version, names)) created_at result disk ≡ (some r, after)
      → let h = fresh_header version result.next_generation names created_at in
        (examples_in (read_retained c false after) ≡ [])
        × (header_in (read_retained c false after) ≡ some h)
        × (record result { header_written = true } ≡ r)
  unfolding unknown
  reset_under-read version names created_at result r disk after faithful e =
      let h = fresh_header version result.next_generation names created_at in
      let (file, made, there, told) = replacing-done faults.write_fails _ r _ disk after e in
      let held =
        file_of-IsHeld h [] (header_line c h) (some []) file refl refl (refl, refl) tt made in
      let read = ap (read_retained c false) there ∙ read-IsHeld c file h [] faithful held in
      (ap examples_in read, ap header_in read, told)

  reset_under-Stands :
      (version : String) (names : List String) (created_at : ℤ) (result r : ResetResult)
      (disk after : OnDisk)
      → reset_under c faults (some (version, names)) created_at result disk ≡ (some r, after)
      → Stands c after (some (fresh_header version r.next_generation names created_at)) []
  unfolding unknown
  reset_under-Stands version names created_at result r disk after e =
      let h = fresh_header version result.next_generation names created_at in
      let (file, made, there, told) = replacing-done faults.write_fails _ r _ disk after e in
      let held =
        file_of-IsHeld h [] (header_line c h) (some []) file refl refl (refl, refl) tt made in
      subst
        (λ (q : ResetResult).
          Stands c after (some (fresh_header version q.next_generation names created_at)) [])
        told (subst (λ disk. Stands c disk (some h) []) (sym there) (stored held))

  -- A reset that returns leaves a header of the contract, and no example, whatever was there.
  pub reset-Stands :
      (contract : Option FeatureContract) (version : String) (names : List String) (created_at : ℤ)
      (disk after : OnDisk) (r : ResetResult)
      → stamp_of contract ≡ some (version, names)
      → reset_retained c faults contract created_at disk ≡ (some r, after)
      → Stands c after (some (fresh_header version r.next_generation names created_at)) []
  unfolding reset_retained
  reset-Stands contract version names created_at disk after r stamped e =
      reset_under-Stands version names created_at
        (record {
          previous_generation = known_generation (read_header_only c faults.read_fails disk);
          next_generation =
              next_generation c (known_generation (read_header_only c faults.read_fails disk));
          deleted = (delete_retained faults.unlink_fails disk).0;
          header_written = false;
        })
        r (delete_retained faults.unlink_fails disk).1 after (rw stamped at e)

  -- The generation after another: the text of the integer one above it, or "1" where none stood or
  -- its text is no integer.
  abbrev pub Follows : Option String → String → Type 0
  Follows none next = next ≡ "1"
  Follows (some text) next =
      ((c.int_of_text text ≡ none) × (next ≡ "1"))
      ⊎ ((m : ℤ) × (c.int_of_text text ≡ some (minus m 1)) × (next ≡ c.text_of_int m))

  minus-succ : (n : ℤ) → minus (succ n) 1 ≡ n
  minus-succ n = ground arith

  next_generation-Follows : (old : Option String) → Follows old (next_generation c old)
  unfolding next_generation
  next_generation-Follows none = refl
  next_generation-Follows (some text) = elim (Option-cases (c.int_of_text text)) [
    | inl no_int ↦ inl (no_int, ap (counted_on c.text_of_int) no_int)
    | inr (n, e) ↦ inr (succ n, e ∙ ap some (sym (minus-succ n)), ap (counted_on c.text_of_int) e)
  ]

  deletes :
      (disk : OnDisk)
      → (delete_retained faults.unlink_fails disk).0 ≡ (on_disk disk && not faults.unlink_fails)
  unfolding delete_retained
  deletes none = refl
  deletes (some file) = elim (Bool-cases faults.unlink_fails) [
    | inl e ↦ rw e refl
    | inr e ↦ rw e refl
  ]

  -- A reset under a contract with a version, of a missing file or one that holds a header and
  -- examples, where the header can be read: if it returns, then the next read finds no examples,
  -- under a header of the contract with the generation that the result names. That is the text of
  -- the integer one above the earlier generation, and "1" where none stood or its text is no
  -- integer. The result says that a file was deleted exactly when there was one and it could be
  -- removed.
  pub reset-read :
      (contract : Option FeatureContract) (version : String) (names : List String) (created_at : ℤ)
      (old : Option RetainedHeader) (xs : List RetainedExample) (disk after : OnDisk)
      (r : ResetResult)
      → IsFaithfulJson c
      → stamp_of contract ≡ some (version, names)
      → faults.read_fails ≡ false
      → Stands c disk old xs
      → reset_retained c faults contract created_at disk ≡ (some r, after)
      → let read = read_retained c false after in
        (examples_in read ≡ [])
        × (header_in read ≡ some (fresh_header version r.next_generation names created_at))
        × Follows (known_generation old) r.next_generation
        × (r.previous_generation ≡ known_generation old)
        × (r.deleted ≡ (on_disk disk && not faults.unlink_fails))
        × (r.header_written ≡ true)
  unfolding reset_retained
  reset-read contract version names created_at old xs disk after r faithful stamped reads stands e =
      let header =
        ap (λ fails. read_header_only c fails disk) reads
        ∙ header-Stands c faults 0 disk old xs faithful stands in
      let (empty, written, told) =
        reset_under-read version names created_at
          (record {
            previous_generation = known_generation old;
            next_generation = next_generation c (known_generation old);
            deleted = (delete_retained faults.unlink_fails disk).0;
            header_written = false;
          })
          r (delete_retained faults.unlink_fails disk).1 after faithful
          (rw (stamped, header) at e) in
      let next = ap (λ (r : ResetResult). r.next_generation) told in
      (
        empty,
        written ∙ ap (λ next. some (fresh_header version next names created_at)) next,
        subst (Follows (known_generation old)) next
            (next_generation-Follows (known_generation old)),
        sym (ap (λ (r : ResetResult). r.previous_generation) told),
        sym (ap (λ (r : ResetResult). r.deleted) told) ∙ deletes disk,
        sym (ap (λ (r : ResetResult). r.header_written) told),
      )
