-- ===== src/Retained/Expiry.antt =====
-- Expiring the examples of a retention file of modelstore/registry/retained.py, as a read sees it.
use kenaz_ml.Prelude.{
  ℕ, ◌+◌, ◌-◌, ◌≤◌, Bool, false, Option, some, List, [], ◌∷◌, ◌≡◌, refl, sym, ap, ◌∙◌, inl, inr,
  All, arith, length, filter, length-filter-le, Bool-cases, nat_beq, if◌then◌else◌,
}
use kenaz_ml.Registry.Json.{ℤ}
use kenaz_ml.Retained.{RetainedExample, RetainedHeader, JsonLines, IsFaithfulJson, header_line}
use kenaz_ml.Retained.File.{RetainedFile, OnDisk, read_retained, examples_in, header_in}
use kenaz_ml.Retained.Write.{Faults, example_lines}
use kenaz_ml.Retained.Reset.{is_young, expire_of, expire_examples}
use kenaz_ml.Retained.Lines.{IsTrainable, some_injective}
use kenaz_ml.Retained.Held.{IsHeld, read-IsHeld}
use kenaz_ml.Retained.Renewal.{file_of-IsHeld, replacing-done}

module _ (c : JsonLines) (faults : Faults) where
  filter_all :
      (p : RetainedExample → Bool) (xs : List RetainedExample)
      → length xs ≤ length (filter p xs)
      → filter p xs ≡ xs
  filter_all p [] le = refl
  filter_all p (ex ∷ xs) le = elim (Bool-cases (p ex)) [
    | inl e ↦ rw e (
        ap (λ rest. ex ∷ rest)
          (filter_all p xs
            (omega (arith, ap (λ b. length (if b then ex ∷ filter p xs else filter p xs)) e, le))))
    | inr e ↦ absurd (
        omega (
          arith,
          ap (λ b. length (if b then ex ∷ filter p xs else filter p xs)) e,
          le,
          length-filter-le p xs,
        ))
  ]

  All-filter :
      (p : RetainedExample → Bool) (xs : List RetainedExample)
      → All IsTrainable xs
      → All IsTrainable (filter p xs)
  All-filter p [] h = tt
  All-filter p (ex ∷ xs) (t, h) = elim (Bool-cases (p ex)) [
    | inl e ↦ rw e (t, All-filter p xs h)
    | inr e ↦ rw e (All-filter p xs h)
  ]

  expire_of-read :
      (before_ms : ℤ) (h : RetainedHeader) (xs : List RetainedExample) (file : RetainedFile)
      (after : OnDisk) (n : ℕ)
      → IsFaithfulJson c
      → IsHeld c file h xs
      → expire_of c faults before_ms h xs (some file) ≡ (some n, after)
      → let read = read_retained c false after in
        (header_in read ≡ some h)
        × (examples_in read ≡ filter (is_young before_ms) xs)
        × (n + length (examples_in read) ≡ length xs)
  expire_of-read before_ms h xs file after n faithful held e =
      let kept = filter (is_young before_ms) xs in
      let fewer = length-filter-le (is_young before_ms) xs in
      elim (Bool-cases (nat_beq (length xs - length kept) 0)) [
        | inl none_gone ↦
            let same = filter_all (is_young before_ms) xs (ground (arith, none_gone, fewer)) in
            let f : Path (Option ℕ × OnDisk) (some 0, some file) (some n, after) =
              rw none_gone at e in
            let read =
              ap (λ (p : Option ℕ × OnDisk). read_retained c false p.1) (sym f)
              ∙ read-IsHeld c file h xs faithful held in
            (
              ap header_in read,
              ap examples_in read ∙ sym same,
              omega (
                arith,
                some_injective (ap (λ (p : Option ℕ × OnDisk). p.0) f),
                ap (λ read. length (examples_in read)) read,
              ),
            )
        | inr some_gone ↦
            let (made_file, made, there, told) =
              replacing-done c faults faults.write_fails (length xs - length kept) n _ (some file)
                after (rw some_gone at e) in
            let now =
              file_of-IsHeld c faults h kept (header_line c h) (example_lines c kept) made_file refl
                refl held.is_header (All-filter (is_young before_ms) xs held.trainable) made in
            let read =
              ap (read_retained c false) there ∙ read-IsHeld c made_file h kept faithful now in
            (
              ap header_in read,
              ap examples_in read,
              omega (arith, told, fewer, ap (λ read. length (examples_in read)) read),
            )
      ]

  -- Expiring examples of a file that holds a header and examples, where it can be read: if it
  -- returns, the next read has the same header and exactly the examples with a time that is not
  -- before the bound, in their order, and the number that it returns is that of the others.
  pub expire-read :
      (before_ms : ℤ) (h : RetainedHeader) (xs : List RetainedExample) (file : RetainedFile)
      (after : OnDisk) (n : ℕ)
      → IsFaithfulJson c
      → faults.read_fails ≡ false
      → IsHeld c file h xs
      → expire_examples c faults before_ms (some file) ≡ (some n, after)
      → let read = read_retained c false after in
        (header_in read ≡ some h)
        × (examples_in read ≡ filter (is_young before_ms) xs)
        × (n + length (examples_in read) ≡ length xs)
  unfolding expire_examples
  expire-read before_ms h xs file after n faithful reads held e =
      let read =
        ap (λ fails. read_retained c fails (some file)) reads
        ∙ read-IsHeld c file h xs faithful held in
      expire_of-read before_ms h xs file after n faithful held (rw read at e)
