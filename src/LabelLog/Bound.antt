-- ===== src/LabelLog/Bound.antt =====
-- `enforce_bound` of advice/label_log.py: the oldest lines go, and no more of them than needed.
use kenaz_ml.Prelude.{
  ℕ, ◌+◌, ◌-◌, ◌≤◌, ◌<◌, false, List, [], ◌∷◌, ◌++◌, ◌≡◌, refl, sym, ap, ◌∙◌, ◌⊎◌, inl, inr, arith,
  length, length-append, leb, Bool-cases, nat_beq,
}
use mathlib.Core.List.{append_assoc, append-nil}
use kenaz_ml.LabelLog.{Line}
use kenaz_ml.LabelLog.File.{
  LogFile, bytes, file_size, keep_newest, reversed_onto, nonempty_lines, kept_lines, evicting,
  enforce_bound,
}

pub reversed_onto_append :
    (lines acc : List Line) → reversed_onto lines acc ≡ reversed_onto lines [] ++ acc
unfolding reversed_onto
reversed_onto_append [] acc = refl
reversed_onto_append (line ∷ lines) acc =
    reversed_onto_append lines (line ∷ acc)
    ∙ sym (append_assoc (reversed_onto lines []) (line ∷ []) acc)
    ∙ ap (λ before. before ++ acc) (sym (reversed_onto_append lines (line ∷ [])))

reversed_twice :
    (lines acc back : List Line)
    → reversed_onto (reversed_onto lines acc) back ≡ reversed_onto acc (lines ++ back)
unfolding reversed_onto
reversed_twice [] acc back = refl
reversed_twice (line ∷ lines) acc back = reversed_twice lines (line ∷ acc) back

module _ (max_bytes : ℕ) where
  -- The lines that were given up, the newest first: none, or the newest of them does not fit.
  abbrev IsFull : List Line → List Line → Type 0
  IsFull [] kept = Unit
  IsFull (line ∷ older) kept = max_bytes < bytes (line ∷ kept)

  keep_newest_lem :
      (used : ℕ) (kept lines : List Line)
      → used ≡ bytes kept
      → used ≤ max_bytes
      → let result = keep_newest max_bytes used kept lines in
        (older : List Line) × (reversed_onto lines kept ≡ reversed_onto older result)
        × (bytes result ≤ max_bytes)
        × IsFull older result
  unfolding keep_newest reversed_onto bytes
  keep_newest_lem used kept [] e le = ([], refl, omega (arith, e, le), tt)
  keep_newest_lem used kept (line ∷ lines) e le =
      elim (Bool-cases (leb (used + (line.size + 1)) max_bytes)) [
        | inl fits ↦ rw fits (
            keep_newest_lem (used + (line.size + 1)) (line ∷ kept) lines (omega (arith, e))
              (ground (arith, fits)))
        | inr over ↦ rw over (line ∷ lines, refl, omega (arith, e, le), ground (arith, over, e))
      ]

  -- What is kept is the longest end of the lines that fits.
  pub record IsLongest (lines kept : List Line) : Type 0 where
    pub older : List Line
    pub split : lines ≡ older ++ kept
    pub fits : bytes kept ≤ max_bytes
    pub full :
        (older ≡ [])
        ⊎ ((before : List Line) × (line : Line) × (older ≡ before ++ (line ∷ []))
            × (max_bytes < bytes (line ∷ kept)))

  full_lem :
      (older kept : List Line)
      → IsFull older kept
      → (reversed_onto older [] ≡ [])
        ⊎ ((before : List Line) × (line : Line) × (reversed_onto older [] ≡ before ++ (line ∷ []))
            × (max_bytes < bytes (line ∷ kept)))
  unfolding reversed_onto
  full_lem [] kept h = inl refl
  full_lem (line ∷ older) kept h =
      inr (reversed_onto older [], line, reversed_onto_append older (line ∷ []), h)

  pub kept_lines-IsLongest : (lines : List Line) → IsLongest lines (kept_lines max_bytes lines)
  unfolding kept_lines bytes reversed_onto
  kept_lines-IsLongest lines =
      let (older, e, le, full) = keep_newest_lem 0 [] (reversed_onto lines []) refl (omega arith) in
      record {
        older = reversed_onto older [];
        split =
            sym (append-nil lines)
            ∙ sym (reversed_twice lines [] [])
            ∙ e
            ∙ reversed_onto_append older _;
        fits = le;
        full = full_lem older _ full;
      }

  -- The bound on a log whose lines and their longest fitting end are known.
  abbrev IsBounded : LogFile → LogFile × ℕ → Type 0
  IsBounded file (after, dropped) =
      (file_size after ≤ max_bytes)
      × ((older : List Line) × (file.lines ≡ older ++ after.lines)
          × (length older ≡ dropped)
          × ((older ≡ [])
              ⊎ ((before : List Line) × (line : Line) × (older ≡ before ++ (line ∷ []))
                  × (max_bytes < bytes (line ∷ after.lines)))))

  file_size_le : (file : LogFile) → file_size file ≤ bytes file.lines
  file_size_le file = ground arith

  empty_of_length : (xs : List Line) → length xs ≡ 0 → xs ≡ []
  empty_of_length [] e = refl
  empty_of_length (x ∷ xs) e = absurd (omega (arith, e))

  evicting-IsBounded :
      (file : LogFile) (kept : List Line)
      → IsLongest file.lines kept
      → IsBounded file (evicting false file kept (length file.lines - length kept))
  evicting-IsBounded file kept h =
      let count = ap length h.split ∙ length-append h.older kept in
      elim (Bool-cases (nat_beq (length file.lines - length kept) 0)) [
        | inl none_gone ↦
            let e = empty_of_length h.older (ground (arith, count, none_gone)) in
            let same = h.split ∙ ap (λ older. older ++ kept) e in
            rw none_gone
              (omega (arith, file_size_le file, ap bytes same, h.fits), ([], refl, refl, inl refl))
        | inr some_gone ↦ rw some_gone (h.fits, (h.older, h.split, omega (arith, count), h.full))
      ]

  -- In a log with no empty line and a positive bound, if the write does not fail, the bounded log
  -- is no larger than the bound, its lines are the log's newest, as many as reported are gone, and
  -- where a line is gone the newest of those would not have fit beside the lines that stay.
  pub enforce_bound_longest :
      (file : LogFile)
      → nonempty_lines file.lines ≡ file.lines
      → 0 < max_bytes
      → let (after, dropped) = enforce_bound false max_bytes file in
        (file_size after ≤ max_bytes)
        × ((older : List Line) × (file.lines ≡ older ++ after.lines)
            × (length older ≡ dropped)
            × ((older ≡ [])
                ⊎ ((before : List Line) × (line : Line) × (older ≡ before ++ (line ∷ []))
                    × (max_bytes < bytes (line ∷ after.lines)))))
  unfolding enforce_bound
  enforce_bound_longest file full positive =
      let bounds : nat_beq max_bytes 0 ≡ false = ground (arith, positive) in
      elim (Bool-cases (leb (file_size file) max_bytes)) [
        | inl small ↦ rw (bounds, small) (ground (arith, small), ([], refl, refl, inl refl))
        | inr large ↦
            rw (bounds, large, full)
              (evicting-IsBounded file (kept_lines max_bytes file.lines)
                (kept_lines-IsLongest file.lines))
      ]
