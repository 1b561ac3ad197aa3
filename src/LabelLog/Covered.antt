-- ===== src/LabelLog/Covered.antt =====
-- The rows of a batch against an index that already holds what they brought: nothing is written.
use kenaz_ml.Prelude.{
  ℕ, suc, ◌≤◌, String, Option, none, some, List, [], ◌∷◌, ◌≡◌, refl, ◌∙◌, arith, inl, inr, All,
}
use kenaz_ml.Dict.{Dict, get}
use kenaz_ml.Registry.Json.{ℤ}
use kenaz_ml.LabelLog.{label_key_eq, Row, Record, LabelKey, row_key, label_key, Codec}
use kenaz_ml.LabelLog.Checks.{row_refusal, RowReason}
use kenaz_ml.LabelLog.Rows.{Batch, take_rows, take_row, on_checked, stamped, stored_at}
use kenaz_ml.LabelLog.Labels.{improve, best, improve_held, improve-none}
use kenaz_ml.LabelLog.Loop.{admitted, admitted_onto}

-- Records that are held for a key only give way to higher revisions.
best_keeps :
    (key : LabelKey) (held : Record) (recs : List Record)
    → (top : Record) × (best key (some held) recs ≡ some top)
      × (held.row.revision ≤ top.row.revision)
unfolding best
best_keeps key held [] = (held, refl, omega arith)
best_keeps key held (rec ∷ recs) = elim (improve_held key held rec) [
  | inl (i, k, less) ↦
      let (top, b, le) = best_keeps key rec recs in (top, rw i b, omega (arith, le, less))
  | inr (i, older) ↦ let (top, b, le) = best_keeps key held recs in (top, rw i b, le)
]

best_takes :
    (held : Option Record) (rec : Record) (recs : List Record)
    → (top : Record) × (best (label_key rec) (improve (label_key rec) held rec) recs ≡ some top)
      × (rec.row.revision ≤ top.row.revision)
unfolding best
best_takes none rec recs = elim (improve-none (label_key rec) rec) [
  | inl (i, k) ↦ let (top, b, le) = best_keeps (label_key rec) rec recs in (top, rw i b, le)
  | inr (i, ne) ↦ absurd (ne refl)
]
best_takes (some held) rec recs = elim (improve_held (label_key rec) held rec) [
  | inl (i, k, less) ↦ let (top, b, le) = best_keeps (label_key rec) rec recs in (top, rw i b, le)
  | inr (i, older) ↦
      let (top, b, le) = best_keeps (label_key rec) held recs in
      (top, rw i b, omega (arith, le, older refl))
]

-- The batch has nothing to write.
abbrev pub IsQuiet : Batch → Type 0
IsQuiet b = (b.pending_new ≡ []) × (b.replaced ≡ [])

pub stored_quiet :
    (index : Dict LabelKey Record) (b : Batch) (key : LabelKey)
    → IsQuiet b
    → stored_at index b key ≡ get index key
unfolding stored_at get
stored_quiet index b key q = rw (q.0, q.1) refl

module _ (c : Codec) (client kind : String) where
  -- The row is refused, or a record of no lower revision is held for its key.
  abbrev pub IsCovered : (LabelKey → Option Record) → Row → Type 0
  IsCovered held row =
      row_refusal c client kind row ≡ none
      → (top : Record) × (held (row_key row) ≡ some top) × (row.revision ≤ top.row.revision)

  IsCovered-onto :
      (stamp : ℤ) (row : Row) (rows : List Row) (held : LabelKey → Option Record)
      (reason : Option RowReason)
      → row_refusal c client kind row ≡ reason
      → let rest = admitted c client kind stamp rows in
        All (IsCovered (λ key. best key (improve key (held key) (stamped stamp row)) rest)) rows
        → All (IsCovered (λ key. best key (held key) rest)) rows
        → All
            (IsCovered (λ key. best key (held key) (admitted_onto stamp row reason rest)))
            (row ∷ rows)
  unfolding best label_key
  IsCovered-onto stamp row rows held none e new old = (
    (λ same.
        best_takes (held (row_key row)) (stamped stamp row) (admitted c client kind stamp rows)),
    new,
  )
  IsCovered-onto stamp row rows held (some reason) e new old = ((λ same. ground arith), old)

  pub best-IsCovered :
      (stamp : ℤ) (rows : List Row) (held : LabelKey → Option Record)
      → All (IsCovered (λ key. best key (held key) (admitted c client kind stamp rows))) rows
  unfolding admitted best label_key
  best-IsCovered stamp [] held = tt
  best-IsCovered stamp (row ∷ rows) held =
      IsCovered-onto stamp row rows held (row_refusal c client kind row) refl
        (best-IsCovered stamp rows (λ key. improve key (held key) (stamped stamp row)))
        (best-IsCovered stamp rows held)

  module _ (stamp : ℤ) (index : Dict LabelKey Record) where
    covered-IsQuiet :
        (i : ℕ) (row : Row) (reason : Option RowReason) (b : Batch)
        → row_refusal c client kind row ≡ reason
        → IsCovered (get index) row
        → IsQuiet b
        → IsQuiet (on_checked index i (stamped stamp row) reason b)
    unfolding label_key
    covered-IsQuiet i row (some reason) b e h q = q
    covered-IsQuiet i row none b e h q =
        let (top, held, le) = h e in
        let s = stored_quiet index b (row_key row) q ∙ held in ground (arith, s, le)

    pub take_rows-IsQuiet :
        (i : ℕ) (rows : List Row) (b : Batch)
        → All (IsCovered (get index)) rows
        → IsQuiet b
        → IsQuiet (take_rows c client kind stamp index i rows b)
    unfolding take_rows take_row
    take_rows-IsQuiet i [] b h q = q
    take_rows-IsQuiet i (row ∷ rows) b h q =
        take_rows-IsQuiet (suc i) rows (take_row c client kind stamp index i row b) h.1
          (covered-IsQuiet i row (row_refusal c client kind row) b refl h.0 q)
