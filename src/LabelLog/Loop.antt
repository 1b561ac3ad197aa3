-- ===== src/LabelLog/Loop.antt =====
-- The loop of `_ingest`: what it makes of the stored label of a key.
use kenaz_ml.Prelude.{
  ℕ, suc, String, nat_eq, Option, none, some, List, [], ◌∷◌, ◌++◌, ◌≡◌, refl, sym, ap, ◌∙◌, arith,
  if◌then◌else◌, ltb,
}
use mathlib.Core.List.{append-nil, append_assoc}
use kenaz_ml.Dict.{Dict, get, put, UniqueKeys}
use kenaz_ml.Dict.Laws.{get-put, put-UniqueKeys, has-eq-get}
use kenaz_ml.Registry.Json.{ℤ}
use kenaz_ml.LabelLog.{
  label_key_eq, same_key_iff, Row, Record, LabelKey, row_key, label_key, is_newer, Codec,
  training_label,
}
use kenaz_ml.LabelLog.Checks.{RowReason, row_refusal}
use kenaz_ml.LabelLog.Rows.{
  Batch, stored_at, take_row, take_rows, stamped, relabel, on_stored, on_checked, RowOutcome,
  outcome, refused, accepted, superseded, duplicate,
}
use kenaz_ml.LabelLog.Labels.{improve, best, best-append}

pub relabel_keeps :
    (old new : Option ℕ) (rec : Record) (b : Batch)
    → ((relabel old new rec b).pending_new ≡ b.pending_new)
      × ((relabel old new rec b).replaced ≡ b.replaced)
relabel_keeps none none rec b = (refl, refl)
relabel_keeps none (some y) rec b = (refl, refl)
relabel_keeps (some y) none rec b = (refl, refl)
relabel_keeps (some y) (some z) rec b = ground arith

-- The records of the rows that no check refuses, in the order sent.
abbrev pub admitted_onto : ℤ → Row → Option RowReason → List Record → List Record
admitted_onto stamp row none recs = stamped stamp row ∷ recs
admitted_onto stamp row (some reason) recs = recs

unfoldable pub admitted : Codec → String → String → ℤ → List Row → List Record
admitted c client kind stamp [] = []
admitted c client kind stamp (row ∷ rows) =
    let rest = admitted c client kind stamp rows in
    admitted_onto stamp row (row_refusal c client kind row) rest

-- The position of the last row.
abbrev pub last_position : List Row → Option (ℤ × ℕ) → Option (ℤ × ℕ)
last_position [] ack = ack
last_position (row ∷ rows) ack = last_position rows (some (row.ts, row.revision))

module _ (c : Codec) (client kind : String) (stamp : ℤ) (index : Dict LabelKey Record) where
  stored_at-on_stored :
      (i : ℕ) (rec : Record) (b : Batch) (key : LabelKey)
      → stored_at index (on_stored i rec (stored_at index b (label_key rec)) b) key
        ≡ improve key (stored_at index b key) rec
  unfolding stored_at improve is_newer
  stored_at-on_stored i rec b key = ground (
    arith,
    same_key_iff (label_key rec) key,
    get-put b.pending_new (label_key rec) key rec,
    get-put b.replaced (label_key rec) key rec,
    has-eq-get b.pending_new (label_key rec),
    λ (old : Record).
        relabel_keeps (training_label old) (training_label rec) rec
          (record b { replaced = put b.replaced (label_key rec) rec }),
  )

  stored_at-on_checked :
      (i : ℕ) (row : Row) (reason : Option RowReason) (b : Batch) (key : LabelKey)
      (rest : List Record)
      → best key (stored_at index (on_checked index i (stamped stamp row) reason b) key) rest
        ≡ best key (stored_at index b key) (admitted_onto stamp row reason rest)
  unfolding best stored_at
  stored_at-on_checked i row none b key rest =
      rw (stored_at-on_stored i (stamped stamp row) b key) refl
  stored_at-on_checked i row (some reason) b key rest = refl

  -- What the batch and the index hold for a key after the rows is the best of the admitted ones.
  pub stored_at-take_rows :
      (i : ℕ) (rows : List Row) (b : Batch) (key : LabelKey)
      → stored_at index (take_rows c client kind stamp index i rows b) key
        ≡ best key (stored_at index b key) (admitted c client kind stamp rows)
  unfolding take_rows take_row admitted best
  stored_at-take_rows i [] b key = refl
  stored_at-take_rows i (row ∷ rows) b key =
      let reason = row_refusal c client kind row in
      stored_at-take_rows (suc i) rows (take_row c client kind stamp index i row b) key
      ∙ stored_at-on_checked i row reason b key (admitted c client kind stamp rows)

  -- What is reported of a row, by the reason that refuses it and the record that is held for its
  -- key.
  abbrev pub expected_outcome : ℕ → Row → Option RowReason → Option Record → RowOutcome
  expected_outcome i row (some reason) held = outcome i row refused (some reason)
  expected_outcome i row none none = outcome i row accepted none
  expected_outcome i row none (some held) =
      outcome i row (if ltb held.row.revision row.revision then superseded else duplicate) none

  -- What is reported of the rows: each is compared with the best of the index and the rows before
  -- it.
  unfoldable pub expected : List Record → ℕ → List Row → List RowOutcome
  expected before i [] = []
  expected before i (row ∷ rows) =
      let reason = row_refusal c client kind row in
      expected_outcome i row reason (best (row_key row) (get index (row_key row)) before)
      ∷ expected (before ++ admitted_onto stamp row reason []) (suc i) rows

  outcomes-relabel :
      (old new : Option ℕ) (rec : Record) (b : Batch)
      → (relabel old new rec b).outcomes ≡ b.outcomes
  outcomes-relabel none none rec b = refl
  outcomes-relabel none (some y) rec b = refl
  outcomes-relabel (some y) none rec b = refl
  outcomes-relabel (some y) (some z) rec b = ground arith

  outcomes-on_checked :
      (i : ℕ) (row : Row) (reason : Option RowReason) (b : Batch)
      → (on_checked index i (stamped stamp row) reason b).outcomes
        ≡ b.outcomes ++ (expected_outcome i row reason (stored_at index b (row_key row)) ∷ [])
  unfolding label_key
  outcomes-on_checked i row reason b = ground (
    arith,
    λ (old : Record).
        outcomes-relabel (training_label old) (training_label (stamped stamp row))
          (stamped stamp row)
          (record b { replaced = put b.replaced (row_key row) (stamped stamp row) }),
  )

  -- The batch after a row that follows the admitted records `before`.
  stored_at_after :
      (before : List Record) (i : ℕ) (row : Row) (reason : Option RowReason) (b : Batch)
      → ((key : LabelKey) → stored_at index b key ≡ best key (get index key) before)
      → (key : LabelKey)
      → stored_at index (on_checked index i (stamped stamp row) reason b) key
        ≡ best key (get index key) (before ++ admitted_onto stamp row reason [])
  unfolding best
  stored_at_after before i row reason b h key =
      stored_at-on_checked i row reason b key []
      ∙ ap (λ held. best key held (admitted_onto stamp row reason [])) (h key)
      ∙ sym (best-append key (get index key) before (admitted_onto stamp row reason []))

  pub outcomes-take_rows :
      (before : List Record) (i : ℕ) (rows : List Row) (b : Batch)
      → ((key : LabelKey) → stored_at index b key ≡ best key (get index key) before)
      → (take_rows c client kind stamp index i rows b).outcomes
        ≡ b.outcomes ++ expected before i rows
  unfolding take_rows take_row expected
  outcomes-take_rows before i [] b h = sym (append-nil b.outcomes)
  outcomes-take_rows before i (row ∷ rows) b h =
      let reason = row_refusal c client kind row in
      let rest = before ++ admitted_onto stamp row reason [] in
      outcomes-take_rows rest (suc i) rows (take_row c client kind stamp index i row b)
        (stored_at_after before i row reason b h)
      ∙ ap (λ done. done ++ expected rest (suc i) rows) (outcomes-on_checked i row reason b)
      ∙ append_assoc b.outcomes _ (expected rest (suc i) rows)
      ∙ ap (λ held. b.outcomes ++ (expected_outcome i row reason held ∷ expected rest (suc i) rows))
          (h (row_key row))

  ack-on_checked :
      (i : ℕ) (row : Row) (reason : Option RowReason) (b : Batch)
      → (on_checked index i (stamped stamp row) reason b).ack ≡ some (row.ts, row.revision)
  ack-on_checked i row reason b = ground arith

  pub ack-take_rows :
      (i : ℕ) (rows : List Row) (b : Batch)
      → (take_rows c client kind stamp index i rows b).ack ≡ last_position rows b.ack
  unfolding take_rows take_row
  ack-take_rows i [] b = refl
  ack-take_rows i (row ∷ rows) b =
      ack-take_rows (suc i) rows (take_row c client kind stamp index i row b)
      ∙ ap (last_position rows) (ack-on_checked i row (row_refusal c client kind row) b)

  UniqueBatch-on_checked :
      (i : ℕ) (row : Row) (reason : Option RowReason) (b : Batch)
      → UniqueKeys b.pending_new × UniqueKeys b.replaced
      → let after = on_checked index i (stamped stamp row) reason b in
        UniqueKeys after.pending_new × UniqueKeys after.replaced
  unfolding label_key
  UniqueBatch-on_checked i row reason b u = ground (
    arith,
    put-UniqueKeys b.pending_new (row_key row) (stamped stamp row),
    put-UniqueKeys b.replaced (row_key row) (stamped stamp row),
    λ (old : Record).
        relabel_keeps (training_label old) (training_label (stamped stamp row)) (stamped stamp row)
          (record b { replaced = put b.replaced (row_key row) (stamped stamp row) }),
  )

  pub UniqueBatch-take_rows :
      (i : ℕ) (rows : List Row) (b : Batch)
      → UniqueKeys b.pending_new × UniqueKeys b.replaced
      → let after = take_rows c client kind stamp index i rows b in
        UniqueKeys after.pending_new × UniqueKeys after.replaced
  unfolding take_rows take_row
  UniqueBatch-take_rows i [] b u = u
  UniqueBatch-take_rows i (row ∷ rows) b u =
      UniqueBatch-take_rows (suc i) rows (take_row c client kind stamp index i row b)
        (UniqueBatch-on_checked i row (row_refusal c client kind row) b u)
