-- ===== src/LabelLog/Rows.antt =====
-- The loop of `_ingest` of advice/label_log.py: the rows in the order sent against the index, and
-- the lines that replace the log when a stored label changed.
use kenaz_ml.Prelude.{
  ℕ, suc, String, nat_eq, Eq, ◌==◌, Bool, true, false, Option, none, some, List, [], ◌∷◌, ◌++◌, ltb,
  nat_beq, if◌then◌else◌,
}
use kenaz_ml.Dict.{Dict, get, has, put}
use kenaz_ml.Dict.Update.{prefer}
use kenaz_ml.Registry.Json.{ℤ}
use kenaz_ml.LabelLog.{
  label_key_eq, Row, Record, LabelKey, label_key, training_label, LogEntry, label, unrelated, Codec,
}
use kenaz_ml.LabelLog.Checks.{RowReason, row_refusal}

pub data Status : Type 0 where
  accepted superseded duplicate refused : Status

pub record RowOutcome : Type 0 where
  pub index : ℕ
  pub status : Status
  pub features_hash : String
  pub ts : ℤ
  pub revision : ℕ
  pub reason : Option RowReason

-- The local state of the loop over the rows.
pub record Batch : Type 0 where
  pub pending_new : Dict LabelKey Record
  pub replaced : Dict LabelKey Record
  pub appends : List Record
  pub needs_rebuild : Bool
  pub outcomes : List RowOutcome
  pub ack : Option (ℤ × ℕ)

-- pending_new.get(key) or replaced.get(key) or index.get(key)
unfoldable pub stored_at : Dict LabelKey Record → Batch → LabelKey → Option Record
stored_at index b key = prefer (get b.pending_new key) (prefer (get b.replaced key) (get index key))

abbrev pub outcome : ℕ → Row → Status → Option RowReason → RowOutcome
outcome i row status reason = record {
  index = i;
  status = status;
  features_hash = row.features_hash;
  ts = row.ts;
  revision = row.revision;
  reason = reason;
}

-- Every row is reported and acknowledged, the refused ones too.
abbrev pub reported : ℕ → Row → Status → Option RowReason → Batch → Batch
reported i row status reason b = record b {
  outcomes = b.outcomes ++ (outcome i row status reason ∷ []);
  ack = some (row.ts, row.revision);
}

-- A replaced record whose training label changed means a rebuild; one that had none and now has one
-- means an append.
abbrev pub relabel : Option ℕ → Option ℕ → Record → Batch → Batch
relabel none none rec b = b
relabel none (some y) rec b = record b { appends = b.appends ++ (rec ∷ []) }
relabel (some y) none rec b = record b { needs_rebuild = true }
relabel (some y) (some z) rec b = if nat_beq y z then b else record b { needs_rebuild = true }

-- A higher revision of a label that is stored.
abbrev pub supersede : Record → Record → Batch → Batch
supersede old rec b =
    if has b.pending_new (label_key rec)
    then record b { pending_new = put b.pending_new (label_key rec) rec }
    else relabel (training_label old) (training_label rec) rec
        (record b { replaced = put b.replaced (label_key rec) rec })

abbrev pub on_stored : ℕ → Record → Option Record → Batch → Batch
on_stored i rec none b =
    reported i rec.row accepted none
      (record b { pending_new = put b.pending_new (label_key rec) rec })
on_stored i rec (some old) b =
    if ltb old.row.revision rec.row.revision
    then reported i rec.row superseded none (supersede old rec b)
    else reported i rec.row duplicate none b

abbrev pub on_checked : Dict LabelKey Record → ℕ → Record → Option RowReason → Batch → Batch
on_checked index i rec (some reason) b = reported i rec.row refused (some reason) b
on_checked index i rec none b = on_stored i rec (stored_at index b (label_key rec)) b

abbrev pub stamped : ℤ → Row → Record
stamped stamp row = record { row = row; ingested_at_ms = stamp }

-- The batch before its first row: a mirror left dirty is rebuilt whatever the batch contains.
abbrev pub new_batch : Bool → Batch
new_batch dirty = record {
  pending_new = [];
  replaced = [];
  appends = [];
  needs_rebuild = dirty;
  outcomes = [];
  ack = none;
}

module _ (c : Codec) (client kind : String) (stamp : ℤ) (index : Dict LabelKey Record) where
  unfoldable pub take_row : ℕ → Row → Batch → Batch
  take_row i row b = on_checked index i (stamped stamp row) (row_refusal c client kind row) b

  unfoldable pub take_rows : ℕ → List Row → Batch → Batch
  take_rows i [] b = b
  take_rows i (row ∷ rows) b = take_rows (suc i) rows (take_row i row b)

-- A key in a set of keys that were seen.
unfoldable pub is_member {ℓ} : {A : Type ℓ} ⦃e : Eq A⦄ → List A → A → Bool
is_member [] a = false
is_member (x ∷ xs) a = if x == a then true else is_member xs a

-- replaced.get(k, index.get(k, rec))
abbrev pub value_or {ℓ} : {A : Type ℓ} → Option A → A → A
value_or none a = a
value_or (some b) a = b

abbrev pub current : Dict LabelKey Record → Dict LabelKey Record → Record → Record
current replaced index rec =
    value_or (get replaced (label_key rec)) (value_or (get index (label_key rec)) rec)

-- The rewrite of the log: a label's line becomes its current record, a later line of a key that was
-- seen is left out, and everything else is copied.
unfoldable pub rewritten :
    Dict LabelKey Record → Dict LabelKey Record → List LabelKey → List LogEntry → List LogEntry
rewritten replaced index seen [] = []
rewritten replaced index seen (unrelated object ∷ records) =
    unrelated object ∷ rewritten replaced index seen records
rewritten replaced index seen (label rec ∷ records) =
    let rest = rewritten replaced index (label_key rec ∷ seen) records in
    if is_member seen (label_key rec) then rest else label (current replaced index rec) ∷ rest

unfoldable pub values {ℓ} : {K V : Type ℓ} → Dict K V → List V
values [] = []
values ((k, v) ∷ d) = v ∷ values d

unfoldable pub as_labels : List Record → List LogEntry
as_labels [] = []
as_labels (rec ∷ recs) = label rec ∷ as_labels recs
