-- ===== src/LabelLog/Index.antt =====
-- What every `ingest` keeps: the index agrees with the log, and what is no label stays.
use kenaz_ml.Prelude.{
  ℕ, String, Bool, false, Option, none, some, List, [], ◌≡◌, sym, ap, ◌∙◌, inl, inr, arith,
  Bool-cases, nat_beq,
}
use kenaz_ml.Dict.{Dict, get}
use kenaz_ml.Registry.Json.{ℤ}
use kenaz_ml.LabelLog.{label_key_eq, Row, Record, LabelKey, Codec, IsFaithful}
use kenaz_ml.LabelLog.File.{LogFile, read_label_log, labels, enforce_bound}
use kenaz_ml.LabelLog.Checks.{LabelContract}
use kenaz_ml.LabelLog.Rows.{new_batch, value_or}
use kenaz_ml.LabelLog.Mirror.{Retained, Disk, Store}
use kenaz_ml.LabelLog.Ingest.{Ended, ingest, loaded}
use kenaz_ml.LabelLog.Kept.{Settled, unwritten, failed, written}
use kenaz_ml.LabelLog.Course.{
  turned_away, processed, ingest-Ingested, batch_of, with_retained, failed_log,
}
use kenaz_ml.LabelLog.Labels.{best, label_records, get-labels_from}
use kenaz_ml.LabelLog.Loop.{UniqueBatch-take_rows}
use kenaz_ml.LabelLog.Placed.{new_batch-IsPlaced, take_rows-IsPlaced, take_rows-WellKeyed}
use kenaz_ml.LabelLog.Reread.{records-read_lines}
use kenaz_ml.LabelLog.Synced.{in_log, write_log-agrees}

abbrev pub IndexAgrees : LogFile → Option (Dict LabelKey Record) → Type 0
IndexAgrees log none = Unit
IndexAgrees log (some index) =
    (key : LabelKey) → get index key ≡ get (labels (read_label_log false log)) key

-- The index, where it is loaded, holds for every key what a read of the log gives.
abbrev pub IsSynced : {M : Type 0} → Store M → Type 0
IsSynced store = IndexAgrees store.log store.index

labels-in_log :
    (log : LogFile) (key : LabelKey) → get (labels (read_label_log false log)) key ≡ in_log log key
unfolding labels read_label_log get
labels-in_log log key =
    get-labels_from (read_label_log false log).records [] key
    ∙ ap (λ entries. best key none (label_records entries))
        (records-read_lines log.ends_clean log.lines)

agrees_lem :
    (log : LogFile) (held : Option (Dict LabelKey Record)) (key : LabelKey)
    → IndexAgrees log held
    → get (value_or held (labels (read_label_log false log))) key ≡ in_log log key
agrees_lem log none key h = labels-in_log log key
agrees_lem log (some index) key h = h key ∙ labels-in_log log key

-- A bound that evicted nothing left the file alone.
pub enforce_bound_idle :
    (fails : Bool) (max_bytes : ℕ) (file : LogFile)
    → (enforce_bound fails max_bytes file).1 ≡ 0
    → (enforce_bound fails max_bytes file).0 ≡ file
unfolding enforce_bound
enforce_bound_idle fails max_bytes file e = ground (arith, e)

module _ {M : Type 0} (c : Codec) (retained : Retained M) (disk : Disk) (client kind : String)
    (contract : LabelContract) (stamp : ℤ) (max_bytes : ℕ) where
  loaded-IsSynced :
      (store : Store M)
      → disk.load_fails ≡ false
      → IsSynced store
      → (key : LabelKey) → get (loaded disk store) key ≡ in_log store.log key
  loaded-IsSynced store works h key =
      ap (λ fails. get (value_or store.index (labels (read_label_log fails store.log))) key) works
      ∙ agrees_lem store.log store.index key h

  Settled-IsSynced :
      (rows : List Row) (store : Store M) (after : Ended × Store M)
      → IsFaithful c
      → disk.load_fails ≡ false
      → disk.reread_fails ≡ false
      → disk.append_fails ≡ none
      → IsSynced store
      → Settled c retained disk contract max_bytes
          (loaded disk store)
          (batch_of c disk client kind stamp rows store)
          store
          after
      → IsSynced after.1
  Settled-IsSynced rows store after faithful load reread whole h (unwritten p q w) =
      rw (w.log, w.index)
        (λ key. loaded-IsSynced store load h key ∙ sym (labels-in_log store.log key))
  Settled-IsSynced rows store after faithful load reread whole h (failed file some_row f same) =
      let kept =
        failed_log c retained disk client kind contract stamp max_bytes rows store file f whole in
      rw same (λ key.
        loaded-IsSynced store load h key
        ∙ ap (λ log. in_log log key) (sym kept)
        ∙ sym (labels-in_log file key))
  Settled-IsSynced rows store after faithful load reread whole h (written file some_row f w) =
      rw (w.log, w.index)
        (elim (Bool-cases (nat_beq (enforce_bound disk.evict_fails max_bytes file).1 0)) [
          | inl z ↦
              let idle = enforce_bound_idle disk.evict_fails max_bytes file (ground (arith, z)) in
              rw z (λ key.
                write_log-agrees c store.log (loaded disk store) (loaded-IsSynced store load h) disk
                  (batch_of c disk client kind stamp rows store) file faithful reread whole f
                  (λ k.
                    take_rows-IsPlaced c client kind stamp (loaded disk store) 0 rows
                      (new_batch store.dirty) k
                      (new_batch-IsPlaced (loaded disk store) store.dirty k))
                  (UniqueBatch-take_rows c client kind stamp (loaded disk store) 0 rows
                    (new_batch store.dirty) (tt, tt))
                  (take_rows-WellKeyed c client kind stamp (loaded disk store) 0 rows
                    (new_batch store.dirty) tt)
                  key
                ∙ ap (λ log. in_log log key) (sym idle)
                ∙ sym (labels-in_log _ key))
          | inr z ↦ rw z tt
        ])

  -- When no read of the log fails and no append breaks off, an index that agrees with the log on
  -- every key agrees with it after the batch, whatever else fails and however the batch ends: a
  -- refused batch, a failed rewrite, new labels, changed labels, an eviction.
  pub ingest-IsSynced :
      (rows : List Row) (store : Store M)
      → IsFaithful c
      → disk.load_fails ≡ false
      → disk.reread_fails ≡ false
      → disk.append_fails ≡ none
      → IsSynced store
      → IsSynced (ingest c retained disk client kind contract stamp max_bytes rows store).1
  ingest-IsSynced rows store faithful load reread whole h =
      elim (ingest-Ingested c retained disk client kind contract stamp max_bytes rows store) [
        | turned_away reason m same ↦ rw same h
        | processed m fits s ↦
            Settled-IsSynced rows (with_retained store m) _ faithful load reread whole h s
      ]
