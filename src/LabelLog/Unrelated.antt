-- ===== src/LabelLog/Unrelated.antt =====
-- The objects of the log that are no labels, the shadow records among them, through an ingest.
use kenaz_ml.Prelude.{
  ℕ, String, true, false, none, List, [], ◌∷◌, ◌++◌, ◌≡◌, refl, sym, ap, ◌∙◌, inl, inr, subst,
  Bool-cases,
}
use kenaz_ml.Dict.{Dict}
use kenaz_ml.Registry.Json.{ℤ, Fields}
use kenaz_ml.LabelLog.{Row, Record, LabelKey, LogEntry, label, unrelated, Codec, IsFaithful}
use kenaz_ml.LabelLog.File.{LogFile, is_empty}
use kenaz_ml.LabelLog.Checks.{LabelContract}
use kenaz_ml.LabelLog.Rows.{Batch, as_labels, values}
use kenaz_ml.LabelLog.Mirror.{Retained, Disk, IngestResult, Store}
use kenaz_ml.LabelLog.Ingest.{Ended, returned, ingest, write_log, loaded}
use kenaz_ml.LabelLog.Kept.{IsReport, Settled, unwritten, failed, written}
use kenaz_ml.LabelLog.Course.{
  turned_away, processed, ingest-Ingested, batch_of, with_retained, failed_log,
}
use kenaz_ml.LabelLog.Reread.{objects}
use kenaz_ml.LabelLog.Rewrite.{unrelated_of, unrelated_of-rewritten}
use kenaz_ml.LabelLog.Synced.{appended_objects, rewritten-objects}
use kenaz_ml.LabelLog.Index.{enforce_bound_idle}

unrelated_of-added :
    (entries : List LogEntry) (recs : List Record)
    → unrelated_of (entries ++ as_labels recs) ≡ unrelated_of entries
unfolding unrelated_of as_labels
unrelated_of-added [] [] = refl
unrelated_of-added [] (rec ∷ recs) = unrelated_of-added [] recs
unrelated_of-added (label rec ∷ entries) recs = unrelated_of-added entries recs
unrelated_of-added (unrelated object ∷ entries) recs = rw (unrelated_of-added entries recs) refl

-- The objects of the file that are no labels.
abbrev pub others_in : LogFile → List Fields
others_in file = unrelated_of (objects file.lines)

module _ (c : Codec) where
  write_log-others_in :
      (disk : Disk) (index : Dict LabelKey Record) (b : Batch) (log file : LogFile)
      → IsFaithful c
      → disk.reread_fails ≡ false
      → disk.append_fails ≡ none
      → write_log c disk index b log ≡ (true, file)
      → others_in file ≡ others_in log
  write_log-others_in disk index b log file faithful reread whole wrote =
      elim (Bool-cases (is_empty b.replaced)) [
        | inl e ↦
            ap unrelated_of (appended_objects c log index disk b file faithful whole wrote e)
            ∙ unrelated_of-added (objects log.lines) (values b.pending_new)
        | inr e ↦
            ap unrelated_of (rewritten-objects c log index disk b file faithful reread wrote e)
            ∙ unrelated_of-added _ (values b.pending_new)
            ∙ unrelated_of-rewritten b.replaced index [] (objects log.lines)
      ]

module _ {M : Type 0} (c : Codec) (retained : Retained M) (disk : Disk) (client kind : String)
    (contract : LabelContract) (stamp : ℤ) (max_bytes : ℕ) where
  Settled-others_in :
      (rows : List Row) (store : Store M) (r : IngestResult) (after : Ended × Store M)
      → IsFaithful c
      → disk.reread_fails ≡ false
      → disk.append_fails ≡ none
      → Settled c retained disk contract max_bytes
          (loaded disk store)
          (batch_of c disk client kind stamp rows store)
          store
          after
      → after.0 ≡ returned r
      → r.evicted ≡ 0
      → others_in after.1.log ≡ others_in store.log
  Settled-others_in rows store r after faithful reread whole (unwritten p q w) e kept =
      ap others_in w.log
  Settled-others_in rows store r after faithful reread whole (failed file some_row f same) e kept =
      ap (λ (end : Ended × Store M). others_in end.1.log) same
      ∙ ap others_in
          (failed_log c retained disk client kind contract stamp max_bytes rows store file f whole)
  Settled-others_in rows store r after faithful reread whole (written file some_row f w) e kept =
      let told = subst (IsReport (batch_of c disk client kind stamp rows store) _) e w.report in
      ap others_in w.log
      ∙ ap others_in (enforce_bound_idle disk.evict_fails max_bytes file (sym told.1 ∙ kept))
      ∙ write_log-others_in c disk (loaded disk store) _ store.log file faithful reread whole f

  -- When neither the read for a rewrite nor an append fails, and nothing is evicted, the objects of
  -- the log that are no readable labels are after the batch the same, in the same order, whether
  -- the batch appended lines, rewrote the log or was refused.
  pub ingest_keeps_others :
      (rows : List Row) (store : Store M) (r : IngestResult)
      → let (end, after) = ingest c retained disk client kind contract stamp max_bytes rows store in
        IsFaithful c
        → disk.reread_fails ≡ false
        → disk.append_fails ≡ none
        → end ≡ returned r
        → r.evicted ≡ 0
        → others_in after.log ≡ others_in store.log
  ingest_keeps_others rows store r faithful reread whole e kept =
      elim (ingest-Ingested c retained disk client kind contract stamp max_bytes rows store) [
        | turned_away reason m same ↦ ap (λ (end : Ended × Store M). others_in end.1.log) same
        | processed m fits s ↦
            Settled-others_in rows (with_retained store m) r _ faithful reread whole s e kept
      ]
