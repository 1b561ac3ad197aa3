-- ===== src/LabelLog/Course.antt =====
-- The course of one `ingest`: turned away before the rows, or settled; and what it reports.
use kenaz_ml.Prelude.{
  ℕ, String, false, none, List, [], ◌≡◌, ◌≢◌, refl, ◌∙◌, subst, arith, Option-cases, inl, inr,
}
use kenaz_ml.Dict.{get}
use kenaz_ml.Registry.Json.{ℤ}
use kenaz_ml.LabelLog.{Row, Codec}
use kenaz_ml.LabelLog.File.{LogFile}
use kenaz_ml.LabelLog.Checks.{BatchReason, LabelContract, contract_refusal}
use kenaz_ml.LabelLog.Rows.{stored_at, Batch, new_batch, take_rows}
use kenaz_ml.LabelLog.Mirror.{
  Appended, appended, append_refused, append_raises, Retained, Disk, IngestResult, Store,
}
use kenaz_ml.LabelLog.Ingest.{Ended, returned, refusing, loaded, write_log, probed, ingest}
use kenaz_ml.LabelLog.Kept.{IsReport, Settled, unwritten, failed, written, settled-Settled}
use kenaz_ml.LabelLog.Labels.{best}
use kenaz_ml.LabelLog.Loop.{last_position, ack-take_rows, expected, outcomes-take_rows}

module _ {M : Type 0} where
  -- The store after the probe of the retained set.
  abbrev pub with_retained : Store M → M → Store M
  with_retained store m = record store { retained = m }

  -- The batch that the rows make against the index.
  abbrev pub batch_of : Codec → Disk → String → String → ℤ → List Row → Store M → Batch
  batch_of c disk client kind stamp rows store =
      take_rows c client kind stamp (loaded disk store) 0 rows (new_batch store.dirty)

module _ {M : Type 0} (c : Codec) (retained : Retained M) (disk : Disk) (client kind : String)
    (contract : LabelContract) (stamp : ℤ) (max_bytes : ℕ) where
  pub data Ingested (rows : List Row) (store : Store M) (after : Ended × Store M) : Type 0 where
    turned_away :
        (reason : BatchReason) (m : M)
        → after ≡ (returned (refusing reason), with_retained store m)
        → Ingested rows store after
    processed :
        (m : M)
        → contract_refusal contract rows ≡ none
        → Settled c retained disk contract max_bytes
            (loaded disk (with_retained store m))
            (batch_of c disk client kind stamp rows (with_retained store m))
            (with_retained store m)
            after
        → Ingested rows store after

  probed-Ingested :
      (rows : List Row) (store : Store M) (p : Appended × M)
      → contract_refusal contract rows ≡ none
      → Ingested rows store
          (probed c retained disk client kind contract stamp max_bytes rows store p)
  probed-Ingested rows store (append_refused reason, m) e = turned_away _ m refl
  probed-Ingested rows store (append_raises, m) e = turned_away _ m refl
  probed-Ingested rows store (appended n generation, m) e =
      processed m e (settled-Settled c retained disk contract max_bytes _ _ _)

  pub ingest-Ingested :
      (rows : List Row) (store : Store M)
      → Ingested rows store (ingest c retained disk client kind contract stamp max_bytes rows store)
  unfolding ingest
  ingest-Ingested rows store = elim (Option-cases (contract_refusal contract rows)) [
    | inl e ↦ rw e (probed-Ingested rows store (retained.append_examples [] none store.retained) e)
    | inr (reason, e) ↦ rw e (turned_away reason store.retained refl)
  ]

  -- What is told of a batch that settled.
  Settled-report :
      (rows : List Row) (store : Store M) (r : IngestResult) (after : Ended × Store M)
      → Settled c retained disk contract max_bytes
          (loaded disk store)
          (batch_of c disk client kind stamp rows store)
          store
          after
      → after.0 ≡ returned r
      → r.refusal ≡ none
      → (r.ack ≡ (batch_of c disk client kind stamp rows store).ack)
        × (r.outcomes ≡ (batch_of c disk client kind stamp rows store).outcomes)
  Settled-report rows store r after (unwritten p q w) e ok =
      let told = subst (IsReport (batch_of c disk client kind stamp rows store) 0) e w.report in
      (told.2, told.3)
  Settled-report rows store r after (failed file some_row f same) e ok = ground arith
  Settled-report rows store r after (written file some_row f w) e ok =
      let told = subst (IsReport (batch_of c disk client kind stamp rows store) _) e w.report in
      (told.2, told.3)

  -- A batch that comes through is acknowledged up to the position of its last row, whatever became
  -- of the row, and the outcomes report each row in the order sent: refused with the reason of the
  -- first failing check, or accepted, superseded or duplicate by the best record that the index and
  -- the admitted rows before it hold for its key.
  pub ingest_acks :
      (rows : List Row) (store : Store M) (r : IngestResult)
      → (ingest c retained disk client kind contract stamp max_bytes rows store).0 ≡ returned r
      → r.refusal ≡ none
      → (r.ack ≡ last_position rows none)
        × (r.outcomes ≡ expected c client kind stamp (loaded disk store) [] 0 rows)
  unfolding stored_at best get
  ingest_acks rows store r e ok = elim (ingest-Ingested rows store) [
    | turned_away reason m same ↦ ground arith
    | processed m fits s ↦
        let (acked, told) = Settled-report rows (with_retained store m) r _ s e ok in
        (
          acked
              ∙ ack-take_rows c client kind stamp (loaded disk store) 0 rows
                  (new_batch store.dirty),
          told
              ∙ outcomes-take_rows c client kind stamp (loaded disk store) [] 0 rows
                  (new_batch store.dirty) (λ key. refl),
        )
  ]

  pub failed_log :
      (rows : List Row) (store : Store M) (file : LogFile)
      → write_log c disk
          (loaded disk store)
          (batch_of c disk client kind stamp rows store)
          store.log
        ≡ (false, file)
      → disk.append_fails ≡ none
      → file ≡ store.log
  unfolding write_log
  failed_log rows store file f whole = ground arith

  Settled-refusal :
      (rows : List Row) (store : Store M) (r : IngestResult) (after : Ended × Store M)
      → Settled c retained disk contract max_bytes
          (loaded disk store)
          (batch_of c disk client kind stamp rows store)
          store
          after
      → after.0 ≡ returned r
      → r.refusal ≢ none
      → disk.append_fails ≡ none
      → (r.ack ≡ none)
        × (r.outcomes ≡ [])
        × (after.1.log ≡ store.log)
        × (after.1.dirty ≡ store.dirty)
  Settled-refusal rows store r after (unwritten p q w) e bad whole =
      let told = subst (IsReport (batch_of c disk client kind stamp rows store) 0) e w.report in
      absurd (bad told.0)
  Settled-refusal rows store r after (failed file some_row f same) e bad whole =
      let kept = failed_log rows store file f whole in ground (arith, kept)
  Settled-refusal rows store r after (written file some_row f w) e bad whole =
      let told = subst (IsReport (batch_of c disk client kind stamp rows store) _) e w.report in
      absurd (bad told.0)

  -- When no append to the log breaks off, a batch that is refused, whatever the reason,
  -- acknowledges nothing, reports no row, and leaves the log and the dirty marker as they were.
  pub ingest_refuses :
      (rows : List Row) (store : Store M) (r : IngestResult)
      → let (end, after) = ingest c retained disk client kind contract stamp max_bytes rows store in
        end ≡ returned r
        → r.refusal ≢ none
        → disk.append_fails ≡ none
        → (r.ack ≡ none) × (r.outcomes ≡ []) × (after.log ≡ store.log) × (after.dirty ≡ store.dirty)
  ingest_refuses rows store r e bad whole = elim (ingest-Ingested rows store) [
    | turned_away reason m same ↦ ground arith
    | processed m fits s ↦ Settled-refusal rows (with_retained store m) r _ s e bad whole
  ]
