-- ===== src/Shadow/Log.antt =====
-- `read_shadow_log` and `write_shadow_records` of advice/shadow.py: the shadow records share the
-- label log with the label rows.
use kenaz_ml.Prelude.{
  ℕ, suc, ◌+◌, String, string_eq, ◌==◌, Bool, true, false, not, ◌&&◌, Option, none, some, List, [],
  ◌∷◌, ◌++◌, arith, ◌≡◌, refl, sym, ap, ◌∙◌, if◌then◌else◌,
}
use kenaz_ml.Registry.Json.{ℤ, Json, null, string, object, Fields, lookup, lookup_or}
use kenaz_ml.LabelLog.{Row, Codec, IsFaithful, LogEntry, label, unrelated}
use kenaz_ml.LabelLog.File.{LogFile, labels, read_label_log, append}
use kenaz_ml.LabelLog.Checks.{LabelContract}
use kenaz_ml.LabelLog.Rows.{values}
use kenaz_ml.LabelLog.Mirror.{Retained, Disk, IngestResult, Store}
use kenaz_ml.LabelLog.Ingest.{returned, ingest, append_records, dumped}
use kenaz_ml.LabelLog.Reread.{objects, records-read_lines, objects-append, objects-dumped}
use kenaz_ml.LabelLog.Rewrite.{unrelated_of}
use kenaz_ml.LabelLog.Unrelated.{others_in, ingest_keeps_others}
use kenaz_ml.LabelLog.Index.{enforce_bound_idle}
use kenaz_ml.LabelLog.Synced.{lines-append}
use kenaz_ml.Shadow.{ShadowPrediction}
use kenaz_ml.Shadow.Graduation.{ShadowLog}

abbrev pub is_object : Json → Bool
is_object (object members) = true
is_object _ = false

abbrev pub is_text : String → Json → Bool
is_text s (string t) = t == s
is_text s _ = false

abbrev pub is_present : Option Json → Bool
is_present none = false
is_present (some v) = true

-- record.get("record") == "shadow"
unfoldable pub is_shadow : Fields → Bool
is_shadow fields = is_text "shadow" (lookup_or "record" null fields)

unfoldable pub is_readable : Fields → Bool
is_readable fields =
    is_object (lookup_or "predicted" null fields)
    && is_present (lookup "vector_hash" fields)
    && is_present (lookup "ts" fields)

-- What the reader makes of the fields of a shadow record is a function; the test of a field's
-- presence is the code's.
module _ (prediction_of : Fields → ShadowPrediction) where
  -- The shadow records among the objects, and how many of them are not readable.
  abbrev pub add_object : Fields → List ShadowPrediction × ℕ → List ShadowPrediction × ℕ
  add_object fields (shadows, skipped) =
      if not (is_shadow fields)
      then (shadows, skipped)
      else if is_readable fields
      then (prediction_of fields ∷ shadows, skipped)
      else (shadows, suc skipped)

  unfoldable pub shadows_of : List Fields → List ShadowPrediction × ℕ
  shadows_of [] = ([], 0)
  shadows_of (fields ∷ objects) = add_object fields (shadows_of objects)

  unfoldable pub read_shadow_log : Bool → Bool → LogFile → ShadowLog
  read_shadow_log exists fails file =
      let read = read_label_log fails file in
      let (shadows, skipped) = shadows_of (unrelated_of read.records) in
      record {
        exists = exists;
        shadows = shadows;
        labels = values (labels read);
        skipped_lines = read.skipped_lines + skipped;
        truncated_final_line = read.truncated_final_line;
      }

  shadows-read_shadow_log :
      (exists : Bool) (file : LogFile)
      → (read_shadow_log exists false file).shadows ≡ (shadows_of (others_in file)).0
  unfolding read_shadow_log read_label_log
  shadows-read_shadow_log exists file =
      ap (λ entries. (shadows_of (unrelated_of entries)).0)
        (records-read_lines file.ends_clean file.lines)

  -- A label batch that evicts nothing, with no failing read for its rewrite and no broken append,
  -- leaves the shadow records that a read of the log returns as they were, in the same order.
  pub ingest_keeps_shadows :
      {M : Type 0} (c : Codec) (retained : Retained M) (disk : Disk) (client kind : String)
      (contract : LabelContract) (stamp : ℤ) (max_bytes : ℕ) (rows : List Row) (store : Store M)
      (r : IngestResult) (exists : Bool)
      → let (end, after) = ingest c retained disk client kind contract stamp max_bytes rows store in
        IsFaithful c
        → disk.reread_fails ≡ false
        → disk.append_fails ≡ none
        → end ≡ returned r
        → r.evicted ≡ 0
        → (read_shadow_log exists false after.log).shadows
          ≡ (read_shadow_log exists false store.log).shadows
  ingest_keeps_shadows c retained disk client kind contract stamp max_bytes rows store r exists
        faithful reread whole e kept =
      shadows-read_shadow_log exists _
      ∙ ap (λ others. (shadows_of others).0)
          (ingest_keeps_others c retained disk client kind contract stamp max_bytes rows store r
            faithful reread whole e kept)
      ∙ sym (shadows-read_shadow_log exists store.log)

unfoldable pub as_entries : List Fields → List LogEntry
as_entries [] = []
as_entries (fields ∷ objects) = unrelated fields ∷ as_entries objects

abbrev pub wrote : Option ℕ → Bool
wrote none = false
wrote (some evicted) = true

-- `write_shadow_records`: the records go through the label log's writer, and a failure is only
-- reported.
unfoldable pub write_shadow_records :
    {M : Type 0} → Codec → Disk → ℕ → List Fields → Store M → Bool × Store M
write_shadow_records c disk max_bytes objects store =
    let (evicted, after) = append_records c disk max_bytes (as_entries objects) store in
    (wrote evicted, after)

unrelated_of-append :
    (entries more : List LogEntry)
    → unrelated_of (entries ++ more) ≡ unrelated_of entries ++ unrelated_of more
unfolding unrelated_of
unrelated_of-append [] more = refl
unrelated_of-append (label rec ∷ entries) more = unrelated_of-append entries more
unrelated_of-append (unrelated fields ∷ entries) more = rw (unrelated_of-append entries more) refl

unrelated_of-as_entries : (fresh : List Fields) → unrelated_of (as_entries fresh) ≡ fresh
unfolding unrelated_of as_entries
unrelated_of-as_entries [] = refl
unrelated_of-as_entries (fields ∷ fresh) = rw (unrelated_of-as_entries fresh) refl

appended_others :
    (c : Codec) (fresh : List Fields) (file : LogFile)
    → IsFaithful c
    → others_in (append (dumped c (as_entries fresh)) file) ≡ others_in file ++ fresh
appended_others c fresh file faithful =
    let added = dumped c (as_entries fresh) in
    ap (λ lines. unrelated_of (objects lines)) (lines-append added file)
    ∙ ap unrelated_of (objects-append file.lines added)
    ∙ unrelated_of-append (objects file.lines) (objects added)
    ∙ ap (λ entries. others_in file ++ unrelated_of entries) (objects-dumped c _ faithful)
    ∙ ap (λ more. others_in file ++ more) (unrelated_of-as_entries fresh)

shadows_of-append :
    (prediction_of : Fields → ShadowPrediction) (fresh more : List Fields)
    → (shadows_of prediction_of (fresh ++ more)).0
      ≡ (shadows_of prediction_of fresh).0 ++ (shadows_of prediction_of more).0
unfolding shadows_of
shadows_of-append prediction_of [] more = refl
shadows_of-append prediction_of (fields ∷ fresh) more =
    ground (arith, shadows_of-append prediction_of fresh more)

append_records_idle :
    {M : Type 0} (c : Codec) (disk : Disk) (max_bytes : ℕ) (entries : List LogEntry)
    (store : Store M)
    → let (evicted, after) = append_records c disk max_bytes entries store in
      disk.append_fails ≡ none → evicted ≡ some 0 → after.log ≡ append (dumped c entries) store.log
unfolding append_records
append_records_idle c disk max_bytes entries store whole kept = ground (
  arith,
  whole,
  kept,
  enforce_bound_idle disk.evict_fails max_bytes (append (dumped c entries) store.log),
)

-- Records written by an append that does not fail, where the file is then within the bound, stand
-- in the next read of the log behind the shadow records of a read before, in their order; those of
-- them that are no readable shadow records are left out. The write reports that it was done.
pub write_read_shadows :
    {M : Type 0} (prediction_of : Fields → ShadowPrediction) (c : Codec) (disk : Disk)
    (max_bytes : ℕ) (fresh : List Fields) (store : Store M) (exists was : Bool)
    → let (done, after) = write_shadow_records c disk max_bytes fresh store in
      IsFaithful c
      → disk.append_fails ≡ none
      → (append_records c disk max_bytes (as_entries fresh) store).0 ≡ some 0
      → (done ≡ true)
        × ((read_shadow_log prediction_of exists false after.log).shadows
            ≡ (read_shadow_log prediction_of was false store.log).shadows
              ++ (shadows_of prediction_of fresh).0)
unfolding write_shadow_records
write_read_shadows prediction_of c disk max_bytes fresh store exists was faithful whole kept = (
  ap wrote kept,
  shadows-read_shadow_log prediction_of exists _
      ∙ ap (λ others. (shadows_of prediction_of others).0)
          (ap others_in (append_records_idle c disk max_bytes (as_entries fresh) store whole kept)
            ∙ appended_others c fresh store.log faithful)
      ∙ shadows_of-append prediction_of (others_in store.log) fresh
      ∙ ap (λ shadows. shadows ++ (shadows_of prediction_of fresh).0)
          (sym (shadows-read_shadow_log prediction_of was store.log)),
)
