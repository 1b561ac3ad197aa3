-- ===== src/LabelLog/Ingest.antt =====
-- `ingest` of advice/label_log.py: the checks on the batch, the probe of the retained set, the loop
-- over the rows, the one write of the log, the index and the mirror.
use kenaz_ml.Prelude.{
  ℕ, nat_eq, nat_beq, Bool, true, false, ◌&&◌, Option, none, some, List, [], ◌∷◌, ◌++◌, String,
  if◌then◌else◌,
}
use kenaz_ml.Dict.{Dict}
use kenaz_ml.Dict.Update.{update}
use kenaz_ml.Registry.Json.{ℤ}
use kenaz_ml.LabelLog.{Line, label_key_eq, Row, Record, LabelKey, LogEntry, Codec, Example}
use kenaz_ml.LabelLog.File.{
  LogFile, labels, read_label_log, enforce_bound, append, atomic_write, is_empty,
}
use kenaz_ml.LabelLog.Checks.{
  LabelContract, BatchReason, io_error, retained_refused, contract_refusal,
}
use kenaz_ml.LabelLog.Rows.{Batch, new_batch, take_rows, rewritten, values, as_labels, value_or}
use kenaz_ml.LabelLog.Mirror.{
  Appended, appended, append_refused, append_raises, Retained, Disk, IngestResult, Store,
  examples_for, Mirrored, mirror,
}

abbrev pub refusing : BatchReason → IngestResult
refusing reason = record {
  ack = none;
  outcomes = [];
  refusal = some reason;
  retained_appended = 0;
  retained_rebuilt = false;
  retained_generation = none;
  evicted = 0;
}

abbrev pub reporting : Batch → ℕ → IngestResult
reporting b evicted = record {
  ack = b.ack;
  outcomes = b.outcomes;
  refusal = none;
  retained_appended = 0;
  retained_rebuilt = false;
  retained_generation = none;
  evicted = evicted;
}

unfoldable pub dumped : Codec → List LogEntry → List Line
dumped c [] = []
dumped c (entry ∷ entries) = c.dumps entry ∷ dumped c entries

-- The log after the write, and whether the write ended by an OSError.
abbrev failing_append : Option LogFile → LogFile → Bool × LogFile
failing_append none file = (true, file)
failing_append (some torn) file = (false, torn)

unfoldable pub write_log : Codec → Disk → Dict LabelKey Record → Batch → LogFile → Bool × LogFile
write_log c disk index b file =
    let added = dumped c (as_labels (values b.pending_new)) in
    if is_empty b.replaced
    then failing_append disk.append_fails (append added file)
    else if disk.rewrite_fails
    then (false, file)
    else (
      true,
      atomic_write (
          dumped c (rewritten b.replaced index [] (read_label_log disk.reread_fails file).records)
          ++ added),
    )

-- What `ingest` ends with: a result, or an exception of `example_for`, which it does not catch.
pub data Ended : Type 0 where
  returned : IngestResult → Ended
  raised_out : Ended

-- index.update(replaced); index.update(pending_new)
abbrev pub updated_index : Dict LabelKey Record → Batch → Dict LabelKey Record
updated_index index b = update (update index b.replaced) b.pending_new

module _ {M : Type 0} where
  -- `_index`
  abbrev pub loaded : Disk → Store M → Dict LabelKey Record
  loaded disk store = value_or store.index (labels (read_label_log disk.load_fails store.log))

module _ {M : Type 0} (c : Codec) (retained : Retained M) (disk : Disk) (contract : LabelContract)
    (max_bytes : ℕ) where
  abbrev pub finished : Mirrored M → Ended × Store M
  finished (result, store) = (returned result, store)

  abbrev pub mirrored_batch : Batch → ℕ → Option (List Example) → Store M → Ended × Store M
  mirrored_batch b evicted none store = (raised_out, store)
  mirrored_batch b evicted (some examples) store =
      finished
        (mirror c retained disk contract.names b.needs_rebuild examples (reporting b evicted) store)

  -- The examples of the new labels and of those that train for the first time; a rebuild needs
  -- none.
  abbrev pub new_examples : Batch → Option (List Example)
  new_examples b =
      if b.needs_rebuild
      then some []
      else examples_for c contract.names (values b.pending_new ++ b.appends)

  -- The log is written: the bound, the index, and the mirror.
  abbrev pub on_bounded : Dict LabelKey Record → Batch → Store M → LogFile × ℕ → Ended × Store M
  on_bounded index b store (file, evicted) =
      mirrored_batch b evicted (new_examples b) (record store {
        log = file;
        index = if nat_beq evicted 0 then some (updated_index index b) else none;
      })

  abbrev pub on_written : Dict LabelKey Record → Batch → Store M → Bool × LogFile → Ended × Store M
  on_written index b store (false, torn) =
      (returned (refusing io_error), record store { log = torn; index = some index })
  on_written index b store (true, file) =
      on_bounded index b store (enforce_bound disk.evict_fails max_bytes file)

  abbrev pub settled : Dict LabelKey Record → Batch → Store M → Ended × Store M
  settled index b store =
      if is_empty b.pending_new && is_empty b.replaced
      then (if b.needs_rebuild
          then finished (
              mirror c retained disk contract.names true [] (reporting b 0)
                (record store { index = some index }))
          else (returned (reporting b 0), record store { index = some index }))
      else on_written index b store (write_log c disk index b store.log)

module _ {M : Type 0} (c : Codec) (retained : Retained M) (disk : Disk) (client kind : String)
    (contract : LabelContract) (stamp : ℤ) (max_bytes : ℕ) where
  abbrev pub on_probe : List Row → Store M → Appended → Ended × Store M
  on_probe rows store (append_refused reason) =
      (returned (refusing (retained_refused reason)), store)
  on_probe rows store append_raises = (returned (refusing io_error), store)
  on_probe rows store (appended n generation) =
      let index = loaded disk store in
      settled c retained disk contract max_bytes index
        (take_rows c client kind stamp index 0 rows (new_batch store.dirty)) store

  abbrev pub probed : List Row → Store M → Appended × M → Ended × Store M
  probed rows store (end, m) = on_probe rows (record store { retained = m }) end

  abbrev pub on_batch : List Row → Store M → Option BatchReason → Ended × Store M
  on_batch rows store (some reason) = (returned (refusing reason), store)
  on_batch rows store none = probed rows store (retained.append_examples [] none store.retained)

  -- `ingest`
  unfoldable pub ingest : List Row → Store M → Ended × Store M
  ingest rows store = on_batch rows store (contract_refusal contract rows)

-- `append_records`: lines of any kind, and the number of lines evicted; the index is read again
-- next time. An OSError (`none`) leaves the index as it was.
abbrev on_appended : {M : Type 0} → Disk → ℕ → Store M → Bool × LogFile → Option ℕ × Store M
on_appended disk max_bytes store (false, torn) = (none, record store { log = torn })
on_appended disk max_bytes store (true, file) =
    let (kept, dropped) = enforce_bound disk.evict_fails max_bytes file in
    (some dropped, record store { log = kept; index = none })

unfoldable pub append_records :
    {M : Type 0} → Codec → Disk → ℕ → List LogEntry → Store M → Option ℕ × Store M
append_records c disk max_bytes entries store =
    on_appended disk max_bytes store
      (failing_append disk.append_fails (append (dumped c entries) store.log))
