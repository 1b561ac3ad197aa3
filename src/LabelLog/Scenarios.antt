-- ===== src/LabelLog/Scenarios.antt =====
-- The theorems at a log with a shadow record and one label, and a batch that brings a new label, a
-- higher revision of the stored one, a stale row and a row for another client.
use kenaz_ml.Prelude.{
  ℕ, ◌≤◌, ◌<◌, String, Bool, true, false, Option, none, some, List, [], ◌∷◌, ◌++◌, ◌≡◌, ◌≢◌, refl,
  ◌⊎◌, arith, length,
}
use kenaz_ml.Dict.{get, has, put}
use kenaz_ml.Dict.Update.{update}
use kenaz_ml.Registry.Json.{pos, Real, finite, Json, real, end, field, string}
use kenaz_ml.LabelLog.{
  label_key_eq, same_key, Row, Record, label_key, is_newer, training_label, Codec, Line, LogEntry,
  label, unrelated, IsFaithful, Example, vector, example_for,
}
use kenaz_ml.LabelLog.File.{
  LogFile, note_label, labels_from, labels, read_lines, read_label_log, bytes, keep_newest,
  reversed_onto, kept_lines, enforce_bound, append, file_size, nonempty_lines,
}
use kenaz_ml.LabelLog.Checks.{
  LabelContract, names_mismatch, all_finite, row_refusal, has_unexpected, has_missing,
  contract_refusal,
}
use kenaz_ml.LabelLog.Rows.{stored_at, take_row, take_rows, is_member, rewritten, values, as_labels}
use kenaz_ml.LabelLog.Mirror.{
  appended, Retained, Disk, IngestResult, Store, examples_for, mark_dirty, clear_dirty,
  rebuild_retained, mirror,
}
use kenaz_ml.LabelLog.Ingest.{
  Ended, returned, raised_out, refusing, dumped, write_log, loaded, ingest,
}
use kenaz_ml.LabelLog.Loop.{last_position, expected}
use kenaz_ml.LabelLog.Course.{ingest_acks, ingest_refuses}
use kenaz_ml.LabelLog.Bound.{enforce_bound_longest}
use kenaz_ml.LabelLog.Resend.{ingest_again}
use kenaz_ml.LabelLog.Index.{IsSynced, ingest-IsSynced}
use kenaz_ml.LabelLog.Dirty.{all_examples}

abbrev float_of_json : Json → Option Real
float_of_json (real x) = some x
float_of_json v = none

abbrev line_of : LogEntry → Line
line_of entry = record { loads = some entry; size = 20; is_blank = false }

abbrev codec : Codec
codec = record {
  to_float = float_of_json;
  dumps_row = λ row. some (record { loads = none; size = 20; is_blank = false });
  dumps = line_of;
}

codec-IsFaithful : IsFaithful codec
codec-IsFaithful = record { loads-dumps = λ entry. refl; not_blank = λ entry. refl }

-- A retained set that keeps its examples in a list.
abbrev retained_list : Retained (List Example)
retained_list = record {
  append_examples = λ xs generation m. (appended (length xs) generation, m ++ xs);
  reset_retained = λ m. (some "g2", []);
}

abbrev healthy : Disk
healthy = record {
  load_fails = false;
  append_fails = none;
  reread_fails = false;
  rewrite_fails = false;
  evict_fails = false;
  rebuild_read_fails = false;
  mark_fails = false;
  clear_fails = false;
}

abbrev sample_row : String → String → ℕ → ℕ → String → Row
sample_row client hash ts revision action = record {
  client = client;
  kind = "risk";
  features_hash = hash;
  ts = pos ts;
  revision = revision;
  features = ("a", real (finite (pos 1) false "1.0")) ∷ [];
  features_complete = true;
  user_action = action;
  feature_contract_version = none;
  snapshot_ms = none;
  shown = true;
  confidence = none;
  model_id = none;
  rung = none;
  carried = end;
}

abbrev sample_record : String → ℕ → ℕ → String → Record
sample_record hash ts revision action = record {
  row = sample_row "claude" hash ts revision action;
  ingested_at_ms = pos 5;
}

abbrev log_before : LogFile
log_before = record {
  lines =
      line_of (unrelated (field "record" (string "shadow") end))
      ∷ line_of (label (sample_record "h1" 10 4 "accepted"))
      ∷ [];
  ends_clean = true;
}

abbrev before : Bool → Store (List Example)
before dirty = record { log = log_before; index = none; dirty = dirty; retained = [] }

abbrev contract : LabelContract
contract = record { service_version = "v1"; names = "a" ∷ [] }

abbrev batch : List Row
batch =
    sample_row "claude" "h2" 20 5 "dismissed"
    ∷ sample_row "claude" "h1" 10 6 "dismissed"
    ∷ sample_row "claude" "h1" 10 4 "accepted"
    ∷ sample_row "codex" "h3" 30 7 "accepted"
    ∷ []

-- A retained set that cannot be reset.
abbrev retained_stuck : Retained (List Example)
retained_stuck = record {
  append_examples = λ xs generation m. (appended (length xs) generation, m ++ xs);
  reset_retained = λ m. (none, m);
}

abbrev run : Retained (List Example) → Bool → List Row → Ended × Store (List Example)
run retained dirty rows =
    ingest codec retained healthy "claude" "risk" contract (pos 9) 1000 rows (before dirty)

abbrev end_result : Ended → IngestResult
end_result (returned r) = r
end_result raised_out = refusing names_mismatch

abbrev result : Retained (List Example) → Bool → List Row → IngestResult
result retained dirty rows = end_result (run retained dirty rows).0

-- A row with a name that the contract does not know.
abbrev alien : List Row
alien =
    record (sample_row "claude" "h2" 20 5 "dismissed") {
      features = ("b", real (finite (pos 1) false "1.0")) ∷ [];
    }
    ∷ []

-- How the runs below end: the batch comes through (one row accepted, one superseded, one duplicate,
-- one refused), also with a dirty mirror; the stuck retained set is not rebuilt; the alien row is
-- refused; and the labels of the log after the batch have their examples.
facts :
    (((run retained_list false batch).0 ≡ returned (result retained_list false batch))
      × ((result retained_list false batch).refusal ≡ none)
      × ((result retained_list false batch).evicted ≡ 0))
    × (((run retained_list true batch).0 ≡ returned (result retained_list true batch))
        × ((result retained_list true batch).refusal ≡ none))
    × (((run retained_stuck true batch).0 ≡ returned (result retained_stuck true batch))
        × ((result retained_stuck true batch).retained_rebuilt ≡ false))
    × ((run retained_list true alien).0 ≡ returned (refusing names_mismatch))
    × (all_examples codec retained_list healthy contract 1000 (run retained_list true batch).1.log
        ≢ none)
unfolding ingest contract_refusal has_unexpected has_missing row_refusal all_finite take_rows
    take_row stored_at label_key training_label get has put update write_log rewritten is_member
    values as_labels dumped append enforce_bound kept_lines keep_newest reversed_onto bytes
    read_label_log read_lines labels labels_from note_label is_newer same_key mirror
    rebuild_retained mark_dirty clear_dirty examples_for example_for vector
facts = ((refl, refl, refl), (refl, refl), (refl, refl), refl, ground arith)

before-IsSynced : IsSynced (before false)
before-IsSynced = tt

ingest-IsSynced_example : IsSynced (run retained_list false batch).1
ingest-IsSynced_example =
    ingest-IsSynced codec retained_list healthy "claude" "risk" contract (pos 9) 1000 batch
      (before false) codec-IsFaithful refl refl refl before-IsSynced

ingest_again_example :
    let first = (run retained_list false batch).1 in
    let again =
      (ingest codec retained_list healthy "claude" "risk" contract (pos 77) 1000 batch first).1 in
    (again.log ≡ first.log) × (again.index ≡ first.index)
ingest_again_example =
    ingest_again codec retained_list "claude" "risk" contract 1000 healthy healthy (pos 9) (pos 77)
      batch (before false) (result retained_list false batch) facts.0.0 facts.0.1 facts.0.2

ingest_acks_example :
    ((result retained_list false batch).ack ≡ last_position batch none)
    × ((result retained_list false batch).outcomes
        ≡ expected codec "claude" "risk" (pos 9) (loaded healthy (before false)) [] 0 batch)
ingest_acks_example =
    ingest_acks codec retained_list healthy "claude" "risk" contract (pos 9) 1000 batch
      (before false) (result retained_list false batch) facts.0.0 facts.0.1

ingest_refuses_example :
    ((refusing names_mismatch).ack ≡ none)
    × ((refusing names_mismatch).outcomes ≡ [])
    × ((run retained_list true alien).1.log ≡ log_before)
    × ((run retained_list true alien).1.dirty ≡ true)
ingest_refuses_example =
    ingest_refuses codec retained_list healthy "claude" "risk" contract (pos 9) 1000 alien
      (before true) (refusing names_mismatch) facts.3 (λ e. ground (arith, e)) refl

no_empty_line : nonempty_lines log_before.lines ≡ log_before.lines
no_empty_line = refl

enforce_bound_longest_example :
    let (after, dropped) = enforce_bound false 25 log_before in
    (file_size after ≤ 25)
    × ((older : List Line) × (log_before.lines ≡ older ++ after.lines)
        × (length older ≡ dropped)
        × ((older ≡ [])
            ⊎ ((gone : List Line) × (line : Line) × (older ≡ gone ++ (line ∷ []))
                × (25 < bytes (line ∷ after.lines)))))
enforce_bound_longest_example = enforce_bound_longest 25 log_before no_empty_line (omega arith)
