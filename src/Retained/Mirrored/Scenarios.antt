-- ===== src/Retained/Mirrored/Scenarios.antt =====
-- A batch that rebuilds a retained file from a log with one label.
use kenaz_ml.Prelude.{ℕ, String, true, false, Option, none, some, List, [], ◌∷◌, ◌++◌, ◌≡◌, refl}
use kenaz_ml.Dict.{get, has, put}
use kenaz_ml.Dict.Update.{update}
use kenaz_ml.Registry.Json.{pos, Real, finite, Json, real, end, lookup, lookup_or, unknown}
use kenaz_ml.LabelLog.{
  Row, label_key, is_newer, same_key, training_label, Codec, Line, LogEntry, label, vector,
  example_for, Example,
}
use kenaz_ml.LabelLog.File.{
  note_label, labels_from, labels, read_lines, read_label_log, bytes, keep_newest, reversed_onto,
  kept_lines, enforce_bound, append,
}
use kenaz_ml.LabelLog.Checks.{
  LabelContract, names_mismatch, all_finite, row_refusal, has_unexpected, has_missing,
  contract_refusal,
}
use kenaz_ml.LabelLog.Rows.{stored_at, take_row, take_rows, is_member, rewritten, values, as_labels}
use kenaz_ml.LabelLog.Mirror.{
  Retained, Disk, IngestResult, Store, examples_for, mark_dirty, clear_dirty, rebuild_retained,
  mirror,
}
use kenaz_ml.LabelLog.Ingest.{Ended, returned, raised_out, refusing, dumped, write_log, ingest}
use kenaz_ml.LabelLog.Dirty.{all_examples, accepts, probed_store, dirty_rebuilds}
use kenaz_ml.Retained.{
  RetainedExample, RetainedHeader, JsonLines, header_payload, example_payload, header_line,
  example_line, header_of,
}
use kenaz_ml.Retained.File.{
  OnDisk, read_retained, examples_in, header_in, read_header_only, from_first,
}
use kenaz_ml.Retained.Write.{Faults, fresh_header, append_examples, glue, size_of, retain_within}
use kenaz_ml.Retained.Reset.{reset_retained, next_generation, delete_retained}
use kenaz_ml.Retained.Fixtures.{codec_of, codec_of-IsFaithful}
use kenaz_ml.Retained.Reads.{IsOver}
use kenaz_ml.Retained.Mirrored.{retained_examples, retained_file, rebuilt-read}

abbrev one : Real
one = finite (pos 1) false "1.0"

abbrev header_of_generation : String → RetainedHeader
header_of_generation generation = fresh_header "v1" generation ("a" ∷ []) (pos 7)

abbrev table : List Json
table =
    header_payload (header_of_generation "1")
    ∷ header_payload (header_of_generation "2")
    ∷ example_payload (record { x = one ∷ []; y = one; as_of_ms = some (pos 10) })
    ∷ []

abbrev lines : JsonLines
lines = codec_of table

abbrev no_faults : Faults
no_faults = record {
  read_fails = false;
  write_fails = false;
  append_fails = none;
  evict_fails = false;
  unlink_fails = false;
}

abbrev float_of_json : Json → Option Real
float_of_json (real x) = some x
float_of_json v = none

abbrev line_of : LogEntry → Line
line_of entry = record { loads = some entry; size = 20; is_blank = false }

abbrev codec : Codec
codec = record { to_float = float_of_json; dumps_row = λ row. none; dumps = line_of }

abbrev healthy : Disk
healthy = record {
  load_fails = false;
  append_fails = none;
  reread_fails = false;
  rewrite_fails = false;
  evict_fails = false;
  rebuild_read_fails = false;
  mark_fails = false;
  clear_fails = false;
}

abbrev accepted_row : Row
accepted_row = record {
  client = "claude";
  kind = "risk";
  features_hash = "h1";
  ts = pos 10;
  revision = 4;
  features = ("a", real one) ∷ [];
  features_complete = true;
  user_action = "accepted";
  feature_contract_version = none;
  snapshot_ms = none;
  shown = true;
  confidence = none;
  model_id = none;
  rung = none;
  carried = end;
}

abbrev dirty_store : Store OnDisk
dirty_store = record {
  log = record {
    lines = line_of (label (record { row = accepted_row; ingested_at_ms = pos 5 })) ∷ [];
    ends_clean = true;
  };
  index = none;
  dirty = true;
  retained = none;
}

abbrev contract : LabelContract
contract = record { service_version = "v1"; names = "a" ∷ [] }

abbrev label_value : ℕ → Real
label_value y = one

-- The row stands in the log already.
abbrev run : Ended × Store OnDisk
run =
    ingest codec (retained_file lines no_faults 0 contract (pos 7) label_value) healthy "claude"
      "risk" contract (pos 9) 1000 (accepted_row ∷ []) dirty_store

abbrev end_result : Ended → IngestResult
end_result (returned r) = r
end_result raised_out = refusing names_mismatch

abbrev trained : List Example
trained = record { x = one ∷ []; y = 1; as_of_ms = pos 10 } ∷ []

rebuilds :
    (run.0 ≡ returned (end_result run.0))
    × ((end_result run.0).retained_rebuilt ≡ true)
    × (all_examples codec
          (retained_file lines no_faults 0 contract (pos 7) label_value)
          healthy
          contract
          1000
          run.1.log
        ≡ some trained)
unfolding ingest contract_refusal has_unexpected has_missing row_refusal all_finite take_rows
    take_row stored_at label_key training_label get has put update write_log rewritten is_member
    values as_labels dumped append enforce_bound kept_lines keep_newest reversed_onto bytes
    read_label_log read_lines labels labels_from note_label is_newer same_key mirror
    rebuild_retained mark_dirty clear_dirty examples_for example_for vector append_examples
    reset_retained read_header_only from_first header_of lookup_or lookup unknown header_line
    example_line glue retain_within size_of delete_retained next_generation
rebuilds = (refl, refl, refl)

abbrev file : Retained OnDisk
file = retained_file lines no_faults 0 contract (pos 7) label_value

abbrev reset : Option String × OnDisk
reset = file.reset_retained (probed_store file dirty_store).retained

resets :
    ((end_result run.0).refusal ≡ none)
    × (file.reset_retained (probed_store file dirty_store).retained ≡ (some "2", reset.1))
    × (accepts (file.append_examples trained (some "2") reset.1).0 ≡ true)
unfolding ingest contract_refusal has_unexpected has_missing row_refusal all_finite take_rows
    take_row stored_at label_key training_label get has put update write_log rewritten is_member
    values as_labels dumped append enforce_bound kept_lines keep_newest reversed_onto bytes
    read_label_log read_lines labels labels_from note_label is_newer same_key mirror
    rebuild_retained mark_dirty clear_dirty examples_for example_for vector append_examples
    reset_retained read_header_only from_first header_of lookup_or lookup unknown header_line
    example_line glue retain_within size_of delete_retained next_generation
resets = (refl, refl, refl)

dirty_rebuilds_example :
    ((end_result run.0).retained_rebuilt ≡ true)
    × (run.1.dirty ≡ false)
    × (run.1.retained ≡ (file.append_examples trained (some "2") reset.1).1)
dirty_rebuilds_example =
    dirty_rebuilds codec file healthy "claude" "risk" contract (pos 9) 1000 (accepted_row ∷ [])
      dirty_store (end_result run.0) trained "2" reset.1 refl rebuilds.0 resets.0 refl rebuilds.2
      resets.1 resets.2

rebuilt-read_example :
    let read = read_retained lines false run.1.retained in
    (generation : String) × (header_in read ≡ some (header_of_generation generation))
    × (older : List RetainedExample) × (retained_examples lines no_faults 0 contract
          (pos 7)
          label_value
          trained
        ≡ older ++ examples_in read)
    × IsOver lines no_faults 0
        (header_of_generation generation)
        (retained_examples lines no_faults 0 contract (pos 7) label_value trained)
        older
rebuilt-read_example =
    rebuilt-read lines no_faults 0 contract (pos 7) label_value codec healthy "claude" "risk"
      (pos 9) 1000 (accepted_row ∷ []) dirty_store (end_result run.0) trained
      (codec_of-IsFaithful table) refl refl refl refl rebuilds.0 rebuilds.1 rebuilds.2
      (((refl, tt), refl), tt)
