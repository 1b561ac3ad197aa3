-- ===== src/Shadow/Scenarios.antt =====
-- The theorems at a small log: one shadow record with an exact key, one that is paired by its
-- vector.
use kenaz_ml.Prelude.{
  ℕ, zero, suc, ◌+◌, ◌-◌, ◌*◌, ◌/◌, ◌≤◌, ◌<◌, String, Bool, true, false, Option, none, some, List,
  [], ◌∷◌, ◌≡◌, ◌≢◌, ◌↔◌, refl, All, ltb, leb, if◌then◌else◌, ◌++◌,
}
use kenaz_ml.Registry.Json.{ℤ, pos, negsuc, end, field, string, object, Fields, lookup, lookup_or}
use kenaz_ml.LabelLog.{Record, Codec, Line, LogEntry, unrelated, IsFaithful}
use kenaz_ml.LabelLog.File.{bytes, enforce_bound, append, kept_lines}
use kenaz_ml.LabelLog.Mirror.{Disk, Store}
use kenaz_ml.LabelLog.Ingest.{append_records, dumped}
use kenaz_ml.Shadow.{ShadowPrediction, RateStats, decided, int_leb}
use kenaz_ml.Shadow.Join.{
  join_shadow_to_labels, placed, sorted_by_ts, insert_by_ts, exact_key, exact_pass, first_unused,
  nearest, fallback_pass,
}
use kenaz_ml.LabelLog.Rows.{is_member}
use kenaz_ml.Shadow.Graduation.{GraduationMetrics, ShadowLog, eligible, graduation_check}
use kenaz_ml.Shadow.Log.{
  is_shadow, is_readable, shadows_of, as_entries, read_shadow_log, write_shadow_records,
  write_read_shadows,
}
use kenaz_ml.Shadow.Pairs.{IsDistinct, places_onto, IsPaired, join_pairs}
use kenaz_ml.Shadow.Writer.{
  ShadowWriter, new_writer, submit, take_next, count_write, write_pending, Trail, noted, fresh,
  submitted, taken, wrote_one,
}
use kenaz_ml.Shadow.Accounts.{IsAccounted, Reach-IsAccounted}
use kenaz_ml.Shadow.Evidence.{count_of}
use kenaz_ml.Shadow.Verdicts.{is_evidence, joined, would_have_shown, heuristic_showed, eligible_iff}

abbrev labelled : String → ℕ → String → String → Record
labelled hash ts action model = record {
  row = record {
    client = "claude";
    kind = "risk";
    features_hash = hash;
    ts = pos ts;
    revision = 1;
    features = [];
    features_complete = true;
    user_action = action;
    feature_contract_version = none;
    snapshot_ms = none;
    shown = true;
    confidence = some (pos 80);
    model_id = some model;
    rung = none;
    carried = end;
  };
  ingested_at_ms = pos 0;
}

abbrev log_labels : List Record
log_labels =
    labelled "h1" 1000 "accepted" "heuristic"
    ∷ labelled "h2" 2000 "dismissed" "classic/risk@3"
    ∷ labelled "h1" 1000 "ignored" "heuristic"
    ∷ []

abbrev predicted : Option String → Option ℤ → ShadowPrediction
predicted hash label_ts = record {
  vector_hash = "h2";
  ts = pos 2100;
  session_id = none;
  features_hash = hash;
  label_ts = label_ts;
  decision = true;
  confidence = pos 90;
}

abbrev log_shadows : List ShadowPrediction
log_shadows = predicted (some "h1") (some (pos 1000)) ∷ predicted none none ∷ []

-- The hash of a row's vector and its session in these examples.
abbrev hash_of : Record → Option String
hash_of label = some label.row.features_hash

abbrev session_of : Record → Option String
session_of label = none

-- 10^8 * (a.rate - b.rate), rounded down
abbrev difference : ℕ → ℕ → ℤ
difference x y = if leb y x then pos (x - y) else negsuc (y - x - 1)

abbrev rounded : RateStats → RateStats → ℤ
rounded a b = difference (100000000 * a.accepted / decided a) (100000000 * b.accepted / decided b)

abbrev over_budget : ℕ → Bool
over_budget p95 = ltb 50 p95

abbrev metrics : GraduationMetrics
metrics = record {
  demoted_at_ms = some (pos 500);
  calibration_fitted = true;
  served_by_classic = false;
  flipped_at_ms = none;
}

abbrev log : ShadowLog
log = record {
  exists = true;
  shadows = log_shadows;
  labels = log_labels;
  skipped_lines = 0;
  truncated_final_line = false;
}

abbrev line_of : LogEntry → Line
line_of entry = record { loads = some entry; size = 20; is_blank = false }

abbrev codec : Codec
codec = record {
  to_float = λ v. none;
  dumps_row = λ row. some (record { loads = none; size = 20; is_blank = false });
  dumps = line_of;
}

codec-IsFaithful : IsFaithful codec
codec-IsFaithful = record { loads-dumps = λ entry. refl; not_blank = λ entry. refl }

abbrev healthy : Disk
healthy = record {
  load_fails = false;
  append_fails = none;
  reread_fails = false;
  rewrite_fails = false;
  evict_fails = false;
  rebuild_read_fails = false;
  mark_fails = false;
  clear_fails = false;
}

-- A shadow record, and one without its timestamp.
abbrev shadow_fields : Fields
shadow_fields = field "record" (string "shadow") (
    field "predicted" (object end)
      (field "vector_hash" (string "h2") (field "ts" (string "2100") end)))

abbrev torn_fields : Fields
torn_fields =
    field "record" (string "shadow")
      (field "predicted" (object end) (field "vector_hash" (string "h2") end))

abbrev prediction_of : Fields → ShadowPrediction
prediction_of fields = predicted none none

abbrev stored : Store Unit
stored = record {
  log = record { lines = line_of (unrelated shadow_fields) ∷ []; ends_clean = true };
  index = none;
  dirty = false;
  retained = tt;
}

join_pairs_example :
    let pairs = join_shadow_to_labels hash_of session_of log_shadows log_labels in
    IsDistinct (places_onto pairs []) × All (IsPaired hash_of session_of log_labels) pairs
join_pairs_example = join_pairs hash_of session_of log_labels log_shadows

kept_all :
    (append_records codec healthy 1000 (as_entries (torn_fields ∷ shadow_fields ∷ [])) stored).0
    ≡ some 0
unfolding append_records enforce_bound append bytes kept_lines dumped as_entries
kept_all = refl

write_read_shadows_example :
    let (done, after) =
      write_shadow_records codec healthy 1000 (torn_fields ∷ shadow_fields ∷ []) stored in
    (done ≡ true)
    × ((read_shadow_log prediction_of true false after.log).shadows
        ≡ (read_shadow_log prediction_of true false stored.log).shadows
          ++ (shadows_of prediction_of (torn_fields ∷ shadow_fields ∷ [])).0)
write_read_shadows_example =
    write_read_shadows prediction_of codec healthy 1000 (torn_fields ∷ shadow_fields ∷ []) stored
      true true codec-IsFaithful refl kept_all

-- The record without its timestamp is not among the readable ones, and is counted.
shadows_of_runs :
    shadows_of prediction_of (torn_fields ∷ shadow_fields ∷ []) ≡ (predicted none none ∷ [], 1)
unfolding shadows_of is_shadow is_readable lookup lookup_or
shadows_of_runs = refl

-- As many accepted rows of the trained model as are asked for, each with its shadow record.
abbrev accepted_rows : ℕ → List Record
accepted_rows zero = []
accepted_rows (suc n) = labelled "h1" (1000 + n) "accepted" "classic/risk@2" ∷ accepted_rows n

abbrev shadows_for : ℕ → List ShadowPrediction
shadows_for zero = []
shadows_for (suc n) = predicted (some "h1") (some (pos (1000 + n))) ∷ shadows_for n

-- The heuristic's only row was dismissed.
abbrev long_log : ShadowLog
long_log = record log {
  shadows = shadows_for 200;
  labels = labelled "h3" 1500 "dismissed" "heuristic" ∷ accepted_rows 200;
}

eligible_iff_example :
    ((graduation_check over_budget rounded hash_of session_of "risk"
        (some metrics)
        long_log
        (pos 3000)
        none
        0).verdict
      ≡ eligible)
    ↔ ((long_log.exists ≡ true)
        × (long_log.shadows ≢ [])
        × (200
            ≤ count_of
                (is_evidence over_budget rounded hash_of session_of metrics long_log (pos 3000))
                (joined over_budget rounded hash_of session_of metrics long_log (pos 3000)))
        × (0
            < decided (
                would_have_shown over_budget rounded hash_of session_of metrics long_log
                  (pos 3000)))
        × (0
            < decided (
                heuristic_showed over_budget rounded hash_of session_of metrics long_log
                  (pos 3000)))
        × (metrics.calibration_fitted ≡ true)
        × (int_leb (pos 5000000) (
              rounded
                (would_have_shown over_budget rounded hash_of session_of metrics long_log
                  (pos 3000))
                (heuristic_showed over_budget rounded hash_of session_of metrics long_log
                  (pos 3000)))
            ≡ true))
eligible_iff_example =
    eligible_iff over_budget rounded hash_of session_of metrics long_log (pos 3000) "risk" none 0
      refl

-- The first shadow record takes the first row of its exact key, the second the row of its vector.
join_runs :
    places_onto (join_shadow_to_labels hash_of session_of log_shadows log_labels) [] ≡ 1 ∷ 0 ∷ []
unfolding join_shadow_to_labels placed sorted_by_ts insert_by_ts exact_key exact_pass first_unused
    is_member nearest fallback_pass places_onto
join_runs = refl

-- A record is queued, the next finds the queue full, and the thread takes and writes the first.
abbrev record_of : ℕ → Option Fields
record_of n = some shadow_fields

abbrev queued_first : Bool × ShadowWriter ℕ
queued_first = submit 1 true 7 new_writer

abbrev refused_second : Bool × ShadowWriter ℕ
refused_second = submit 1 true 8 queued_first.1

abbrev trail : Trail ℕ
trail =
    noted 8 refused_second.0
      (noted 7 queued_first.0 (record { queued = []; handled = []; refused = 0 }))

abbrev write_outcome : Option Bool × Store Unit
write_outcome = write_pending record_of codec healthy 1000 7 stored

holds_first : (take_next refused_second.1).in_hand ≡ some 7
unfolding submit take_next
holds_first = refl

idle_at_first : refused_second.1.in_hand ≡ none
unfolding submit
idle_at_first = refl

Reach-IsAccounted_example :
    IsAccounted 1
      (record trail { handled = trail.handled ++ (7 ∷ []) })
      (count_write write_outcome.0 (take_next refused_second.1))
Reach-IsAccounted_example = Reach-IsAccounted record_of codec 1000 1 _ _ _ (
    wrote_one healthy 7 holds_first
      (taken idle_at_first (submitted true 8 (submitted true 7 (fresh stored)))))

writer_runs : (count_write write_outcome.0 (take_next refused_second.1)).written ≡ 1
unfolding submit take_next count_write write_pending write_shadow_records append_records
    enforce_bound append bytes kept_lines dumped as_entries
writer_runs = refl
