-- ===== src/Dispatch/Scenarios.antt =====
-- A table with one kind that a backend serves and one that is scored in shadow.
use kenaz_ml.Prelude.{
  false, ℕ, String, string_eq, Bool, true, none, some, List, [], ◌∷◌, ◌≡◌, ◌≤◌, ◌<◌, ◌*◌, refl,
  arith, length, leb, ltb, All,
}
use kenaz_ml.Dict.{Dict, get, has, put}
use kenaz_ml.Registry.Json.{pos, end}
use kenaz_ml.Registry.Manifest.{FeatureContract}
use kenaz_ml.Dispatch.{
  BackendAnswer, integer, answer, passes, Backend, DispatchEntry, RecommendRequest,
  RecommendResponse, unknown_kind, supported_versions,
}
use kenaz_ml.Dispatch.Serve.{
  serves, refused, dispatch, respond, response_of, fits_response, on_entry, on_server, serve_with,
  on_vector, after_preflight, on_answer, check_answer, confidence_of, answers_one, same_names,
  all_posted, all_named, vector_of,
}
use kenaz_ml.Dispatch.Serve.Soundness.{Served, dispatch_sound}
use kenaz_ml.Dispatch.Serve.Refusals.{IsTyped, EntryPrepared, dispatch-IsTyped}
use kenaz_ml.Dispatch.Serve.Shadow.{FromEntry, dispatch_shadows}
use kenaz_ml.Dispatch.Reload.{ReloadResult, ended, reload_kind, after_swap, result_of}
use kenaz_ml.Dispatch.Table.{
  DispatchTable, new, swapped, replace_entry, is_workbench, latency_samples, latency_ring_size, p95,
}
use kenaz_ml.Dispatch.Table.Disjoint.{Reach, here, next, enters, workbench_refused}
use kenaz_ml.Dispatch.Table.Rings.{recorded, record_each, last_of, latency_window}
use kenaz_ml.Dispatch.Table.Percentile.{count, p95_percentile}

abbrev contract : FeatureContract
contract = record {
  service = some "harness";
  service_version = some "1";
  names = "turns" ∷ "tokens" ∷ [];
  dtypes = "int" ∷ "float" ∷ [];
  extra = end;
}

-- Features are natural numbers, and all are finite.
abbrev any_number : ℕ → Bool
any_number n = true

abbrev seventy : BackendAnswer
seventy = record { decision = some true; score = none; confidence = integer (pos 70) }

abbrev classic : Backend ℕ
classic = record {
  name = "classic";
  model_label = "classic/branch_now@3";
  rung = "R3";
  checkpoint_provenance = "local";
  model_id_sha8 = some "00ff00ff";
  generation = "3";
  unbenchmarked = true;
  preflight = passes;
  answer = λ vector. answer seventy;
}

abbrev served_entry : DispatchEntry ℕ String
served_entry = record {
  kind_id = "branch_now";
  contract = some contract;
  backend = some "classic";
  server = some classic;
  manifest = none;
  reason = none;
  shadow_model = none;
}

abbrev shadowed_entry : DispatchEntry ℕ String
shadowed_entry = record {
  kind_id = "compact_now";
  contract = some contract;
  backend = none;
  server = none;
  manifest = none;
  reason = none;
  shadow_model = some "a model";
}

abbrev snapshot : Dict String (DispatchEntry ℕ String)
snapshot = ("branch_now", served_entry) ∷ ("compact_now", shadowed_entry) ∷ []

abbrev request : RecommendRequest ℕ
request = record {
  features = ("tokens", 900) ∷ ("turns", 4) ∷ [];
  feature_contract_version = "1";
  session_id = none;
  kind_id = some "branch_now";
  features_hash = none;
  ts = none;
}

abbrev response : RecommendResponse
response = record {
  decision = some true;
  score = none;
  confidence = 70;
  kind_id = "branch_now";
  feature_contract_version = "1";
  model = "classic/branch_now@3";
  rung = "R3";
  backend = "classic";
  model_id_sha8 = some "00ff00ff";
  checkpoint_provenance = "local";
  generation = "3";
  unbenchmarked = true;
}

branch_now_serves : (dispatch any_number snapshot "branch_now" request).0 ≡ serves response
unfolding dispatch get on_entry on_server serve_with on_vector after_preflight on_answer
    check_answer confidence_of answers_one same_names all_posted all_named vector_of respond
    response_of fits_response supported_versions has
branch_now_serves = refl

dispatch_sound_example : Served any_number snapshot "branch_now" request response
dispatch_sound_example =
    dispatch_sound any_number snapshot "branch_now" request response branch_now_serves

branch_now_prepared : EntryPrepared (get snapshot "branch_now")
unfolding get fits_response
branch_now_prepared = (λ e. cc, refl)

dispatch-IsTyped_example : IsTyped (dispatch any_number snapshot "branch_now" request).0
dispatch-IsTyped_example =
    dispatch-IsTyped any_number snapshot "branch_now" request branch_now_prepared

abbrev compact_request : RecommendRequest ℕ
compact_request = record request { kind_id = none }

compact_now_found : get snapshot "compact_now" ≡ some shadowed_entry
unfolding get
compact_now_found = refl

dispatch_shadows_example :
    All
      (FromEntry any_number shadowed_entry "compact_now" compact_request)
      (dispatch any_number snapshot "compact_now" compact_request).1
dispatch_shadows_example =
    dispatch_shadows any_number snapshot "compact_now" compact_request shadowed_entry
      compact_now_found

abbrev one_kind : DispatchTable ℕ String
one_kind = record { snapshot = ("branch_now", served_entry) ∷ []; latency = [] }

one_kind_entered : replace_entry served_entry new ≡ swapped one_kind
unfolding replace_entry new put is_workbench
one_kind_entered = refl

one_kind_reached : Reach new one_kind
one_kind_reached = next here (enters served_entry one_kind_entered)

stuck_is_workbench : is_workbench "stuck" ≡ true
unfolding is_workbench
stuck_is_workbench = refl

workbench_refused_example :
    dispatch any_number one_kind.snapshot "stuck" request ≡ (refused unknown_kind, [])
workbench_refused_example =
    workbench_refused any_number one_kind "stuck" request one_kind_reached stuck_is_workbench

abbrev timings : List (String × ℕ)
timings = ("branch_now", 12) ∷ ("compact_now", 5) ∷ ("branch_now", 9) ∷ []

latency_window_example :
    latency_samples "branch_now"
      (record_each timings (record { snapshot = snapshot; latency = [] }))
    ≡ last_of latency_ring_size (recorded "branch_now" timings)
latency_window_example = latency_window snapshot "branch_now" timings

abbrev samples : List ℕ
samples = 12 ∷ 9 ∷ 30 ∷ []

p95_percentile_example :
    (v : ℕ) × (p95 samples ≡ some v)
    × (19 * length samples ≤ 20 * count (λ x. leb x v) samples)
    × (20 * count (λ x. ltb x v) samples < 19 * length samples)
p95_percentile_example = p95_percentile samples (omega arith)

abbrev empty_table : DispatchTable ℕ String
empty_table = record { snapshot = []; latency = [] }

abbrev reload_result : ReloadResult
reload_result = record { kind_id = "branch_now"; reloaded = true; generation = none }

branch_now_reloads :
    reload_kind "branch_now" none (some served_entry) empty_table ≡ ended one_kind reload_result
unfolding reload_kind after_swap result_of replace_entry is_workbench put
branch_now_reloads = refl

abbrev two_requests : List (String × (RecommendRequest ℕ × ℕ))
two_requests = ("branch_now", (request, 12)) ∷ ("no_such_kind", (request, 3)) ∷ []

no_such_kind_absent : has snapshot "no_such_kind" ≡ false
unfolding has
no_such_kind_absent = refl
