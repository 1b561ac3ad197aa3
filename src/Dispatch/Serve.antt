-- ===== src/Dispatch/Serve.antt =====
-- `dispatch` of advice/dispatch.py: one request against one snapshot of the table.
pub mod Checks
pub mod Soundness
pub mod Refusals
pub mod Shadow
use kenaz_ml.Prelude.{
  ℕ, String, string_eq, ◌==◌, Bool, true, false, not, ◌&&◌, ◌||◌, Option, none, some, List, [], ◌∷◌,
  if◌then◌else◌, leb,
}
use kenaz_ml.Dict.{Dict, get, has}
use kenaz_ml.Registry.Json.{ℤ, pos, negsuc}
use kenaz_ml.Registry.Manifest.{FeatureContract}
use kenaz_ml.Dispatch.{
  Reason, unknown_kind, kind_not_served, contract_mismatch, features_mismatch, features_invalid,
  kind_id_mismatch, no_contract, confidence_out_of_range, backend_error, Confidence, boolean,
  integer, other, BackendAnswer, Answered, answer, refuses, fails, Preflight, absent, passes,
  breaks, stops, Backend, DispatchEntry, RecommendRequest, RecommendResponse, ShadowRecord,
  supported_versions, is_some,
}

-- How `dispatch` ends: a response, a typed refusal, the `KeyError` of reading a feature that is
-- not posted, the exception of a `preflight` that raises anything but a refusal, or the
-- `ValidationError` of a response that is none.
pub data Outcome : Type 0 where
  serves : RecommendResponse → Outcome
  refused : Reason → Outcome
  key_error preflight_error validation_error : Outcome

abbrev pub member : String → List String → Bool
member x [] = false
member x (y ∷ ys) = if y == x then true else member x ys

-- The confidence, if it is an integer in 0-100 and no bool.
unfoldable pub confidence_of : Confidence → Option ℕ
confidence_of (boolean b) = none
confidence_of (integer (pos n)) = if leb n 100 then some n else none
confidence_of (integer (negsuc n)) = none
confidence_of other = none

-- (answer.decision is None) != (answer.score is None)
unfoldable pub answers_one : BackendAnswer → Bool
answers_one a = if is_some a.decision then not (is_some a.score) else is_some a.score

abbrev text_of : Option String → String
text_of none = ""
text_of (some s) = s

abbrev reason_or_not_served : Option Reason → Reason
reason_or_not_served none = kind_not_served
reason_or_not_served (some reason) = reason

abbrev other_kind : String → Option String → Bool
other_kind kind none = false
other_kind kind (some posted) = not (posted == kind)

module _ {F : Type 0} where
  unfoldable pub all_posted : Dict String F → List String → Bool
  all_posted features [] = true
  all_posted features (name ∷ names) = has features name && all_posted features names

  unfoldable pub all_named : List String → Dict String F → Bool
  all_named names [] = true
  all_named names ((name, value) ∷ features) = member name names && all_named names features

  -- set(request.features) == set(names)
  unfoldable pub same_names : Dict String F → List String → Bool
  same_names features names = all_posted features names && all_named names features

  abbrev cons_value : Option F → Option (List F) → Option (List F)
  cons_value none rest = none
  cons_value (some value) none = none
  cons_value (some value) (some values) = some (value ∷ values)

  -- [features[name] for name in names]; `none` is a `KeyError`
  unfoldable pub vector_of : Dict String F → List String → Option (List F)
  vector_of features [] = some []
  vector_of features (name ∷ names) = cons_value (get features name) (vector_of features names)

  -- The backends and the provenances that `RecommendResponse` admits.
  unfoldable pub fits_response : Backend F → Bool
  fits_response server =
      member server.name ("heuristic" ∷ "classic" ∷ "laya" ∷ [])
      && member server.checkpoint_provenance ("local" ∷ "org" ∷ "base" ∷ [])

  unfoldable pub response_of :
      String → FeatureContract → Backend F → BackendAnswer → ℕ → RecommendResponse
  response_of kind contract server a confidence = record {
    decision = a.decision;
    score = a.score;
    confidence = confidence;
    kind_id = kind;
    feature_contract_version = text_of contract.service_version;
    model = server.model_label;
    rung = server.rung;
    backend = server.name;
    model_id_sha8 = server.model_id_sha8;
    checkpoint_provenance = server.checkpoint_provenance;
    generation = server.generation;
    unbenchmarked = server.unbenchmarked;
  }

  -- The construction of the response, with its validation.
  unfoldable pub respond : String → FeatureContract → Backend F → BackendAnswer → ℕ → Outcome
  respond kind contract server a confidence =
      if fits_response server
      then serves (response_of kind contract server a confidence)
      else validation_error

  unfoldable pub check_answer :
      String → FeatureContract → Backend F → BackendAnswer → Option ℕ → Outcome
  check_answer kind contract server a none = refused confidence_out_of_range
  check_answer kind contract server a (some confidence) =
      if answers_one a then respond kind contract server a confidence else refused backend_error

  unfoldable pub on_answer : String → FeatureContract → Backend F → Answered → Outcome
  on_answer kind contract server (refuses reason) = refused reason
  on_answer kind contract server fails = refused backend_error
  on_answer kind contract server (answer a) =
      check_answer kind contract server a (confidence_of a.confidence)

  unfoldable pub after_preflight :
      Preflight → String → FeatureContract → Backend F → List F → Outcome
  after_preflight (stops reason) kind contract server vector = refused reason
  after_preflight breaks kind contract server vector = preflight_error
  after_preflight absent kind contract server vector =
      on_answer kind contract server (server.answer vector)
  after_preflight passes kind contract server vector =
      on_answer kind contract server (server.answer vector)

module _ {F : Type 0} (isfinite : F → Bool) where
  abbrev pub finite_vector : List F → Bool
  finite_vector [] = true
  finite_vector (value ∷ values) = isfinite value && finite_vector values

  unfoldable pub on_vector : String → FeatureContract → Backend F → Option (List F) → Outcome
  on_vector kind contract server none = key_error
  on_vector kind contract server (some vector) =
      if finite_vector vector
      then after_preflight server.preflight kind contract server vector
      else refused features_invalid

  unfoldable pub serve_with :
      String → RecommendRequest F → Option FeatureContract → Backend F → Outcome
  serve_with kind request none server = refused no_contract
  serve_with kind request (some contract) server =
      if same_names request.features contract.names
      then on_vector kind contract server (vector_of request.features contract.names)
      else refused features_mismatch

module _ {F M : Type 0} (isfinite : F → Bool) where
  abbrev shadow_vector :
      DispatchEntry F M
      → String
      → RecommendRequest F
      → M
      → Option (List F)
      → List (ShadowRecord F M)
  shadow_vector entry kind request model none = []
  shadow_vector entry kind request model (some vector) =
      if finite_vector isfinite vector
      then record {
        kind_id = kind;
        vector = vector;
        model = model;
        manifest = entry.manifest;
        session_id = request.session_id;
        features_hash = request.features_hash;
        ts = request.ts;
      }
        ∷ []
      else []

  -- `_record_shadow`: a request whose features do not fit is not shadowed.
  unfoldable pub record_shadow :
      DispatchEntry F M
      → String
      → RecommendRequest F
      → Option M
      → Option FeatureContract
      → List (ShadowRecord F M)
  record_shadow entry kind request none contract = []
  record_shadow entry kind request (some model) none = []
  record_shadow entry kind request (some model) (some contract) =
      if same_names request.features contract.names
      then shadow_vector entry kind request model (vector_of request.features contract.names)
      else []

  unfoldable pub on_server :
      DispatchEntry F M
      → String
      → RecommendRequest F
      → Option (Backend F)
      → Outcome × List (ShadowRecord F M)
  on_server entry kind request none = (
    refused (reason_or_not_served entry.reason),
    record_shadow entry kind request entry.shadow_model entry.contract,
  )
  on_server entry kind request (some server) =
      (serve_with isfinite kind request entry.contract server, [])

  unfoldable pub on_entry :
      String → RecommendRequest F → Option (DispatchEntry F M) → Outcome × List (ShadowRecord F M)
  on_entry kind request none = (refused unknown_kind, [])
  on_entry kind request (some entry) =
      if other_kind kind request.kind_id
      then (refused kind_id_mismatch, [])
      else if is_some entry.contract
          && not (member request.feature_contract_version (supported_versions entry))
      then (refused contract_mismatch, [])
      else on_server entry kind request entry.server

  -- The outcome, and what was queued for scoring in shadow.
  unfoldable pub dispatch :
      Dict String (DispatchEntry F M)
      → String
      → RecommendRequest F
      → Outcome × List (ShadowRecord F M)
  dispatch snapshot kind request = on_entry kind request (get snapshot kind)
