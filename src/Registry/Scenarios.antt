-- ===== src/Registry/Scenarios.antt =====
-- The theorems on modelstore/registry at concrete slots.
use kenaz_ml.Prelude.{
  string_eq, String, true, false, none, some, List, [], ◌∷◌, ◌++◌, ◌≡◌, refl, codes, lower, strip,
  split_dots, arith,
}
use kenaz_ml.Exceptions.{ok, raises}
use kenaz_ml.Registry.Json.{
  Json, object, lookup_or, truthy, section_of, int_or_none, unknown, py_str, str_or_none, str_tuple,
}
use kenaz_ml.Registry.Manifest.{
  Manifest, manifest_from_dict, manifest_from_fields, build_if_known, build, kind_of, has_required,
  members_of, provenance_of, runtime_of, contract_of, text_or,
}
use kenaz_ml.Registry.Validate.{
  Bytes, contents, missing, Verification, validate_artifact, verify_artifact_file, digest_bytes,
  validate_feature_contract, validate_runtime, after_integrity,
}
use kenaz_ml.Registry.Slots.{
  Slot, local, SlotDir, object, Resolution, resolved, resolve_model, climb, on_attempt, try_slot,
  try_by_kind, try_file_slot, slot_is_empty, try_pair, load_if_verified, deserialize_verified,
  read_manifest, read_parsed, ladder,
}
use kenaz_ml.Registry.Slots.Ladder.{Outcome, resolve_model_outcome}
use kenaz_ml.Registry.Slots.Returns.{Readable, resolve_model_returns}
use kenaz_ml.Registry.Slots.Raises.{resolve_model-raises}
use kenaz_ml.Registry.Manifest.Raises.{known, has_bad_number}
use kenaz_ml.Registry.Validate.Soundness.{Accepted, validate_artifact_sound}
use kenaz_ml.Registry.Slots.Integrity.{Sound, resolve_model-Sound}
use kenaz_ml.Registry.Fixtures.{
  toy_sha, turns_contract, bad_fields, outside, payload, good_manifest, empty_slot, good_slot,
  bad_slot, artifact,
}

abbrev served_here : Resolution Bytes
served_here = record {
  slot = local;
  model = some (object payload artifact);
  manifest = some good_manifest;
  refusals = [];
}

good_resolves :
    try_slot outside good_slot none none ≡ ok (resolved (object payload artifact) good_manifest)
unfolding try_slot try_by_kind try_file_slot slot_is_empty try_pair validate_artifact
    load_if_verified deserialize_verified read_manifest read_parsed manifest_from_dict
    manifest_from_fields build_if_known build kind_of has_required lookup_or truthy section_of
    int_or_none unknown py_str str_or_none str_tuple members_of provenance_of runtime_of contract_of
    lower strip verify_artifact_file digest_bytes validate_feature_contract validate_runtime
    split_dots after_integrity
good_resolves = refl

good_wins : resolve_model outside good_slot (some bad_slot) bad_slot none none ≡ ok served_here
unfolding resolve_model ladder climb on_attempt
good_wins = rw good_resolves (unfold on_attempt in refl)

resolve_model-Sound_example :
    (before after : List (Slot × SlotDir)) × (dir : SlotDir) × (m : Manifest) × (ladder good_slot
        (some bad_slot)
        bad_slot
      ≡ before ++ (local, dir) ∷ after)
    × (some good_manifest ≡ some m)
    × Sound outside none none dir payload artifact m
resolve_model-Sound_example =
    resolve_model-Sound outside none none good_slot bad_slot (some bad_slot) served_here payload
      artifact good_wins refl

resolve_model_outcome_example :
    Outcome outside none none (ladder good_slot (some bad_slot) bad_slot) [] served_here
resolve_model_outcome_example =
    resolve_model_outcome outside none none good_slot bad_slot (some bad_slot) served_here good_wins

good_validates :
    validate_artifact toy_sha good_manifest
      (contents payload)
      (some turns_contract)
      (some (codes "1.5.0"))
    ≡ ok (Verification.verified artifact)
unfolding validate_artifact lower strip verify_artifact_file digest_bytes validate_feature_contract
    validate_runtime split_dots after_integrity
good_validates = refl

validate_artifact_sound_example :
    Accepted toy_sha good_manifest
      (contents payload)
      (some turns_contract)
      (some (codes "1.5.0"))
      artifact
validate_artifact_sound_example =
    validate_artifact_sound toy_sha good_manifest (contents payload) (some turns_contract)
      (some (codes "1.5.0")) artifact good_validates

abbrev no_text : Json → String
no_text v = ""

bad_has_required : has_required bad_fields ≡ true
unfolding has_required lookup_or truthy
bad_has_required = refl

bad_known : known (kind_of (text_or no_text "artifact_kind" "file" bad_fields)) ≡ true
unfolding kind_of lookup_or py_str
bad_known = refl

bad_has_bad_number : has_bad_number bad_fields ≡ true
unfolding lookup_or section_of
bad_has_bad_number = refl

resolve_model-raises_example :
    raises (resolve_model outside bad_slot none good_slot none none) ≡ true
resolve_model-raises_example =
    resolve_model-raises outside none none bad_slot good_slot none [] bad_fields refl refl refl
      bad_has_required bad_known bad_has_bad_number

good_readable : raises (read_manifest outside (contents (codes "{}"))) ≡ false
unfolding read_manifest read_parsed manifest_from_dict manifest_from_fields build_if_known build
    kind_of has_required lookup_or truthy section_of int_or_none unknown py_str str_or_none
    str_tuple members_of provenance_of runtime_of contract_of lower
good_readable = refl

missing_readable : raises (read_manifest outside missing) ≡ false
unfolding read_manifest
missing_readable = refl

two_slots-Readable :
    Readable outside none none (λ name. omega arith) (ladder good_slot none empty_slot)
unfolding ladder
two_slots-Readable = (good_readable, (missing_readable, tt))

resolve_model_returns_example :
    raises (resolve_model outside good_slot none empty_slot none none) ≡ false
resolve_model_returns_example =
    resolve_model_returns outside none none (λ name. omega arith) good_slot empty_slot none
      two_slots-Readable
