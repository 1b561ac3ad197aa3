-- ===== src/Registry/Manifest.antt =====
-- The manifest of modelstore/registry/manifest.py and how it is read from a parsed JSON value.
-- A refusal is its check and its reason; the text for the operator is left out.
pub mod Raises
pub mod Written
mod Sections
mod RoundTrip
mod Scenarios
use kenaz_ml.Prelude.{
  ℕ, String, string_eq, ◌==◌, Bool, true, false, not, ◌&&◌, ◌||◌, Option, none, some, List, [], ◌∷◌,
  if◌then◌else◌, Text, codes, lower,
}
use kenaz_ml.Dict.{Dict, put}
use kenaz_ml.Exceptions.{Exc, ok, raised, ◌>>=◌}
use kenaz_ml.Registry.Json.{
  Json, ℤ, pos, string, object, null, Fields, end, field, lookup, lookup_or, truthy, section_of,
  int_or_none, unknown, py_str, str_or_none, str_tuple,
}

pub data Check : Type 0 where
  manifest integrity contract runtime slot : Check

pub data Reason : Type 0 where
  not_an_object missing_required_field unknown_artifact_kind unparseable unreadable not_found :
      Reason
  no_expected_digest digest_mismatch undeserializable : Reason
  contract_unregistered service_mismatch service_version_mismatch : Reason
  feature_names_mismatch feature_dtypes_mismatch : Reason
  no_recorded_version runtime_unavailable unparseable_version sklearn_version_incompatible : Reason
  symlink_root symlink_member not_a_regular_file member_mismatch : Reason
  slot_empty artifact_not_found unusable : Reason

pub record Refusal : Type 0 where
  pub check : Check
  pub reason : Reason

pub record Provenance : Type 0 where
  pub base_version : Option String
  pub base_sha256 : Option String
  pub n_local_extensions : ℤ
  pub training_source : String
  pub reset_reason : Option String
  pub extra : Fields

pub record Runtime : Type 0 where
  pub estimator : String
  pub sklearn_version : String
  pub python_version : String
  pub extra : Fields

pub record FeatureContract : Type 0 where
  pub service : Option String
  pub service_version : Option String
  pub names : List String
  pub dtypes : List String
  pub extra : Fields

pub record Training : Type 0 where
  pub n_samples : Option ℤ
  pub retained_generation : Option String
  pub as_of_ms : Option ℤ
  pub extra : Fields

pub data ArtifactKind : Type 0 where
  file directory : ArtifactKind

pub record Manifest : Type 0 where
  pub name : String
  pub version : String
  pub artifact_sha256 : Text
  pub schema_version : String
  pub created_at : Option ℤ
  pub provenance : Provenance
  pub runtime : Runtime
  pub feature_contract : FeatureContract
  pub training : Training
  pub metrics : Fields
  pub extra : Fields
  pub artifact_kind : ArtifactKind
  pub artifact_members : Dict String Text

-- `ManifestRead`: the manifest, or why there is none.
pub data ManifestRead : Type 0 where
  read : Manifest → ManifestRead
  refused : Refusal → ManifestRead

abbrev pub provenance_keys : List String
provenance_keys =
    "base_version" ∷ "base_sha256" ∷ "n_local_extensions" ∷ "training_source" ∷ "reset_reason" ∷ []

abbrev pub runtime_keys : List String
runtime_keys = "estimator" ∷ "sklearn_version" ∷ "python_version" ∷ []

abbrev pub contract_keys : List String
contract_keys = "service" ∷ "service_version" ∷ "names" ∷ "dtypes" ∷ []

abbrev pub training_keys : List String
training_keys = "n_samples" ∷ "retained_generation" ∷ "as_of_ms" ∷ []

abbrev pub manifest_keys : List String
manifest_keys =
    "schema_version" ∷ "name" ∷ "version" ∷ "created_at" ∷ "provenance" ∷ "runtime"
    ∷ "feature_contract" ∷ "training" ∷ "metrics" ∷ "artifact_sha256" ∷ "artifact_kind"
    ∷ "artifact_members" ∷ []

-- `kind not in ARTIFACT_KINDS`, and the two kinds as data
unfoldable pub kind_of : String → Option ArtifactKind
kind_of text =
    if text == "file" then some file else if text == "directory" then some directory else none

unfoldable pub has_required : Fields → Bool
has_required raw =
    truthy (lookup_or "name" null raw)
    && truthy (lookup_or "version" null raw)
    && truthy (lookup_or "artifact_sha256" null raw)

abbrev int_or_zero : Option ℤ → ℤ
int_or_zero none = pos 0
int_or_zero (some n) = n

module _ (repr : Json → String) where
  unfoldable pub members_of : Fields → Dict String Text
  members_of end = []
  members_of (field k v fields) = (k, lower (codes (py_str repr v))) ∷ members_of fields

  -- str(raw.get(key, default))
  abbrev pub text_or : String → String → Fields → String
  text_or key default fields = py_str repr (lookup_or key (string default) fields)

  abbrev opt_text : String → Fields → Option String
  opt_text key fields = str_or_none repr (lookup_or key null fields)

  unfoldable pub provenance_of : Fields → Option ℤ → Provenance
  provenance_of raw n = record {
    base_version = opt_text "base_version" raw;
    base_sha256 = opt_text "base_sha256" raw;
    n_local_extensions = int_or_zero n;
    training_source = text_or "training_source" "base" raw;
    reset_reason = opt_text "reset_reason" raw;
    extra = unknown provenance_keys raw;
  }

  unfoldable pub runtime_of : Fields → Runtime
  runtime_of raw = record {
    estimator = text_or "estimator" "" raw;
    sklearn_version = text_or "sklearn_version" "" raw;
    python_version = text_or "python_version" "" raw;
    extra = unknown runtime_keys raw;
  }

  unfoldable pub contract_of : Fields → FeatureContract
  contract_of raw = record {
    service = opt_text "service" raw;
    service_version = opt_text "service_version" raw;
    names = str_tuple repr (lookup_or "names" null raw);
    dtypes = str_tuple repr (lookup_or "dtypes" null raw);
    extra = unknown contract_keys raw;
  }

  -- The sections are read in the order in which the constructor's arguments stand.
  unfoldable pub build : ArtifactKind → Fields → Exc ManifestRead
  build kind raw = do
    let prov = section_of (lookup_or "provenance" null raw)
    let train = section_of (lookup_or "training" null raw)
    extensions ← int_or_none (lookup_or "n_local_extensions" null prov)
    created ← int_or_none (lookup_or "created_at" null raw)
    samples ← int_or_none (lookup_or "n_samples" null train)
    as_of ← int_or_none (lookup_or "as_of_ms" null train)
    ok (
        read (record {
          name = py_str repr (lookup_or "name" null raw);
          version = py_str repr (lookup_or "version" null raw);
          artifact_sha256 = lower (codes (py_str repr (lookup_or "artifact_sha256" null raw)));
          schema_version = text_or "schema_version" "1" raw;
          created_at = created;
          provenance = provenance_of prov extensions;
          runtime = runtime_of (section_of (lookup_or "runtime" null raw));
          feature_contract = contract_of (section_of (lookup_or "feature_contract" null raw));
          training = record {
            n_samples = samples;
            retained_generation = opt_text "retained_generation" train;
            as_of_ms = as_of;
            extra = unknown training_keys train;
          };
          metrics = section_of (lookup_or "metrics" null raw);
          extra = unknown manifest_keys raw;
          artifact_kind = kind;
          artifact_members = members_of (section_of (lookup_or "artifact_members" null raw));
        }))

  unfoldable pub build_if_known : Option ArtifactKind → Fields → Exc ManifestRead
  build_if_known none raw =
      ok (refused (record { check = manifest; reason = unknown_artifact_kind }))
  build_if_known (some kind) raw = build kind raw

  unfoldable pub manifest_from_fields : Fields → Exc ManifestRead
  manifest_from_fields raw =
      if has_required raw
      then build_if_known (kind_of (text_or "artifact_kind" "file" raw)) raw
      else ok (refused (record { check = manifest; reason = missing_required_field }))

  unfoldable pub manifest_from_dict : Json → Exc ManifestRead
  manifest_from_dict (object raw) = manifest_from_fields raw
  manifest_from_dict _ = ok (refused (record { check = manifest; reason = not_an_object }))
