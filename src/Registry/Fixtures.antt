-- ===== src/Registry/Fixtures.antt =====
-- Slots, contracts and manifests to which the theorems on modelstore/registry are applied: a good slot,
-- an empty one, and one whose manifest holds a NaN.
use kenaz_ml.Prelude.{string_eq, String, true, false, none, some, [], ◌∷◌, ◌++◌, codes}
use mathlib.Core.List.{append-nil, append_assoc}
use kenaz_ml.Registry.Json.{
  Json, string, real, nan, object, array, nil, cons, pos, Fields, end, field,
}
use kenaz_ml.Registry.Manifest.{Manifest, FeatureContract, file}
use kenaz_ml.Registry.Validate.{Bytes, Sha256, contents, missing, VerifiedArtifact}
use kenaz_ml.Registry.Directory.{DirectoryState}
use kenaz_ml.Registry.Slots.{FileState, SlotDir, Outside, object}

-- A hash that keeps all that it was fed.
abbrev pub toy_sha : Sha256
toy_sha = record {
  State = Bytes;
  start = [];
  update = λ s b. s ++ b;
  hexdigest = λ s. s;
  update-nil = append-nil;
  update-append = append_assoc;
}

abbrev pub turns_contract : FeatureContract
turns_contract = record {
  service = some "harness";
  service_version = some "1";
  names = "turns" ∷ "tokens" ∷ [];
  dtypes = "int" ∷ "float" ∷ [];
  extra = end;
}

abbrev pub texts : String → String → Json
texts a b = array (cons (string a) (cons (string b) nil))

abbrev pub contract_fields : Fields
contract_fields = field "service" (string "harness") (
    field "service_version" (string "1")
      (field "names" (texts "turns" "tokens") (field "dtypes" (texts "int" "float") end)))

abbrev pub good_fields : Fields
good_fields = field "name" (string "branch_now") (
    field "version" (string "3") (
      field "artifact_sha256" (string "AB1") (
        field "runtime" (object (field "sklearn_version" (string "1.5.2") end))
          (field "feature_contract" (object contract_fields) end))))

abbrev pub bad_fields : Fields
bad_fields = field "created_at" (real nan) good_fields

abbrev pub outside : Outside
outside = record {
  Model = Bytes;
  sha = toy_sha;
  load = λ payload. some payload;
  parse = λ text. elim text [ [] ↦ some (object bad_fields) | c ∷ cs ↦ some (object good_fields) ];
  repr = λ v. "";
  encode = codes;
  declared = λ name. some turns_contract;
  installed = some (codes "1.5.0");
}

abbrev pub payload : Bytes
payload = codes "ab1"

abbrev pub good_manifest : Manifest
good_manifest = record {
  name = "branch_now";
  version = "3";
  artifact_sha256 = payload;
  schema_version = "1";
  created_at = none;
  provenance = record {
    base_version = none;
    base_sha256 = none;
    n_local_extensions = pos 0;
    training_source = "base";
    reset_reason = none;
    extra = end;
  };
  runtime = record { estimator = ""; sklearn_version = "1.5.2"; python_version = ""; extra = end };
  feature_contract = turns_contract;
  training = record { n_samples = none; retained_generation = none; as_of_ms = none; extra = end };
  metrics = end;
  extra = end;
  artifact_kind = file;
  artifact_members = [];
}

abbrev pub no_file : FileState
no_file = record { exists = false; is_file = false; reading = missing }

abbrev pub a_file : Bytes → FileState
a_file bytes = record { exists = true; is_file = true; reading = contents bytes }

abbrev pub no_directory : DirectoryState
no_directory = record { is_symlink = false; is_dir = false; entries = [] }

abbrev pub slot_of : FileState → FileState → SlotDir
slot_of artifact manifest_file = record {
  artifact = artifact;
  manifest_file = manifest_file;
  checkpoint_exists = false;
  checkpoint = no_directory;
}

abbrev pub empty_slot : SlotDir
empty_slot = slot_of no_file no_file

abbrev pub good_slot : SlotDir
good_slot = slot_of (a_file payload) (a_file (codes "{}"))

abbrev pub bad_slot : SlotDir
bad_slot = slot_of (a_file payload) (a_file [])

abbrev pub artifact : VerifiedArtifact
artifact = record { manifest = good_manifest; payload = payload; digest = payload }
