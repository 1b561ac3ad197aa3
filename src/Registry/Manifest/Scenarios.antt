-- ===== src/Registry/Manifest/Scenarios.antt =====
-- The manifest of a directory with one member and a field of a newer writer.
use kenaz_ml.Prelude.{
  nat_eq, list_eq, String, none, some, [], ◌∷◌, ◌≡◌, refl, Text, codes, lower, if◌then◌else◌,
  list_beq,
}
use kenaz_ml.Exceptions.{ok}
use kenaz_ml.Registry.Json.{pos, Json, string, end, field}
use kenaz_ml.Registry.Manifest.{Manifest, directory, read, manifest_from_dict}
use kenaz_ml.Registry.Manifest.Written.{sort_fields, insert_field, manifest_to_dict}
use kenaz_ml.Registry.Manifest.Sections.{IsCanonical}
use kenaz_ml.Registry.Manifest.RoundTrip.{read-written}

abbrev no_text : Json → String
no_text v = ""

abbrev digest_text : Text → String
digest_text digest = if list_beq digest (codes "ab") then "ab" else "cd"

abbrev sample : Manifest
sample = record {
  name = "risk";
  version = "3";
  artifact_sha256 = codes "ab";
  schema_version = "1";
  created_at = none;
  provenance = record {
    base_version = some "2";
    base_sha256 = none;
    n_local_extensions = pos 4;
    training_source = "base";
    reset_reason = none;
    extra = end;
  };
  runtime = record {
    estimator = "forest";
    sklearn_version = "1.5";
    python_version = "3.14";
    extra = end;
  };
  feature_contract = record {
    service = some "advice";
    service_version = some "v1";
    names = "a" ∷ "b" ∷ [];
    dtypes = "float" ∷ "float" ∷ [];
    extra = end;
  };
  training = record {
    n_samples = some (pos 10);
    retained_generation = some "1";
    as_of_ms = none;
    extra = end;
  };
  metrics = end;
  extra = field "owner" (string "team") (field "site" (string "north") end);
  artifact_kind = directory;
  artifact_members = ("model.bin", codes "cd") ∷ [];
}

sample-IsCanonical : IsCanonical no_text digest_text sample
unfolding sort_fields insert_field lower
sample-IsCanonical = record {
  named = refl;
  versioned = refl;
  digested = refl;
  printed = refl;
  provenance = (refl, tt);
  runtime = (refl, tt);
  contract = (refl, tt);
  training = (refl, tt);
  extra = (refl, (refl, (refl, tt)));
  kind = (refl, (refl, tt));
}

read-written_example :
    manifest_from_dict no_text (manifest_to_dict digest_text sample) ≡ ok (read sample)
read-written_example = read-written no_text digest_text sample sample-IsCanonical
