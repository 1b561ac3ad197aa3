-- ===== src/Registry/Manifest/Sections.antt =====
-- Reading the sections that `manifest_to_dict` of modelstore/registry/manifest.py writes, and the
-- manifest from fields that hold what it writes.
use kenaz_ml.Prelude.{
  String, string_eq, ◌==◌, true, false, Option, none, some, List, [], ◌∷◌, ◌≡◌, refl, ap, ◌∙◌, Text,
  codes, lower, All,
}
use kenaz_ml.Dict.{Dict}
use kenaz_ml.Exceptions.{ok}
use kenaz_ml.Registry.Json.{
  ℤ, Json, string, object, null, Fields, end, field, lookup, lookup_or, unknown, contains,
  name_items, int_or_null, str_items, str_tuple, py_str, str_or_none, int_or_none, section_of,
  truthy,
}
use kenaz_ml.Registry.Manifest.{
  Provenance, Runtime, FeatureContract, Training, ArtifactKind, file, directory, Manifest, read,
  provenance_keys, runtime_keys, contract_keys, training_keys, manifest_keys, manifest_from_fields,
  build_if_known, build, kind_of, text_or, has_required, members_of, provenance_of, runtime_of,
  contract_of,
}
use kenaz_ml.Registry.Manifest.Written.{
  sort_fields, provenance_dict, runtime_dict, contract_dict, training_dict, member_fields,
  text_or_null,
}

-- None of the keys is known.
abbrev pub IsFree : List String → Fields → Type 0
IsFree known end = Unit
IsFree known (field k v fields) = (contains known k ≡ false) × IsFree known fields

-- Fields that no known key names, in the order of their keys.
abbrev pub IsTidy : List String → Fields → Type 0
IsTidy known extra = (sort_fields extra ≡ extra) × IsFree known extra

pub unknown-IsFree :
    (known : List String) (extra : Fields) → IsFree known extra → unknown known extra ≡ extra
unfolding unknown
unknown-IsFree known end h = refl
unknown-IsFree known (field k v fields) (ne, h) = rw (ne, unknown-IsFree known fields h) refl

pub tidy_extra :
    (known : List String) (extra : Fields)
    → IsTidy known extra
    → unknown known (sort_fields extra) ≡ extra
tidy_extra known extra (sorted, free) = ap (unknown known) sorted ∙ unknown-IsFree known extra free

module _ (repr : Json → String) where
  str_items-name_items : (names : List String) → str_items repr (name_items names) ≡ names
  unfolding str_items py_str
  str_items-name_items [] = refl
  str_items-name_items (name ∷ names) = rw (str_items-name_items names) refl

  str_or_none-text_or_null : (s : Option String) → str_or_none repr (text_or_null s) ≡ s
  unfolding str_or_none py_str
  str_or_none-text_or_null none = refl
  str_or_none-text_or_null (some s) = refl

  int_or_none-int_or_null : (n : Option ℤ) → int_or_none (int_or_null n) ≡ ok n
  unfolding int_or_none
  int_or_none-int_or_null none = refl
  int_or_none-int_or_null (some n) = refl

  provenance-read :
      (p : Provenance)
      → IsTidy provenance_keys p.extra
      → provenance_of repr (provenance_dict p) (some p.n_local_extensions) ≡ p
  unfolding provenance_of lookup_or lookup py_str unknown
  provenance-read p tidy =
      rw
        (
          tidy_extra provenance_keys p.extra tidy,
          str_or_none-text_or_null p.base_version,
          str_or_none-text_or_null p.base_sha256,
          str_or_none-text_or_null p.reset_reason,
          unknown-IsFree provenance_keys p.extra tidy.1,
        )
        refl

  runtime-read : (r : Runtime) → IsTidy runtime_keys r.extra → runtime_of repr (runtime_dict r) ≡ r
  unfolding runtime_of lookup_or lookup py_str unknown
  runtime-read r tidy =
      rw (tidy_extra runtime_keys r.extra tidy, unknown-IsFree runtime_keys r.extra tidy.1) refl

  contract-read :
      (c : FeatureContract) → IsTidy contract_keys c.extra → contract_of repr (contract_dict c) ≡ c
  unfolding contract_of lookup_or lookup py_str unknown str_tuple
  contract-read c tidy =
      rw
        (
          tidy_extra contract_keys c.extra tidy,
          str_or_none-text_or_null c.service,
          str_or_none-text_or_null c.service_version,
          str_items-name_items c.names,
          str_items-name_items c.dtypes,
          unknown-IsFree contract_keys c.extra tidy.1,
        )
        refl

  module _ (text_of : Text → String) where
    -- The text of a digest is read as the digest.
    abbrev pub IsPrinted : Text → Type 0
    IsPrinted digest = lower (codes (text_of digest)) ≡ digest

    pub members-read :
        (members : Dict String Text)
        → All (λ item. IsPrinted item.1) members
        → members_of repr (member_fields text_of members) ≡ members
    unfolding members_of py_str
    members-read [] h = refl
    members-read ((path, digest) ∷ members) (printed, h) = rw (printed, members-read members h) refl

    abbrev pub FitsKind : ArtifactKind → Dict String Text → Type 0
    FitsKind file members = members ≡ []
    FitsKind directory members =
        (sort_fields (member_fields text_of members) ≡ member_fields text_of members)
        × All (λ item. IsPrinted item.1) members

    -- What a manifest that was read from a file holds: the required texts, digests in lower case,
    -- members of a directory only and in the order of their paths, and other fields in the order of
    -- their keys.
    pub record IsCanonical (m : Manifest) : Type 0 where
      pub named : (m.name == "") ≡ false
      pub versioned : (m.version == "") ≡ false
      pub digested : (text_of m.artifact_sha256 == "") ≡ false
      pub printed : IsPrinted m.artifact_sha256
      pub provenance : IsTidy provenance_keys m.provenance.extra
      pub runtime : IsTidy runtime_keys m.runtime.extra
      pub contract : IsTidy contract_keys m.feature_contract.extra
      pub training : IsTidy training_keys m.training.extra
      pub extra : IsTidy manifest_keys m.extra
      pub kind : FitsKind m.artifact_kind m.artifact_members

    -- What the reader finds in an object that was written for the manifest.
    pub record IsWritten (raw : Fields) (m : Manifest) : Type 0 where
      pub name : lookup_or "name" null raw ≡ string m.name
      pub version : lookup_or "version" null raw ≡ string m.version
      pub digest : lookup_or "artifact_sha256" null raw ≡ string (text_of m.artifact_sha256)
      pub schema : lookup_or "schema_version" (string "1") raw ≡ string m.schema_version
      pub created : lookup_or "created_at" null raw ≡ int_or_null m.created_at
      pub provenance : lookup_or "provenance" null raw ≡ object (provenance_dict m.provenance)
      pub runtime : lookup_or "runtime" null raw ≡ object (runtime_dict m.runtime)
      pub contract :
          lookup_or "feature_contract" null raw ≡ object (contract_dict m.feature_contract)
      pub training : lookup_or "training" null raw ≡ object (training_dict m.training)
      pub metrics : lookup_or "metrics" null raw ≡ object m.metrics
      pub extra : unknown manifest_keys raw ≡ m.extra
      pub kind : kind_of (text_or repr "artifact_kind" "file" raw) ≡ some m.artifact_kind
      pub members :
          members_of repr (section_of (lookup_or "artifact_members" null raw)) ≡ m.artifact_members

    training-read :
        (t : Training)
        → IsTidy training_keys t.extra
        → unknown training_keys (training_dict t) ≡ t.extra
    unfolding unknown
    training-read t tidy =
        rw (tidy_extra training_keys t.extra tidy, unknown-IsFree training_keys t.extra tidy.1) refl

    required :
        (raw : Fields) (m : Manifest) → IsWritten raw m → IsCanonical m → has_required raw ≡ true
    unfolding has_required truthy
    required raw m w h = rw (w.name, w.version, w.digest, h.named, h.versioned, h.digested) refl

    extensions_found :
        (p : Provenance)
        → int_or_none (lookup_or "n_local_extensions" null (provenance_dict p))
          ≡ ok (some p.n_local_extensions)
    unfolding lookup_or lookup int_or_none
    extensions_found p = refl

    training_found :
        (t : Training)
        → (int_or_none (lookup_or "n_samples" null (training_dict t)) ≡ ok t.n_samples)
          × (int_or_none (lookup_or "as_of_ms" null (training_dict t)) ≡ ok t.as_of_ms)
          × (str_or_none repr (lookup_or "retained_generation" null (training_dict t))
              ≡ t.retained_generation)
    unfolding lookup_or lookup
    training_found t = (
      int_or_none-int_or_null t.n_samples,
      int_or_none-int_or_null t.as_of_ms,
      str_or_none-text_or_null t.retained_generation,
    )

    build-read :
        (raw : Fields) (m : Manifest)
        → IsWritten raw m
        → IsCanonical m
        → build repr m.artifact_kind raw ≡ ok (read m)
    unfolding build py_str section_of
    build-read raw m w h =
        let (samples, as_of, generation) = training_found m.training in
        rw
          (
            w.provenance,
            w.created,
            w.training,
            w.name,
            w.version,
            w.digest,
            w.schema,
            w.runtime,
            w.contract,
            w.metrics,
            w.extra,
            w.members,
            extensions_found m.provenance,
            int_or_none-int_or_null m.created_at,
            samples,
            as_of,
            generation,
            provenance-read m.provenance h.provenance,
            runtime-read m.runtime h.runtime,
            contract-read m.feature_contract h.contract,
            training-read m.training h.training,
            h.printed,
          )
          refl

    pub fields-read :
        (raw : Fields) (m : Manifest)
        → IsWritten raw m
        → IsCanonical m
        → manifest_from_fields repr raw ≡ ok (read m)
    unfolding manifest_from_fields build_if_known
    fields-read raw m w h = rw (required raw m w h, w.kind) (build-read raw m w h)
