-- ===== src/Registry/Manifest/RoundTrip.antt =====
-- Reading what `manifest_to_dict` of modelstore/registry/manifest.py writes gives the manifest
-- back.
use kenaz_ml.Prelude.{
  String, string_eq, ◌==◌, true, false, none, some, List, [], ◌∷◌, ◌++◌, ◌≡◌, refl, ap, ◌∙◌, arith,
  Bool-cases, inl, inr, Text,
}
use kenaz_ml.Dict.{Dict}
use kenaz_ml.Exceptions.{ok}
use kenaz_ml.Registry.Json.{
  Json, null, Fields, end, field, lookup, lookup_or, unknown, contains, py_str, section_of,
}
use kenaz_ml.Registry.Manifest.{
  ArtifactKind, file, directory, Manifest, read, manifest_keys, manifest_from_dict, kind_of,
  text_or, members_of,
}
use kenaz_ml.Registry.Manifest.Written.{body_fields, manifest_to_dict, keys, join}
use kenaz_ml.Registry.Manifest.Sections.{
  IsFree, IsTidy, unknown-IsFree, tidy_extra, IsCanonical, IsWritten, FitsKind, members-read,
  fields-read,
}

module _ (repr : Json → String) (text_of : Text → String) where
  lookup-IsFree :
      (key : String) (known : List String) (extra : Fields)
      → contains known key ≡ true
      → IsFree known extra
      → lookup key extra ≡ none
  unfolding lookup
  lookup-IsFree key known end is_known h = refl
  lookup-IsFree key known (field k v fields) is_known (ne, h) = elim (Bool-cases (k == key)) [
    | inl same ↦
        absurd
          (ground (arith, is_known, ap (contains known) ((string_eq.beq_iff k key).0 same), ne))
    | inr other ↦ rw other (lookup-IsFree key known fields is_known h)
  ]

  fewer_keys :
      (fewer known : List String) (extra : Fields)
      → ((k : String) → contains known k ≡ false → contains fewer k ≡ false)
      → IsFree known extra
      → IsFree fewer extra
  fewer_keys fewer known end less h = tt
  fewer_keys fewer known (field k v fields) less (ne, h) =
      (less k ne, fewer_keys fewer known fields less h)

  abbrev with_kind : ArtifactKind → Dict String Text → Manifest → Manifest
  with_kind kind members m = record m { artifact_kind = kind; artifact_members = members }

  abbrev written_fields : ArtifactKind → Dict String Text → Manifest → Fields → Fields
  written_fields kind members m rest = join (body_fields text_of (with_kind kind members m)) rest

  body-IsWritten :
      (kind : ArtifactKind) (members : Dict String Text) (m : Manifest) (rest : Fields)
      → let raw = written_fields kind members m rest in
        unknown manifest_keys raw ≡ m.extra
        → kind_of (text_or repr "artifact_kind" "file" raw) ≡ some kind
        → members_of repr (section_of (lookup_or "artifact_members" null raw)) ≡ members
        → IsWritten repr text_of raw (with_kind kind members m)
  unfolding lookup_or lookup
  body-IsWritten kind members m rest extra kinds found = record {
    name = refl;
    version = refl;
    digest = refl;
    schema = refl;
    created = refl;
    provenance = refl;
    runtime = refl;
    contract = refl;
    training = refl;
    metrics = refl;
    extra = extra;
    kind = kinds;
    members = found;
  }

  kind-IsWritten :
      (kind : ArtifactKind) (members : Dict String Text) (m : Manifest)
      → IsTidy manifest_keys m.extra
      → FitsKind repr text_of kind members
      → IsWritten repr text_of (written_fields kind members m m.extra) (with_kind kind members m)
  unfolding lookup_or lookup unknown kind_of section_of members_of py_str
  kind-IsWritten file members m tidy none_of = rw none_of (
      body-IsWritten file [] m m.extra (unknown-IsFree manifest_keys m.extra tidy.1)
        (rw (lookup-IsFree "artifact_kind" manifest_keys m.extra refl tidy.1) refl)
        (rw (lookup-IsFree "artifact_members" manifest_keys m.extra refl tidy.1) refl))
  kind-IsWritten directory [] m tidy fits =
      body-IsWritten directory [] m m.extra (unknown-IsFree manifest_keys m.extra tidy.1) refl
        (rw (lookup-IsFree "artifact_members" manifest_keys m.extra refl tidy.1) refl)
  kind-IsWritten directory (item ∷ members) m tidy (sorted, printed) =
      body-IsWritten directory (item ∷ members) m m.extra
        (unknown-IsFree manifest_keys m.extra tidy.1) refl
        (ap (members_of repr) sorted ∙ members-read repr text_of (item ∷ members) printed)

  contains-append :
      (some_keys others : List String) (k : String)
      → contains (some_keys ++ others) k ≡ false
      → contains some_keys k ≡ false
  contains-append [] others k h = refl
  contains-append (key ∷ some_keys) others k h = elim (Bool-cases (key == k)) [
    | inl same ↦ absurd (ground (arith, h, same))
    | inr other ↦ rw other (contains-append some_keys others k (rw other at h))
  ]

  kind-keys :
      (kind : ArtifactKind) (members : Dict String Text) (m : Manifest) (k : String)
      → contains manifest_keys k ≡ false
      → contains (keys (body_fields text_of (with_kind kind members m))) k ≡ false
  kind-keys file members m k h =
      contains-append (keys (body_fields text_of (with_kind file members m)))
        ("artifact_kind" ∷ "artifact_members" ∷ []) k h
  kind-keys directory [] m k h =
      contains-append (keys (body_fields text_of (with_kind directory [] m)))
        ("artifact_members" ∷ []) k h
  kind-keys directory (item ∷ members) m k h = h

  -- Reading what was written for a manifest gives the manifest back, for every manifest with the
  -- required texts, digests in lower case, members of a directory only and in the order of their
  -- paths, and further fields with keys that are not known, in the order of their keys.
  pub read-written :
      (m : Manifest)
      → IsCanonical repr text_of m
      → manifest_from_dict repr (manifest_to_dict text_of m) ≡ ok (read m)
  unfolding manifest_from_dict manifest_to_dict
  read-written m h =
      let free =
        fewer_keys (keys (body_fields text_of m)) manifest_keys m.extra
          (kind-keys m.artifact_kind m.artifact_members m) h.extra.1 in
      rw (tidy_extra (keys (body_fields text_of m)) m.extra (h.extra.0, free)) (
        fields-read repr text_of (written_fields m.artifact_kind m.artifact_members m m.extra) m
          (kind-IsWritten m.artifact_kind m.artifact_members m h.extra h.kind) h)
