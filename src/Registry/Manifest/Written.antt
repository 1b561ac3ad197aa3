-- ===== src/Registry/Manifest/Written.antt =====
-- `manifest_to_dict` of modelstore/registry/manifest.py, and reading what it writes.
use Prim.Native.String.{compare}
use Prim.Native.Nat.{Ordering}
use kenaz_ml.Prelude.{
  String, string_eq, Bool, true, false, Option, none, some, List, [], ◌∷◌, if◌then◌else◌, Text,
}
use kenaz_ml.Dict.{Dict}
use kenaz_ml.Registry.Json.{
  Json, integer, string, object, array, null, Fields, end, field, unknown, name_items, int_or_null,
}
use kenaz_ml.Registry.Manifest.{
  Provenance, Runtime, FeatureContract, Training, ArtifactKind, file, directory, Manifest,
}

-- a <= b of two texts
abbrev pub text_leb : String → String → Bool
text_leb a b = elim (compare a b) [ Ordering.gt ↦ false | _ ↦ true ]

unfoldable pub insert_field : String → Json → Fields → Fields
insert_field key v end = field key v end
insert_field key v (field k w fields) =
    let rest = insert_field key v fields in
    if text_leb key k then field key v (field k w fields) else field k w rest

-- The items of a dict in the order of their keys.
unfoldable pub sort_fields : Fields → Fields
sort_fields end = end
sort_fields (field k v fields) = insert_field k v (sort_fields fields)

abbrev pub keys : Fields → List String
keys end = []
keys (field k v fields) = k ∷ keys fields

abbrev pub join : Fields → Fields → Fields
join end more = more
join (field k v fields) more = field k v (join fields more)

-- `_section_to_dict`: the known fields, then the others in the order of their keys.
abbrev pub section_to_dict : Fields → Fields → Fields
section_to_dict values extra = join values (unknown (keys values) (sort_fields extra))

abbrev pub text_or_null : Option String → Json
text_or_null none = null
text_or_null (some s) = string s

abbrev pub provenance_dict : Provenance → Fields
provenance_dict p =
    section_to_dict
      (field "base_version" (text_or_null p.base_version) (
        field "base_sha256" (text_or_null p.base_sha256) (
          field "n_local_extensions" (integer p.n_local_extensions) (
            field "training_source" (string p.training_source)
              (field "reset_reason" (text_or_null p.reset_reason) end)))))
      p.extra

abbrev pub runtime_dict : Runtime → Fields
runtime_dict r =
    section_to_dict
      (field "estimator" (string r.estimator) (
        field "sklearn_version" (string r.sklearn_version)
          (field "python_version" (string r.python_version) end)))
      r.extra

abbrev pub contract_dict : FeatureContract → Fields
contract_dict c =
    section_to_dict
      (field "service" (text_or_null c.service) (
        field "service_version" (text_or_null c.service_version) (
          field "names" (array (name_items c.names))
            (field "dtypes" (array (name_items c.dtypes)) end))))
      c.extra

abbrev pub training_dict : Training → Fields
training_dict t =
    section_to_dict
      (field "n_samples" (int_or_null t.n_samples) (
        field "retained_generation" (text_or_null t.retained_generation)
          (field "as_of_ms" (int_or_null t.as_of_ms) end)))
      t.extra

-- The text of given code points is Python's.
module _ (text_of : Text → String) where
  abbrev pub member_fields : Dict String Text → Fields
  member_fields [] = end
  member_fields ((path, digest) ∷ members) =
      field path (string (text_of digest)) (member_fields members)

  abbrev pub members_field : Dict String Text → Fields
  members_field [] = end
  members_field (item ∷ members) =
      field "artifact_members" (object (sort_fields (member_fields (item ∷ members)))) end

  abbrev pub kind_fields : ArtifactKind → Dict String Text → Fields
  kind_fields file members = end
  kind_fields directory members = field "artifact_kind" (string "directory") (members_field members)

  abbrev pub body_fields : Manifest → Fields
  body_fields m = field "schema_version" (string m.schema_version) (
      field "name" (string m.name) (
        field "version" (string m.version) (
          field "created_at" (int_or_null m.created_at) (
            field "provenance" (object (provenance_dict m.provenance)) (
              field "runtime" (object (runtime_dict m.runtime)) (
                field "feature_contract" (object (contract_dict m.feature_contract)) (
                  field "training" (object (training_dict m.training)) (
                    field "metrics" (object m.metrics) (
                      field "artifact_sha256" (string (text_of m.artifact_sha256))
                        (kind_fields m.artifact_kind m.artifact_members))))))))))

  -- `manifest_to_dict`
  unfoldable pub manifest_to_dict : Manifest → Json
  manifest_to_dict m = object (section_to_dict (body_fields m) m.extra)
