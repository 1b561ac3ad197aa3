-- ===== src/Registry/Manifest/Raises.antt =====
-- When reading a manifest of modelstore/registry/manifest.py ends by an exception.
use kenaz_ml.Prelude.{
  String, Bool, true, false, ◌&&◌, ◌||◌, Option, none, some, ◌≡◌, refl, ◌∙◌, Bool-cases, inl, inr,
}
use kenaz_ml.Exceptions.{Exc, ok, raised, raises, ◌>>=◌}
use kenaz_ml.Registry.Json.{
  Json, null, boolean, integer, real, string, array, object, finite, nan, infinite, Fields,
  lookup_or, section_of, int_or_none,
}
use kenaz_ml.Registry.Manifest.{
  ArtifactKind, kind_of, has_required, build, build_if_known, manifest_from_fields,
  manifest_from_dict, text_or,
}

-- A float that is no number: what `json.loads` makes of `NaN`, `Infinity` and `1e999`.
abbrev pub not_a_number : Json → Bool
not_a_number (real nan) = true
not_a_number (real infinite) = true
not_a_number _ = false

raises-int_or_none : (v : Json) → raises (int_or_none v) ≡ not_a_number v
unfolding int_or_none
raises-int_or_none null = refl
raises-int_or_none (boolean b) = refl
raises-int_or_none (integer n) = refl
raises-int_or_none (real (finite n zero text)) = refl
raises-int_or_none (real nan) = refl
raises-int_or_none (real infinite) = refl
raises-int_or_none (string s) = refl
raises-int_or_none (array items) = refl
raises-int_or_none (object fields) = refl

-- One of the four numeric fields of the document is no number.
abbrev pub has_bad_number : Fields → Bool
has_bad_number raw =
    let prov = section_of (lookup_or "provenance" null raw) in
    let train = section_of (lookup_or "training" null raw) in
    not_a_number (lookup_or "n_local_extensions" null prov)
    || not_a_number (lookup_or "created_at" null raw)
    || not_a_number (lookup_or "n_samples" null train)
    || not_a_number (lookup_or "as_of_ms" null train)

raises-bind4 {ℓ} :
    {A B : Type ℓ} (a b c d : Exc A) (f : A → A → A → A → B)
    → raises (do w ← a; x ← b; y ← c; z ← d; ok (f w x y z))
      ≡ raises a || raises b || raises c || raises d
raises-bind4 (raised e) b c d f = refl
raises-bind4 (ok w) (raised e) c d f = refl
raises-bind4 (ok w) (ok x) (raised e) d f = refl
raises-bind4 (ok w) (ok x) (ok y) (raised e) f = refl
raises-bind4 (ok w) (ok x) (ok y) (ok z) f = refl

abbrev pub known : Option ArtifactKind → Bool
known none = false
known (some kind) = true

module _ (repr : Json → String) where
  raises-build :
      (kind : ArtifactKind) (raw : Fields) → raises (build repr kind raw) ≡ has_bad_number raw
  unfolding build
  raises-build kind raw =
      let prov = section_of (lookup_or "provenance" null raw) in
      let train = section_of (lookup_or "training" null raw) in
      let a = lookup_or "n_local_extensions" null prov in
      let b = lookup_or "created_at" null raw in
      let c = lookup_or "n_samples" null train in
      let d = lookup_or "as_of_ms" null train in
      raises-bind4 (int_or_none a) (int_or_none b) (int_or_none c) (int_or_none d) _
      ∙ cc (raises-int_or_none a, raises-int_or_none b, raises-int_or_none c, raises-int_or_none d)

  raises-build_if_known :
      (kind : Option ArtifactKind) (raw : Fields)
      → raises (build_if_known repr kind raw) ≡ known kind && has_bad_number raw
  unfolding build_if_known
  raises-build_if_known none raw = refl
  raises-build_if_known (some kind) raw = raises-build kind raw

  -- Reading a JSON object raises exactly when it has the required fields, its artifact kind is
  -- known, and one of `n_local_extensions`, `created_at`, `n_samples` and `as_of_ms` is NaN or
  -- infinite. In all other cases it returns a manifest or a refusal.
  pub raises-manifest_from_dict :
      (raw : Fields)
      → raises (manifest_from_dict repr (object raw)) ≡ (
          has_required raw
          && known (kind_of (text_or repr "artifact_kind" "file" raw))
          && has_bad_number raw)
  unfolding manifest_from_dict manifest_from_fields
  raises-manifest_from_dict raw = elim (Bool-cases (has_required raw)) [
    | inl h ↦ rw h (raises-build_if_known (kind_of (text_or repr "artifact_kind" "file" raw)) raw)
    | inr h ↦ rw h
  ]
