-- ===== src/Registry/Slots/Raises.antt =====
-- When `resolve_model` of modelstore/registry/slots.py raises.
use kenaz_ml.Prelude.{true, Option, none, some, List, [], ◌≡◌, refl, ◌∙◌, Text, arith}
use kenaz_ml.Exceptions.{Exc, ok, raised, raises, ◌>>=◌}
use kenaz_ml.Registry.Json.{object, Fields}
use kenaz_ml.Registry.Manifest.{FeatureContract, has_required, kind_of, text_or}
use kenaz_ml.Registry.Manifest.Raises.{has_bad_number, raises-manifest_from_dict, known}
use kenaz_ml.Registry.Validate
use kenaz_ml.Registry.Validate.{contents}
use kenaz_ml.Registry.Slots.{
  Slot, local, SlotDir, Outside, Attempt, Resolution, SlotRefusal, read_manifest, read_parsed,
  try_by_kind, try_slot, ladder, resolve_model, climb, on_attempt,
}

module _ (out : Outside) (expected : Option FeatureContract) (running : Option Text) where
  open out use {parse, repr}

  bind_raises {ℓ} :
      {A B : Type ℓ} (m : Exc A) (f : A → Exc B) → raises m ≡ true → raises (m >>= f) ≡ true
  bind_raises (ok a) f h = cc
  bind_raises (raised x) f h = refl

  try_slot-raises :
      (dir : SlotDir)
      → dir.manifest_file.is_file ≡ true
      → raises (read_manifest out dir.manifest_file.reading) ≡ true
      → raises (try_slot out dir expected running) ≡ true
  unfolding try_slot
  try_slot-raises dir there h =
      let x = read_manifest out dir.manifest_file.reading in
      ground (arith, bind_raises x (try_by_kind out dir expected running) h)

  on_attempt_raised :
      (at : Slot) (a : Exc (Attempt out.Model))
      → raises a ≡ true
      → (next : List SlotRefusal → Exc (Resolution out.Model))
      → raises (on_attempt out at a [] next) ≡ true
  unfolding on_attempt
  on_attempt_raised at (ok a) h next = cc
  on_attempt_raised at (raised x) h next = refl

  read_manifest-raises :
      (text : Validate.Bytes) (raw : Fields)
      → parse text ≡ some (object raw)
      → has_required raw ≡ true
      → known (kind_of (text_or repr "artifact_kind" "file" raw)) ≡ true
      → has_bad_number raw ≡ true
      → raises (read_manifest out (contents text)) ≡ true
  unfolding read_manifest read_parsed
  read_manifest-raises text raw p required kind bad =
      rw (p, read_parsed) (raises-manifest_from_dict repr raw ∙ rw (required, kind, bad) refl)

  -- A local manifest that parses to an object with the required fields, a known artifact kind and a
  -- NaN or infinite number in one of its four numeric fields makes `resolve_model` raise, whatever
  -- the other slots hold.
  pub resolve_model-raises :
      (local_dir base_dir : SlotDir) (org_dir : Option SlotDir) (text : Validate.Bytes)
      (raw : Fields)
      → local_dir.manifest_file.is_file ≡ true
      → local_dir.manifest_file.reading ≡ contents text
      → parse text ≡ some (object raw)
      → has_required raw ≡ true
      → known (kind_of (text_or repr "artifact_kind" "file" raw)) ≡ true
      → has_bad_number raw ≡ true
      → raises (resolve_model out local_dir org_dir base_dir expected running) ≡ true
  unfolding resolve_model climb ladder
  resolve_model-raises local_dir base_dir none text raw there e p required kind bad =
      on_attempt_raised local _
        (try_slot-raises local_dir there (rw e (read_manifest-raises text raw p required kind bad)))
        _
  resolve_model-raises local_dir base_dir (some org_dir) text raw there e p required kind bad =
      on_attempt_raised local _
        (try_slot-raises local_dir there (rw e (read_manifest-raises text raw p required kind bad)))
        _
