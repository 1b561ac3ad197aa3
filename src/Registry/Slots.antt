-- ===== src/Registry/Slots.antt =====
-- kenaz_ml/modelstore/registry/slots.py: the ladder local, org, base, cold start.
-- The file system is given by what stands at each path at the time of the call; joblib, hashlib and
-- the JSON parser are parameters. Logging is left out.
pub mod Ladder
pub mod Returns
pub mod Raises
pub mod Integrity
use kenaz_ml.Prelude.{
  ℕ, String, Bool, true, false, not, ◌&&◌, ◌||◌, Option, none, some, List, [], ◌∷◌, ◌++◌,
  if◌then◌else◌, Text,
}
use kenaz_ml.Exceptions.{Exc, ok, raised, ◌>>=◌}
use kenaz_ml.Registry.Json.{Json}
use kenaz_ml.Registry.Manifest.{
  Manifest, ManifestRead, manifest_from_dict, FeatureContract, Refusal, manifest, integrity, slot,
  ArtifactKind, file, directory, unparseable, not_found, undeserializable, slot_empty,
  artifact_not_found, Reason,
}
use kenaz_ml.Registry.Validate
use kenaz_ml.Registry.Validate.{
  Bytes, Sha256, FileRead, contents, missing, VerifiedArtifact, Verification, refuse, or_local,
  or_running, validate_artifact,
}
use kenaz_ml.Registry.Directory
use kenaz_ml.Registry.Directory.{
  DirectoryState, DirectoryOutcome, VerifiedDirectory, validate_artifact_directory,
}

pub data Slot : Type 0 where
  local org base cold_start : Slot

-- One path of a slot: a file, as reads see it.
pub record FileState : Type 0 where
  pub exists : Bool
  pub is_file : Bool
  pub reading : FileRead

-- What a slot directory holds under one model's name.
pub record SlotDir : Type 0 where
  pub artifact : FileState
  pub manifest_file : FileState
  pub checkpoint_exists : Bool
  pub checkpoint : DirectoryState

pub record SlotRefusal : Type 0 where
  pub slot : Slot
  pub refusal : Refusal

-- What the registry takes from outside: joblib's load (`none` is an exception), the JSON parser
-- (`none` is a `ValueError`), `str` of a value that is no text, the encoding of a path, the
-- contracts that the local install declares, and the version of scikit-learn that runs.
pub record Outside : Type 1 where
  pub Model : Type 0
  pub sha : Sha256
  pub load : Bytes → Option Model
  pub parse : Bytes → Option Json
  pub repr : Json → String
  pub encode : String → Bytes
  pub declared : String → Option FeatureContract
  pub installed : Option Text

-- A model that is served: a deserialized object, or the path of a verified directory.
pub data Served (M : Type 0) : Type 0 where
  object : M → VerifiedArtifact → Served M
  path : VerifiedDirectory → Served M

-- `Resolution` with `slot`, `model` and `manifest`, or the cold start.
pub record Resolution (M : Type 0) : Type 0 where
  pub slot : Slot
  pub model : Option (Served M)
  pub manifest : Option Manifest
  pub refusals : List SlotRefusal

-- The pair of `_try_slot`, of which exactly one is set.
pub data Attempt (M : Type 0) : Type 0 where
  resolved : Served M → Manifest → Attempt M
  refusal : Refusal → Attempt M

-- `slot_is_empty`
unfoldable pub slot_is_empty : SlotDir → Bool
slot_is_empty dir = not dir.artifact.exists && not dir.manifest_file.exists

abbrev pub is_cold : Slot → Bool
is_cold cold_start = true
is_cold _ = false

abbrev pub is_directory : ArtifactKind → Bool
is_directory directory = true
is_directory file = false

module _ {M : Type 0} where
  -- `Resolution.served`
  unfoldable pub served : Resolution M → Bool
  served r = not (is_cold r.slot)

-- The ladder of `resolve_model`: an org slot only where one is given.
unfoldable pub ladder : SlotDir → Option SlotDir → SlotDir → List (Slot × SlotDir)
ladder local_dir none base_dir = (local, local_dir) ∷ (base, base_dir) ∷ []
ladder local_dir (some org_dir) base_dir =
    (local, local_dir) ∷ (org, org_dir) ∷ (base, base_dir) ∷ []

module _ (out : Outside) where
  open out use {Model, sha, load, parse, repr, encode, declared, installed}

  unfoldable pub read_parsed : Option Json → Exc ManifestRead
  read_parsed none = ok (ManifestRead.refused (refuse manifest unparseable))
  read_parsed (some raw) = manifest_from_dict repr raw

  -- `read_manifest` and `read_manifest_text`
  unfoldable pub read_manifest : FileRead → Exc ManifestRead
  read_manifest (contents text) = read_parsed (parse text)
  read_manifest missing = ok (ManifestRead.refused (refuse manifest not_found))
  read_manifest FileRead.unreadable = ok (ManifestRead.refused (refuse manifest Reason.unreadable))

  -- `deserialize_verified`, and the resolution that it gives
  unfoldable pub deserialize_verified : Manifest → VerifiedArtifact → Option Model → Attempt Model
  deserialize_verified m artifact none = refusal (refuse integrity undeserializable)
  deserialize_verified m artifact (some model) = resolved (object model artifact) m

  unfoldable pub load_if_verified : Manifest → Verification → Attempt Model
  load_if_verified m (Validate.refused r) = refusal r
  load_if_verified m (Validate.verified artifact) =
      deserialize_verified m artifact (load artifact.payload)

  abbrev pub path_if_verified : Manifest → DirectoryOutcome → Attempt Model
  path_if_verified m (Directory.refused r) = refusal r
  path_if_verified m (Directory.verified d) = resolved (path d) m

  -- `_try_directory_slot`
  unfoldable pub try_directory_slot :
      SlotDir → Manifest → Option FeatureContract → Exc (Attempt Model)
  try_directory_slot dir m expected =
      if not dir.checkpoint_exists then ok (refusal (refuse slot artifact_not_found)) else do
        outcome ←
            validate_artifact_directory sha encode m dir.checkpoint
              (or_local expected (declared m.name))
        ok (path_if_verified m outcome)

  -- The joblib flow of `_try_slot` once a manifest is read.
  unfoldable pub try_pair :
      SlotDir → Option FeatureContract → Option Text → ManifestRead → Exc (Attempt Model)
  try_pair dir expected running (ManifestRead.refused r) = ok (refusal r)
  try_pair dir expected running (ManifestRead.read m) = do
    outcome ←
        validate_artifact sha m dir.artifact.reading (or_local expected (declared m.name))
          (or_running running installed)
    ok (load_if_verified m outcome)

  -- `_try_slot` for a slot with no directory artifact
  unfoldable pub try_file_slot :
      SlotDir → Option FeatureContract → Option Text → Exc (Attempt Model)
  try_file_slot dir expected running =
      if slot_is_empty dir
      then ok (refusal (refuse slot slot_empty))
      else if not dir.artifact.exists
      then ok (refusal (refuse slot artifact_not_found))
      else do found ← read_manifest dir.manifest_file.reading; try_pair dir expected running found

  unfoldable pub try_by_kind :
      SlotDir → Option FeatureContract → Option Text → ManifestRead → Exc (Attempt Model)
  try_by_kind dir expected running (ManifestRead.refused r) = try_file_slot dir expected running
  try_by_kind dir expected running (ManifestRead.read m) =
      if is_directory m.artifact_kind
      then try_directory_slot dir m expected
      else try_file_slot dir expected running

  -- `_try_slot`: the manifest is read once to learn the kind of the artifact.
  unfoldable pub try_slot : SlotDir → Option FeatureContract → Option Text → Exc (Attempt Model)
  try_slot dir expected running =
      if dir.manifest_file.is_file
      then (do
        early ← read_manifest dir.manifest_file.reading
        try_by_kind dir expected running early)
      else try_file_slot dir expected running

  abbrev pub resolution_at : Slot → Served Model → Manifest → List SlotRefusal → Resolution Model
  resolution_at at model m refusals = record {
    slot = at;
    model = some model;
    manifest = some m;
    refusals = refusals;
  }

  abbrev pub cold : List SlotRefusal → Resolution Model
  cold refusals = record { slot = cold_start; model = none; manifest = none; refusals = refusals }

  -- What the loop of `resolve_model` does with one slot's attempt; `next` is the rest of the loop.
  unfoldable pub on_attempt :
      Slot
      → Exc (Attempt Model)
      → List SlotRefusal
      → (List SlotRefusal → Exc (Resolution Model))
      → Exc (Resolution Model)
  on_attempt at (raised e) refusals next = raised e
  on_attempt at (ok (resolved model m)) refusals next = ok (resolution_at at model m refusals)
  on_attempt at (ok (refusal r)) refusals next =
      next (refusals ++ record { slot = at; refusal = r } ∷ [])

  -- The loop of `resolve_model`, with the refusals collected so far.
  unfoldable pub climb :
      Option FeatureContract
      → Option Text
      → List (Slot × SlotDir)
      → List SlotRefusal
      → Exc (Resolution Model)
  climb expected running [] refusals = ok (cold refusals)
  climb expected running ((at, dir) ∷ rest) refusals =
      on_attempt at (try_slot dir expected running) refusals
        (λ collected. climb expected running rest collected)

  unfoldable pub resolve_model :
      SlotDir
      → Option SlotDir
      → SlotDir
      → Option FeatureContract
      → Option Text
      → Exc (Resolution Model)
  resolve_model local_dir org_dir base_dir expected running =
      climb expected running (ladder local_dir org_dir base_dir) []
