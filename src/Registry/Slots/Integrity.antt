-- ===== src/Registry/Slots/Integrity.antt =====
-- What a model object that modelstore/registry/slots.py serves has passed.
use kenaz_ml.Prelude.{
  Option, some, List, [], ◌∷◌, ◌++◌, ◌≡◌, ◌≢◌, refl, ap, ◌∙◌, subst, Text, arith, Bool-cases, inl,
  inr, Option-cases,
}
use kenaz_ml.Exceptions.{ok, ok_injective, bind_ok, ◌>>=◌}
use kenaz_ml.Registry.Manifest.{Manifest, ManifestRead, read, FeatureContract}
use kenaz_ml.Registry.Validate
use kenaz_ml.Registry.Validate.{
  VerifiedArtifact, Verification, FileRead, or_local, or_running, validate_artifact,
}
use kenaz_ml.Registry.Validate.Soundness.{Accepted, validate_artifact_sound}
use kenaz_ml.Registry.Directory
use kenaz_ml.Registry.Directory.{DirectoryOutcome, validate_artifact_directory}
use kenaz_ml.Registry.Slots.{
  Slot, SlotDir, SlotRefusal, Outside, object, Resolution, resolved, slot_is_empty, read_manifest,
  deserialize_verified, load_if_verified, path_if_verified, try_directory_slot, is_directory,
  try_pair, try_file_slot, try_by_kind, try_slot, resolve_model, ladder,
}
use kenaz_ml.Registry.Slots.Ladder.{Outcome, answered, exhausted, resolve_model_outcome}

module _ (out : Outside) (expected : Option FeatureContract) (running : Option Text) where
  open out use {Model, sha, load, encode, declared, installed}

  -- The object came out of the bytes of the slot's artifact, after these had passed every check
  -- against the manifest of the slot.
  pub record Sound (dir : SlotDir) (model : Model) (a : VerifiedArtifact) (m : Manifest)
      : Type 0 where
    pub loaded : load a.payload ≡ some model
    pub described : read_manifest out dir.manifest_file.reading ≡ ok (read m)
    pub accepted :
        Accepted sha m dir.artifact.reading
          (or_local expected (declared m.name))
          (or_running running installed)
          a

  load_if_verified_sound :
      (m m' : Manifest) (v : Verification) (model : Model) (a : VerifiedArtifact)
      → load_if_verified out m v ≡ resolved (object model a) m'
      → (v ≡ Validate.verified a) × (load a.payload ≡ some model) × (m ≡ m')
  unfolding load_if_verified deserialize_verified
  load_if_verified_sound m m' (Validate.refused r) model a h = cc
  load_if_verified_sound m m' (Validate.verified b) model a h =
      elim (Option-cases (load b.payload)) [
        | inl none_left ↦ ground (arith)
        | inr (loaded, e) ↦ ground (arith)
      ]

  try_pair_sound :
      (dir : SlotDir) (found : ManifestRead) (model : Model) (a : VerifiedArtifact) (m : Manifest)
      → try_pair out dir expected running found ≡ ok (resolved (object model a) m)
      → (found ≡ read m)
        × (load a.payload ≡ some model)
        × Accepted sha m dir.artifact.reading
            (or_local expected (declared m.name))
            (or_running running installed)
            a
  unfolding try_pair
  try_pair_sound dir (ManifestRead.refused r) model a m h = cc
  try_pair_sound dir (read m') model a m h =
      let contract = or_local expected (declared m'.name) in
      let version = or_running running installed in
      let (v, e, k) =
        bind_ok (validate_artifact sha m' dir.artifact.reading contract version) _ h in
      let (same, loaded, described) = load_if_verified_sound m' m v model a (ok_injective k) in
      let accepted =
        validate_artifact_sound sha m' dir.artifact.reading contract version a (e ∙ ap ok same) in
      (
        ap read described,
        loaded,
        subst
            (λ (w : Manifest).
              Accepted sha w dir.artifact.reading (or_local expected (declared w.name)) version a)
            described accepted,
      )

  try_manifest-Sound :
      (dir : SlotDir) (model : Model) (a : VerifiedArtifact) (m : Manifest)
      → (read_manifest out dir.manifest_file.reading >>= try_pair out dir expected running)
        ≡ ok (resolved (object model a) m)
      → Sound dir model a m
  try_manifest-Sound dir model a m h =
      let (found, e, k) =
        bind_ok (read_manifest out dir.manifest_file.reading) (try_pair out dir expected running)
          h in
      let (same, loaded, accepted) = try_pair_sound dir found model a m k in
      record { loaded = loaded; described = e ∙ ap ok same; accepted = accepted }

  try_file_slot-Sound :
      (dir : SlotDir) (model : Model) (a : VerifiedArtifact) (m : Manifest)
      → try_file_slot out dir expected running ≡ ok (resolved (object model a) m)
      → Sound dir model a m
  unfolding try_file_slot try_pair
  try_file_slot-Sound dir model a m h = elim (Bool-cases (slot_is_empty dir)) [
    | inl empty ↦ absurd (cc (rw empty at h))
    | inr full ↦ elim (Bool-cases dir.artifact.exists) [
      | inl there ↦ try_manifest-Sound dir model a m (rw there at (rw full at h))
      | inr gone ↦ absurd (cc (rw gone at (rw full at h)))
    ]
  ]

  path_no_object :
      (m' m : Manifest) (outcome : DirectoryOutcome) (model : Model) (a : VerifiedArtifact)
      → path_if_verified out m' outcome ≢ resolved (object model a) m
  path_no_object m' m (Directory.refused r) model a h = cc
  path_no_object m' m (Directory.verified d) model a h = cc

  directory_no_object :
      (dir : SlotDir) (m' m : Manifest) (model : Model) (a : VerifiedArtifact)
      → try_directory_slot out dir m' expected ≢ ok (resolved (object model a) m)
  unfolding try_directory_slot
  directory_no_object dir m' m model a h = elim (Bool-cases dir.checkpoint_exists) [
    | inl there ↦
        let (outcome, e, k) =
          bind_ok
            (validate_artifact_directory sha encode m' dir.checkpoint
              (or_local expected (declared m'.name)))
            _ (rw there at h) in
        path_no_object m' m outcome model a (ok_injective k)
    | inr gone ↦ cc (rw gone at h)
  ]

  try_by_kind-Sound :
      (dir : SlotDir) (early : ManifestRead) (model : Model) (a : VerifiedArtifact) (m : Manifest)
      → try_by_kind out dir expected running early ≡ ok (resolved (object model a) m)
      → Sound dir model a m
  unfolding try_by_kind
  try_by_kind-Sound dir (ManifestRead.refused r) model a m h = try_file_slot-Sound dir model a m h
  try_by_kind-Sound dir (read m') model a m h = elim (Bool-cases (is_directory m'.artifact_kind)) [
    | inl d ↦ absurd (directory_no_object dir m' m model a (rw d at h))
    | inr f ↦ try_file_slot-Sound dir model a m (rw f at h)
  ]

  -- A model object that a slot serves was deserialized from that slot's artifact after integrity,
  -- contract and runtime had been checked.
  pub try_slot-Sound :
      (dir : SlotDir) (model : Model) (a : VerifiedArtifact) (m : Manifest)
      → try_slot out dir expected running ≡ ok (resolved (object model a) m)
      → Sound dir model a m
  unfolding try_slot try_by_kind try_directory_slot try_file_slot slot_is_empty try_pair
  try_slot-Sound dir model a m h = elim (Bool-cases dir.manifest_file.is_file) [
    | inl there ↦
        let (early, e, k) =
          bind_ok (read_manifest out dir.manifest_file.reading) _ (rw there at h) in
        try_by_kind-Sound dir early model a m k
    | inr gone ↦ try_file_slot-Sound dir model a m (rw gone at h)
  ]

  outcome-Sound :
      (rungs : List (Slot × SlotDir)) (acc : List SlotRefusal) (res : Resolution Model)
      (model : Model) (a : VerifiedArtifact)
      → Outcome out expected running rungs acc res
      → res.model ≡ some (object model a)
      → (before after : List (Slot × SlotDir)) × (dir : SlotDir) × (m : Manifest) × (rungs
          ≡ before ++ (res.slot, dir) ∷ after)
        × (res.manifest ≡ some m)
        × Sound dir model a m
  outcome-Sound rungs acc res model a (answered before after at dir served m refs split h t) e =
      (before, after, dir, m, split, refl, try_slot-Sound dir model a m (cc (t, e)))
  outcome-Sound rungs acc res model a (exhausted refs h) e = cc

  -- When `resolve_model` returns with a model object, that object was deserialized from bytes of
  -- the reported slot's artifact that had passed integrity, contract and runtime checks against the
  -- slot's manifest, which is the manifest that is reported.
  pub resolve_model-Sound :
      (local_dir base_dir : SlotDir) (org_dir : Option SlotDir) (res : Resolution Model)
      (model : Model) (a : VerifiedArtifact)
      → resolve_model out local_dir org_dir base_dir expected running ≡ ok res
      → res.model ≡ some (object model a)
      → (before after : List (Slot × SlotDir)) × (dir : SlotDir) × (m : Manifest) × (ladder
            local_dir org_dir base_dir
          ≡ before ++ (res.slot, dir) ∷ after)
        × (res.manifest ≡ some m)
        × Sound dir model a m
  resolve_model-Sound local_dir base_dir org_dir res model a h e =
      outcome-Sound (ladder local_dir org_dir base_dir) [] res model a
        (resolve_model_outcome out expected running local_dir base_dir org_dir res h) e
