-- ===== src/Registry/Slots/Returns.antt =====
-- When `resolve_model` of modelstore/registry/slots.py returns.
use kenaz_ml.Prelude.{
  ℕ, zero, suc, ◌+◌, ◌≤◌, ◌<◌, String, Bool, true, false, Option, none, some, List, [], ◌∷◌, ◌≡◌,
  refl, Text, arith, Bool-cases, inl, inr, if◌then◌else◌, length, get_elem?, ◌==◌, string_eq,
}
use kenaz_ml.Exceptions.{Exc, ok, raised, raises, ◌>>=◌}
use kenaz_ml.Registry.Manifest.{Manifest, ManifestRead, FeatureContract}
use kenaz_ml.Registry.Validate
use kenaz_ml.Registry.Validate.{
  Sha256, FileRead, contents, Verification, or_local, or_running, first_difference, dtypes_refusal,
  compare_contracts, validate_feature_contract, after_integrity, validate_artifact,
  verify_artifact_file,
}
use kenaz_ml.Registry.Directory
use kenaz_ml.Registry.Directory.{
  DirectoryState, DirectoryOutcome, after_directory, validate_artifact_directory,
  verify_artifact_directory,
}
use kenaz_ml.Registry.Slots.{
  Slot, SlotDir, Outside, read_manifest, try_directory_slot, try_pair, try_file_slot, try_by_kind,
  try_slot, is_directory, ladder, resolve_model,
}
use kenaz_ml.Registry.Slots.Ladder.{Quiet, climb_returns}

-- Every dtype of a contract has its name.
abbrev pub IsAligned : Option FeatureContract → Type 0
IsAligned none = Unit
IsAligned (some c) = length c.dtypes ≤ length c.names

abbrev Below : ℕ → Option ℕ → Type 0
Below n none = Unit
Below n (some i) = i < n

Below-le : {n m : ℕ} (o : Option ℕ) → n ≤ m → Below n o → Below m o
Below-le none h b = tt
Below-le (some i) h b = omega arith

first_difference-Below :
    (index : ℕ) (xs ys : List String) → Below (index + length xs) (first_difference index xs ys)
unfolding first_difference
first_difference-Below index [] ys = tt
first_difference-Below index (x ∷ xs) [] = tt
first_difference-Below index (x ∷ xs) (y ∷ ys) = elim (Bool-cases (x == y)) [
  | inl e ↦ rw e (
      Below-le (first_difference (index + 1) xs ys) (omega arith)
        (first_difference-Below (index + 1) xs ys))
  | inr e ↦ rw e (omega arith)
]

get_elem?_below :
    (xs : List String) (i : ℕ) → i < length xs → (x : String) × (get_elem? xs i ≡ some x)
get_elem?_below [] i h = elim h [ ]
get_elem?_below (x ∷ xs) zero h = (x, refl)
get_elem?_below (x ∷ xs) (suc i) h = get_elem?_below xs i (omega arith)

dtypes_refusal_returns :
    (c : FeatureContract) (at : Option ℕ)
    → Below (length c.names) at
    → raises (dtypes_refusal c at) ≡ false
unfolding dtypes_refusal
dtypes_refusal_returns c none h = refl
dtypes_refusal_returns c (some i) h = let (x, e) = get_elem?_below c.names i h in rw (e, raises)

pub validate_feature_contract_returns :
    (m : Manifest) (expected : Option FeatureContract)
    → IsAligned expected
    → raises (validate_feature_contract m expected) ≡ false
unfolding validate_feature_contract compare_contracts
validate_feature_contract_returns m none h = refl
validate_feature_contract_returns m (some c) h =
    let at = first_difference 0 c.dtypes m.feature_contract.dtypes in
    let below = first_difference-Below 0 c.dtypes m.feature_contract.dtypes in
    ground (arith, dtypes_refusal_returns c at (Below-le at (omega arith) below))

-- A chain whose first call returns and whose rest returns, returns.
bind_returns {ℓ} :
    {A B : Type ℓ} (m : Exc A) (f : A → Exc B)
    → raises m ≡ false
    → ((a : A) → raises (f a) ≡ false)
    → raises (m >>= f) ≡ false
bind_returns (ok a) f h k = k a
bind_returns (raised x) f h k = cc

if_returns {ℓ} :
    {A : Type ℓ} (b : Bool) (x y : Exc A)
    → raises x ≡ false
    → raises y ≡ false
    → raises (if b then x else y) ≡ false
if_returns true x y h k = h
if_returns false x y h k = k

after_integrity_returns :
    (v : Verification) (expected : Option FeatureContract) (running : Option Text) (m : Manifest)
    → IsAligned expected
    → raises (after_integrity v expected running m) ≡ false
unfolding after_integrity
after_integrity_returns (Validate.refused r) expected running m h = refl
after_integrity_returns (Validate.verified a) expected running m h =
    bind_returns (validate_feature_contract m expected) _
      (validate_feature_contract_returns m expected h) (λ o. refl)

after_directory_returns :
    (sha : Sha256) (encode : String → Validate.Bytes) (m : Manifest)
    (expected : Option FeatureContract) (outcome : DirectoryOutcome)
    → IsAligned expected
    → raises (after_directory sha encode m expected outcome) ≡ false
unfolding after_directory
after_directory_returns sha encode m expected (Directory.refused r) h = refl
after_directory_returns sha encode m expected (Directory.verified d) h =
    bind_returns (validate_feature_contract m expected) _
      (validate_feature_contract_returns m expected h) (λ o. refl)

module _ (out : Outside) (expected : Option FeatureContract) (running : Option Text)
    (aligned : (name : String) → IsAligned (or_local expected (out.declared name))) where
  open out use {sha, encode, declared, installed}

  try_pair_returns :
      (dir : SlotDir) (found : ManifestRead)
      → raises (try_pair out dir expected running found) ≡ false
  unfolding try_pair validate_artifact
  try_pair_returns dir (ManifestRead.refused r) = refl
  try_pair_returns dir (ManifestRead.read m) =
      bind_returns
        (validate_artifact sha m dir.artifact.reading (or_local expected (declared m.name))
          (or_running running installed))
        _
        (after_integrity_returns (verify_artifact_file sha dir.artifact.reading m)
          (or_local expected (declared m.name)) (or_running running installed) m (aligned m.name))
        (λ o. refl)

  try_directory_returns :
      (dir : SlotDir) (m : Manifest) → raises (try_directory_slot out dir m expected) ≡ false
  unfolding try_directory_slot validate_artifact_directory
  try_directory_returns dir m = elim (Bool-cases dir.checkpoint_exists) [
    | inl there ↦ rw there (
        bind_returns
          (validate_artifact_directory sha encode m dir.checkpoint
            (or_local expected (declared m.name)))
          _
          (after_directory_returns sha encode m (or_local expected (declared m.name))
            (verify_artifact_directory sha encode dir.checkpoint m) (aligned m.name))
          (λ o. refl))
    | inr gone ↦ rw gone
  ]

  try_file_slot_returns :
      (dir : SlotDir)
      → raises (read_manifest out dir.manifest_file.reading) ≡ false
      → raises (try_file_slot out dir expected running) ≡ false
  unfolding try_file_slot
  try_file_slot_returns dir h =
      let flow =
        bind_returns (read_manifest out dir.manifest_file.reading)
          (try_pair out dir expected running) h (try_pair_returns dir) in
      ground (arith, flow)

  try_by_kind_returns :
      (dir : SlotDir) (early : ManifestRead)
      → raises (read_manifest out dir.manifest_file.reading) ≡ false
      → raises (try_by_kind out dir expected running early) ≡ false
  unfolding try_by_kind
  try_by_kind_returns dir (ManifestRead.refused r) h = try_file_slot_returns dir h
  try_by_kind_returns dir (ManifestRead.read m) h =
      elim (Bool-cases (is_directory m.artifact_kind)) [
        | inl d ↦ rw d (try_directory_returns dir m)
        | inr f ↦ rw f (try_file_slot_returns dir h)
      ]

  try_slot_returns :
      (dir : SlotDir)
      → raises (read_manifest out dir.manifest_file.reading) ≡ false
      → raises (try_slot out dir expected running) ≡ false
  unfolding try_slot
  try_slot_returns dir h =
      if_returns dir.manifest_file.is_file _ _
        (bind_returns (read_manifest out dir.manifest_file.reading)
          (try_by_kind out dir expected running) h (λ early. try_by_kind_returns dir early h))
        (try_file_slot_returns dir h)

  -- The manifests of all slots of the ladder are read without an exception.
  abbrev pub Readable : List (Slot × SlotDir) → Type 0
  Readable [] = Unit {0}
  Readable (rung ∷ rungs) =
      (raises (read_manifest out rung.1.manifest_file.reading) ≡ false) × Readable rungs

  Readable-Quiet :
      (rungs : List (Slot × SlotDir)) → Readable rungs → Quiet out expected running rungs
  Readable-Quiet [] h = tt
  Readable-Quiet (rung ∷ rungs) h = (try_slot_returns rung.1 h.0, Readable-Quiet rungs h.1)

  -- Where every contract that is asked for has a name for each dtype, and reading the manifest of
  -- no slot raises, `resolve_model` returns.
  pub resolve_model_returns :
      (local_dir base_dir : SlotDir) (org_dir : Option SlotDir)
      → Readable (ladder local_dir org_dir base_dir)
      → raises (resolve_model out local_dir org_dir base_dir expected running) ≡ false
  unfolding resolve_model
  resolve_model_returns local_dir base_dir org_dir h =
      climb_returns out expected running (ladder local_dir org_dir base_dir) []
        (Readable-Quiet (ladder local_dir org_dir base_dir) h)
