-- ===== src/Registry/Validate/Soundness.antt =====
-- What an accepted artifact has passed.
use kenaz_ml.Prelude.{
  ℕ, string_eq, nat_eq, option_eq, list_eq, pair_eq, list_beq_iff, option_beq_iff, pair_beq_iff,
  Option, none, some, [], ◌≡◌, ◌≢◌, ◌↔◌, refl, arith, Text, codes, lower, strip, get_elem?,
  Option-cases, inl, inr,
}
use kenaz_ml.Exceptions.{Exc, ok, raised, ◌>>=◌}
use kenaz_ml.Registry.Manifest.{Manifest, FeatureContract, Refusal}
use kenaz_ml.Registry.Validate.{
  Sha256, FileRead, contents, missing, unreadable, VerifiedArtifact, Verification, verified,
  refused, verify_artifact_file, first_difference, dtypes_refusal, compare_contracts,
  validate_feature_contract, major_minor, compare_versions, check_running, validate_runtime,
  after_integrity, after_contract, validate_artifact, digest_chunk_bytes, digest_bytes,
}
use kenaz_ml.Registry.Validate.Digest.{digest_bytes_whole}

-- The ordered contract of the manifest is the expected one.
pub record SameContract (recorded expected : FeatureContract) : Type 0 where
  pub service : recorded.service ≡ expected.service
  pub service_version : recorded.service_version ≡ expected.service_version
  pub names : recorded.names ≡ expected.names
  pub dtypes : recorded.dtypes ≡ expected.dtypes

dtypes_refusal-some :
    (expected : FeatureContract) (at : Option ℕ) → dtypes_refusal expected at ≢ ok none
unfolding dtypes_refusal
dtypes_refusal-some expected none e = cc
dtypes_refusal-some expected (some index) e = elim (Option-cases (get_elem? expected.names index)) [
  | inl h ↦ ground (arith)
  | inr (name, h) ↦ ground (arith)
]

-- The comparison passes exactly when the two contracts agree in service, version, and in names and
-- dtypes element by element.
pub compare_contracts_iff :
    (recorded expected : FeatureContract)
    → (compare_contracts recorded expected ≡ ok none) ↔ SameContract recorded expected
unfolding compare_contracts
compare_contracts_iff recorded expected = ground (
  arith,
  option_beq_iff recorded.service expected.service,
  option_beq_iff recorded.service_version expected.service_version,
  list_beq_iff recorded.names expected.names,
  list_beq_iff recorded.dtypes expected.dtypes,
  dtypes_refusal-some expected (first_difference 0 expected.dtypes recorded.dtypes),
)

-- One major and minor version for the recorded runtime and the running one.
pub record SameRuntime (m : Manifest) (running : Option Text) : Type 0 where
  pub number : Text × Text
  pub recorded : major_minor (strip (codes m.runtime.sklearn_version)) ≡ some number
  pub version : Text
  pub runs : running ≡ some version
  pub same : major_minor version ≡ some number

compare_versions-none :
    (a b : Option (Text × Text))
    → compare_versions a b ≡ none
    → (number : Text × Text) × (a ≡ some number) × (b ≡ some number)
unfolding compare_versions
compare_versions-none none b h = cc
compare_versions-none (some a) none h = cc
compare_versions-none (some a) (some b) h = (a, refl, ground (arith, pair_beq_iff a b))

check_running-none :
    (recorded : Text) (running : Option Text)
    → check_running recorded running ≡ none
    → (version : Text) × (running ≡ some version)
      × (compare_versions (major_minor recorded) (major_minor version) ≡ none)
unfolding check_running
check_running-none recorded none h = cc
check_running-none recorded (some version) h = (version, refl, ground arith)

pub validate_runtime_sound :
    (m : Manifest) (running : Option Text)
    → validate_runtime m running ≡ none
    → SameRuntime m running
unfolding validate_runtime
validate_runtime_sound m running h =
    let recorded = strip (codes m.runtime.sklearn_version) in
    let (version, runs, e) = check_running-none recorded running (ground arith) in
    let (number, old, now) = compare_versions-none (major_minor recorded) (major_minor version) e in
    record { number = number; recorded = old; version = version; runs = runs; same = now }

module _ (sha : Sha256) where
  open sha use {start, update, hexdigest}

  -- The artifact's bytes are those whose digest the manifest records, its contract is the expected
  -- one, and its runtime is the running one.
  pub record Accepted (m : Manifest) (artifact : FileRead) (expected : Option FeatureContract)
      (running : Option Text) (a : VerifiedArtifact) : Type 0 where
    pub of_manifest : a.manifest ≡ m
    pub bytes : artifact ≡ contents a.payload
    pub recorded : lower (strip m.artifact_sha256) ≢ []
    pub digest : hexdigest (update start a.payload) ≡ lower (strip m.artifact_sha256)
    pub expects : FeatureContract
    pub is_expected : expected ≡ some expects
    pub same_contract : SameContract m.feature_contract expects
    pub same_runtime : SameRuntime m running

  record Intact (m : Manifest) (artifact : FileRead) (a : VerifiedArtifact) : Type 0 where
    of_manifest : a.manifest ≡ m
    bytes : artifact ≡ contents a.payload
    recorded : lower (strip m.artifact_sha256) ≢ []
    digest : hexdigest (update start a.payload) ≡ lower (strip m.artifact_sha256)

  verify_artifact_file_sound :
      (artifact : FileRead) (m : Manifest) (a : VerifiedArtifact)
      → verify_artifact_file sha artifact m ≡ verified a
      → Intact m artifact a
  unfolding verify_artifact_file
  verify_artifact_file_sound (contents payload) m a h =
      let whole = digest_bytes_whole sha digest_chunk_bytes payload (omega arith) in
      ground (
        arith,
        whole,
        list_beq_iff (lower (strip m.artifact_sha256)) [],
        list_beq_iff (digest_bytes sha digest_chunk_bytes payload)
            (lower (strip m.artifact_sha256)),
      )
  verify_artifact_file_sound missing m a h = cc
  verify_artifact_file_sound unreadable m a h = cc

  after_contract_sound :
      (artifact a : VerifiedArtifact) (running : Option Text) (m : Manifest)
      (outcome : Option Refusal)
      → after_contract artifact running m outcome ≡ verified a
      → (artifact ≡ a) × (outcome ≡ none) × (validate_runtime m running ≡ none)
  unfolding after_contract
  after_contract_sound artifact a running m outcome h = ground arith

  validate_contract_sound :
      (m : Manifest) (expected : Option FeatureContract)
      → validate_feature_contract m expected ≡ ok none
      → (c : FeatureContract) × (expected ≡ some c) × SameContract m.feature_contract c
  unfolding validate_feature_contract
  validate_contract_sound m none h = cc
  validate_contract_sound m (some c) h = (c, refl, (compare_contracts_iff m.feature_contract c).0 h)

  after_integrity_sound :
      (v : Verification) (expected : Option FeatureContract) (running : Option Text) (m : Manifest)
      (a : VerifiedArtifact)
      → after_integrity v expected running m ≡ ok (verified a)
      → (v ≡ verified a)
        × (validate_feature_contract m expected ≡ ok none)
        × (validate_runtime m running ≡ none)
  unfolding after_integrity
  after_integrity_sound (refused r) expected running m a h = cc
  after_integrity_sound (verified b) expected running m a h =
      after_outcome (validate_feature_contract m expected) refl h
    where
      after_outcome :
          (outcome : Exc (Option Refusal))
          → validate_feature_contract m expected ≡ outcome
          → (outcome >>= λ o. ok (after_contract b running m o)) ≡ ok (verified a)
          → (verified b ≡ verified a)
            × (validate_feature_contract m expected ≡ ok none)
            × (validate_runtime m running ≡ none)
      after_outcome (raised x) e k = cc
      after_outcome (ok o) e k =
          let (same, none_left, r) = after_contract_sound b a running m o (ground arith) in
          (cc same, cc (e, none_left), r)

  -- What `validate_artifact` accepts has passed all three checks: the bytes read are the bytes
  -- carried on, their SHA-256 is the recorded one, the ordered contract is the expected one, and
  -- the recorded and running scikit-learn agree in major and minor version.
  pub validate_artifact_sound :
      (m : Manifest) (artifact : FileRead) (expected : Option FeatureContract)
      (running : Option Text) (a : VerifiedArtifact)
      → validate_artifact sha m artifact expected running ≡ ok (verified a)
      → Accepted m artifact expected running a
  unfolding validate_artifact
  validate_artifact_sound m artifact expected running a h =
      let (v, c, r) =
        after_integrity_sound (verify_artifact_file sha artifact m) expected running m a h in
      let i = verify_artifact_file_sound artifact m a v in
      let (expects, e, same) = validate_contract_sound m expected c in
      record {
        of_manifest = i.of_manifest;
        bytes = i.bytes;
        recorded = i.recorded;
        digest = i.digest;
        expects = expects;
        is_expected = e;
        same_contract = same;
        same_runtime = validate_runtime_sound m running r;
      }
