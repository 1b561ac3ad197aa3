-- ===== src/Registry/Validate.antt =====
-- The three checks of modelstore/registry/manifest.py: integrity, feature contract, runtime.
-- hashlib, the file system and joblib are parameters; a check returns its refusal.
pub mod Digest
pub mod Soundness
use kenaz_ml.Prelude.{
  ℕ, zero, suc, ◌+◌, ◌-◌, ◌/◌, String, string_eq, nat_eq, option_eq, list_eq, pair_eq, ◌==◌, Bool,
  true, false, not, ◌&&◌, ◌||◌, Option, none, some, List, [], ◌∷◌, ◌++◌, if◌then◌else◌, Text, codes,
  lower, strip, split_dots, is_digit, length, get_elem?, drop, take, ◌≡◌,
}
use kenaz_ml.Exceptions.{Exc, ok, raised, index_error, ◌>>=◌}
use kenaz_ml.Registry.Manifest.{
  Manifest, Refusal, Check, Reason, FeatureContract, integrity, contract, runtime,
  no_expected_digest, digest_mismatch, not_found, contract_unregistered, service_mismatch,
  service_version_mismatch, feature_names_mismatch, feature_dtypes_mismatch, no_recorded_version,
  runtime_unavailable, unparseable_version, sklearn_version_incompatible,
}

abbrev pub Bytes : Type 0
Bytes = List ℕ

-- hashlib.sha256(): a hash that is fed piece by piece.
pub record Sha256 : Type 1 where
  pub State : Type 0
  pub start : State
  pub update : State → Bytes → State
  pub hexdigest : State → Text
  pub update-nil : (s : State) → update s [] ≡ s
  pub update-append : (s : State) (a b : Bytes) → update (update s a) b ≡ update s (a ++ b)

-- What reading a file does.
pub data FileRead : Type 0 where
  contents : Bytes → FileRead
  missing unreadable : FileRead

-- `VerifiedArtifact`: the bytes whose digest matched.
pub record VerifiedArtifact : Type 0 where
  pub manifest : Manifest
  pub payload : Bytes
  pub digest : Text

pub data Verification : Type 0 where
  verified : VerifiedArtifact → Verification
  refused : Refusal → Verification

abbrev pub refuse : Check → Reason → Refusal
refuse check reason = record { check = check; reason = reason }

abbrev pub digest_chunk_bytes : ℕ
digest_chunk_bytes = 1048576

module _ (sha : Sha256) where
  open sha use {State, start, update, hexdigest}

  -- The loop of `_digest_bytes`: `rounds` pieces of `size` bytes.
  unfoldable pub feed : ℕ → ℕ → Bytes → State → State
  feed size zero view state = state
  feed size (suc rounds) view state =
      feed size rounds (drop size view) (update state (take size view))

  -- The starts are `range(0, len(view), chunk)`.
  unfoldable pub digest_bytes : ℕ → Bytes → Text
  unfolding feed
  digest_bytes chunk payload =
      hexdigest (feed chunk ((length payload + chunk - 1) / chunk) payload start)

  unfoldable pub verify_artifact_bytes : Bytes → Manifest → Verification
  verify_artifact_bytes payload m =
      let expected = lower (strip m.artifact_sha256) in
      let actual = digest_bytes digest_chunk_bytes payload in
      if expected == []
      then refused (refuse integrity no_expected_digest)
      else if actual == expected
      then verified (record { manifest = m; payload = payload; digest = actual })
      else refused (refuse integrity digest_mismatch)

  unfoldable pub verify_artifact_file : FileRead → Manifest → Verification
  unfolding verify_artifact_bytes
  verify_artifact_file (contents payload) m = verify_artifact_bytes payload m
  verify_artifact_file missing m = refused (refuse integrity not_found)
  verify_artifact_file unreadable m = refused (refuse integrity Reason.unreadable)

-- The first index at which two lists differ, if both reach it.
unfoldable pub first_difference : ℕ → List String → List String → Option ℕ
first_difference index [] ys = none
first_difference index (x ∷ xs) [] = none
first_difference index (x ∷ xs) (y ∷ ys) =
    let rest = first_difference (index + 1) xs ys in if x == y then rest else some index

-- The refusal of differing dtypes names the feature at the index, `expected.names[index]`.
unfoldable pub dtypes_refusal : FeatureContract → Option ℕ → Exc (Option Refusal)
dtypes_refusal expected none = ok (some (refuse contract feature_dtypes_mismatch))
dtypes_refusal expected (some index) = elim (get_elem? expected.names index) [
  | none ↦ raised index_error
  | some name ↦ ok (some (refuse contract feature_dtypes_mismatch))
]

unfoldable pub compare_contracts : FeatureContract → FeatureContract → Exc (Option Refusal)
unfolding dtypes_refusal first_difference
compare_contracts recorded expected =
    if not (recorded.service == expected.service)
    then ok (some (refuse contract service_mismatch))
    else if not (recorded.service_version == expected.service_version)
    then ok (some (refuse contract service_version_mismatch))
    else if not (recorded.names == expected.names)
    then ok (some (refuse contract feature_names_mismatch))
    else if not (recorded.dtypes == expected.dtypes)
    then dtypes_refusal expected (first_difference 0 expected.dtypes recorded.dtypes)
    else ok none

-- `expected`, or what the local install declares for the model
abbrev pub or_local : Option FeatureContract → Option FeatureContract → Option FeatureContract
or_local none declared = declared
or_local (some expected) declared = some expected

unfoldable pub validate_feature_contract : Manifest → Option FeatureContract → Exc (Option Refusal)
unfolding compare_contracts
validate_feature_contract m none = ok (some (refuse contract contract_unregistered))
validate_feature_contract m (some expected) = compare_contracts m.feature_contract expected

unfoldable pub numeric_pair : List Text → Option (Text × Text)
numeric_pair (major ∷ minor ∷ parts) =
    if is_digit major && is_digit minor then some (major, minor) else none
numeric_pair _ = none

-- `_major_minor`
unfoldable pub major_minor : Text → Option (Text × Text)
unfolding numeric_pair
major_minor version = numeric_pair (split_dots (strip version))

unfoldable pub compare_versions : Option (Text × Text) → Option (Text × Text) → Option Refusal
compare_versions (some recorded) (some running) =
    if recorded == running then none else some (refuse runtime sklearn_version_incompatible)
compare_versions _ _ = some (refuse runtime unparseable_version)

abbrev pub or_running : Option Text → Option Text → Option Text
or_running none installed = installed
or_running (some version) installed = some version

-- The last test of the version that runs: `None` and the empty text refuse alike.
unfoldable pub check_running : Text → Option Text → Option Refusal
unfolding compare_versions major_minor
check_running recorded none = some (refuse runtime runtime_unavailable)
check_running recorded (some running) =
    if running == []
    then some (refuse runtime runtime_unavailable)
    else compare_versions (major_minor recorded) (major_minor running)

unfoldable pub validate_runtime : Manifest → Option Text → Option Refusal
unfolding check_running
validate_runtime m running =
    let recorded = strip (codes m.runtime.sklearn_version) in
    if recorded == []
    then some (refuse runtime no_recorded_version)
    else check_running recorded running

unfoldable pub after_runtime : VerifiedArtifact → Option Refusal → Verification
after_runtime artifact none = verified artifact
after_runtime artifact (some refusal) = refused refusal

unfoldable pub after_contract :
    VerifiedArtifact → Option Text → Manifest → Option Refusal → Verification
unfolding after_runtime
after_contract artifact running m none = after_runtime artifact (validate_runtime m running)
after_contract artifact running m (some refusal) = refused refusal

unfoldable pub after_integrity :
    Verification → Option FeatureContract → Option Text → Manifest → Exc Verification
unfolding after_contract
after_integrity (refused refusal) expected running m = ok (refused refusal)
after_integrity (verified artifact) expected running m = do
  outcome ← validate_feature_contract m expected
  ok (after_contract artifact running m outcome)

-- Integrity, then contract, then runtime; `expected` and `running` are what the two defaults gave.
unfoldable pub validate_artifact :
    Sha256 → Manifest → FileRead → Option FeatureContract → Option Text → Exc Verification
unfolding after_integrity
validate_artifact sha m artifact expected running =
    after_integrity (verify_artifact_file sha artifact m) expected running m
