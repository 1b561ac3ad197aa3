-- ===== src/Dispatch.antt =====
-- kenaz_ml/advice/dispatch.py: the table of recommendation kinds and how one request is served.
-- A float is a value of a type with a test for finiteness. The readable text of a refusal and the
-- logging are left out. A backend is what its methods return for the request at hand.
pub mod Table
pub mod Serve
pub mod Reload
mod Scenarios
use kenaz_ml.Prelude.{
  ℕ, String, string_eq, ◌==◌, Bool, true, false, not, ◌&&◌, ◌||◌, Option, none, some, List, [], ◌∷◌,
  if◌then◌else◌,
}
use kenaz_ml.Dict.{Dict}
use kenaz_ml.Registry.Json.{ℤ}
use kenaz_ml.Registry.Manifest.{Manifest, FeatureContract}

-- The reason codes of the module.
pub data Reason : Type 0 where
  unknown_kind kind_not_served laya_backend_not_installed contract_mismatch : Reason
  features_mismatch features_invalid kind_id_mismatch backend_unknown no_contract : Reason
  confidence_out_of_range backend_error host_ineligible checkpoint_refused : Reason

-- `BackendAnswer.confidence` may be anything.
pub data Confidence : Type 0 where
  boolean : Bool → Confidence
  integer : ℤ → Confidence
  other : Confidence

pub record BackendAnswer : Type 0 where
  pub decision : Option Bool
  pub score : Option ℤ
  pub confidence : Confidence

-- `answer` returns, raises a typed refusal, or raises anything else.
pub data Answered : Type 0 where
  answer : BackendAnswer → Answered
  refuses : Reason → Answered
  fails : Answered

-- A backend has no `preflight`, or it passes, raises a typed refusal, or raises anything else.
pub data Preflight : Type 0 where
  absent passes breaks : Preflight
  stops : Reason → Preflight

pub record Backend (F : Type 0) : Type 0 where
  pub name : String
  pub model_label : String
  pub rung : String
  pub checkpoint_provenance : String
  pub model_id_sha8 : Option String
  pub generation : String
  pub unbenchmarked : Bool
  pub preflight : Preflight
  pub answer : List F → Answered

-- `M` is the type of the models that are scored in shadow.
pub record DispatchEntry (F M : Type 0) : Type 0 where
  pub kind_id : String
  pub contract : Option FeatureContract
  pub backend : Option String
  pub server : Option (Backend F)
  pub manifest : Option Manifest
  pub reason : Option Reason
  pub shadow_model : Option M

pub record RecommendRequest (F : Type 0) : Type 0 where
  pub features : Dict String F
  pub feature_contract_version : String
  pub session_id : Option String
  pub kind_id : Option String
  pub features_hash : Option String
  pub ts : Option ℕ

pub record RecommendResponse : Type 0 where
  pub decision : Option Bool
  pub score : Option ℤ
  pub confidence : ℕ
  pub kind_id : String
  pub feature_contract_version : String
  pub model : String
  pub rung : String
  pub backend : String
  pub model_id_sha8 : Option String
  pub checkpoint_provenance : String
  pub generation : String
  pub unbenchmarked : Bool

-- What is queued for scoring in shadow, without the time of the scoring.
pub record ShadowRecord (F M : Type 0) : Type 0 where
  pub kind_id : String
  pub vector : List F
  pub model : M
  pub manifest : Option Manifest
  pub session_id : Option String
  pub features_hash : Option String
  pub ts : Option ℕ

abbrev pub is_some {ℓ} : {A : Type ℓ} → Option A → Bool
is_some none = false
is_some (some a) = true

abbrev version_list : Option String → List String
version_list none = []
version_list (some version) = if version == "" then [] else version ∷ []

abbrev contract_version : Option FeatureContract → Option String
contract_version none = none
contract_version (some contract) = contract.service_version

module _ {F M : Type 0} where
  -- `DispatchEntry.available`
  unfoldable pub available : DispatchEntry F M → Bool
  available entry = is_some entry.server

  -- `DispatchEntry.supported_versions`
  unfoldable pub supported_versions : DispatchEntry F M → List String
  supported_versions entry = version_list (contract_version entry.contract)
