-- ===== src/LabelLog/Checks.antt =====
-- `_row_refusal` and `_contract_refusal` of advice/label_log.py: what refuses one row for good, and
-- what refuses a whole batch.
use kenaz_ml.Prelude.{
  ℕ, ◌*◌, String, string_eq, option_eq, ◌==◌, Bool, true, false, not, ◌&&◌, ◌||◌, Option, none,
  some, List, [], ◌∷◌, leb, if◌then◌else◌,
}
use kenaz_ml.Dict.{Dict, has}
use kenaz_ml.Registry.Json.{Real, finite, nan, infinite, Json, contains}
use kenaz_ml.LabelLog.{Line, Row, Codec, user_action_labels}

pub data RowReason : Type 0 where
  client_mismatch kind_mismatch unknown_user_action features_invalid row_too_large : RowReason

abbrev pub max_row_bytes : ℕ
max_row_bytes = 64 * 1024

-- math.isfinite(float(value)), false when `float` raises
abbrev pub is_finite : Option Real → Bool
is_finite none = false
is_finite (some (finite n zero text)) = true
is_finite (some nan) = false
is_finite (some infinite) = false

unfoldable pub all_finite : Codec → Dict String Json → Bool
all_finite c [] = true
all_finite c ((name, value) ∷ features) = is_finite (c.to_float value) && all_finite c features

-- A row with no line is one that `_dumps` raises on.
abbrev pub size_refusal : Option Line → Option RowReason
size_refusal none = some features_invalid
size_refusal (some line) = if leb (line.size) max_row_bytes then none else some row_too_large

unfoldable pub row_refusal : Codec → String → String → Row → Option RowReason
row_refusal c client kind row =
    if not (row.client == client)
    then some client_mismatch
    else if not (row.kind == kind)
    then some kind_mismatch
    else if not (has user_action_labels row.user_action)
    then some unknown_user_action
    else if not (all_finite c row.features)
    then some features_invalid
    else size_refusal (c.dumps_row row)

-- What the ingest reads of a kind's feature contract.
pub record LabelContract : Type 0 where
  pub service_version : String
  pub names : List String

-- Why a batch was refused, and nothing of it acknowledged.
pub data BatchReason : Type 0 where
  contract_mismatch names_mismatch io_error : BatchReason
  retained_refused : String → BatchReason

-- A row that posts no version is not checked for one.
abbrev pub version_agrees : String → Option String → Bool
version_agrees version none = true
version_agrees version (some posted) = posted == version

-- set(features) - known, as a test
unfoldable pub has_unexpected : List String → Dict String Json → Bool
has_unexpected names [] = false
has_unexpected names ((name, value) ∷ features) =
    not (contains names name) || has_unexpected names features

-- [n for n in names if n not in features], as a test
unfoldable pub has_missing : List String → Dict String Json → Bool
has_missing [] features = false
has_missing (name ∷ names) features = not (has features name) || has_missing names features

abbrev pub names_refused : List String → Row → Bool
names_refused names row =
    has_unexpected names row.features || (row.features_complete && has_missing names row.features)

unfoldable pub contract_refusal : LabelContract → List Row → Option BatchReason
contract_refusal contract [] = none
contract_refusal contract (row ∷ rows) =
    if not (version_agrees contract.service_version row.feature_contract_version)
    then some contract_mismatch
    else if names_refused contract.names row
    then some names_mismatch
    else contract_refusal contract rows
