-- ===== src/LabelLog.antt =====
-- advice/label_log.py: the rows of a label batch, the records that the kind's label log keeps of
-- them, and what a record is worth as a training label. The children hold the log as a file, the
-- checks on rows and batches, and the ingest with the retained mirror; Labels, Loop, Rewrite,
-- Resend and Bound hold their laws.
pub mod File
pub mod Checks
pub mod Rows
pub mod Mirror
pub mod Ingest
mod Bound
mod Labels
mod Loop
mod Placed
pub mod Reread
pub mod Rewrite
pub mod Synced
pub mod Index
pub mod Unrelated
pub mod Dirty
pub mod Rebuilt
pub mod Kept
mod Course
mod Covered
mod Resend
mod Scenarios
use kenaz_ml.Prelude.{
  ℕ, suc, String, string_eq, pair_eq, pair_beq, pair_beq_iff, Eq, ◌==◌, Bool, true, false, not,
  ◌&&◌, ◌↔◌, Option, none, some, List, [], ◌∷◌, ◌≡◌, nat_beq, ltb, if◌then◌else◌, arith,
}
use kenaz_ml.Dict.{Dict, get}
use kenaz_ml.Registry.Json.{ℤ, pos, negsuc, Real, Json, Fields}

abbrev pub int_beq : ℤ → ℤ → Bool
int_beq (pos m) (pos n) = nat_beq m n
int_beq (pos m) (negsuc n) = false
int_beq (negsuc m) (pos n) = false
int_beq (negsuc m) (negsuc n) = nat_beq m n

pub int_beq_iff : (a b : ℤ) → (int_beq a b ≡ true) ↔ (a ≡ b)
int_beq_iff (pos m) (pos n) = ground arith
int_beq_iff (pos m) (negsuc n) = ground arith
int_beq_iff (negsuc m) (pos n) = ground arith
int_beq_iff (negsuc m) (negsuc n) = ground arith

instance abbrev pub int_eq : Eq ℤ
int_eq = record { beq = int_beq; beq_iff = int_beq_iff }

-- USER_ACTION_LABELS: 1.0 and 0.0 are 1 and 0, `none` is recorded and not trained.
abbrev pub user_action_labels : Dict String (Option ℕ)
user_action_labels =
    ("accepted", some 1) ∷ ("auto_acted", some 1) ∷ ("dismissed", some 0) ∷ ("ignored", none) ∷ []

-- A row after the wire model and `_label_row`: the fields that the ingest reads, and the others,
-- which are carried unread.
pub record Row : Type 0 where
  pub client : String
  pub kind : String
  pub features_hash : String
  pub ts : ℤ
  pub revision : ℕ
  pub features : Dict String Json
  pub features_complete : Bool
  pub user_action : String
  pub feature_contract_version : Option String
  pub snapshot_ms : Option ℤ
  pub shown : Bool
  pub confidence : Option ℤ
  pub model_id : Option String
  pub rung : Option String
  pub carried : Fields

-- A label record: the row and when it was ingested.
pub record Record : Type 0 where
  pub row : Row
  pub ingested_at_ms : ℤ

abbrev pub LabelKey : Type 0
LabelKey = String × (String × (String × ℤ))

-- k1 == k2, opaque, so that proofs on keys do not look into the texts
unfoldable pub same_key : LabelKey → LabelKey → Bool
same_key = pair_beq

pub same_key_iff : (a b : LabelKey) → (same_key a b ≡ true) ↔ (a ≡ b)
unfolding same_key
same_key_iff = pair_beq_iff

instance abbrev pub label_key_eq : Eq LabelKey
label_key_eq = record { beq = same_key; beq_iff = same_key_iff }

-- `label_key`
abbrev pub row_key : Row → LabelKey
row_key row = (row.client, (row.kind, (row.features_hash, row.ts)))

unfoldable pub label_key : Record → LabelKey
label_key rec = row_key rec.row

-- The revision of a label that is stored or not, and whether a record may take its place.
unfoldable pub is_newer : Option Record → Record → Bool
is_newer none rec = true
is_newer (some prior) rec = ltb prior.row.revision rec.row.revision

-- USER_ACTION_LABELS.get(action)
abbrev flattened : Option (Option ℕ) → Option ℕ
flattened none = none
flattened (some y) = y

-- `training_label`
unfoldable pub training_label : Record → Option ℕ
training_label rec =
    if not rec.row.features_complete
    then none
    else flattened (get user_action_labels rec.row.user_action)

-- An object of the log is a label with a readable key, or anything else.
pub data LogEntry : Type 0 where
  label : Record → LogEntry
  unrelated : Fields → LogEntry

-- A line of a file by what the code asks of it: the object that `json.loads` makes of it (`none` when it
-- raises or the value is no object), its length in bytes, and whether it is blank.
pub record Line : Type 0 where
  pub loads : Option LogEntry
  pub size : ℕ
  pub is_blank : Bool

-- What the ingest takes from Python's float and json: `float(value)` (`none` when it raises), the line
-- of a row (`none` when `_dumps` raises) and the line of an object.
pub record Codec : Type 0 where
  pub to_float : Json → Option Real
  pub dumps_row : Row → Option Line
  pub dumps : LogEntry → Line

-- The line of an object is read as that object, and is not blank.
pub record IsFaithful (c : Codec) : Type 0 where
  pub loads-dumps : (entry : LogEntry) → (c.dumps entry).loads ≡ some entry
  pub not_blank : (entry : LogEntry) → (c.dumps entry).is_blank ≡ false

-- Example
pub record Example : Type 0 where
  pub x : List Real
  pub y : ℕ
  pub as_of_ms : ℤ

-- `float(features[name])` for each name: a missing name raises.
abbrev pub vector_with : Option Real → Option (List Real) → Option (List Real)
vector_with none vector = none
vector_with (some v) none = none
vector_with (some v) (some vector) = some (v ∷ vector)

abbrev pub float_of : Codec → Option Json → Option Real
float_of c none = none
float_of c (some v) = c.to_float v

unfoldable pub vector : Codec → Dict String Json → List String → Option (List Real)
vector c features [] = some []
vector c features (name ∷ names) =
    let rest = vector c features names in vector_with (float_of c (get features name)) rest

abbrev pub snapshot_or : Option ℤ → ℤ → ℤ
snapshot_or none ts = ts
snapshot_or (some at) ts = at

-- What `example_for` returns: nothing to train, an example, or an exception.
pub data ForTraining : Type 0 where
  untrained : ForTraining
  trainable : Example → ForTraining
  example_raises : ForTraining

abbrev pub example_with : Row → ℕ → Option (List Real) → ForTraining
example_with row y none = example_raises
example_with row y (some x) =
    trainable (record { x = x; y = y; as_of_ms = snapshot_or row.snapshot_ms row.ts })

abbrev pub example_of : Codec → List String → Row → Option ℕ → ForTraining
example_of c names row none = untrained
example_of c names row (some y) = example_with row y (vector c row.features names)

-- `example_for`
unfoldable pub example_for : Codec → List String → Record → ForTraining
example_for c names rec = example_of c names rec.row (training_label rec)
