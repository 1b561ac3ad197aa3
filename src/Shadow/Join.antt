-- ===== src/Shadow/Join.antt =====
-- `join_shadow_to_labels` of advice/shadow.py: the exact pass over the shadow records that carry a
-- label row's key, then the fallback by the hash of the feature vector. A label row's place in the
-- log stands for its identity (`id`).
use kenaz_ml.Prelude.{
  ℕ, suc, String, string_eq, nat_eq, ◌==◌, Bool, true, false, not, ◌&&◌, Option, none, some, List,
  [], ◌∷◌, ◌++◌, leb, ltb, if◌then◌else◌,
}
use kenaz_ml.Registry.Json.{ℤ}
use kenaz_ml.LabelLog.{int_eq, Record}
use kenaz_ml.LabelLog.Rows.{is_member}
use kenaz_ml.Shadow.{ShadowPrediction, int_leb, gap, shadow_join_tolerance_ms}

pub record JoinedDecision : Type 0 where
  pub shadow : ShadowPrediction
  pub place : ℕ
  pub label : Record

-- The labels with their places.
unfoldable pub placed : ℕ → List Record → List (ℕ × Record)
placed i [] = []
placed i (label ∷ labels) = (i, label) ∷ placed (suc i) labels

-- sorted(shadows, key=ts): stable
unfoldable pub insert_by_ts : ShadowPrediction → List ShadowPrediction → List ShadowPrediction
insert_by_ts shadow [] = shadow ∷ []
insert_by_ts shadow (first ∷ rest) =
    let after = insert_by_ts shadow rest in
    if int_leb shadow.ts first.ts then shadow ∷ first ∷ rest else first ∷ after

unfoldable pub sorted_by_ts : List ShadowPrediction → List ShadowPrediction
sorted_by_ts [] = []
sorted_by_ts (shadow ∷ shadows) = insert_by_ts shadow (sorted_by_ts shadows)

-- `_exact_key`: an empty hash is none.
abbrev pub key_of : Option String → Option ℤ → Option (String × ℤ)
key_of none label_ts = none
key_of (some hash) none = none
key_of (some hash) (some ts) = if hash == "" then none else some (hash, ts)

unfoldable pub exact_key : ShadowPrediction → Option (String × ℤ)
exact_key shadow = key_of shadow.features_hash shadow.label_ts

abbrev pub has_key : String × ℤ → Record → Bool
has_key key label = (label.row.features_hash == key.0) && (label.row.ts == key.1)

-- What both passes keep: the places taken and the pairs, and the shadow records left for the
-- second.
pub record Joining : Type 0 where
  pub used : List ℕ
  pub joined : List JoinedDecision
  pub fallback : List ShadowPrediction

abbrev pub pair_up : ShadowPrediction → Option (ℕ × Record) → Joining → Joining
pair_up shadow none s = s
pair_up shadow (some (i, label)) s = record s {
  used = i ∷ s.used;
  joined = s.joined ++ (record { shadow = shadow; place = i; label = label } ∷ []);
}

-- The first unused label of by_key[key], which has the labels of the key in log order.
unfoldable pub first_unused : List ℕ → String × ℤ → List (ℕ × Record) → Option (ℕ × Record)
first_unused used key [] = none
first_unused used key ((i, label) ∷ labels) =
    if has_key key label && not (is_member used i)
    then some (i, label)
    else first_unused used key labels

abbrev pub exact_step :
    List (ℕ × Record) → ShadowPrediction → Option (String × ℤ) → Joining → Joining
exact_step labels shadow none s = record s { fallback = s.fallback ++ (shadow ∷ []) }
exact_step labels shadow (some key) s = pair_up shadow (first_unused s.used key labels) s

unfoldable pub exact_pass : List (ℕ × Record) → List ShadowPrediction → Joining → Joining
exact_pass labels [] s = s
exact_pass labels (shadow ∷ shadows) s =
    exact_pass labels shadows (exact_step labels shadow (exact_key shadow) s)

-- The join takes the hash of a label row's vector (`none` when it has none) and the session of a
-- label row as functions: the hash is hashlib's, and no wire row has a session.
module _ (hash_of : Record → Option String) (session_of : Record → Option String) where
  abbrev pub has_hash : String → Option String → Bool
  has_hash hash none = false
  has_hash hash (some h) = h == hash

  abbrev pub sessions_agree : Option String → Option String → Bool
  sessions_agree none l = true
  sessions_agree (some s) none = true
  sessions_agree (some s) (some l) = s == l

  -- A label row that the fallback may take for the shadow record.
  abbrev pub is_candidate : List ℕ → ShadowPrediction → ℕ × Record → Bool
  is_candidate used shadow (i, label) =
      has_hash shadow.vector_hash (hash_of label)
      && not (is_member used i)
      && sessions_agree shadow.session_id (session_of label)
      && leb (gap label.row.ts shadow.ts) shadow_join_tolerance_ms

  -- best_gap is None or gap < best_gap
  abbrev pub is_nearer : ShadowPrediction → ℕ × Record → Option (ℕ × Record) → Bool
  is_nearer shadow item none = true
  is_nearer shadow item (some best) =
      ltb (gap item.1.row.ts shadow.ts) (gap best.1.row.ts shadow.ts)

  unfoldable pub nearest :
      List ℕ → ShadowPrediction → Option (ℕ × Record) → List (ℕ × Record) → Option (ℕ × Record)
  nearest used shadow best [] = best
  nearest used shadow best (item ∷ labels) =
      nearest used shadow
        (if is_candidate used shadow item && is_nearer shadow item best then some item else best)
        labels

  unfoldable pub fallback_pass : List (ℕ × Record) → List ShadowPrediction → Joining → Joining
  fallback_pass labels [] s = s
  fallback_pass labels (shadow ∷ shadows) s =
      fallback_pass labels shadows (pair_up shadow (nearest s.used shadow none labels) s)

  abbrev pub second_pass : List (ℕ × Record) → Joining → Joining
  second_pass labels s = fallback_pass labels s.fallback s

  -- `join_shadow_to_labels` of a kind that has a contract
  unfoldable pub join_shadow_to_labels : List ShadowPrediction → List Record → List JoinedDecision
  join_shadow_to_labels shadows labels =
      let items = placed 0 labels in
      (second_pass items (
        exact_pass items (sorted_by_ts shadows)
          (record { used = []; joined = []; fallback = [] }))).joined
