-- ===== src/Shadow.antt =====
-- advice/shadow.py: which label rows count for which side, the accept rates, and the parameters of
-- the verdicts. Join pairs shadow predictions with label rows, Flipback and Graduation have the
-- verdicts; Sides, Pairs and Verdicts hold the laws.
pub mod Join
pub mod Log
pub mod Writer
mod Accounts
pub mod Flipback
pub mod Graduation
mod Sides
mod Pairs
pub mod Evidence
mod Windows
mod Verdicts
mod Scenarios
use kenaz_ml.Prelude.{
  ℕ, suc, ◌+◌, ◌-◌, ◌*◌, String, string_eq, nat_eq, ◌==◌, Bool, true, false, not, ◌&&◌, ◌||◌,
  Option, none, some, List, [], ◌∷◌, ◌++◌, map, leb, nat_beq, if◌then◌else◌, filter, codes, Text,
}
use kenaz_ml.Registry.Json.{ℤ, pos, negsuc}
use kenaz_ml.LabelLog.{Row, Record}

-- a <= b, a - n and abs(a - b) on integers
abbrev pub int_leb : ℤ → ℤ → Bool
int_leb (pos m) (pos n) = leb m n
int_leb (pos m) (negsuc n) = false
int_leb (negsuc m) (pos n) = true
int_leb (negsuc m) (negsuc n) = leb n m

abbrev pub minus : ℤ → ℕ → ℤ
minus (pos m) n = if leb n m then pos (m - n) else negsuc (n - m - 1)
minus (negsuc m) n = negsuc (m + n)

abbrev pub gap : ℤ → ℤ → ℕ
gap (pos m) (pos n) = (m - n) + (n - m)
gap (pos m) (negsuc n) = m + n + 1
gap (negsuc m) (pos n) = m + n + 1
gap (negsuc m) (negsuc n) = (m - n) + (n - m)

abbrev pub shown_confidence_threshold : ℕ
shown_confidence_threshold = 75

abbrev pub min_graduation_labels : ℕ
min_graduation_labels = 200

abbrev pub trailing_window_days : ℕ
trailing_window_days = 90

abbrev pub latency_min_samples : ℕ
latency_min_samples = 100

abbrev pub shadow_join_tolerance_ms : ℕ
shadow_join_tolerance_ms = 120000

abbrev pub flipback_min_shown : ℕ
flipback_min_shown = 30

abbrev pub max_eval_window_days : ℕ
max_eval_window_days = 21

abbrev pub day_ms : ℕ
day_ms = 24 * 3600 * 1000

-- One shadow record as far as it is read.
pub record ShadowPrediction : Type 0 where
  pub vector_hash : String
  pub ts : ℤ
  pub session_id : Option String
  pub features_hash : Option String
  pub label_ts : Option ℤ
  pub decision : Bool
  pub confidence : ℤ

abbrev pub is_accept : String → Bool
is_accept action = (action == "accepted") || (action == "auto_acted")

abbrev pub is_dismiss : String → Bool
is_dismiss action = action == "dismissed"

pub record RateStats : Type 0 where
  pub accepted : ℕ
  pub dismissed : ℕ
  pub ignored : ℕ

-- `RateStats.decided`; a rate exists when it is not 0
abbrev pub decided : RateStats → ℕ
decided r = r.accepted + r.dismissed

abbrev pub has_rate : RateStats → Bool
has_rate r = not (nat_beq (decided r) 0)

abbrev pub no_stats : RateStats
no_stats = record { accepted = 0; dismissed = 0; ignored = 0 }

abbrev pub count_action : String → RateStats → RateStats
count_action action r =
    if is_accept action
    then record r { accepted = suc r.accepted }
    else if is_dismiss action
    then record r { dismissed = suc r.dismissed }
    else record r { ignored = suc r.ignored }

-- The loop of `accept_rate`.
unfoldable pub count_actions : List String → RateStats → RateStats
count_actions [] r = r
count_actions (action ∷ actions) r = count_actions actions (count_action action r)

unfoldable pub accept_rate : List String → RateStats
accept_rate actions = count_actions actions no_stats

abbrev pub confident : Option ℤ → Bool
confident none = true
confident (some confidence) = int_leb (pos shown_confidence_threshold) confidence

unfoldable pub is_shown : Record → Bool
is_shown label = label.row.shown && confident label.row.confidence

-- s.startswith(prefix)
unfoldable pub starts_with : Text → Text → Bool
starts_with [] s = true
starts_with (c ∷ prefix) [] = false
starts_with (c ∷ prefix) (d ∷ s) = nat_beq c d && starts_with prefix s

-- str(label.get("model_id") or "")
abbrev pub text_or_empty : Option String → Text
text_or_empty none = []
text_or_empty (some s) = codes s

abbrev pub is_heuristic_rung : Option String → Bool
is_heuristic_rung none = false
is_heuristic_rung (some rung) = rung == "heuristic"

abbrev pub by_model_or_rung : Text → Option String → Bool
by_model_or_rung [] rung = is_heuristic_rung rung
by_model_or_rung (c ∷ model_id) rung = starts_with (codes "heuristic") (c ∷ model_id)

unfoldable pub served_by_heuristic : Record → Bool
served_by_heuristic label = by_model_or_rung (text_or_empty label.row.model_id) label.row.rung

unfoldable pub served_by_classic : String → Record → Bool
served_by_classic kind label =
    starts_with (codes "classic/" ++ codes kind ++ codes "@") (text_or_empty label.row.model_id)

-- start_ms <= ts <= end_ms
unfoldable pub in_window : ℤ → ℤ → Record → Bool
in_window start_ms end_ms label = int_leb start_ms label.row.ts && int_leb label.row.ts end_ms

unfoldable pub trailing_window : ℤ → ℤ × ℤ
trailing_window now_ms = (minus now_ms (trailing_window_days * day_ms), now_ms)

abbrev pub actions_of : List Record → List String
actions_of labels = map (λ (label : Record). label.row.user_action) labels

unfoldable pub heuristic_baseline : List Record → ℤ → ℤ → RateStats
heuristic_baseline labels start_ms end_ms = accept_rate (
    actions_of (
      filter
        (λ label. in_window start_ms end_ms label && is_shown label && served_by_heuristic label)
        labels))

unfoldable pub classic_live_rate : List Record → String → ℤ → ℤ → RateStats
classic_live_rate labels kind start_ms end_ms = accept_rate (
    actions_of (
      filter
        (λ label. in_window start_ms end_ms label && is_shown label && served_by_classic kind label)
        labels))

unfoldable pub shadow_would_show : ShadowPrediction → Bool
shadow_would_show shadow =
    shadow.decision && int_leb (pos shown_confidence_threshold) shadow.confidence
