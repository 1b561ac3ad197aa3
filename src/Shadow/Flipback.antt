-- ===== src/Shadow/Flipback.antt =====
-- `_evaluate_post_flip` of advice/shadow.py: the verdict on a kind that a trained model serves. The
-- difference of two rates in percentage points is a float's, rounded to six places: a parameter, in
-- millionths of a point; so is the test of a latency against the budget.
use kenaz_ml.Prelude.{
  ℕ, ◌*◌, String, Bool, false, not, ◌&&◌, ◌||◌, Option, none, some, List, [], ◌∷◌, leb, ltb,
  if◌then◌else◌, filter,
}
use kenaz_ml.Registry.Json.{ℤ, pos}
use kenaz_ml.LabelLog.{Record}
use kenaz_ml.LabelLog.Rows.{value_or}
use kenaz_ml.Shadow.{
  RateStats, no_stats, decided, has_rate, int_leb, minus, trailing_window, heuristic_baseline,
  classic_live_rate, served_by_heuristic, day_ms, trailing_window_days, latency_min_samples,
  flipback_min_shown, max_eval_window_days,
}

pub data FlipbackVerdict : Type 0 where
  pending holding demoted insufficient_data : FlipbackVerdict

pub record FlipbackResult : Type 0 where
  pub verdict : FlipbackVerdict
  pub flipped : RateStats
  pub flipped_window : ℤ × ℤ
  pub baseline : RateStats
  pub baseline_window : Option (ℤ × ℤ)
  pub delta_pp : Option ℤ

abbrev pub later : ℤ → ℤ → ℤ
later a b = if int_leb a b then b else a

-- max(ts), of the rows after a first one
unfoldable pub max_ts : ℤ → List Record → ℤ
max_ts top [] = top
max_ts top (row ∷ rows) = max_ts (later top row.row.ts) rows

abbrev pub baseline_of : List Record → RateStats × Option (ℤ × ℤ)
baseline_of [] = (no_stats, none)
baseline_of (row ∷ rows) =
    let end_ms = max_ts row.row.ts rows in
    let start_ms = minus end_ms (trailing_window_days * day_ms) in
    (heuristic_baseline (row ∷ rows) start_ms end_ms, some (start_ms, end_ms))

-- The window ends at the newest row that the heuristic served.
unfoldable pub heuristic_baseline_window : List Record → RateStats × Option (ℤ × ℤ)
heuristic_baseline_window labels = baseline_of (filter served_by_heuristic labels)

-- -DEMOTION_MARGIN_PP in millionths
abbrev pub is_worse : Option ℤ → Bool
is_worse none = false
is_worse (some delta) = not (int_leb (minus (pos 0) (5 * 1000000)) delta)

-- The ladder of the verdict, from the tests in the order of the code.
unfoldable pub flipback_verdict : Bool → Bool → RateStats → RateStats → Option ℤ → FlipbackVerdict
flipback_verdict over elapsed flipped baseline delta =
    if over
    then demoted
    else if ltb (decided flipped) flipback_min_shown || not (has_rate baseline)
    then (if elapsed then insufficient_data else pending)
    else if is_worse delta
    then demoted
    else holding

unfoldable pub delta_pp : (RateStats → RateStats → ℤ) → RateStats → RateStats → Option ℤ
delta_pp rounded a b = if has_rate a && has_rate b then some (rounded a b) else none

-- The post-flip window runs from the flip, or is the trailing window.
abbrev pub flip_start : Option ℤ → ℤ → ℤ
flip_start flipped_at now_ms = value_or flipped_at (trailing_window now_ms).0

module _ {L : Type 0} (over_budget : L → Bool) (rounded : RateStats → RateStats → ℤ) where
  -- `_latency_over_budget`
  unfoldable pub latency_over_budget : Option L → ℕ → Bool
  latency_over_budget none samples = false
  latency_over_budget (some p95) samples = leb latency_min_samples samples && over_budget p95

  -- `_evaluate_post_flip`
  unfoldable pub evaluate_post_flip :
      String → List Record → Option ℤ → ℤ → Option L → ℕ → FlipbackResult
  evaluate_post_flip kind labels flipped_at now_ms p95 samples =
      let start_ms = flip_start flipped_at now_ms in
      let flipped = classic_live_rate labels kind start_ms now_ms in
      let (baseline, window) = heuristic_baseline_window labels in
      let delta = delta_pp rounded flipped baseline in
      record {
        verdict =
            flipback_verdict (latency_over_budget p95 samples)
              (int_leb start_ms (minus now_ms (max_eval_window_days * day_ms))) flipped baseline
              delta;
        flipped = flipped;
        flipped_window = (start_ms, now_ms);
        baseline = baseline;
        baseline_window = window;
        delta_pp = delta;
      }
