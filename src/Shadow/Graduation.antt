-- ===== src/Shadow/Graduation.antt =====
-- `_graduation_check` and `_promoted_verdict` of advice/shadow.py: whether the trained model of a
-- kind may serve it, or, where it does, must stop.
use kenaz_ml.Prelude.{
  ℕ, ◌*◌, String, string_eq, Bool, false, not, ◌&&◌, ◌||◌, Option, none, some, List, map, ltb,
  if◌then◌else◌, filter, length,
}
use kenaz_ml.Registry.Json.{ℤ, pos}
use kenaz_ml.LabelLog.{Record}
use kenaz_ml.LabelLog.File.{is_empty}
use kenaz_ml.Shadow.{
  ShadowPrediction, RateStats, no_stats, has_rate, accept_rate, int_leb, in_window, is_accept,
  is_dismiss, trailing_window, heuristic_baseline, shadow_would_show, min_graduation_labels,
}
use kenaz_ml.Shadow.Join.{JoinedDecision, join_shadow_to_labels}
use kenaz_ml.Shadow.Flipback.{
  FlipbackVerdict, demoted, FlipbackResult, delta_pp, evaluate_post_flip,
}

pub data GraduationVerdict : Type 0 where
  not_eligible eligible demote : GraduationVerdict

-- The reason, whose text is left out.
pub data GraduationReason : Type 0 where
  no_trained_model no_shadow_log too_few_labels no_shadow_prediction no_heuristic_baseline :
      GraduationReason
  calibration_not_fitted delta_too_small delta_reached : GraduationReason
  post_flip : FlipbackVerdict → GraduationReason

-- The manifest metrics that the check reads.
pub record GraduationMetrics : Type 0 where
  pub demoted_at_ms : Option ℤ
  pub calibration_fitted : Bool
  pub served_by_classic : Bool
  pub flipped_at_ms : Option ℤ

pub record ShadowLog : Type 0 where
  pub exists : Bool
  pub shadows : List ShadowPrediction
  pub labels : List Record
  pub skipped_lines : ℕ
  pub truncated_final_line : Bool

pub record GraduationResult : Type 0 where
  pub verdict : GraduationVerdict
  pub reason : GraduationReason
  pub label_count : ℕ
  pub shown : RateStats
  pub baseline : RateStats
  pub precision_delta_pp : Option ℤ
  pub live : Option RateStats
  pub window_start_ms : ℤ

-- The window opens at the demotion, if that is later.
abbrev pub window_start : Option ℤ → ℤ → ℤ
window_start none start_ms = start_ms
window_start (some at) start_ms = if int_leb at start_ms then start_ms else at

abbrev pub reaches_delta : Option ℤ → Bool
reaches_delta none = false
reaches_delta (some delta) = int_leb (pos (5 * 1000000)) delta

-- The ladder of reasons for a kind that the model does not serve.
unfoldable pub graduation_verdict :
    ℕ → RateStats → RateStats → Bool → Option ℤ → GraduationVerdict × GraduationReason
graduation_verdict label_count shown baseline fitted delta =
    if ltb label_count min_graduation_labels
    then (not_eligible, too_few_labels)
    else if not (has_rate shown)
    then (not_eligible, no_shadow_prediction)
    else if not (has_rate baseline)
    then (not_eligible, no_heuristic_baseline)
    else if not fitted
    then (not_eligible, calibration_not_fitted)
    else if not (reaches_delta delta)
    then (not_eligible, delta_too_small)
    else (eligible, delta_reached)

abbrev pub promoted_verdict : FlipbackVerdict → GraduationVerdict
promoted_verdict demoted = demote
promoted_verdict _ = eligible

abbrev refused_result : GraduationReason → RateStats → ℤ → GraduationResult
refused_result reason baseline start_ms = record {
  verdict = not_eligible;
  reason = reason;
  label_count = 0;
  shown = no_stats;
  baseline = baseline;
  precision_delta_pp = none;
  live = none;
  window_start_ms = start_ms;
}

abbrev pub joined_actions : List JoinedDecision → List String
joined_actions pairs = map (λ (pair : JoinedDecision). pair.label.row.user_action) pairs

-- `_promoted_verdict`
unfoldable pub promoted_result : FlipbackResult → ℤ → GraduationResult
promoted_result flip start_ms = record {
  verdict = promoted_verdict flip.verdict;
  reason = post_flip flip.verdict;
  label_count = 0;
  shown = no_stats;
  baseline = flip.baseline;
  precision_delta_pp = none;
  live = some flip.flipped;
  window_start_ms = start_ms;
}

module _ (hash_of : Record → Option String) (session_of : Record → Option String) where
  -- The joined decisions in the window that were accepted or dismissed.
  unfoldable pub decided_pairs : ShadowLog → ℤ → ℤ → List JoinedDecision
  decided_pairs log start_ms now_ms =
      filter
        (λ (pair : JoinedDecision).
          in_window start_ms now_ms pair.label
          && (is_accept pair.label.row.user_action || is_dismiss pair.label.row.user_action))
        (join_shadow_to_labels hash_of session_of log.shadows log.labels)

module _ {L : Type 0} (over_budget : L → Bool) (rounded : RateStats → RateStats → ℤ)
    (hash_of : Record → Option String) (session_of : Record → Option String) where
  unfoldable pub shadow_verdict : ShadowLog → RateStats → Bool → ℤ → ℤ → GraduationResult
  shadow_verdict log baseline fitted start_ms now_ms =
      let pairs = decided_pairs hash_of session_of log start_ms now_ms in
      let shown = accept_rate (
        joined_actions (filter (λ (pair : JoinedDecision). shadow_would_show pair.shadow) pairs)) in
      let delta = delta_pp rounded shown baseline in
      let (verdict, reason) = graduation_verdict (length pairs) shown baseline fitted delta in
      record {
        verdict = verdict;
        reason = reason;
        label_count = length pairs;
        shown = shown;
        baseline = baseline;
        precision_delta_pp = delta;
        live = none;
        window_start_ms = start_ms;
      }

  abbrev pub check_in_window :
      String → GraduationMetrics → ShadowLog → ℤ → ℤ → Option L → ℕ → GraduationResult
  check_in_window kind metrics log start_ms now_ms p95 samples =
      let in_range = filter (in_window start_ms now_ms) log.labels in
      let baseline = heuristic_baseline in_range start_ms now_ms in
      if metrics.served_by_classic
      then promoted_result
          (evaluate_post_flip over_budget rounded kind log.labels metrics.flipped_at_ms now_ms p95
            samples)
          start_ms
      else if not log.exists || is_empty log.shadows
      then refused_result no_shadow_log baseline start_ms
      else shadow_verdict log baseline metrics.calibration_fitted start_ms now_ms

  -- `_graduation_check`
  unfoldable pub graduation_check :
      String → Option GraduationMetrics → ShadowLog → ℤ → Option L → ℕ → GraduationResult
  graduation_check kind none log now_ms p95 samples =
      refused_result no_trained_model no_stats (trailing_window now_ms).0
  graduation_check kind (some metrics) log now_ms p95 samples =
      check_in_window kind metrics log
        (window_start metrics.demoted_at_ms (trailing_window now_ms).0) now_ms p95 samples
