-- ===== src/Shadow/Verdicts.antt =====
-- When a trained model may serve a kind, and when it must stop.
use kenaz_ml.Prelude.{
  ap, ◌∙◌, map, ◌*◌, length, sym, false, ℕ, ◌≤◌, ◌<◌, String, Bool, true, false, ◌&&◌, ◌||◌, Option,
  some, List, [], ◌≡◌, ◌≢◌, ◌↔◌, ◌⊎◌, arith, filter,
}
use kenaz_ml.Registry.Json.{ℤ, pos, negsuc}
use kenaz_ml.LabelLog.{Record}
use kenaz_ml.Shadow.{
  RateStats, decided, int_leb, trailing_window, in_window, is_accept, is_dismiss, is_shown,
  served_by_heuristic, shadow_would_show, heuristic_baseline, accept_rate, minus,
}
use kenaz_ml.Shadow.Evidence.{
  count_of, rate_of, accept_rate-rate_of, filter-filter, filter-same, length-filter,
}
use kenaz_ml.Shadow.Join.{JoinedDecision, join_shadow_to_labels}
use kenaz_ml.Shadow.Flipback.{
  demoted, flipback_verdict, delta_pp, latency_over_budget, evaluate_post_flip,
}
use kenaz_ml.Shadow.Graduation.{
  eligible, GraduationMetrics, ShadowLog, window_start, graduation_verdict, decided_pairs,
  shadow_verdict, graduation_check, joined_actions,
}
use kenaz_ml.Shadow.Windows.{after_demotion, after_window_start}

module _ {L : Type 0} (over_budget : L → Bool) (rounded : RateStats → RateStats → ℤ) where
  -- A model that serves is demoted exactly when its 95th percentile is over the budget on at least
  -- 100 samples, or when it has at least 30 decided shown rows, the heuristic has a rate, and the
  -- rounded difference of the two rates is below -5 points.
  demoted_iff :
      (kind : String) (labels : List Record) (flipped_at : Option ℤ) (now_ms : ℤ) (p95 : Option L)
      (samples : ℕ)
      → let r = evaluate_post_flip over_budget rounded kind labels flipped_at now_ms p95 samples in
        (r.verdict ≡ demoted) ↔ (
          ((latency : L) × (p95 ≡ some latency) × (over_budget latency ≡ true) × (100 ≤ samples))
          ⊎ ((30 ≤ decided r.flipped)
              × (0 < decided r.baseline)
              × (int_leb (negsuc 4999999) (rounded r.flipped r.baseline) ≡ false)))
  unfolding evaluate_post_flip flipback_verdict latency_over_budget delta_pp
  demoted_iff kind labels flipped_at now_ms p95 samples = ground arith

  module _ (hash_of : Record → Option String) (session_of : Record → Option String)
      (metrics : GraduationMetrics) (log : ShadowLog) (now_ms : ℤ) where
    -- Not before the last demotion, within 90 days, and not after now.
    abbrev pub is_recent : Record → Bool
    is_recent label =
        (after_demotion metrics.demoted_at_ms label.row.ts
          && int_leb (minus now_ms (90 * (24 * 3600 * 1000))) label.row.ts)
        && int_leb label.row.ts now_ms

    in_window-is_recent :
        (label : Record)
        → in_window (window_start metrics.demoted_at_ms (trailing_window now_ms).0) now_ms label
          ≡ is_recent label
    unfolding in_window trailing_window
    in_window-is_recent label =
        ap (λ late. late && int_leb label.row.ts now_ms)
          (after_window_start metrics.demoted_at_ms (minus now_ms (90 * (24 * 3600 * 1000)))
            label.row.ts)

    -- A joined decision on a recent label row that was accepted or dismissed.
    abbrev pub is_evidence : JoinedDecision → Bool
    is_evidence pair =
        is_recent pair.label
        && (is_accept pair.label.row.user_action || is_dismiss pair.label.row.user_action)

    abbrev pub joined : List JoinedDecision
    joined = join_shadow_to_labels hash_of session_of log.shadows log.labels

    -- The accepted and dismissed among the decisions that the model would have shown.
    abbrev pub would_have_shown : RateStats
    would_have_shown =
        rate_of (λ pair. is_evidence pair && shadow_would_show pair.shadow)
          (λ pair. pair.label.row.user_action) joined

    -- The accepted and dismissed among the recent rows that the heuristic served and showed.
    abbrev pub heuristic_showed : RateStats
    heuristic_showed =
        rate_of (λ label. is_recent label && (is_shown label && served_by_heuristic label))
          (λ label. label.row.user_action) log.labels

    agreeing : (w v b c : Bool) → w ≡ v → (w && (w && b && c)) ≡ (v && (b && c))
    agreeing w v b c e = ground (arith, e)

    decided_pairs_recent :
        decided_pairs hash_of session_of log
          (window_start metrics.demoted_at_ms (trailing_window now_ms).0)
          now_ms
        ≡ filter is_evidence joined
    unfolding decided_pairs
    decided_pairs_recent = filter-same _ is_evidence joined (λ pair.
        ap
          (λ late.
            late && (is_accept pair.label.row.user_action || is_dismiss pair.label.row.user_action))
          (in_window-is_recent pair.label))

    baseline-heuristic_showed :
        let start_ms = window_start metrics.demoted_at_ms (trailing_window now_ms).0 in
        heuristic_baseline (filter (in_window start_ms now_ms) log.labels) start_ms now_ms
        ≡ heuristic_showed
    unfolding heuristic_baseline
    baseline-heuristic_showed =
        ap (λ labels. accept_rate (map (λ (label : Record). label.row.user_action) labels))
          (filter-filter _ _ log.labels
            ∙ filter-same
                (λ label.
                  in_window (window_start metrics.demoted_at_ms (trailing_window now_ms).0) now_ms
                    label
                  && (in_window (window_start metrics.demoted_at_ms (trailing_window now_ms).0)
                        now_ms label
                      && is_shown label
                      && served_by_heuristic label))
                (λ label. is_recent label && (is_shown label && served_by_heuristic label))
                log.labels
                (λ label.
                  agreeing _ _ (is_shown label) (served_by_heuristic label)
                    (in_window-is_recent label)))
        ∙ accept_rate-rate_of _ _ log.labels

    shown-would_have_shown :
        let start_ms = window_start metrics.demoted_at_ms (trailing_window now_ms).0 in
        accept_rate (
          joined_actions (
            filter
              (λ (pair : JoinedDecision). shadow_would_show pair.shadow)
              (decided_pairs hash_of session_of log start_ms now_ms)))
        ≡ would_have_shown
    shown-would_have_shown =
        ap
          (λ pairs. accept_rate (
            joined_actions
              (filter (λ (pair : JoinedDecision). shadow_would_show pair.shadow) pairs)))
          decided_pairs_recent
        ∙ ap (λ pairs. accept_rate (joined_actions pairs))
            (filter-filter (λ (pair : JoinedDecision). shadow_would_show pair.shadow) is_evidence
              joined)
        ∙ accept_rate-rate_of (λ pair. is_evidence pair && shadow_would_show pair.shadow)
            (λ pair. pair.label.row.user_action) joined

    length-decided_pairs :
        let start_ms = window_start metrics.demoted_at_ms (trailing_window now_ms).0 in
        length (decided_pairs hash_of session_of log start_ms now_ms) ≡ count_of is_evidence joined
    length-decided_pairs = ap length decided_pairs_recent ∙ length-filter is_evidence joined

    eligible_on :
        (kind : String) (p95 : Option L) (samples n : ℕ) (shown baseline : RateStats)
        → let start_ms = window_start metrics.demoted_at_ms (trailing_window now_ms).0 in
          let pairs = decided_pairs hash_of session_of log start_ms now_ms in
          metrics.served_by_classic ≡ false
          → length pairs ≡ n
          → accept_rate (
              joined_actions
                (filter (λ (pair : JoinedDecision). shadow_would_show pair.shadow) pairs))
            ≡ shown
          → heuristic_baseline (filter (in_window start_ms now_ms) log.labels) start_ms now_ms
            ≡ baseline
          → ((graduation_check over_budget rounded hash_of session_of kind
                (some metrics)
                log
                now_ms
                p95
                samples).verdict
              ≡ eligible)
            ↔ ((log.exists ≡ true)
                × (log.shadows ≢ [])
                × (200 ≤ n)
                × (0 < decided shown)
                × (0 < decided baseline)
                × (metrics.calibration_fitted ≡ true)
                × (int_leb (pos 5000000) (rounded shown baseline) ≡ true))
    unfolding graduation_check shadow_verdict graduation_verdict delta_pp
    eligible_on kind p95 samples n shown baseline waits p q r =
        rw (sym p, sym q, sym r) (ground (arith, waits))

    -- A model that does not serve its kind yet is eligible exactly when there are shadow records,
    -- at least 200 of the joined decisions fall on label rows of the last 90 days, not before the
    -- last demotion and not after now, that were accepted or dismissed, some of these the model
    -- would have shown, the heuristic has decided rows of its own in that time, the calibration is
    -- fitted, and the rounded difference of the two rates is at least 5 points.
    pub eligible_iff :
        (kind : String) (p95 : Option L) (samples : ℕ)
        → metrics.served_by_classic ≡ false
        → ((graduation_check over_budget rounded hash_of session_of kind
              (some metrics)
              log
              now_ms
              p95
              samples).verdict
            ≡ eligible)
          ↔ ((log.exists ≡ true)
              × (log.shadows ≢ [])
              × (200 ≤ count_of is_evidence joined)
              × (0 < decided would_have_shown)
              × (0 < decided heuristic_showed)
              × (metrics.calibration_fitted ≡ true)
              × (int_leb (pos 5000000) (rounded would_have_shown heuristic_showed) ≡ true))
    eligible_iff kind p95 samples waits =
        eligible_on kind p95 samples (count_of is_evidence joined) would_have_shown heuristic_showed
          waits length-decided_pairs shown-would_have_shown baseline-heuristic_showed
