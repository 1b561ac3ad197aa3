-- ===== src/Shadow/Sides.antt =====
-- A shown row counts for one side of the comparison at most.
use kenaz_ml.Prelude.{
  ℕ, ◌+◌, ◌≤◌, String, string_eq, nat_eq, Bool, true, false, ◌&&◌, Option, List, [], ◌∷◌, ◌++◌, ◌≡◌,
  refl, arith, length, filter, codes, Text,
}
use kenaz_ml.Registry.Json.{ℤ}
use kenaz_ml.LabelLog.{Record}
use kenaz_ml.Shadow.{
  RateStats, no_stats, count_action, count_actions, accept_rate, actions_of, starts_with,
  text_or_empty, by_model_or_rung, served_by_heuristic, served_by_classic, in_window, is_shown,
  heuristic_baseline, classic_live_rate,
}

abbrev pub total : RateStats → ℕ
total r = r.accepted + r.dismissed + r.ignored

total-count_actions :
    (actions : List String) (r : RateStats)
    → total (count_actions actions r) ≡ total r + length actions
unfolding count_actions
total-count_actions [] r = omega arith
total-count_actions (action ∷ actions) r =
    ground (arith, total-count_actions actions (count_action action r))

-- Every action is counted once.
total-accept_rate : (actions : List String) → total (accept_rate actions) ≡ length actions
unfolding accept_rate
total-accept_rate actions = omega (arith, total-count_actions actions no_stats)

starts_apart :
    (s : Text) (rest : Text)
    → starts_with (codes "heuristic") s ≡ true
    → starts_with (codes "classic/" ++ rest) s ≡ false
unfolding starts_with
starts_apart [] rest h = refl
starts_apart (c ∷ s) rest h = ground (arith, h)

model_apart :
    (kind : String) (rung : Option String) (model_id : Text)
    → by_model_or_rung model_id rung ≡ true
    → starts_with (codes "classic/" ++ codes kind ++ codes "@") model_id ≡ false
unfolding starts_with
model_apart kind rung [] e = refl
model_apart kind rung (c ∷ s) e = starts_apart (c ∷ s) (codes kind ++ codes "@") e

-- The two tests exclude each other.
served_apart :
    (kind : String) (label : Record)
    → served_by_heuristic label ≡ true
    → served_by_classic kind label ≡ false
unfolding served_by_heuristic served_by_classic
served_apart kind label h = model_apart kind label.row.rung (text_or_empty label.row.model_id) h

length-filter_apart :
    (p q : Record → Bool) (labels : List Record)
    → ((label : Record) → p label ≡ true → q label ≡ false)
    → length (filter p labels) + length (filter q labels) ≤ length labels
length-filter_apart p q [] apart = omega arith
length-filter_apart p q (label ∷ labels) apart =
    ground (arith, apart label, length-filter_apart p q labels apart)

length-actions_of : (labels : List Record) → length (actions_of labels) ≡ length labels
length-actions_of [] = refl
length-actions_of (label ∷ labels) = rw (length-actions_of labels) refl

-- Whatever the windows, the rows that the heuristic's rate counts and those that the rate of the
-- kind's trained model counts, the ignored ones included, are together no more than the rows: no
-- row counts on both sides.
pub sides_apart :
    (kind : String) (labels : List Record) (start_ms end_ms from_ms to_ms : ℤ)
    → total (heuristic_baseline labels start_ms end_ms)
        + total (classic_live_rate labels kind from_ms to_ms)
      ≤ length labels
unfolding heuristic_baseline classic_live_rate
sides_apart kind labels start_ms end_ms from_ms to_ms =
    let p : Record → Bool =
      λ label. in_window start_ms end_ms label && is_shown label && served_by_heuristic label in
    let q : Record → Bool =
      λ label. in_window from_ms to_ms label && is_shown label && served_by_classic kind label in
    omega (
      arith,
      total-accept_rate (actions_of (filter p labels)),
      total-accept_rate (actions_of (filter q labels)),
      length-actions_of (filter p labels),
      length-actions_of (filter q labels),
      length-filter_apart p q labels (λ label h. ground (arith, h, served_apart kind label)),
    )
