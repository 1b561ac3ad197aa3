-- ===== src/Shadow/Windows.antt =====
-- The window of `_graduation_check` of advice/shadow.py: 90 days, or since the demotion if that is
-- later.
use kenaz_ml.Prelude.{
  none, refl, false, String, Bool, true, false, ◌&&◌, ◌||◌, Option, some, List, [], ◌∷◌, ◌≡◌, inl,
  inr, arith, filter, All, All-imp, Bool-cases,
}
use kenaz_ml.Registry.Json.{ℤ}
use kenaz_ml.LabelLog.{Record}
use kenaz_ml.Shadow.{int_leb, trailing_window, in_window, is_accept, is_dismiss}
use kenaz_ml.Shadow.Join.{JoinedDecision, join_shadow_to_labels}
use kenaz_ml.Shadow.Graduation.{ShadowLog, window_start, decided_pairs}

int_leb_trans : (a b c : ℤ) → int_leb a b ≡ true → int_leb b c ≡ true → int_leb a c ≡ true
int_leb_trans a b c h k = ground (arith, h, k)

int_leb_total : (a b : ℤ) → int_leb a b ≡ false → int_leb b a ≡ true
int_leb_total a b h = ground (arith, h)

-- Not before the demotion, where there was one.
abbrev pub after_demotion : Option ℤ → ℤ → Bool
after_demotion none ts = true
after_demotion (some at) ts = int_leb at ts

pub after_window_start :
    (demoted_at : Option ℤ) (start_ms ts : ℤ)
    → int_leb (window_start demoted_at start_ms) ts
      ≡ (after_demotion demoted_at ts && int_leb start_ms ts)
after_window_start none start_ms ts = refl
after_window_start (some at) start_ms ts =
    ground
      (arith, int_leb_trans at start_ms ts, int_leb_trans start_ms at ts, int_leb_total at start_ms)

window_start_le : (at start_ms : ℤ) → int_leb at (window_start (some at) start_ms) ≡ true
window_start_le at start_ms = ground arith

filter-true :
    (p : JoinedDecision → Bool) (pairs : List JoinedDecision)
    → All (λ pair. p pair ≡ true) (filter p pairs)
filter-true p [] = tt
filter-true p (pair ∷ pairs) = elim (Bool-cases (p pair)) [
  | inl e ↦ rw e (e, filter-true p pairs)
  | inr e ↦ rw e (filter-true p pairs)
]

both_ends :
    (start_ms now_ms : ℤ) (pair : JoinedDecision)
    → (in_window start_ms now_ms pair.label
        && (is_accept pair.label.row.user_action || is_dismiss pair.label.row.user_action))
      ≡ true
    → (int_leb start_ms pair.label.row.ts ≡ true) × (int_leb pair.label.row.ts now_ms ≡ true)
unfolding in_window
both_ends start_ms now_ms pair e = ground (arith, e)

-- After a demotion no decision counts whose label row is older than the demotion or newer than the
-- check, whatever the trailing window is: of the joined decisions in a kind's window, every label
-- row lies between the demotion and now.
pub decided_pairs_fresh :
    (hash_of : Record → Option String) (session_of : Record → Option String) (log : ShadowLog)
    (demoted_at now_ms : ℤ)
    → All
        (λ (pair : JoinedDecision).
          (int_leb demoted_at pair.label.row.ts ≡ true) × (int_leb pair.label.row.ts now_ms ≡ true))
        (decided_pairs hash_of session_of log
          (window_start (some demoted_at) (trailing_window now_ms).0)
          now_ms)
unfolding decided_pairs in_window
decided_pairs_fresh hash_of session_of log demoted_at now_ms =
    let start_ms = window_start (some demoted_at) (trailing_window now_ms).0 in
    All-imp (decided_pairs hash_of session_of log start_ms now_ms)
      (λ pair e.
        let (first, last) = both_ends start_ms now_ms pair e in
        (
          int_leb_trans demoted_at start_ms pair.label.row.ts
              (window_start_le demoted_at (trailing_window now_ms).0) first,
          last,
        ))
      (filter-true
        (λ (pair : JoinedDecision).
          in_window start_ms now_ms pair.label
          && (is_accept pair.label.row.user_action || is_dismiss pair.label.row.user_action))
        (join_shadow_to_labels hash_of session_of log.shadows log.labels))
