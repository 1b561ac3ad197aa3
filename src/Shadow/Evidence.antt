-- ===== src/Shadow/Evidence.antt =====
-- Counting label rows by what the user did: what `accept_rate` of advice/shadow.py makes of the
-- rows that a test lets through.
use kenaz_ml.Prelude.{
  ℕ, suc, ◌+◌, String, string_eq, Bool, true, false, not, ◌&&◌, ◌||◌, List, [], ◌∷◌, ◌≡◌, refl, ap,
  ◌∙◌, map, filter, length, if◌then◌else◌, arith, inl, inr, Bool-cases,
}
use kenaz_ml.Shadow.{
  RateStats, no_stats, is_accept, is_dismiss, count_actions, count_action, accept_rate,
}

abbrev added : RateStats → RateStats → RateStats
added r s = record {
  accepted = r.accepted + s.accepted;
  dismissed = r.dismissed + s.dismissed;
  ignored = r.ignored + s.ignored;
}

abbrev record_of : ℕ → ℕ → ℕ → RateStats
record_of a d i = record { accepted = a; dismissed = d; ignored = i }

stats_same : {a a' d d' i i' : ℕ} → a ≡ a' → d ≡ d' → i ≡ i' → record_of a d i ≡ record_of a' d' i'
stats_same p q r = rw (p, q, r) refl

dismissed_only : (action : String) → is_dismiss action ≡ true → is_accept action ≡ false
dismissed_only action h = rw ((string_eq.beq_iff action "dismissed").0 h) refl

-- What one action counts for.
abbrev counts_for : Bool → Bool → RateStats → RateStats
counts_for true d r = record r { accepted = suc r.accepted }
counts_for false true r = record r { dismissed = suc r.dismissed }
counts_for false false r = record r { ignored = suc r.ignored }

count_action-counts_for :
    (action : String) (r : RateStats)
    → count_action action r ≡ counts_for (is_accept action) (is_dismiss action) r
count_action-counts_for action r = ground arith

one_more :
    (a d : Bool) (r s : RateStats)
    → (d ≡ true → a ≡ false)
    → added (counts_for a d r) s
      ≡ added r (
          record_of
            (if a then suc s.accepted else s.accepted)
            (if d then suc s.dismissed else s.dismissed)
            (if not (a || d) then suc s.ignored else s.ignored))
one_more true true r s h = absurd (ground (arith, h refl))
one_more true false r s h = stats_same (omega arith) (omega arith) (omega arith)
one_more false true r s h = stats_same (omega arith) (omega arith) (omega arith)
one_more false false r s h = stats_same (omega arith) (omega arith) (omega arith)

module _ {ℓ} {A : Type ℓ} where
  -- How many elements pass a test.
  unfoldable pub count_of : (A → Bool) → List A → ℕ
  count_of p [] = 0
  count_of p (x ∷ xs) = if p x then suc (count_of p xs) else count_of p xs

  pub length-filter : (p : A → Bool) (xs : List A) → length (filter p xs) ≡ count_of p xs
  unfolding count_of
  length-filter p [] = refl
  length-filter p (x ∷ xs) = ground (arith, length-filter p xs)

  pub filter-filter :
      (p q : A → Bool) (xs : List A) → filter p (filter q xs) ≡ filter (λ x. q x && p x) xs
  filter-filter p q [] = refl
  filter-filter p q (x ∷ xs) = ground (arith, filter-filter p q xs)

  pub filter-same :
      (p q : A → Bool) (xs : List A) → ((x : A) → p x ≡ q x) → filter p xs ≡ filter q xs
  filter-same p q [] h = refl
  filter-same p q (x ∷ xs) h = ground (arith, h x, filter-same p q xs h)

  -- The accepted, dismissed and other ones among the elements that pass a test.
  abbrev pub rate_of : (A → Bool) → (A → String) → List A → RateStats
  rate_of p action xs = record {
    accepted = count_of (λ x. p x && is_accept (action x)) xs;
    dismissed = count_of (λ x. p x && is_dismiss (action x)) xs;
    ignored = count_of (λ x. p x && not (is_accept (action x) || is_dismiss (action x))) xs;
  }

  count_actions-rate_of :
      (p : A → Bool) (action : A → String) (xs : List A) (r : RateStats)
      → count_actions (map action (filter p xs)) r ≡ added r (rate_of p action xs)
  unfolding count_actions count_of
  count_actions-rate_of p action [] r = ground arith
  count_actions-rate_of p action (x ∷ xs) r = elim (Bool-cases (p x)) [
    | inr skipped ↦ rw skipped (count_actions-rate_of p action xs r)
    | inl kept ↦ rw kept (
        ap (count_actions (map action (filter p xs))) (count_action-counts_for (action x) r)
        ∙ count_actions-rate_of p action xs
            (counts_for (is_accept (action x)) (is_dismiss (action x)) r)
        ∙ one_more (is_accept (action x)) (is_dismiss (action x)) r (rate_of p action xs)
            (dismissed_only (action x)))
  ]

  pub accept_rate-rate_of :
      (p : A → Bool) (action : A → String) (xs : List A)
      → accept_rate (map action (filter p xs)) ≡ rate_of p action xs
  unfolding accept_rate
  accept_rate-rate_of p action xs =
      count_actions-rate_of p action xs no_stats
      ∙ stats_same (omega arith) (omega arith) (omega arith)
