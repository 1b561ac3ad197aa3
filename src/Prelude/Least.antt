-- ===== src/Prelude/Least.antt =====
-- Predicates on the entries of a list, and Python's `min(xs, key=f)`.
use Prim.Native.Nat.{ℕ, ◌≤◌}
use mathlib.Core.Path.{◌≡◌}
use mathlib.Core.Bool.{Bool, true}
use mathlib.Core.List.{List, [], ◌∷◌}
use native.Mathlib.Nat.{le_refl, le_trans}
use native.Mathlib.Omega.{arith}
use kenaz_ml.Prelude.Tests.{ltb, if◌then◌else◌, Bool-cases}
use kenaz_ml.Prelude.Lists.{All, filter}
use mathlib.Core.Logic.{inl, inr}

module _ {ℓ κ λ'} {A : Type ℓ} {P : A → Type κ} {Q : A → Type λ'} where
  pub All-imp : (xs : List A) → ((x : A) → P x → Q x) → All P xs → All Q xs
  All-imp [] f h = tt
  All-imp (x ∷ xs) f h = (f x h.0, All-imp xs f h.1)

module _ {ℓ κ} {A : Type ℓ} (P : A → Type κ) where
  pub All-filter :
      (p : A → Bool) (xs : List A) → All P xs → All (λ x. P x × (p x ≡ true)) (filter p xs)
  All-filter p [] h = tt
  All-filter p (x ∷ xs) h = elim (Bool-cases (p x)) [
    | inl e ↦ rw e ((h.0, e), All-filter p xs h.1)
    | inr e ↦ rw e (All-filter p xs h.1)
  ]

module _ {ℓ} {A : Type ℓ} where
  -- min(best :: xs, key=f): the first entry with the least value.
  unfoldable pub min_by : (A → ℕ) → A → List A → A
  min_by f best [] = best
  min_by f best (x ∷ xs) = min_by f (if ltb (f x) (f best) then x else best) xs

module _ {ℓ κ} {A : Type ℓ} (f : A → ℕ) (P : A → Type κ) where
  -- The least entry is one of the entries.
  pub min_by-All : (best : A) (xs : List A) → P best → All P xs → P (min_by f best xs)
  unfolding min_by
  min_by-All best [] h hs = h
  min_by-All best (x ∷ xs) h hs = elim (Bool-cases (ltb (f x) (f best))) [
    | inl e ↦ rw e (min_by-All x xs hs.0 hs.1)
    | inr e ↦ rw e (min_by-All best xs h hs.1)
  ]

module _ {ℓ} {A : Type ℓ} (f : A → ℕ) where
  least_of : A → A → A
  least_of x best = if ltb (f x) (f best) then x else best

  least_of_le : (x best : A) → (f (least_of x best) ≤ f x) × (f (least_of x best) ≤ f best)
  unfolding least_of
  least_of_le x best = ground arith

  pub min_by_le_first : (best : A) (xs : List A) → f (min_by f best xs) ≤ f best
  unfolding min_by least_of
  min_by_le_first best [] = le_refl _
  min_by_le_first best (x ∷ xs) =
      le_trans (min_by_le_first (least_of x best) xs) (least_of_le x best).1

  -- No entry has a smaller value than the least one.
  pub min_by_le : (best : A) (xs : List A) → All (λ x. f (min_by f best xs) ≤ f x) xs
  unfolding min_by least_of
  min_by_le best [] = tt
  min_by_le best (x ∷ xs) = (
    le_trans (min_by_le_first (least_of x best) xs) (least_of_le x best).0,
    min_by_le (least_of x best) xs,
  )
