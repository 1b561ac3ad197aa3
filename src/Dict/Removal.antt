-- ===== src/Dict/Removal.antt =====
-- Removing many keys, one by one.
use kenaz_ml.Prelude.{
  Eq, Bool, false, not, none, List, [], ◌∷◌, ◌≡◌, refl, ap, ◌∙◌, arith, ◌+◌, if◌then◌else◌, filter,
  length, Bool-cases, inl, inr,
}
use kenaz_ml.Dict.{Dict, get, has, remove, remove_all, UniqueKeys}
use kenaz_ml.Dict.Laws.{get-remove, remove-UniqueKeys}
use kenaz_ml.Dict.Filter.{has-filter_absent}

module _ {ℓ} {K V W : Type ℓ} ⦃e : Eq K⦄ where
  pub get-remove_all :
      (dead : Dict K W) (d : Dict K V) (k : K)
      → UniqueKeys d
      → get (remove_all dead d) k ≡ (if has dead k then none else get d k)
  unfolding remove_all has
  get-remove_all [] d k u = refl
  get-remove_all ((i, w) ∷ dead) d k u =
      ground
        (arith, get-remove_all dead (remove d i) k (remove-UniqueKeys d i u), get-remove d i k u)

  pub remove_all-UniqueKeys :
      (dead : Dict K W) (d : Dict K V) → UniqueKeys d → UniqueKeys (remove_all dead d)
  unfolding remove_all
  remove_all-UniqueKeys [] d u = u
  remove_all-UniqueKeys (entry ∷ dead) d u =
      remove_all-UniqueKeys dead (remove d entry.0) (remove-UniqueKeys d entry.0 u)

  remove_all-cons :
      (dead : Dict K W) (d : Dict K V) (i : K) (v : V)
      → has dead i ≡ false
      → remove_all dead ((i, v) ∷ d) ≡ (i, v) ∷ remove_all dead d
  unfolding remove_all has remove
  remove_all-cons [] d i v h = refl
  remove_all-cons ((j, w) ∷ dead) d i v h =
      ground (arith, e.beq_iff i j, e.beq_iff j i, remove_all-cons dead (remove d j) i v)

module _ {ℓ} {K V : Type ℓ} ⦃e : Eq K⦄ (p : K × V → Bool) where
  -- Removing the keys of the entries that pass a test leaves those that fail it.
  pub remove_all-filter :
      (d : Dict K V) → UniqueKeys d → remove_all (filter p d) d ≡ filter (λ x. not (p x)) d
  unfolding remove_all remove
  remove_all-filter [] u = refl
  remove_all-filter ((i, v) ∷ d) u = elim (Bool-cases (p (i, v))) [
    | inl h ↦ rw h (ground (arith, e.beq_iff i i, remove_all-filter d u.1))
    | inr h ↦ rw h (
        remove_all-cons (filter p d) d i v (has-filter_absent p d i u.0)
        ∙ ap (λ rest. (i, v) ∷ rest) (remove_all-filter d u.1))
  ]

module _ {ℓ} {A : Type ℓ} (p : A → Bool) where
  pub length-filter-not :
      (xs : List A) → length (filter (λ x. not (p x)) xs) + length (filter p xs) ≡ length xs
  length-filter-not [] = omega arith
  length-filter-not (x ∷ xs) = ground (arith, length-filter-not xs)
