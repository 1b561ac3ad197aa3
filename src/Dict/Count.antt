-- ===== src/Dict/Count.antt =====
-- How many keys of a dictionary satisfy a test, after a write or a removal.
use kenaz_ml.Prelude.{
  Eq, Bool, [], ◌∷◌, ◌≡◌, refl, arith, if◌then◌else◌, ℕ, ◌+◌, length, filter, ◌&&◌,
}
use kenaz_ml.Dict.{Dict, has, put, remove}

module _ {ℓ} {K V : Type ℓ} where
  -- len([k for k in d if p(k)])
  unfoldable pub count_keys : (K → Bool) → Dict K V → ℕ
  count_keys p [] = 0
  count_keys p ((k, v) ∷ d) = if p k then count_keys p d + 1 else count_keys p d

  pub length-filter_keys :
      (p : K → Bool) (d : Dict K V) → length (filter (λ entry. p entry.0) d) ≡ count_keys p d
  unfolding count_keys
  length-filter_keys p [] = refl
  length-filter_keys p ((k, v) ∷ d) = ground (arith, length-filter_keys p d)

module _ {ℓ} {K V : Type ℓ} ⦃e : Eq K⦄ (p : K → Bool) where
  pub count_keys-put :
      (d : Dict K V) (k : K) (v : V)
      → count_keys p (put d k v)
        ≡ (if has d k then count_keys p d else count_keys p d + (if p k then 1 else 0))
  unfolding has put count_keys
  count_keys-put [] k v = ground arith
  count_keys-put ((i, w) ∷ d) k v = ground (arith, e.beq_iff i k, count_keys-put d k v)

  pub count_keys-remove :
      (d : Dict K V) (k : K)
      → count_keys p (remove d k) + (if has d k && p k then 1 else 0) ≡ count_keys p d
  unfolding has remove count_keys
  count_keys-remove [] k = ground arith
  count_keys-remove ((i, w) ∷ d) k = ground (arith, e.beq_iff i k, count_keys-remove d k)
