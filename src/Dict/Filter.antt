-- ===== src/Dict/Filter.antt =====
-- Dropping entries of a dictionary by a test.
use kenaz_ml.Prelude.{
  Eq, Bool, false, Option, none, some, [], ◌∷◌, ◌≡◌, refl, arith, if◌then◌else◌, filter,
}
use kenaz_ml.Dict.{Dict, get, has, UniqueKeys}
use kenaz_ml.Dict.Laws.{has-eq-get}

module _ {ℓ} {K V : Type ℓ} ⦃e : Eq K⦄ where
  -- A read of an entry that is kept only if it passes the test.
  abbrev pub get_if : (K × V → Bool) → K → Option V → Option V
  get_if p k none = none
  get_if p k (some v) = if p (k, v) then some v else none

  pub has-filter_absent :
      (p : K × V → Bool) (d : Dict K V) (k : K) → has d k ≡ false → has (filter p d) k ≡ false
  unfolding has
  has-filter_absent p [] k h = refl
  has-filter_absent p ((i, w) ∷ d) k h = ground (arith, has-filter_absent p d k)

  pub filter-UniqueKeys : (p : K × V → Bool) (d : Dict K V) → UniqueKeys d → UniqueKeys (filter p d)
  unfolding has
  filter-UniqueKeys p [] u = tt
  filter-UniqueKeys p ((i, w) ∷ d) u =
      ground (arith, has-filter_absent p d i, filter-UniqueKeys p d)

  pub get-filter :
      (p : K × V → Bool) (d : Dict K V) (k : K)
      → UniqueKeys d
      → get (filter p d) k ≡ get_if p k (get d k)
  unfolding has get
  get-filter p [] k u = refl
  get-filter p ((i, w) ∷ d) k u = ground (
    arith,
    e.beq_iff i k,
    has-eq-get d i,
    has-eq-get (filter p d) i,
    has-filter_absent p d i,
    get-filter p d k,
  )
