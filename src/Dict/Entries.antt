-- ===== src/Dict/Entries.antt =====
-- The entries of a dictionary are what its reads return.
use kenaz_ml.Prelude.{Eq, some, [], ◌∷◌, ◌≡◌, false, arith, All, All-imp}
use kenaz_ml.Dict.{Dict, get, has, UniqueKeys}
use kenaz_ml.Dict.Laws.{has-eq-get}

module _ {ℓ} {K V : Type ℓ} ⦃e : Eq K⦄ where
  get-cons_ne :
      (d : Dict K V) (i k : K) (w v : V)
      → has d i ≡ false
      → get d k ≡ some v
      → get ((i, w) ∷ d) k ≡ some v
  unfolding get
  get-cons_ne d i k w v h g = ground (arith, e.beq_iff i k, has-eq-get d i)

  pub get_entries : (d : Dict K V) → UniqueKeys d → All (λ x. get d x.0 ≡ some x.1) d
  unfolding get
  get_entries [] u = tt
  get_entries ((i, w) ∷ d) u = (
    ground (arith, e.beq_iff i i),
    All-imp {P = λ (x : K × V). get d x.0 ≡ some x.1} d (λ x g. get-cons_ne d i x.0 w x.1 u.0 g)
        (get_entries d u.1),
  )
