-- ===== src/Dict/Laws.antt =====
-- What a read sees after a write or a removal.
use kenaz_ml.Prelude.{
  Eq, ◌==◌, Bool, true, false, Option, none, some, [], ◌∷◌, ◌≡◌, refl, arith, if◌then◌else◌, ◌+◌,
  length,
}
use kenaz_ml.Dict.{Dict, get, has, put, remove, UniqueKeys}

abbrev pub is_some {ℓ} : {A : Type ℓ} → Option A → Bool
is_some none = false
is_some (some a) = true

module _ {ℓ} {K V : Type ℓ} ⦃e : Eq K⦄ where
  pub has-eq-get : (d : Dict K V) (k : K) → has d k ≡ is_some (get d k)
  unfolding has get
  has-eq-get [] k = refl
  has-eq-get ((j, v) ∷ d) k = ground (arith, has-eq-get d k)

  pub get-put :
      (d : Dict K V) (k j : K) (v : V) → get (put d k v) j ≡ (if k == j then some v else get d j)
  unfolding get put
  get-put [] k j v = refl
  get-put ((i, w) ∷ d) k j v =
      ground (arith, e.beq_iff k j, e.beq_iff i k, e.beq_iff i j, get-put d k j v)

  pub has-put :
      (d : Dict K V) (k j : K) (v : V) → has (put d k v) j ≡ (if k == j then true else has d j)
  unfolding has put
  has-put [] k j v = refl
  has-put ((i, w) ∷ d) k j v =
      ground (arith, e.beq_iff k j, e.beq_iff i k, e.beq_iff i j, has-put d k j v)

  pub put-UniqueKeys : (d : Dict K V) (k : K) (v : V) → UniqueKeys d → UniqueKeys (put d k v)
  unfolding has put
  put-UniqueKeys [] k v u = (refl, tt)
  put-UniqueKeys ((i, w) ∷ d) k v u =
      ground (arith, e.beq_iff i k, e.beq_iff k i, has-put d k i v, put-UniqueKeys d k v)

  pub length-put :
      (d : Dict K V) (k : K) (v : V)
      → length (put d k v) ≡ (if has d k then length d else length d + 1)
  unfolding has put
  length-put [] k v = refl
  length-put ((i, w) ∷ d) k v = ground (arith, length-put d k v)

  pub remove_absent : (d : Dict K V) (k : K) → has d k ≡ false → remove d k ≡ d
  unfolding has remove
  remove_absent [] k h = refl
  remove_absent ((i, w) ∷ d) k h = ground (arith, remove_absent d k)

  pub length-remove : (d : Dict K V) (k : K) → has d k ≡ true → length (remove d k) + 1 ≡ length d
  unfolding has remove
  length-remove [] k h = cc
  length-remove ((i, w) ∷ d) k h = ground (arith, length-remove d k)

  pub has-remove :
      (d : Dict K V) (k j : K)
      → UniqueKeys d
      → has (remove d k) j ≡ (if k == j then false else has d j)
  unfolding has remove
  has-remove [] k j u = ground arith
  has-remove ((i, w) ∷ d) k j u =
      ground (arith, e.beq_iff k j, e.beq_iff i k, e.beq_iff i j, has-remove d k j)

  pub get-remove :
      (d : Dict K V) (k j : K)
      → UniqueKeys d
      → get (remove d k) j ≡ (if k == j then none else get d j)
  unfolding get has remove
  get-remove [] k j u = ground arith
  get-remove ((i, w) ∷ d) k j u =
      ground (arith, e.beq_iff k j, e.beq_iff i k, e.beq_iff i j, has-eq-get d i, get-remove d k j)

  pub remove-UniqueKeys : (d : Dict K V) (k : K) → UniqueKeys d → UniqueKeys (remove d k)
  unfolding has remove
  remove-UniqueKeys [] k u = tt
  remove-UniqueKeys ((i, w) ∷ d) k u = ground (arith, has-remove d k i, remove-UniqueKeys d k)
