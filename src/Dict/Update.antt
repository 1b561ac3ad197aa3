-- ===== src/Dict/Update.antt =====
-- `d.update(other)`: every entry is written, in order.
use kenaz_ml.Prelude.{Eq, Option, none, some, [], ◌∷◌, ◌≡◌, refl, arith}
use kenaz_ml.Dict.{Dict, get, has, put, UniqueKeys}
use kenaz_ml.Dict.Laws.{has-eq-get, get-put}

-- A read that prefers the first dictionary.
abbrev pub prefer {ℓ} : {A : Type ℓ} → Option A → Option A → Option A
prefer none o = o
prefer (some a) o = some a

module _ {ℓ} {K V : Type ℓ} ⦃e : Eq K⦄ where
  unfoldable pub update : Dict K V → Dict K V → Dict K V
  unfolding put
  update d [] = d
  update d ((k, v) ∷ changes) = update (put d k v) changes

  pub get-update :
      (d changes : Dict K V) (k : K)
      → UniqueKeys changes
      → get (update d changes) k ≡ prefer (get changes k) (get d k)
  unfolding update get has
  get-update d [] k u = refl
  get-update d ((j, v) ∷ changes) k u = ground (
    arith,
    e.beq_iff j k,
    has-eq-get changes j,
    get-put d j k v,
    get-update (put d j v) changes k,
  )
