-- ===== src/Dict.antt =====
-- Python's `dict`: an association list in insertion order. Writing to a key that is present keeps
-- its place, a new key goes to the end. The laws stand in the modules below.
pub mod Laws
pub mod Count
pub mod Filter
pub mod Entries
pub mod Removal
pub mod Update
use kenaz_ml.Prelude.{
  Eq, ◌==◌, Bool, true, false, Option, none, some, List, [], ◌∷◌, ◌≡◌, if◌then◌else◌,
}

abbrev pub Dict {ℓ} : Type ℓ → Type ℓ → Type ℓ
Dict K V = List (K × V)

module _ {ℓ} {K V : Type ℓ} ⦃e : Eq K⦄ where
  -- d.get(k)
  unfoldable pub get : Dict K V → K → Option V
  get [] k = none
  get ((j, v) ∷ d) k = if j == k then some v else get d k

  -- k in d
  unfoldable pub has : Dict K V → K → Bool
  has [] k = false
  has ((j, v) ∷ d) k = if j == k then true else has d k

  -- d[k] = v
  unfoldable pub put : Dict K V → K → V → Dict K V
  put [] k v = (k, v) ∷ []
  put ((j, w) ∷ d) k v = if j == k then (j, v) ∷ d else (j, w) ∷ put d k v

  -- d.pop(k, None)
  unfoldable pub remove : Dict K V → K → Dict K V
  remove [] k = []
  remove ((j, w) ∷ d) k = if j == k then d else (j, w) ∷ remove d k

  -- Every key of another dictionary is removed, one by one.
  unfoldable pub remove_all {κ} : {W : Type κ} → List (K × W) → Dict K V → Dict K V
  remove_all [] d = d
  remove_all (entry ∷ dead) d = remove_all dead (remove d entry.0)

  -- No key occurs twice: what a `dict` guarantees and the list does not.
  abbrev pub UniqueKeys : Dict K V → Type 0
  UniqueKeys [] = Unit
  UniqueKeys ((j, v) ∷ d) = (has d j ≡ false) × UniqueKeys d
