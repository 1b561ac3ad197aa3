-- ===== src/Registry/Directory/Paths.antt =====
-- The bytewise order of paths in `tree_digest` of modelstore/registry/manifest.py, and what it
-- makes of the order in which members are inserted.
use kenaz_ml.Prelude.{
  String, nat_eq, list_eq, ◌==◌, true, false, not, [], ◌∷◌, ◌≡◌, refl, arith, Text,
}
use kenaz_ml.Dict.{Dict}
use kenaz_ml.Registry.Validate.{Bytes, Sha256}
use kenaz_ml.Registry.Directory.{bytes_lt, insert_path}

-- Of two different paths one is below the other.
bytes_lt_total : (a b : Bytes) → (a == b) ≡ false → bytes_lt a b ≡ not (bytes_lt b a)
unfolding bytes_lt
bytes_lt_total [] [] h = absurd (ground (arith, h))
bytes_lt_total [] (b ∷ bs) h = refl
bytes_lt_total (a ∷ as') [] h = refl
bytes_lt_total (a ∷ as') (b ∷ bs) h = ground (arith, h, bytes_lt_total as' bs)

-- From b <= a < c, b < c.
bytes_lt_trans : (a b c : Bytes) → bytes_lt a b ≡ false → bytes_lt a c ≡ true → bytes_lt b c ≡ true
unfolding bytes_lt
bytes_lt_trans [] [] c h k = k
bytes_lt_trans [] (b ∷ bs) c h k = absurd (ground (arith, h))
bytes_lt_trans (a ∷ as') b [] h k = absurd (ground (arith, k))
bytes_lt_trans (a ∷ as') [] (c ∷ cs) h k = refl
bytes_lt_trans (a ∷ as') (b ∷ bs) (c ∷ cs) h k = ground (arith, h, k, bytes_lt_trans as' bs cs)

module _ (sha : Sha256) (encode : String → Bytes) where
  -- Two members with different paths may be inserted in either order.
  pub insert_path_comm :
      (x y : String × Text) (d : Dict String Text)
      → (encode x.0 == encode y.0) ≡ false
      → insert_path sha encode x (insert_path sha encode y d)
        ≡ insert_path sha encode y (insert_path sha encode x d)
  unfolding insert_path
  insert_path_comm x y [] ne = ground (arith, bytes_lt_total (encode x.0) (encode y.0) ne)
  insert_path_comm x y (o ∷ d) ne = ground (
    arith,
    bytes_lt_total (encode x.0) (encode y.0) ne,
    bytes_lt_trans (encode o.0) (encode x.0) (encode y.0),
    bytes_lt_trans (encode o.0) (encode y.0) (encode x.0),
    insert_path_comm x y d ne,
  )
