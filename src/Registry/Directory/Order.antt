-- ===== src/Registry/Directory/Order.antt =====
-- The order in which `directory_digest` of modelstore/registry/manifest.py meets the entries of a
-- directory.
use mathlib.Core.List.{Permᴰ}
use kenaz_ml.Prelude.{
  String, string_eq, nat_eq, list_eq, ◌==◌, Bool, false, Option, none, some, List, [], ◌∷◌, ◌≡◌,
  refl, sym, ap, ◌∙◌, arith, Text, Bool-cases, inl, inr, list_beq_iff,
}
use kenaz_ml.Dict.{Dict, has, UniqueKeys}
use kenaz_ml.Registry.Validate.{Bytes, Sha256}
use kenaz_ml.Registry.Directory.{Entry, walk, insert_path}
use kenaz_ml.Registry.Directory.Paths.{insert_path_comm}
use kenaz_ml.Registry.Directory.Listed.{
  digest_of, entry_hash, placed, in_order, in_path_order, and_then, none-IsNew, walk-in_order,
  sorted_of, text_digest, sorted_of-in_order, digest_of-found_of,
}

list_beq_comm : (p q : Bytes) → (p == q) ≡ (q == p)
list_beq_comm p q = ground (arith, list_beq_iff p q, list_beq_iff q p)

module _ (sha : Sha256) (encode : String → Bytes) (allow : Bool) where
  -- The entries under the bytes of their paths.
  abbrev pub by_bytes : List (String × Entry) → Dict Bytes Entry
  by_bytes [] = []
  by_bytes ((rel, entry) ∷ entries) = (encode rel, entry) ∷ by_bytes entries

  placed_comm :
      (x y : Option (Option Text)) (at rel : String) (rest : Option (Dict String Text))
      → (encode at == encode rel) ≡ false
      → let place = placed sha encode allow (insert_path sha encode) in
        place x at (place y rel rest) ≡ place y rel (place x at rest)
  placed_comm none none at rel rest ne = refl
  placed_comm none (some none) at rel rest ne = refl
  placed_comm none (some (some k)) at rel none ne = refl
  placed_comm none (some (some k)) at rel (some rest) ne = refl
  placed_comm (some none) y at rel rest ne = refl
  placed_comm (some (some h)) none at rel none ne = refl
  placed_comm (some (some h)) none at rel (some rest) ne = refl
  placed_comm (some (some h)) (some none) at rel rest ne = refl
  placed_comm (some (some h)) (some (some k)) at rel none ne = refl
  placed_comm (some (some h)) (some (some k)) at rel (some rest) ne =
      ap some (insert_path_comm sha encode (at, h) (rel, k) rest ne)

  has-by_bytes :
      {a b : List (String × Entry)}
      → Permᴰ a b
      → (k : Bytes) → has (by_bytes a) k ≡ has (by_bytes b) k
  unfolding has
  has-by_bytes Permᴰ.nil k = refl
  has-by_bytes (Permᴰ.cons e p) k = rw (e, has-by_bytes p k) refl
  has-by_bytes (Permᴰ.swap e f) k = rw (e, f) (ground arith)
  has-by_bytes (Permᴰ.trans p q) k = has-by_bytes p k ∙ has-by_bytes q k

  by_bytes-UniqueKeys :
      {a b : List (String × Entry)} → Permᴰ a b → UniqueKeys (by_bytes a) → UniqueKeys (by_bytes b)
  unfolding has
  by_bytes-UniqueKeys Permᴰ.nil u = u
  by_bytes-UniqueKeys (Permᴰ.cons {b = b} e p) u =
      (sym (has-by_bytes p (encode b.0)) ∙ rw (sym e) u.0, by_bytes-UniqueKeys p u.1)
  by_bytes-UniqueKeys (Permᴰ.swap {a} {b} e f) u =
      rw (sym e, sym f) (ground (arith, u, list_beq_comm (encode a.0) (encode b.0)))
  by_bytes-UniqueKeys (Permᴰ.trans p q) u = by_bytes-UniqueKeys q (by_bytes-UniqueKeys p u)

  in_path_order-perm :
      {a b : List (String × Entry)}
      → Permᴰ a b
      → UniqueKeys (by_bytes a)
      → in_path_order sha encode allow a ≡ in_path_order sha encode allow b
  unfolding in_path_order has
  in_path_order-perm Permᴰ.nil u = refl
  in_path_order-perm (Permᴰ.cons e p) u = rw (e, in_path_order-perm p u.1) refl
  in_path_order-perm (Permᴰ.swap {a} {b} {l = l} e f) u =
      rw (sym e, sym f)
        (placed_comm (entry_hash sha encode allow a.1) (entry_hash sha encode allow b.1) a.0 b.0
          (in_path_order sha encode allow l)
          (ground (arith, u, list_beq_comm (encode a.0) (encode b.0))))
  in_path_order-perm (Permᴰ.trans p q) u =
      in_path_order-perm p u ∙ in_path_order-perm q (by_bytes-UniqueKeys p u)

  unique_paths :
      (entries : List (String × Entry)) → UniqueKeys (by_bytes entries) → UniqueKeys entries
  unfolding has
  unique_paths [] u = tt
  unique_paths ((at, entry) ∷ entries) u = (absent entries u.0, unique_paths entries u.1)
    where
      absent :
          (rest : List (String × Entry))
          → has (by_bytes rest) (encode at) ≡ false
          → has rest at ≡ false
      absent [] h = refl
      absent ((rel, other) ∷ rest) h = elim (Bool-cases (rel == at)) [
        | inl e ↦ absurd (
            ground (
              arith,
              h,
              list_beq_iff (encode rel) (encode at),
              ap encode ((string_eq.beq_iff rel at).0 e),
            ))
        | inr e ↦ rw e (absent rest (ground (arith, h)))
      ]

  digest-in_path_order :
      (entries : List (String × Entry))
      → UniqueKeys (by_bytes entries)
      → digest_of sha encode allow (walk sha encode allow entries [])
        ≡ text_digest sha encode allow (in_path_order sha encode allow entries)
  digest-in_path_order entries u =
      digest_of-found_of sha encode allow (walk sha encode allow entries [])
      ∙ ap (λ found. text_digest sha encode allow (sorted_of sha encode allow found))
          (walk-in_order sha encode allow entries [] (unique_paths entries u)
            (none-IsNew sha encode allow entries))
      ∙ ap (text_digest sha encode allow)
          (whole (in_order sha encode allow entries) ∙ sorted_of-in_order sha encode allow entries)
    where
      whole :
          (found : Option (Dict String Text))
          → sorted_of sha encode allow (and_then sha encode allow [] found)
            ≡ sorted_of sha encode allow found
      whole none = refl
      whole (some found) = refl

  -- The digest of a directory whose paths have different bytes, or that there is none because an
  -- entry is refused, is the same in whichever order the walk meets the entries.
  pub digest_any_order :
      {a b : List (String × Entry)}
      → Permᴰ a b
      → UniqueKeys (by_bytes a)
      → digest_of sha encode allow (walk sha encode allow a [])
        ≡ digest_of sha encode allow (walk sha encode allow b [])
  digest_any_order {a} {b} p u =
      digest-in_path_order a u
      ∙ ap (text_digest sha encode allow) (in_path_order-perm p u)
      ∙ sym (digest-in_path_order b (by_bytes-UniqueKeys p u))
