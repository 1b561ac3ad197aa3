-- ===== src/Registry/Directory/Listed.antt =====
-- What the walk of `directory_digest` of modelstore/registry/manifest.py makes of the entries of a
-- directory, in the order in which it meets them.
use mathlib.Core.List.{append-nil, append_assoc}
use kenaz_ml.Prelude.{
  String, string_eq, nat_eq, list_eq, Eq, Bool, false, Option, none, some, List, [], ◌∷◌, ◌++◌, ◌≡◌,
  refl, sym, ap, ◌∙◌, arith, Text, codes, if◌then◌else◌, Bool-cases, inl, inr, All,
}
use kenaz_ml.Dict.{Dict, has, put, UniqueKeys}
use kenaz_ml.Dict.Laws.{has-put}
use kenaz_ml.Registry.Validate.{Bytes, Sha256}
use kenaz_ml.Registry.Directory.{
  Entry, symlink, subdirectory, regular, unreadable_file, special, Walk, members, failed,
  hash_bytes, walk, insert_path, sorted_members, tree_text, tree_digest, tree_prefix,
}

module _ {ℓ} {K V : Type ℓ} ⦃e : Eq K⦄ where
  put_new : (d : Dict K V) (k : K) (v : V) → has d k ≡ false → put d k v ≡ d ++ (k, v) ∷ []
  unfolding has put
  put_new [] k v h = refl
  put_new ((j, w) ∷ d) k v h = ground (arith, h, put_new d k v)

module _ (sha : Sha256) (encode : String → Bytes) (allow : Bool) where
  -- The digest of the members that were found, where there was no refusal.
  unfoldable pub digest_of : Walk → Option Text
  digest_of (members found) = some (tree_digest sha encode found)
  digest_of (failed refusal) = none

  -- The hash of an entry that is a member, nothing for a directory, and none for a refusal.
  abbrev pub entry_hash : Entry → Option (Option Text)
  entry_hash (symlink target) =
      if allow then some (some (hash_bytes sha encode (codes "symlink:" ++ target))) else none
  entry_hash subdirectory = some none
  entry_hash (regular payload) = some (some (hash_bytes sha encode payload))
  entry_hash unreadable_file = none
  entry_hash special = none

  abbrev pub placed :
      (String × Text → Dict String Text → Dict String Text)
      → Option (Option Text)
      → String
      → Option (Dict String Text)
      → Option (Dict String Text)
  placed add none rel rest = none
  placed add (some none) rel rest = rest
  placed add (some (some h)) rel none = none
  placed add (some (some h)) rel (some rest) = some (add (rel, h) rest)

  -- The members of the entries, in the order of the entries.
  unfoldable pub in_order : List (String × Entry) → Option (Dict String Text)
  in_order [] = some []
  in_order ((rel, entry) ∷ entries) =
      placed (λ item rest. item ∷ rest) (entry_hash entry) rel (in_order entries)

  -- The members of the entries, in the order of their paths.
  unfoldable pub in_path_order : List (String × Entry) → Option (Dict String Text)
  in_path_order [] = some []
  in_path_order ((rel, entry) ∷ entries) =
      placed (insert_path sha encode) (entry_hash entry) rel (in_path_order entries)

  abbrev pub and_then : Dict String Text → Option (Dict String Text) → Option (Dict String Text)
  and_then found none = none
  and_then found (some more) = some (found ++ more)

  abbrev pub found_of : Walk → Option (Dict String Text)
  found_of (members found) = some found
  found_of (failed refusal) = none

  abbrev pub IsNew : Dict String Text → List (String × Entry) → Type 0
  IsNew found entries = All (λ item. has found item.0 ≡ false) entries

  put-IsNew :
      (rel : String) (h : Text) (found : Dict String Text) (rest : List (String × Entry))
      → has rest rel ≡ false
      → IsNew found rest
      → IsNew (put found rel h) rest
  unfolding has
  put-IsNew rel h found [] absent new = tt
  put-IsNew rel h found ((at, entry) ∷ rest) absent (new, news) = (
    ground (
      arith,
      absent,
      new,
      has-put found rel at h,
      string_eq.beq_iff at rel,
      string_eq.beq_iff rel at,
    ),
    put-IsNew rel h found rest (ground (arith, absent)) news,
  )

  pub none-IsNew : (entries : List (String × Entry)) → IsNew [] entries
  unfolding has
  none-IsNew [] = tt
  none-IsNew (item ∷ entries) = (refl, none-IsNew entries)

  and_then-placed :
      (rel : String) (h : Text) (found : Dict String Text) (rest : Option (Dict String Text))
      → and_then (found ++ (rel, h) ∷ []) rest
        ≡ and_then found (placed (λ item rest. item ∷ rest) (some (some h)) rel rest)
  and_then-placed rel h found none = refl
  and_then-placed rel h found (some rest) = ap some (append_assoc found ((rel, h) ∷ []) rest)

  pub walk-in_order :
      (entries : List (String × Entry)) (found : Dict String Text)
      → UniqueKeys entries
      → IsNew found entries
      → found_of (walk sha encode allow entries found) ≡ and_then found (in_order entries)
  unfolding walk in_order
  walk-in_order [] found u new = ap some (sym (append-nil found))
  walk-in_order ((rel, symlink target) ∷ rest) found u new =
      let h = hash_bytes sha encode (codes "symlink:" ++ target) in
      elim (Bool-cases allow) [
        | inl e ↦ rw e (
            walk-in_order rest (put found rel h) u.1 (put-IsNew rel h found rest u.0 new.1)
            ∙ ap (λ more. and_then more (in_order rest)) (put_new found rel h new.0)
            ∙ and_then-placed rel h found (in_order rest))
        | inr e ↦ rw e refl
      ]
  walk-in_order ((rel, subdirectory) ∷ rest) found u new = walk-in_order rest found u.1 new.1
  walk-in_order ((rel, regular payload) ∷ rest) found u new =
      let h = hash_bytes sha encode payload in
      walk-in_order rest (put found rel h) u.1 (put-IsNew rel h found rest u.0 new.1)
      ∙ ap (λ more. and_then more (in_order rest)) (put_new found rel h new.0)
      ∙ and_then-placed rel h found (in_order rest)
  walk-in_order ((rel, unreadable_file) ∷ rest) found u new = refl
  walk-in_order ((rel, special) ∷ rest) found u new = refl

  abbrev pub sorted_of : Option (Dict String Text) → Option (Dict String Text)
  sorted_of none = none
  sorted_of (some found) = some (sorted_members sha encode found)

  abbrev pub text_digest : Option (Dict String Text) → Option Text
  text_digest none = none
  text_digest (some ordered) =
      some (tree_prefix ++ sha.hexdigest (sha.update sha.start (tree_text sha encode ordered)))

  sorted_of-placed :
      (hash : Option (Option Text)) (rel : String) (rest : Option (Dict String Text))
      → sorted_of (placed (λ item rest. item ∷ rest) hash rel rest)
        ≡ placed (insert_path sha encode) hash rel (sorted_of rest)
  unfolding sorted_members
  sorted_of-placed none rel rest = refl
  sorted_of-placed (some none) rel rest = refl
  sorted_of-placed (some (some h)) rel none = refl
  sorted_of-placed (some (some h)) rel (some rest) = refl

  pub sorted_of-in_order :
      (entries : List (String × Entry)) → sorted_of (in_order entries) ≡ in_path_order entries
  unfolding in_order in_path_order sorted_members
  sorted_of-in_order [] = refl
  sorted_of-in_order ((rel, entry) ∷ entries) =
      sorted_of-placed (entry_hash entry) rel (in_order entries)
      ∙ ap (placed (insert_path sha encode) (entry_hash entry) rel) (sorted_of-in_order entries)

  pub digest_of-found_of : (w : Walk) → digest_of w ≡ text_digest (sorted_of (found_of w))
  unfolding digest_of tree_digest
  digest_of-found_of (members found) = refl
  digest_of-found_of (failed refusal) = refl
