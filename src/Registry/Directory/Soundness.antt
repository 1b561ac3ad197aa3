-- ===== src/Registry/Directory/Soundness.antt =====
-- What a verified directory of modelstore/registry/manifest.py is.
use kenaz_ml.Prelude.{
  String, string_eq, nat_eq, option_eq, list_eq, pair_eq, ◌==◌, true, false, not, ◌&&◌, Option,
  none, some, List, [], ◌∷◌, ◌≡◌, ◌≢◌, refl, subst, arith, Text, lower, strip, Bool-cases, inl, inr,
  list_beq_iff, All,
}
use kenaz_ml.Dict.{Dict, get, has, put, UniqueKeys}
use kenaz_ml.Dict.Laws.{get-put, has-eq-get}
use kenaz_ml.Registry.Manifest.{Manifest}
use kenaz_ml.Registry.Validate.{Bytes, Sha256}
use kenaz_ml.Registry.Directory.{
  Entry, symlink, subdirectory, regular, unreadable_file, special, DirectoryState,
  VerifiedDirectory, Walk, members, failed, verified, hash_bytes, walk, tree_digest, tree_prefix,
  remove_prefix, check_members, same_members, declares, verify_artifact_directory,
}

-- A file that can be read, or a directory.
abbrev pub IsPlain : String × Entry → Type 0
IsPlain (rel, regular payload) = Unit
IsPlain (rel, subdirectory) = Unit
IsPlain (rel, symlink target) = ⊥
IsPlain (rel, unreadable_file) = ⊥
IsPlain (rel, special) = ⊥

members_injective : {a b : Dict String Text} → members a ≡ members b → a ≡ b
members_injective h = cc

verified_injective : {a b : VerifiedDirectory} → verified a ≡ verified b → a ≡ b
verified_injective h = cc

module _ (sha : Sha256) (encode : String → Bytes) where
  -- The hash of the file under a path, or what was there before.
  abbrev pub hash_or : Option Text → Option Entry → Option Text
  hash_or old (some (regular payload)) = some (hash_bytes sha encode payload)
  hash_or old (some (symlink target)) = old
  hash_or old (some subdirectory) = old
  hash_or old (some unreadable_file) = old
  hash_or old (some special) = old
  hash_or old none = old

  unique_rest :
      (at rel : String) (rest : List (String × Entry))
      → has rest at ≡ false
      → (at == rel) ≡ true
      → get rest rel ≡ none
  unique_rest at rel rest h e = ground (arith, has-eq-get rest at, string_eq.beq_iff at rel)

  walk_lem :
      (entries : List (String × Entry)) (found out : Dict String Text)
      → UniqueKeys entries
      → walk sha encode false entries found ≡ members out
      → All IsPlain entries
        × ((rel : String) → get out rel ≡ hash_or (get found rel) (get entries rel))
  unfolding walk get
  walk_lem [] found out u h = (tt, λ rel. cc (members_injective h))
  walk_lem ((at, symlink target) ∷ rest) found out u h = cc
  walk_lem ((at, unreadable_file) ∷ rest) found out u h = cc
  walk_lem ((at, special) ∷ rest) found out u h = cc
  walk_lem ((at, subdirectory) ∷ rest) found out u h =
      let (plain, lookup) = walk_lem rest found out u.1 h in
      (
        (tt, plain),
        λ rel. elim (Bool-cases (at == rel)) [
          | inl e ↦ rw e (cc (lookup rel, unique_rest at rel rest u.0 e))
          | inr e ↦ rw e (lookup rel)
        ],
      )
  walk_lem ((at, regular payload) ∷ rest) found out u h =
      let (plain, lookup) =
        walk_lem rest (put found at (hash_bytes sha encode payload)) out u.1 h in
      (
        (tt, plain),
        λ rel. elim (Bool-cases (at == rel)) [
          | inl e ↦ rw e (
              cc (
                lookup rel,
                unique_rest at rel rest u.0 e,
                get-put found at rel (hash_bytes sha encode payload),
                e,
              ))
          | inr e ↦ rw e (cc (lookup rel, get-put found at rel (hash_bytes sha encode payload), e))
        ],
      )

  walk_new :
      (entries : List (String × Entry)) (out : Dict String Text)
      → UniqueKeys entries
      → walk sha encode false entries [] ≡ members out
      → All IsPlain entries × ((rel : String) → get out rel ≡ hash_or none (get entries rel))
  unfolding get
  walk_new entries out u h = walk_lem entries [] out u h

  -- The directory is no link, every entry that the walk met is plain, the members are the hashes of
  -- its files, they are the declared ones where any are declared, and the tree digest is recorded.
  pub record Genuine (path : DirectoryState) (m : Manifest) (d : VerifiedDirectory) : Type 0 where
    pub of_manifest : d.manifest ≡ m
    pub no_link : path.is_symlink ≡ false
    pub is_there : path.is_dir ≡ true
    pub plain : All IsPlain path.entries
    pub hashed : (rel : String) → get d.members rel ≡ hash_or none (get path.entries rel)
    pub declared :
        (declares sha encode m.artifact_members
          && not (same_members sha encode m.artifact_members d.members))
        ≡ false
    pub digest : d.digest ≡ tree_digest sha encode d.members
    pub recorded : lower (strip m.artifact_sha256) ≢ []
    pub matches :
        remove_prefix tree_prefix d.digest
        ≡ remove_prefix tree_prefix (lower (strip m.artifact_sha256))

  -- What the last part of the verification has found.
  record Checked (m : Manifest) (expected : Text) (found : Dict String Text) (d : VerifiedDirectory)
      : Type 0 where
    walked : found ≡ d.members
    of_manifest : d.manifest ≡ m
    declared :
        (declares sha encode m.artifact_members
          && not (same_members sha encode m.artifact_members d.members))
        ≡ false
    digest : d.digest ≡ tree_digest sha encode d.members
    matches : remove_prefix tree_prefix d.digest ≡ remove_prefix tree_prefix expected

  check_members_sound :
      (m : Manifest) (expected : Text) (found : Dict String Text) (d : VerifiedDirectory)
      → check_members sha encode m expected (members found) ≡ verified d
      → Checked m expected found d
  unfolding check_members
  check_members_sound m expected found d h =
      elim (Bool-cases (
        declares sha encode m.artifact_members
        && not (same_members sha encode m.artifact_members found))) [
          | inl bad ↦ absurd (cc (rw bad at h))
          | inr good ↦
              elim (Bool-cases (
                remove_prefix tree_prefix (tree_digest sha encode found)
                == remove_prefix tree_prefix expected)) [
                  | inl e ↦
                      subst (Checked m expected found) (verified_injective (rw (good, e) at h))
                        (record {
                          walked = refl;
                          of_manifest = refl;
                          declared = good;
                          digest = refl;
                          matches =
                              (list_beq_iff
                                  (remove_prefix tree_prefix (tree_digest sha encode found))
                                  (remove_prefix tree_prefix expected)).0
                                e;
                        })
                  | inr e ↦ absurd (cc (rw (good, e) at h))
                ]
        ]

  check_members_walk :
      (m : Manifest) (expected : Text) (w : Walk) (d : VerifiedDirectory)
      → check_members sha encode m expected w ≡ verified d
      → (found : Dict String Text) × (w ≡ members found) × Checked m expected found d
  unfolding check_members
  check_members_walk m expected (failed r) d h = cc
  check_members_walk m expected (members found) d h =
      (found, refl, check_members_sound m expected found d h)

  -- A directory that is verified, whose entries have different paths, is a real directory of plain
  -- files and directories only. Its members are exactly the hashes of its files, they agree with
  -- the members that the manifest declares if it declares any, and the tree digest over them is the
  -- recorded one, up to the prefix of its algorithm.
  pub verify_artifact_directory-Genuine :
      (path : DirectoryState) (m : Manifest) (d : VerifiedDirectory)
      → UniqueKeys path.entries
      → verify_artifact_directory sha encode path m ≡ verified d
      → Genuine path m d
  unfolding verify_artifact_directory
  verify_artifact_directory-Genuine path m d u h =
      let expected = lower (strip m.artifact_sha256) in
      elim (Bool-cases (expected == [])) [
        | inl e ↦ absurd (cc (rw e at h))
        | inr recorded ↦ elim (Bool-cases path.is_symlink) [
          | inl e ↦ absurd (cc (rw (recorded, e) at h))
          | inr no_link ↦ elim (Bool-cases path.is_dir) [
            | inr e ↦ absurd (cc (rw (recorded, no_link, e) at h))
            | inl there ↦
                let (found, w, c) =
                  check_members_walk m expected (walk sha encode false path.entries []) d
                    (rw (recorded, no_link, there) at h) in
                let (plain, hashed) = walk_new path.entries found u w in
                record {
                  of_manifest = c.of_manifest;
                  no_link = no_link;
                  is_there = there;
                  plain = plain;
                  hashed = λ rel. cc (hashed rel, c.walked);
                  declared = c.declared;
                  digest = c.digest;
                  recorded = λ e. cc (recorded, (list_beq_iff expected []).1 e);
                  matches = c.matches;
                }
          ]
        ]
      ]
