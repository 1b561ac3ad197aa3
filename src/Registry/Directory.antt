-- ===== src/Registry/Directory.antt =====
-- Directory artifacts of modelstore/registry/manifest.py: the tree digest and its verification.
-- The entries of a directory are given in the order in which the walk meets them.
pub mod Soundness
mod Paths
mod Listed
mod Order
mod Scenarios
use kenaz_ml.Prelude.{
  String, string_eq, nat_eq, option_eq, list_eq, pair_eq, ◌==◌, Bool, true, false, not, ◌&&◌, ◌||◌,
  Option, none, some, List, [], ◌∷◌, ◌++◌, if◌then◌else◌, Text, codes, lower, strip, ltb, nat_beq,
}
use kenaz_ml.Exceptions.{Exc, ok, ◌>>=◌}
use kenaz_ml.Dict.{Dict, get, put}
use kenaz_ml.Registry.Manifest.{
  Manifest, Refusal, FeatureContract, integrity, unreadable, not_found, no_expected_digest,
  digest_mismatch, symlink_root, symlink_member, not_a_regular_file, member_mismatch,
}
use kenaz_ml.Registry.Validate.{Bytes, Sha256, refuse, validate_feature_contract}

pub data Entry : Type 0 where
  symlink : Bytes → Entry
  subdirectory : Entry
  regular : Bytes → Entry
  unreadable_file special : Entry

-- What stands at the path of the artifact.
pub record DirectoryState : Type 0 where
  pub is_symlink : Bool
  pub is_dir : Bool
  pub entries : List (String × Entry)

pub record VerifiedDirectory : Type 0 where
  pub manifest : Manifest
  pub digest : Text
  pub members : Dict String Text

-- `DirectoryDigest`, or the refusal of a `DirectoryWalkError`
pub data Walk : Type 0 where
  members : Dict String Text → Walk
  failed : Refusal → Walk

-- The pair of `verify_artifact_directory`, of which exactly one is set.
pub data DirectoryOutcome : Type 0 where
  verified : VerifiedDirectory → DirectoryOutcome
  refused : Refusal → DirectoryOutcome

-- Bytewise order of two paths.
unfoldable pub bytes_lt : Bytes → Bytes → Bool
bytes_lt [] [] = false
bytes_lt [] (b ∷ bs) = true
bytes_lt (a ∷ as') [] = false
bytes_lt (a ∷ as') (b ∷ bs) = ltb a b || (nat_beq a b && bytes_lt as' bs)

abbrev tree_prefix : Text
tree_prefix = codes "sha256:"

-- text.removeprefix(prefix)
unfoldable pub strip_prefix : Text → Text → Option Text
strip_prefix [] s = some s
strip_prefix (c ∷ prefix) [] = none
strip_prefix (c ∷ prefix) (d ∷ s) = if nat_beq c d then strip_prefix prefix s else none

abbrev or_whole : Text → Option Text → Text
or_whole s none = s
or_whole s (some rest) = rest

unfoldable pub remove_prefix : Text → Text → Text
unfolding strip_prefix
remove_prefix prefix s = or_whole s (strip_prefix prefix s)

-- `path.encode` is the library's: a parameter.
module _ (sha : Sha256) (encode : String → Bytes) where
  open sha use {start, update, hexdigest}

  unfoldable pub insert_path : String × Text → Dict String Text → Dict String Text
  unfolding bytes_lt
  insert_path item [] = item ∷ []
  insert_path item (other ∷ rest) =
      if bytes_lt (encode other.0) (encode item.0)
      then other ∷ insert_path item rest
      else item ∷ other ∷ rest

  -- sorted(members, key=_path_bytes)
  unfoldable pub sorted_members : Dict String Text → Dict String Text
  unfolding insert_path
  sorted_members [] = []
  sorted_members (item ∷ rest) = insert_path item (sorted_members rest)

  unfoldable pub tree_text : Dict String Text → Bytes
  tree_text [] = []
  tree_text (item ∷ rest) =
      item.1 ++ (codes "  " ++ (encode item.0 ++ (codes "\n" ++ tree_text rest)))

  unfoldable pub tree_digest : Dict String Text → Text
  unfolding sorted_members tree_text
  tree_digest found = tree_prefix ++ hexdigest (update start (tree_text (sorted_members found)))

  unfoldable pub hash_bytes : Bytes → Text
  hash_bytes payload = hexdigest (update start payload)

  -- The loop of `directory_digest`.
  unfoldable pub walk : Bool → List (String × Entry) → Dict String Text → Walk
  unfolding hash_bytes
  walk allow [] found = members found
  walk allow ((rel, symlink target) ∷ rest) found =
      let more = walk allow rest (put found rel (hash_bytes (codes "symlink:" ++ target))) in
      if allow then more else failed (refuse integrity symlink_member)
  walk allow ((rel, subdirectory) ∷ rest) found = walk allow rest found
  walk allow ((rel, regular payload) ∷ rest) found =
      walk allow rest (put found rel (hash_bytes payload))
  walk allow ((rel, unreadable_file) ∷ rest) found = failed (refuse integrity unreadable)
  walk allow ((rel, special) ∷ rest) found = failed (refuse integrity not_a_regular_file)

  -- Every key and value of the first is in the second.
  unfoldable pub agrees : Dict String Text → Dict String Text → Bool
  agrees [] actual = true
  agrees ((rel, hash) ∷ declared) actual = (get actual rel == some hash) && agrees declared actual

  -- `_member_diagnostic(declared, actual) is None`
  unfoldable pub same_members : Dict String Text → Dict String Text → Bool
  unfolding agrees
  same_members declared actual = agrees declared actual && agrees actual declared

  abbrev declares : Dict String Text → Bool
  declares [] = false
  declares (item ∷ rest) = true

  unfoldable pub check_members : Manifest → Text → Walk → DirectoryOutcome
  unfolding same_members tree_digest remove_prefix
  check_members m expected (failed refusal) = refused refusal
  check_members m expected (members found) =
      if declares m.artifact_members && not (same_members m.artifact_members found)
      then refused (refuse integrity member_mismatch)
      else if remove_prefix tree_prefix (tree_digest found) == remove_prefix tree_prefix expected
      then verified (record { manifest = m; digest = tree_digest found; members = found })
      else refused (refuse integrity digest_mismatch)

  unfoldable pub verify_artifact_directory : DirectoryState → Manifest → DirectoryOutcome
  unfolding check_members walk
  verify_artifact_directory path m =
      let expected = lower (strip m.artifact_sha256) in
      if expected == []
      then refused (refuse integrity no_expected_digest)
      else if path.is_symlink
      then refused (refuse integrity symlink_root)
      else if not path.is_dir
      then refused (refuse integrity not_found)
      else check_members m expected (walk false path.entries [])

  unfoldable pub directory_contract : VerifiedDirectory → Option Refusal → DirectoryOutcome
  directory_contract directory none = verified directory
  directory_contract directory (some refusal) = refused refusal

  unfoldable pub after_directory :
      Manifest → Option FeatureContract → DirectoryOutcome → Exc DirectoryOutcome
  unfolding directory_contract
  after_directory m expected (refused refusal) = ok (refused refusal)
  after_directory m expected (verified directory) = do
    outcome ← validate_feature_contract m expected
    ok (directory_contract directory outcome)

  unfoldable pub validate_artifact_directory :
      Manifest → DirectoryState → Option FeatureContract → Exc DirectoryOutcome
  unfolding after_directory
  validate_artifact_directory m path expected =
      after_directory m expected (verify_artifact_directory path m)
