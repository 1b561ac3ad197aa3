-- ===== src/Registry/Directory/Scenarios.antt =====
-- A verified checkpoint directory.
use kenaz_ml.Prelude.{
  String, List, string_eq, list_eq, nat_eq, true, false, [], ◌∷◌, ◌++◌, ◌≡◌, refl, codes, lower,
  strip,
}
use mathlib.Core.List.{Permᴰ, append-nil, append_assoc}
use kenaz_ml.Registry.Manifest.{Manifest, directory}
use kenaz_ml.Registry.Validate.{Bytes, Sha256}
use kenaz_ml.Registry.Directory.{
  Entry, DirectoryState, DirectoryOutcome, VerifiedDirectory, subdirectory, regular,
  verify_artifact_directory, check_members, walk, tree_digest, remove_prefix, hash_bytes,
  sorted_members, insert_path,
}
use kenaz_ml.Registry.Directory.Soundness.{Genuine, verify_artifact_directory-Genuine}
use kenaz_ml.Registry.Directory.Listed.{digest_of}
use kenaz_ml.Registry.Directory.Order.{by_bytes, digest_any_order}
use kenaz_ml.Dict.{has, put, UniqueKeys}
use kenaz_ml.Registry.Fixtures.{payload, good_manifest}

-- A hash that takes all texts to one digest.
abbrev flat_sha : Sha256
flat_sha = record {
  State = Bytes;
  start = [];
  update = λ s b. s ++ b;
  hexdigest = λ s. codes "ab";
  update-nil = append-nil;
  update-append = append_assoc;
}

abbrev checkpoint : DirectoryState
checkpoint = record {
  is_symlink = false;
  is_dir = true;
  entries = ("weights", subdirectory) ∷ ("weights/model.onnx", regular payload) ∷ [];
}

abbrev checkpoint_manifest : Manifest
checkpoint_manifest = record good_manifest {
  artifact_sha256 = codes "sha256:ab";
  artifact_kind = directory;
}

abbrev verified_checkpoint : VerifiedDirectory
verified_checkpoint = record {
  manifest = checkpoint_manifest;
  digest = codes "sha256:ab";
  members = ("weights/model.onnx", codes "ab") ∷ [];
}

checkpoint_verifies :
    verify_artifact_directory flat_sha codes checkpoint checkpoint_manifest
    ≡ DirectoryOutcome.verified verified_checkpoint
unfolding verify_artifact_directory check_members walk tree_digest remove_prefix lower strip
    hash_bytes put sorted_members insert_path
checkpoint_verifies = refl

checkpoint-UniqueKeys : UniqueKeys checkpoint.entries
unfolding has
checkpoint-UniqueKeys = (refl, (refl, tt))

verify_artifact_directory-Genuine_example :
    Genuine flat_sha codes checkpoint checkpoint_manifest verified_checkpoint
verify_artifact_directory-Genuine_example =
    verify_artifact_directory-Genuine flat_sha codes checkpoint checkpoint_manifest
      verified_checkpoint checkpoint-UniqueKeys checkpoint_verifies

-- A hash that keeps the text.
abbrev whole_sha : Sha256
whole_sha = record {
  State = Bytes;
  start = [];
  update = λ s b. s ++ b;
  hexdigest = λ s. s;
  update-nil = append-nil;
  update-append = append_assoc;
}

abbrev two_files : List (String × Entry)
two_files = ("b", regular (codes "second")) ∷ ("a", regular (codes "first")) ∷ []

abbrev same_files : List (String × Entry)
same_files = ("a", regular (codes "first")) ∷ ("b", regular (codes "second")) ∷ []

two_files-UniqueKeys : UniqueKeys (by_bytes whole_sha codes false two_files)
unfolding has
two_files-UniqueKeys = (refl, (refl, tt))

digest_any_order_example :
    digest_of whole_sha codes false (walk whole_sha codes false two_files [])
    ≡ digest_of whole_sha codes false (walk whole_sha codes false same_files [])
digest_any_order_example =
    digest_any_order whole_sha codes false (Permᴰ.swap refl refl) two_files-UniqueKeys
