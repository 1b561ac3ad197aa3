-- ===== src/Retained/Write.antt =====
-- `append_examples` and `_enforce_bound` of modelstore/registry/retained.py.
use kenaz_ml.Prelude.{
  ℕ, ◌+◌, ◌-◌, String, string_eq, ◌==◌, list_eq, Bool, true, false, ◌&&◌, not, Option, none, some,
  List, [], ◌∷◌, ◌++◌, Text, length, leb, nat_beq, if◌then◌else◌,
}
use kenaz_ml.Registry.Json.{ℤ, integer, end}
use kenaz_ml.Registry.Manifest.{FeatureContract}
use kenaz_ml.Retained.{RetainedExample, RetainedHeader, JsonLines, header_line, example_line}
use kenaz_ml.Retained.File.{RetainedFile, OnDisk, pieces, is_nil, read_header_only}

-- Which file operations fail: reading, writing the file anew, an append (with the file that it
-- leaves), the rewrite of an eviction, a deletion.
pub record Faults : Type 0 where
  pub read_fails : Bool
  pub write_fails : Bool
  pub append_fails : Option RetainedFile
  pub evict_fails : Bool
  pub unlink_fails : Bool

pub data AppendRefusal : Type 0 where
  no_contract_version contract_version_mismatch : AppendRefusal
  contract_names_mismatch unserializable_example : AppendRefusal

-- `AppendResult`, or an exception that `append_examples` does not catch.
pub data AppendResult : Type 0 where
  kept_in : ℕ → ℕ → Bool → String → AppendResult
  refused_append : AppendRefusal → Option String → AppendResult
  append_ends : AppendResult

-- The version and the names that a contract stamps.
abbrev pub version_of : Option String → List String → Option (String × List String)
version_of none names = none
version_of (some version) names = if version == "" then none else some (version, names)

abbrev pub stamp_of : Option FeatureContract → Option (String × List String)
stamp_of none = none
stamp_of (some contract) = version_of contract.service_version contract.names

abbrev pub line_with : Option Text → Option (List Text) → Option (List Text)
line_with none lines = none
line_with (some line) none = none
line_with (some line) (some lines) = some (line ∷ lines)

-- [_example_line(example) for example in batch]; `none` when one of them raises
abbrev pub example_lines : JsonLines → List RetainedExample → Option (List Text)
example_lines c [] = some []
example_lines c (ex ∷ batch) = line_with (example_line c ex) (example_lines c batch)

-- The payload at the end of the file: its first line goes on where the file ends, a torn line's
-- tail included.
unfoldable pub glue : List Text → RetainedFile → RetainedFile
glue [] file = file
glue (line ∷ lines) file = record { lines = file.lines ++ ((file.tail ++ line) ∷ lines); tail = [] }

-- len(line) + 1 over the lines
unfoldable pub size_of : List Text → ℕ
size_of [] = 0
size_of (line ∷ lines) = length line + 1 + size_of lines

-- path.stat().st_size
abbrev pub st_size : RetainedFile → ℕ
st_size file = size_of file.lines + length file.tail

unfoldable pub flip_onto : List Text → List Text → List Text
flip_onto [] acc = acc
flip_onto (line ∷ lines) acc = flip_onto lines (line ∷ acc)

-- The loop of `_enforce_bound` over the example lines from the newest.
unfoldable pub keep_within : ℕ → ℕ → List Text → List Text → List Text
keep_within budget used kept [] = kept
keep_within budget used kept (line ∷ older) =
    let more = keep_within budget (used + (length line + 1)) (line ∷ kept) older in
    if leb (used + (length line + 1)) budget then more else kept

abbrev pub evict_to : Bool → RetainedFile → Text → List Text → ℕ → RetainedFile × ℕ
evict_to fails file header kept dropped =
    if nat_beq dropped 0
    then (file, 0)
    else if fails
    then (file, 0)
    else (record { lines = header ∷ kept; tail = [] }, dropped)

abbrev pub evict_from : Bool → ℕ → RetainedFile → List Text → RetainedFile × ℕ
evict_from fails max_bytes file [] = (file, 0)
evict_from fails max_bytes file (header ∷ lines) =
    let kept = keep_within (max_bytes - (length header + 1)) 0 [] (flip_onto lines []) in
    evict_to fails file header kept (length lines - length kept)

-- `_enforce_bound`; a bound of None or below zero is the bound 0, which bounds nothing.
unfoldable pub retain_within : Bool → ℕ → RetainedFile → RetainedFile × ℕ
retain_within fails max_bytes file =
    if nat_beq max_bytes 0
    then (file, 0)
    else if leb (st_size file) max_bytes
    then (file, 0)
    else evict_from fails max_bytes file (pieces file)

abbrev pub fresh_header : String → String → List String → ℤ → RetainedHeader
fresh_header version generation names created_at = record {
  contract_version = version;
  generation = generation;
  names = names;
  created_at = integer created_at;
  extra = end;
}

abbrev pub put_back : RetainedFile × ℕ → ℕ → Bool → String → AppendResult × OnDisk
put_back (file, evicted) n fresh generation = (kept_in n evicted fresh generation, some file)

module _ (c : JsonLines) (faults : Faults) (max_bytes : ℕ) where
  abbrev pub within_bound : RetainedFile → ℕ → Bool → String → AppendResult × OnDisk
  within_bound file n fresh generation =
      put_back (retain_within faults.evict_fails max_bytes file) n fresh generation

  -- `_atomic_write_text`, then the bound.
  abbrev pub written_anew : Option Text → List Text → String → OnDisk → AppendResult × OnDisk
  written_anew none lines generation disk = (append_ends, disk)
  written_anew (some header) lines generation disk =
      if faults.write_fails
      then (append_ends, disk)
      else within_bound (record { lines = header ∷ lines; tail = [] }) (length lines) true
          generation

  abbrev pub torn_or :
      Option RetainedFile → List Text → RetainedFile → String → AppendResult × OnDisk
  torn_or none lines file generation =
      within_bound (glue lines file) (length lines) false generation
  torn_or (some torn) lines file generation = (append_ends, some torn)

  -- The file is opened for an append only when there is something to write.
  abbrev pub appended_at : List Text → RetainedFile → String → AppendResult × OnDisk
  appended_at [] file generation = within_bound file 0 false generation
  appended_at (line ∷ lines) file generation =
      torn_or faults.append_fails (line ∷ lines) file generation

  abbrev pub write_fresh : RetainedHeader → Option (List Text) → OnDisk → AppendResult × OnDisk
  write_fresh header none disk =
      (refused_append unserializable_example (some header.generation), disk)
  write_fresh header (some lines) disk =
      written_anew (header_line c header) lines header.generation disk

  abbrev pub write_more : RetainedHeader → Option (List Text) → OnDisk → AppendResult × OnDisk
  write_more header none disk =
      (refused_append unserializable_example (some header.generation), disk)
  write_more header (some lines) none = (append_ends, none)
  write_more header (some lines) (some file) = appended_at lines file header.generation

  -- A header that is there has to agree with the contract; otherwise a fresh set is begun.
  abbrev pub under :
      String
      → List String
      → String
      → ℤ
      → List RetainedExample
      → OnDisk
      → Option RetainedHeader
      → AppendResult × OnDisk
  under version names generation created_at batch disk none =
      write_fresh (fresh_header version generation names created_at) (example_lines c batch) disk
  under version names generation created_at batch disk (some header) =
      if not (header.contract_version == version)
      then (refused_append contract_version_mismatch (some header.generation), disk)
      else if not (is_nil header.names) && not (header.names == names)
      then (refused_append contract_names_mismatch (some header.generation), disk)
      else write_more header (example_lines c batch) disk

  abbrev pub stamped_append :
      Option (String × List String)
      → String
      → ℤ
      → List RetainedExample
      → OnDisk
      → AppendResult × OnDisk
  stamped_append none generation created_at batch disk =
      (refused_append no_contract_version none, disk)
  stamped_append (some (version, names)) generation created_at batch disk =
      under version names generation created_at batch disk
        (read_header_only c faults.read_fails disk)

  -- `append_examples`
  unfoldable pub append_examples :
      Option FeatureContract → String → ℤ → List RetainedExample → OnDisk → AppendResult × OnDisk
  append_examples contract generation created_at batch disk =
      stamped_append (stamp_of contract) generation created_at batch disk
