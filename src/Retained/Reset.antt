-- ===== src/Retained/Reset.antt =====
-- `next_generation`, `delete_retained`, `expire_examples`, `reset_retained` and the summaries of
-- modelstore/registry/retained.py.
use kenaz_ml.Prelude.{
  ℕ, ◌+◌, ◌-◌, String, Text, Bool, true, false, Option, none, some, List, [], ◌∷◌, length, leb,
  nat_beq, filter, map, if◌then◌else◌,
}
use kenaz_ml.Registry.Json.{ℤ, pos, negsuc, Json, null}
use kenaz_ml.Registry.Manifest.{FeatureContract}
use kenaz_ml.Retained.{RetainedExample, RetainedHeader, JsonLines, header_line}
use kenaz_ml.Retained.File.{
  RetainedFile, OnDisk, RetainedSet, no_set, read_set, read_retained, read_header_only,
}
use kenaz_ml.Retained.Write.{Faults, stamp_of, example_lines, fresh_header, st_size}

abbrev pub succ : ℤ → ℤ
succ (pos n) = pos (n + 1)
succ (negsuc n) = if nat_beq n 0 then pos 0 else negsuc (n - 1)

abbrev pub counted_on : (ℤ → String) → Option ℤ → String
counted_on show none = "1"
counted_on show (some n) = show (succ n)

abbrev pub int_of : JsonLines → Option String → Option ℤ
int_of c none = none
int_of c (some text) = c.int_of_text text

-- `next_generation`; `str(None)` is the text of no integer.
unfoldable pub next_generation : JsonLines → Option String → String
next_generation c current = counted_on c.text_of_int (int_of c current)

-- `delete_retained`
unfoldable pub delete_retained : Bool → OnDisk → Bool × OnDisk
delete_retained fails none = (false, none)
delete_retained true (some file) = (false, some file)
delete_retained false (some file) = (true, none)

-- before_ms <= as_of_ms
abbrev pub int_at_least : ℤ → ℤ → Bool
int_at_least (pos b) (pos a) = leb b a
int_at_least (pos b) (negsuc a) = false
int_at_least (negsuc b) (pos a) = true
int_at_least (negsuc b) (negsuc a) = leb a b

abbrev pub at_least : ℤ → Option ℤ → Bool
at_least before none = false
at_least before (some as_of) = int_at_least before as_of

abbrev pub is_young : ℤ → RetainedExample → Bool
is_young before_ms ex = at_least before_ms ex.as_of_ms

-- The file of a header and examples; `none` when a line of it cannot be made.
abbrev pub file_of : Option Text → Option (List Text) → Option RetainedFile
file_of none lines = none
file_of (some header) none = none
file_of (some header) (some lines) = some (record { lines = header ∷ lines; tail = [] })

-- The new content replaces the file, or the call ends by an exception and changes nothing.
abbrev pub replacing {ℓ} :
    {A : Type ℓ} → Bool → A → Option RetainedFile → OnDisk → Option A × OnDisk
replacing fails result none disk = (none, disk)
replacing fails result (some file) disk = if fails then (none, disk) else (some result, some file)

module _ (c : JsonLines) (faults : Faults) where
  abbrev pub expire_of : ℤ → RetainedHeader → List RetainedExample → OnDisk → Option ℕ × OnDisk
  expire_of before_ms header examples disk =
      let kept = filter (is_young before_ms) examples in
      if nat_beq (length examples - length kept) 0
      then (some 0, disk)
      else replacing faults.write_fails (length examples - length kept)
          (file_of (header_line c header) (example_lines c kept)) disk

  abbrev pub expire_read : ℤ → RetainedSet → OnDisk → Option ℕ × OnDisk
  expire_read before_ms (no_set reason) disk = (some 0, disk)
  expire_read before_ms (read_set header read) disk = expire_of before_ms header read.examples disk

  -- `expire_examples`: the number of examples that went, `none` for an exception.
  unfoldable pub expire_examples : ℤ → OnDisk → Option ℕ × OnDisk
  expire_examples before_ms disk =
      expire_read before_ms (read_retained c faults.read_fails disk) disk

-- `ResetResult`
pub record ResetResult : Type 0 where
  pub previous_generation : Option String
  pub next_generation : String
  pub deleted : Bool
  pub header_written : Bool

abbrev pub known_generation : Option RetainedHeader → Option String
known_generation none = none
known_generation (some header) = some header.generation

module _ (c : JsonLines) (faults : Faults) where
  abbrev pub reset_under :
      Option (String × List String) → ℤ → ResetResult → OnDisk → Option ResetResult × OnDisk
  reset_under none created_at result disk = (some result, disk)
  reset_under (some (version, names)) created_at result disk =
      replacing faults.write_fails (record result { header_written = true })
        (file_of (header_line c (fresh_header version result.next_generation names created_at))
          (some []))
        disk

  abbrev pub reset_deleted :
      Option FeatureContract → ℤ → Option String → Bool × OnDisk → Option ResetResult × OnDisk
  reset_deleted contract created_at previous (deleted, disk) =
      reset_under (stamp_of contract) created_at
        (record {
          previous_generation = previous;
          next_generation = next_generation c previous;
          deleted = deleted;
          header_written = false;
        })
        disk

  -- `reset_retained`; `none` is an exception of the write.
  unfoldable pub reset_retained : Option FeatureContract → ℤ → OnDisk → Option ResetResult × OnDisk
  reset_retained contract created_at disk =
      reset_deleted contract created_at
        (known_generation (read_header_only c faults.read_fails disk))
        (delete_retained faults.unlink_fails disk)

-- `RetainedSummary`, without the name and the path
pub record RetainedSummary : Type 0 where
  pub exists : Bool
  pub size_bytes : ℕ
  pub n_examples : ℕ
  pub contract_version : Option String
  pub generation : Option String
  pub created_at : Json
  pub names : List String
  pub skipped_lines : ℕ
  pub max_bytes : ℕ
  pub readable : Bool

abbrev pub size_on : OnDisk → ℕ
size_on none = 0
size_on (some file) = st_size file

abbrev pub on_disk : OnDisk → Bool
on_disk none = false
on_disk (some file) = true

abbrev pub summary_of : OnDisk → ℕ → RetainedSet → RetainedSummary
summary_of disk max_bytes (no_set reason) = record {
  exists = on_disk disk;
  size_bytes = size_on disk;
  n_examples = 0;
  contract_version = none;
  generation = none;
  created_at = null;
  names = [];
  skipped_lines = 0;
  max_bytes = max_bytes;
  readable = false;
}
summary_of disk max_bytes (read_set header read) = record {
  exists = on_disk disk;
  size_bytes = size_on disk;
  n_examples = length read.examples;
  contract_version = some header.contract_version;
  generation = some header.generation;
  created_at = header.created_at;
  names = header.names;
  skipped_lines = read.skipped_lines;
  max_bytes = max_bytes;
  readable = true;
}

-- `summarize_retained`, where the path of the file can be had
unfoldable pub summarize_retained : JsonLines → Faults → ℕ → OnDisk → RetainedSummary
summarize_retained c faults max_bytes disk =
    summary_of disk max_bytes (read_retained c faults.read_fails disk)

-- `summarize_all`
abbrev pub summarize_all : JsonLines → Faults → ℕ → List OnDisk → List RetainedSummary
summarize_all c faults max_bytes disks = map (summarize_retained c faults max_bytes) disks
