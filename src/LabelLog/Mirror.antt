-- ===== src/LabelLog/Mirror.antt =====
-- `_mirror` and `_rebuild_retained` of advice/label_log.py: the retained training set follows the
-- label log, by appends or by a rebuild, and a failure leaves the dirty marker. The retained set
-- itself is an interface: the registry's `append_examples` and `reset_retained`.
use kenaz_ml.Prelude.{
  ℕ, String, string_eq, ◌==◌, Bool, true, false, Option, none, some, List, [], ◌∷◌, if◌then◌else◌,
}
use kenaz_ml.Dict.{Dict}
use kenaz_ml.Registry.Json.{ℤ}
use kenaz_ml.LabelLog.{
  Record, LabelKey, Codec, Example, ForTraining, untrained, trainable, example_raises, example_for,
}
use kenaz_ml.LabelLog.File.{LogFile, labels, read_label_log}
use kenaz_ml.LabelLog.Checks.{BatchReason}
use kenaz_ml.LabelLog.Rows.{RowOutcome, values}

-- What an append to the retained set ends with: the number of examples and the generation, the
-- reason of a refusal, or an OSError.
pub data Appended : Type 0 where
  appended : ℕ → Option String → Appended
  append_refused : String → Appended
  append_raises : Appended

-- The retained set of one kind: append examples, into a given generation or the current one, and
-- start the next generation, whose name is returned (`none` when that raises).
pub record Retained (M : Type 0) : Type 0 where
  pub append_examples : List Example → Option String → M → Appended × M
  pub reset_retained : M → Option String × M

-- Which file operations of a batch fail; a failed append leaves the file it names.
pub record Disk : Type 0 where
  pub load_fails : Bool
  pub append_fails : Option LogFile
  pub reread_fails : Bool
  pub rewrite_fails : Bool
  pub evict_fails : Bool
  pub rebuild_read_fails : Bool
  pub mark_fails : Bool
  pub clear_fails : Bool

pub record IngestResult : Type 0 where
  pub ack : Option (ℤ × ℕ)
  pub outcomes : List RowOutcome
  pub refusal : Option BatchReason
  pub retained_appended : ℕ
  pub retained_rebuilt : Bool
  pub retained_generation : Option String
  pub evicted : ℕ

-- What a kind keeps: its log, the index in memory (`none` until it is read), the dirty marker and
-- the retained set.
pub record Store (M : Type 0) : Type 0 where
  pub log : LogFile
  pub index : Option (Dict LabelKey Record)
  pub dirty : Bool
  pub retained : M

-- [ex for ex in (example_for(r, names) for r in records) if ex]; `none` when one of them raises
abbrev pub add_example : ForTraining → Option (List Example) → Option (List Example)
add_example untrained examples = examples
add_example example_raises examples = none
add_example (trainable ex) none = none
add_example (trainable ex) (some examples) = some (ex ∷ examples)

unfoldable pub examples_for : Codec → List String → List Record → Option (List Example)
examples_for c names [] = some []
examples_for c names (rec ∷ recs) =
    let rest = examples_for c names recs in add_example (example_for c names rec) rest

-- appended.generation or reset.next_generation
abbrev pub generation_or : Option String → String → String
generation_or none next = next
generation_or (some generation) next = if generation == "" then next else generation

abbrev pub Mirrored : Type 0 → Type 0
Mirrored M = IngestResult × Store M

module _ {M : Type 0} where
  abbrev with_retained : M → Store M → Store M
  with_retained m store = record store { retained = m }

  -- `_mark_dirty`, `_clear_dirty`: a marker that cannot be written or removed stays as it is.
  unfoldable pub mark_dirty : Disk → Store M → Store M
  mark_dirty disk store = if disk.mark_fails then store else record store { dirty = true }

  unfoldable pub clear_dirty : Disk → Store M → Store M
  clear_dirty disk store = if disk.clear_fails then store else record store { dirty = false }

  abbrev on_append : Disk → IngestResult → Store M → Appended × M → Mirrored M
  on_append disk result store (appended n generation, m) = (
    record result { retained_appended = n; retained_generation = generation },
    with_retained m store,
  )
  on_append disk result store (append_refused reason, m) =
      (result, mark_dirty disk (with_retained m store))
  on_append disk result store (append_raises, m) = (result, mark_dirty disk (with_retained m store))

  abbrev pub on_rebuilt : Disk → String → IngestResult → Store M → Appended × M → Mirrored M
  on_rebuilt disk next result store (appended n generation, m) = (
    record result {
      retained_rebuilt = true;
      retained_appended = n;
      retained_generation = some (generation_or generation next);
    },
    clear_dirty disk (with_retained m store),
  )
  on_rebuilt disk next result store (append_refused reason, m) =
      (result, mark_dirty disk (with_retained m store))
  on_rebuilt disk next result store (append_raises, m) =
      (result, mark_dirty disk (with_retained m store))

  abbrev pub on_reset :
      Retained M → Disk → List Example → IngestResult → Store M → Option String × M → Mirrored M
  on_reset retained disk examples result store (none, m) =
      (result, mark_dirty disk (with_retained m store))
  on_reset retained disk examples result store (some next, m) =
      on_rebuilt disk next result store (retained.append_examples examples (some next) m)

  abbrev pub rebuilding :
      Retained M → Disk → Option (List Example) → IngestResult → Store M → Mirrored M
  rebuilding retained disk none result store = (result, mark_dirty disk store)
  rebuilding retained disk (some examples) result store =
      on_reset retained disk examples result store (retained.reset_retained store.retained)

  -- `_rebuild_retained` within `_mirror`: every trainable label of the log, in a new generation.
  unfoldable pub rebuild_retained :
      Codec → Retained M → Disk → List String → IngestResult → Store M → Mirrored M
  rebuild_retained c retained disk names result store =
      let kept = labels (read_label_log disk.rebuild_read_fails store.log) in
      rebuilding retained disk (examples_for c names (values kept)) result store

  abbrev appending : Retained M → Disk → List Example → IngestResult → Store M → Mirrored M
  appending retained disk [] result store = (result, store)
  appending retained disk (ex ∷ examples) result store =
      on_append disk result store (retained.append_examples (ex ∷ examples) none store.retained)

  -- `_mirror`
  unfoldable pub mirror :
      Codec
      → Retained M
      → Disk
      → List String
      → Bool
      → List Example
      → IngestResult
      → Store M
      → Mirrored M
  mirror c retained disk names true examples result store =
      rebuild_retained c retained disk names result store
  mirror c retained disk names false examples result store =
      appending retained disk examples result store
