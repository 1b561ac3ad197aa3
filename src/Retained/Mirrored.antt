-- ===== src/Retained/Mirrored.antt =====
-- The retained file of modelstore/registry/retained.py as the retained set that advice/label_log.py
-- mirrors its labels into.
mod Scenarios
use kenaz_ml.Prelude.{
  ℕ, String, Bool, true, false, Option, none, some, List, [], ◌∷◌, ◌++◌, ◌≡◌, refl, sym, ap, ◌∙◌,
  map, All, arith, length, subst,
}
use kenaz_ml.Registry.Json.{ℤ, Real, end}
use kenaz_ml.Registry.Manifest.{FeatureContract}
use kenaz_ml.LabelLog.{Row, Codec, Example}
use kenaz_ml.LabelLog.Checks.{LabelContract}
use kenaz_ml.LabelLog.Mirror.{
  examples_for, Appended, appended, append_refused, append_raises, Retained, Disk, IngestResult,
  Store,
}
use kenaz_ml.LabelLog.File.{read_label_log}
use kenaz_ml.LabelLog.File as File
use kenaz_ml.LabelLog.Rows.{values}
use kenaz_ml.LabelLog.Ingest.{returned, ingest}
use kenaz_ml.LabelLog.Dirty.{all_examples}
use kenaz_ml.LabelLog.Rebuilt.{IsRebuilt, ingest-IsRebuilt}
use kenaz_ml.Retained.{RetainedExample, JsonLines, IsFaithfulJson}
use kenaz_ml.Retained.File.{OnDisk, read_retained, read_header_only, examples_in, header_in}
use kenaz_ml.Retained.Write.{
  Faults, AppendResult, kept_in, refused_append, append_ends, AppendRefusal, no_contract_version,
  contract_version_mismatch, contract_names_mismatch, unserializable_example, stamp_of,
  fresh_header, append_examples,
}
use kenaz_ml.Retained.Reset.{ResetResult, reset_retained}
use kenaz_ml.Retained.Lines.{IsTrainable, some_injective}
use kenaz_ml.Retained.Reads.{IsOver, read-IsOver, append-IsAppended}
use kenaz_ml.Retained.Renewal.{reset-Stands}

-- What a refusal's reason begins with.
abbrev pub reason_text : AppendRefusal → String
reason_text no_contract_version = "no-contract-version"
reason_text contract_version_mismatch = "contract-version-mismatch"
reason_text contract_names_mismatch = "contract-names-mismatch"
reason_text unserializable_example = "unserializable-example"

abbrev pub told_append : AppendResult × OnDisk → Appended × OnDisk
told_append (kept_in n evicted fresh generation, disk) = (appended n (some generation), disk)
told_append (refused_append reason generation, disk) = (append_refused (reason_text reason), disk)
told_append (append_ends, disk) = (append_raises, disk)

abbrev pub told_reset : Option ResetResult × OnDisk → Option String × OnDisk
told_reset (none, disk) = (none, disk)
told_reset (some r, disk) = (some r.next_generation, disk)

abbrev pub registry_contract : LabelContract → FeatureContract
registry_contract contract = record {
  service = none;
  service_version = some contract.service_version;
  names = contract.names;
  dtypes = [];
  extra = end;
}

-- The generation that an append starts a set at when none is given.
abbrev pub generation_or_first : Option String → String
generation_or_first none = "1"
generation_or_first (some generation) = generation

-- The training label 0 or 1 as a float is a parameter.
module _ (c : JsonLines) (faults : Faults) (max_bytes : ℕ) (contract : LabelContract) (now_ms : ℤ)
    (label_value : ℕ → Real) where
  abbrev pub retained_example : Example → RetainedExample
  retained_example ex = record { x = ex.x; y = label_value ex.y; as_of_ms = some ex.as_of_ms }

  abbrev pub retained_examples : List Example → List RetainedExample
  retained_examples xs = map retained_example xs

  -- The calls that `_mirror`, `_rebuild_retained` and the probe of `ingest` make.
  abbrev pub retained_file : Retained OnDisk
  retained_file = record {
    append_examples = λ xs generation disk. told_append (
        append_examples c faults max_bytes (some (registry_contract contract))
          (generation_or_first generation) now_ms (retained_examples xs) disk);
    reset_retained = λ disk.
        told_reset (reset_retained c faults (some (registry_contract contract)) now_ms disk);
  }

  told_reset-some :
      (p : Option ResetResult × OnDisk) (next : String) (disk : OnDisk)
      → told_reset p ≡ (some next, disk)
      → (r : ResetResult) × (p ≡ (some r, disk))
  told_reset-some (none, m) next disk e = absurd (ground (arith, e))
  told_reset-some (some r, m) next disk e =
      (r, ap (λ (q : Option String × OnDisk). (some r, q.1)) e)

  told_append-appended :
      (p : AppendResult × OnDisk) (n : ℕ) (generation : Option String) (disk : OnDisk)
      → told_append p ≡ (appended n generation, disk)
      → (m : ℕ) × (evicted : ℕ) × (fresh : Bool) × (g : String) × (p
          ≡ (kept_in m evicted fresh g, disk))
  told_append-appended (kept_in m evicted fresh g, at) n generation disk e =
      (m, evicted, fresh, g, ap (λ (q : Appended × OnDisk). (kept_in m evicted fresh g, q.1)) e)
  told_append-appended (refused_append reason g, at) n generation disk e =
      absurd (ground (arith, e))
  told_append-appended (append_ends, at) n generation disk e = absurd (ground (arith, e))

  module _ (labels : Codec) (disk : Disk) (client kind : String) (stamp : ℤ) (log_bytes : ℕ) where
    -- When a batch meets a dirty mirror and reports a rebuild, under a contract with a version,
    -- then the next read of the retained file has a header of that contract, and its examples are
    -- those of the labels in the log, in order, whatever the file held before: all of them, unless
    -- a file of them all is over the bound, and else the newest. The log can be read for the
    -- rebuild, the header can be read in between, and the examples have finite numbers.
    pub rebuilt-read :
        (rows : List Row) (store : Store OnDisk) (r : IngestResult) (xs : List Example)
        → let (ended, after) =
            ingest labels retained_file disk client kind contract stamp log_bytes rows store in
          let read = read_retained c false after.retained in
          IsFaithfulJson c
          → stamp_of (some (registry_contract contract))
            ≡ some (contract.service_version, contract.names)
          → faults.read_fails ≡ false
          → disk.rebuild_read_fails ≡ false
          → store.dirty ≡ true
          → ended ≡ returned r
          → r.retained_rebuilt ≡ true
          → examples_for labels contract.names
              (values (File.labels (read_label_log false after.log)))
            ≡ some xs
          → All IsTrainable (retained_examples xs)
          → (generation : String) × (header_in read
              ≡ some (fresh_header contract.service_version generation contract.names now_ms))
            × (older : List RetainedExample) × (retained_examples xs ≡ older ++ examples_in read)
            × IsOver c faults max_bytes
                (fresh_header contract.service_version generation contract.names now_ms)
                (retained_examples xs)
                older
    rebuilt-read rows store r xs faithful stamped reads rereads dirty told rebuilt trains finite =
        let (before, built) =
          ingest-IsRebuilt labels retained_file disk client kind contract stamp log_bytes rows store
            r dirty told rebuilt in
        let (reset, was_reset) = told_reset-some _ built.next built.reset built.was_reset in
        let (m, evicted, fresh, g, kept) =
          told_append-appended _ built.n built.generation _ built.was_appended in
        let stands =
          reset-Stands c faults _ _ _ now_ms before built.reset reset stamped was_reset in
        let log =
          (ingest labels retained_file disk client kind contract stamp log_bytes rows
            store).1.log in
        let of_log =
          ap
            (λ fails.
              examples_for labels contract.names (values (File.labels (read_label_log fails log))))
            rereads
          ∙ trains in
        let same = some_injective (sym built.trained ∙ of_log) in
        let (header, (older, split, over)) = read-IsOver c faults max_bytes _ _ _ evicted faithful (
          append-IsAppended c faults max_bytes _ _ built.next _ now_ms _ []
            (retained_examples built.xs) built.reset _ m evicted fresh g faithful stamped reads
            stands (subst (λ xs. All IsTrainable (retained_examples xs)) (sym same) finite) kept) in
        (
          reset.next_generation,
          header,
          older,
          ap retained_examples (sym same) ∙ split,
          subst
              (λ xs.
                IsOver c faults max_bytes
                  (fresh_header contract.service_version reset.next_generation contract.names
                    now_ms)
                  (retained_examples xs) older)
              same over,
        )
