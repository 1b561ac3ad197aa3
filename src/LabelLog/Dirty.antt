-- ===== src/LabelLog/Dirty.antt =====
-- The dirty marker: it stays until a rebuild went through, and the next batch tries one.
use kenaz_ml.Prelude.{
  ℕ, suc, String, Bool, true, false, ◌&&◌, Option, none, some, List, [], ◌∷◌, ◌≡◌, refl, ap, sym,
  ◌∙◌, ◌⊎◌, inl, inr, arith, Bool-cases, Option-cases,
}
use kenaz_ml.Dict.{Dict}
use kenaz_ml.Registry.Json.{ℤ}
use kenaz_ml.LabelLog.{Row, Record, LabelKey, Codec, Example, training_label}
use kenaz_ml.LabelLog.File.{LogFile, is_empty, read_label_log, labels}
use kenaz_ml.LabelLog.Checks.{
  BatchReason, io_error, retained_refused, LabelContract, row_refusal, RowReason, contract_refusal,
}
use kenaz_ml.LabelLog.Rows.{
  Batch, new_batch, take_row, take_rows, on_checked, stamped, relabel, values,
}
use kenaz_ml.LabelLog.Mirror.{
  Appended, appended, append_refused, append_raises, Retained, Disk, IngestResult, Store, mirror,
  rebuild_retained, mark_dirty, clear_dirty, examples_for,
}
use kenaz_ml.LabelLog.Ingest.{
  Ended, returned, ingest, settled, write_log, reporting, mirrored_batch, new_examples, on_written,
  probed, refusing, loaded, finished,
}
use kenaz_ml.LabelLog.Kept.{mirror-IsKept}
use kenaz_ml.LabelLog.Course.{batch_of, with_retained}

relabel-needs_rebuild :
    (old new : Option ℕ) (rec : Record) (b : Batch)
    → b.needs_rebuild ≡ true
    → (relabel old new rec b).needs_rebuild ≡ true
relabel-needs_rebuild none none rec b e = e
relabel-needs_rebuild none (some y) rec b e = e
relabel-needs_rebuild (some y) none rec b e = refl
relabel-needs_rebuild (some y) (some z) rec b e = ground (arith, e)

-- No row takes back that the mirror has to be rebuilt.
on_checked-needs_rebuild :
    (index : Dict LabelKey Record) (i : ℕ) (rec : Record) (reason : Option RowReason) (b : Batch)
    → b.needs_rebuild ≡ true
    → (on_checked index i rec reason b).needs_rebuild ≡ true
on_checked-needs_rebuild index i rec reason b e =
    ground
      (arith, λ (old : Record). relabel-needs_rebuild (training_label old) (training_label rec) rec)

take_rows-needs_rebuild :
    (c : Codec) (client kind : String) (stamp : ℤ) (index : Dict LabelKey Record) (i : ℕ)
    (rows : List Row) (b : Batch)
    → b.needs_rebuild ≡ true
    → (take_rows c client kind stamp index i rows b).needs_rebuild ≡ true
unfolding take_rows take_row
take_rows-needs_rebuild c client kind stamp index i [] b e = e
take_rows-needs_rebuild c client kind stamp index i (row ∷ rows) b e =
    take_rows-needs_rebuild c client kind stamp index (suc i) rows
      (take_row c client kind stamp index i row b)
      (on_checked-needs_rebuild index i (stamped stamp row) (row_refusal c client kind row) b e)

-- The store once the probe of the retained set has passed.
abbrev pub probed_store : {M : Type 0} → Retained M → Store M → Store M
probed_store retained store =
    with_retained store (retained.append_examples [] none store.retained).1

-- The append went through.
abbrev pub accepts : Appended → Bool
accepts (appended n generation) = true
accepts (append_refused reason) = false
accepts append_raises = false

module _ {M : Type 0} (c : Codec) (retained : Retained M) (disk : Disk) (contract : LabelContract)
    (max_bytes : ℕ) where
  rebuild_or_dirty :
      (examples : List Example) (result : IngestResult) (store : Store M)
      → store.dirty ≡ true
      → let (r, after) = mirror c retained disk contract.names true examples result store in
        r.retained_rebuilt ≡ false → after.dirty ≡ true
  unfolding mirror rebuild_retained mark_dirty clear_dirty
  rebuild_or_dirty examples result store e r = ground (arith, e, r)

  -- The store after a rebuild that was tried.
  abbrev pub Tried : Store M → Ended × Store M → Type 0
  Tried store after =
      (examples : List Example) × (result : IngestResult) × (before : Store M) × (before.dirty
        ≡ store.dirty)
      × (before.retained ≡ store.retained)
      × (result.retained_rebuilt ≡ false)
      × (after
          ≡ finished c retained disk contract max_bytes
              (mirror c retained disk contract.names true examples result before))

  mirrored-Tried :
      (b : Batch) (n : ℕ) (store : Store M)
      → b.needs_rebuild ≡ true
      → Tried store (
          mirrored_batch c retained disk contract max_bytes b n
            (new_examples c retained disk contract max_bytes b)
            store)
  mirrored-Tried b n store e = rw e ([], reporting b n, store, refl, refl, refl, refl)

  written-Tried :
      (index : Dict LabelKey Record) (b : Batch) (store : Store M) (w : Bool × LogFile)
      → b.needs_rebuild ≡ true
      → let after = on_written c retained disk contract max_bytes index b store w in
        ((after.0 ≡ returned (refusing io_error)) × (after.1.dirty ≡ store.dirty))
        ⊎ Tried store after
  written-Tried index b store (false, file) e = inl (refl, refl)
  written-Tried index b store (true, file) e = inr (mirrored-Tried b _ _ e)

  -- Of a batch that is to rebuild, the write fails or the rebuild is tried.
  settled-Tried :
      (index : Dict LabelKey Record) (b : Batch) (store : Store M)
      → b.needs_rebuild ≡ true
      → let after = settled c retained disk contract max_bytes index b store in
        ((after.0 ≡ returned (refusing io_error)) × (after.1.dirty ≡ store.dirty))
        ⊎ Tried store after
  settled-Tried index b store e =
      elim (Bool-cases (is_empty b.pending_new && is_empty b.replaced)) [
        | inl none_new ↦
            rw (none_new, e)
              (inr ([], reporting b 0, record store { index = some index }, refl, refl, refl, refl))
        | inr some_new ↦
            rw some_new (written-Tried index b store (write_log c disk index b store.log) e)
      ]

  -- The examples of every label of a log, `none` where one cannot be made.
  abbrev pub all_examples : LogFile → Option (List Example)
  all_examples log =
      examples_for c contract.names (values (labels (read_label_log disk.rebuild_read_fails log)))

  rebuild_succeeds :
      (examples xs : List Example) (result : IngestResult) (store : Store M) (next : String)
      (reset : M)
      → disk.clear_fails ≡ false
      → all_examples store.log ≡ some xs
      → retained.reset_retained store.retained ≡ (some next, reset)
      → accepts (retained.append_examples xs (some next) reset).0 ≡ true
      → let (r, after) = mirror c retained disk contract.names true examples result store in
        (r.retained_rebuilt ≡ true)
        × (after.dirty ≡ false)
        × (after.retained ≡ (retained.append_examples xs (some next) reset).1)
  unfolding mirror rebuild_retained mark_dirty clear_dirty
  rebuild_succeeds examples xs result store next reset clears trains resets appends =
      rw (trains, resets) (ground (arith, clears, appends))

module _ {M : Type 0} (c : Codec) (retained : Retained M) (disk : Disk) (client kind : String)
    (contract : LabelContract) (stamp : ℤ) (max_bytes : ℕ) where
  batch_rebuilds :
      (rows : List Row) (store : Store M)
      → store.dirty ≡ true
      → (batch_of c disk client kind stamp rows store).needs_rebuild ≡ true
  batch_rebuilds rows store e =
      take_rows-needs_rebuild c client kind stamp (loaded disk store) 0 rows (new_batch store.dirty)
        e

  probed-Tried :
      (rows : List Row) (store : Store M) (p : Appended × M)
      → store.dirty ≡ true
      → let after = probed c retained disk client kind contract stamp max_bytes rows store p in
        ((reason : BatchReason) × (after.0 ≡ returned (refusing reason))
          × (after.1.dirty ≡ store.dirty))
        ⊎ Tried c retained disk contract max_bytes (with_retained store p.1) after
  probed-Tried rows store (append_refused reason, m) e = inl (retained_refused reason, refl, refl)
  probed-Tried rows store (append_raises, m) e = inl (io_error, refl, refl)
  probed-Tried rows store (appended n generation, m) e =
      elim (settled-Tried c retained disk contract max_bytes (loaded disk (with_retained store m))
        (batch_of c disk client kind stamp rows (with_retained store m)) (with_retained store m)
        (batch_rebuilds rows (with_retained store m) e)) [
          | inl (told, kept) ↦ inl (io_error, told, kept)
          | inr tried ↦ inr tried
        ]

  -- Of a batch that meets a dirty mirror: refused, with the marker as it was, or a rebuild is
  -- tried.
  pub ingest-Tried :
      (rows : List Row) (store : Store M)
      → store.dirty ≡ true
      → let after = ingest c retained disk client kind contract stamp max_bytes rows store in
        ((reason : BatchReason) × (after.0 ≡ returned (refusing reason))
          × (after.1.dirty ≡ store.dirty))
        ⊎ Tried c retained disk contract max_bytes (probed_store retained store) after
  unfolding ingest
  ingest-Tried rows store e = elim (Option-cases (contract_refusal contract rows)) [
    | inl fits ↦
        rw fits (probed-Tried rows store (retained.append_examples [] none store.retained) e)
    | inr (reason, f) ↦ rw f (inl (reason, refl, refl))
  ]

  -- A mirror that is marked dirty stays marked until a batch reports that the retained set was
  -- rebuilt: whatever fails, and a refused batch included.
  pub dirty_until_rebuilt :
      (rows : List Row) (store : Store M) (r : IngestResult)
      → let (end, after) = ingest c retained disk client kind contract stamp max_bytes rows store in
        store.dirty ≡ true → end ≡ returned r → r.retained_rebuilt ≡ false → after.dirty ≡ true
  dirty_until_rebuilt rows store r e told stale = elim (ingest-Tried rows store e) [
    | inl (reason, same, kept) ↦ kept ∙ e
    | inr (examples, result, before, kept, held, unmarked, same) ↦
        let stays =
          rebuild_or_dirty c retained disk contract max_bytes examples result before (kept ∙ e) in
        ground (arith, same, told, stale, stays)
  ]

  -- When a mirror is marked dirty and a batch comes through, whatever its rows, then the batch
  -- reports a rebuild, the marker is gone, and the retained set is what the append of the examples
  -- of all labels of the log left of the set that was reset. This is provided that these examples
  -- can be made, that the reset of the set that the probe left and the append of these examples to
  -- it go through, and that the marker can be removed.
  pub dirty_rebuilds :
      (rows : List Row) (store : Store M) (r : IngestResult) (xs : List Example) (next : String)
      (reset : M)
      → let (end, after) = ingest c retained disk client kind contract stamp max_bytes rows store in
        store.dirty ≡ true
        → end ≡ returned r
        → r.refusal ≡ none
        → disk.clear_fails ≡ false
        → all_examples c retained disk contract max_bytes after.log ≡ some xs
        → retained.reset_retained (probed_store retained store).retained ≡ (some next, reset)
        → accepts (retained.append_examples xs (some next) reset).0 ≡ true
        → (r.retained_rebuilt ≡ true)
          × (after.dirty ≡ false)
          × (after.retained ≡ (retained.append_examples xs (some next) reset).1)
  dirty_rebuilds rows store r xs next reset e told ok clears trains resets appends =
      elim (ingest-Tried rows store e) [
        | inl (reason, same, kept) ↦ absurd (ground (arith, same, told, ok))
        | inr (examples, result, before, kept, held, unmarked, same) ↦
            let whole = mirror-IsKept c retained disk contract.names true examples result before in
            let logs = ap (λ (end : Ended × Store M). end.1.log) same ∙ whole.log in
            let done =
              rebuild_succeeds c retained disk contract max_bytes examples xs result before next
                reset clears
                (ap (all_examples c retained disk contract max_bytes) (sym logs) ∙ trains)
                (ap retained.reset_retained held ∙ resets) appends in
            ground (arith, same, told, done)
      ]
