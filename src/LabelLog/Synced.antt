-- ===== src/LabelLog/Synced.antt =====
-- The index in memory and the log on disk agree on every key.
use kenaz_ml.Prelude.{
  true, false, Option, none, List, [], ◌∷◌, ◌++◌, ◌≡◌, ◌≢◌, refl, sym, ap, ◌∙◌, ◌⊎◌, inl, inr,
  arith, if◌then◌else◌, Bool-cases,
}
use mathlib.Core.List.{append-nil}
use kenaz_ml.Dict.{Dict, get, UniqueKeys}
use kenaz_ml.Dict.Laws.{has-eq-get}
use kenaz_ml.Dict.Update.{prefer}
use kenaz_ml.LabelLog.{Line, label_key_eq, Record, LabelKey, LogEntry, Codec, IsFaithful}
use kenaz_ml.LabelLog.File.{LogFile, append, is_empty, read_label_log}
use kenaz_ml.LabelLog.Rows.{Batch, stored_at, values, as_labels, rewritten, is_member}
use kenaz_ml.LabelLog.Mirror.{Disk}
use kenaz_ml.LabelLog.Ingest.{dumped, write_log, updated_index}
use kenaz_ml.LabelLog.Labels.{best, label_records, label_records-append, best-append}
use kenaz_ml.LabelLog.Placed.{IsPlaced, WellKeyed, best-values}
use kenaz_ml.LabelLog.Reread.{objects, records-read_lines, objects-append, objects-dumped}
use kenaz_ml.LabelLog.Rewrite.{now, KeyedAt, has_label, best-rewritten, best_label}
use kenaz_ml.LabelLog.Resend.{get-updated_index}
use kenaz_ml.LabelLog.Kept.{empty_lem}

label_records-as_labels : (recs : List Record) → label_records (as_labels recs) ≡ recs
unfolding label_records as_labels
label_records-as_labels [] = refl
label_records-as_labels (rec ∷ recs) = rw (label_records-as_labels recs) refl

pub lines-append :
    (added : List Line) (file : LogFile) → (append added file).lines ≡ file.lines ++ added
unfolding append
lines-append [] file = sym (append-nil file.lines)
lines-append (line ∷ added) file = refl

-- What the log holds for a key.
abbrev pub in_log : LogFile → LabelKey → Option Record
in_log file key = best key none (label_records (objects file.lines))

reread_lem :
    (disk : Disk) (log : LogFile)
    → disk.reread_fails ≡ false
    → (read_label_log disk.reread_fails log).records ≡ objects log.lines
unfolding read_label_log
reread_lem disk log e = rw e (records-read_lines log.ends_clean log.lines)

module _ (c : Codec) where
  -- What the new labels add to what the other lines hold.
  added_best :
      (key : LabelKey) (entries : List LogEntry) (index : Dict LabelKey Record) (b : Batch)
      (held : Option Record)
      → best key none (label_records entries) ≡ held
      → held ≡ prefer (get b.replaced key) (get index key)
      → IsPlaced index b key
      → UniqueKeys b.pending_new
      → WellKeyed b.pending_new
      → best key none (label_records (entries ++ as_labels (values b.pending_new)))
        ≡ stored_at index b key
  unfolding stored_at
  added_best key entries index b held e same placed u w =
      ap (best key none) (label_records-append entries (as_labels (values b.pending_new)))
      ∙ best-append key none (label_records entries) _
      ∙ ap (best key (best key none (label_records entries)))
          (label_records-as_labels (values b.pending_new))
      ∙ ap (λ o. best key o (values b.pending_new)) e
      ∙ best-values key held b.pending_new u w
          (ground (arith, same, placed, has-eq-get b.pending_new key))
      ∙ ap (prefer (get b.pending_new key)) same

  module _ (log : LogFile) (index : Dict LabelKey Record) where
    same_without :
        (key : LabelKey) (b : Batch)
        → b.replaced ≡ []
        → get index key ≡ prefer (get b.replaced key) (get index key)
    unfolding get
    same_without key b e = rw e refl

    pub appended_objects :
        (disk : Disk) (b : Batch) (file : LogFile)
        → IsFaithful c
        → disk.append_fails ≡ none
        → write_log c disk index b log ≡ (true, file)
        → is_empty b.replaced ≡ true
        → objects file.lines ≡ objects log.lines ++ as_labels (values b.pending_new)
    unfolding write_log
    appended_objects disk b file faithful whole wrote e =
        let added = dumped c (as_labels (values b.pending_new)) in
        let at : file ≡ append added log = ground (arith, whole, wrote, e) in
        ap (λ f. objects f.lines) at
        ∙ ap objects (lines-append added log)
        ∙ objects-append log.lines added
        ∙ ap (λ more. objects log.lines ++ more) (objects-dumped c _ faithful)

    pub rewritten-objects :
        (disk : Disk) (b : Batch) (file : LogFile)
        → IsFaithful c
        → disk.reread_fails ≡ false
        → write_log c disk index b log ≡ (true, file)
        → is_empty b.replaced ≡ false
        → objects file.lines
          ≡ rewritten b.replaced index [] (objects log.lines) ++ as_labels (values b.pending_new)
    unfolding write_log read_label_log
    rewritten-objects disk b file faithful reread wrote e =
        let added = dumped c (as_labels (values b.pending_new)) in
        let read = read_label_log disk.reread_fails log in
        let kept = rewritten b.replaced index [] read.records in
        let at : file.lines ≡ dumped c kept ++ added = ground (arith, wrote, e) in
        ap objects at
        ∙ objects-append (dumped c kept) added
        ∙ ap (λ more. objects (dumped c kept) ++ more) (objects-dumped c _ faithful)
        ∙ ap (λ more. more ++ as_labels (values b.pending_new)) (objects-dumped c kept faithful)
        ∙ ap (λ records. rewritten b.replaced index [] records ++ as_labels (values b.pending_new))
            (reread_lem disk log reread)

  module _ (log : LogFile) (index : Dict LabelKey Record)
      (agree : (key : LabelKey) → get index key ≡ in_log log key) where
    -- What is written for a key of the log stands under its own key.
    now-KeyedAt :
        (b : Batch) (key : LabelKey)
        → IsPlaced index b key
        → KeyedAt b.replaced index key (now b.replaced index key)
    now-KeyedAt b key placed = ground (arith, agree key, placed, best_label key (objects log.lines))

    now_found :
        (b : Batch) (key : LabelKey)
        → IsPlaced index b key
        → now b.replaced index key ≢ none ⊎ (has_label key (objects log.lines) ≡ false)
    now_found b key placed = ground (arith, agree key, placed, best_label key (objects log.lines))

    now_or_none :
        (b : Batch) (key : LabelKey)
        → IsPlaced index b key
        → (if is_member [] key
            then none
            else if has_label key (objects log.lines)
            then now b.replaced index key
            else none)
          ≡ now b.replaced index key
    unfolding is_member
    now_or_none b key placed = ground (arith, agree key, placed, best_label key (objects log.lines))

    -- After the write the log holds what the updated index does.
    pub write_log-agrees :
        (disk : Disk) (b : Batch) (file : LogFile)
        → IsFaithful c
        → disk.reread_fails ≡ false
        → disk.append_fails ≡ none
        → write_log c disk index b log ≡ (true, file)
        → ((key : LabelKey) → IsPlaced index b key)
        → UniqueKeys b.pending_new × UniqueKeys b.replaced
        → WellKeyed b.pending_new
        → (key : LabelKey) → get (updated_index index b) key ≡ in_log file key
    write_log-agrees disk b file faithful reread whole wrote placed u w key =
        elim (Bool-cases (is_empty b.replaced)) [
          | inl e ↦
              let fresh = empty_lem b.replaced e in
              get-updated_index index b key u
              ∙ sym (
                  added_best key (objects log.lines) index b (get index key) (sym (agree key))
                    (same_without log index key b fresh) (placed key) u.0 w)
              ∙ ap (λ entries. best key none (label_records entries))
                  (sym (appended_objects log index disk b file faithful whole wrote e))
          | inr e ↦
              get-updated_index index b key u
              ∙ sym (
                  added_best key (rewritten b.replaced index [] (objects log.lines)) index b _
                    (best-rewritten b.replaced index key [] (objects log.lines)
                      (λ k. now-KeyedAt b k (placed k)) (now_found b key (placed key)))
                    (now_or_none b key (placed key)) (placed key) u.0 w)
              ∙ ap (λ entries. best key none (label_records entries))
                  (sym (rewritten-objects log index disk b file faithful reread wrote e))
        ]
