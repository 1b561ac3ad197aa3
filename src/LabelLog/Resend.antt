-- ===== src/LabelLog/Resend.antt =====
-- A batch that is sent again writes nothing: what `ingest` left in the index covers every row.
use kenaz_ml.Prelude.{
  ℕ, String, Option, none, some, List, [], ◌∷◌, ◌≡◌, refl, sym, ◌∙◌, ap, subst, arith, All,
}
use kenaz_ml.Dict.{Dict, get, UniqueKeys}
use kenaz_ml.Dict.Update.{update, get-update}
use kenaz_ml.Registry.Json.{ℤ}
use kenaz_ml.LabelLog.{label_key_eq, Row, Record, LabelKey, row_key, Codec}
use kenaz_ml.LabelLog.Checks.{LabelContract}
use kenaz_ml.LabelLog.Rows.{Batch, new_batch, take_rows, stored_at}
use kenaz_ml.LabelLog.Mirror.{Retained, Disk, IngestResult, Store}
use kenaz_ml.LabelLog.Ingest.{Ended, returned, ingest, updated_index, loaded}
use kenaz_ml.LabelLog.Kept.{IsReport, Settled, unwritten, failed, written}
use kenaz_ml.LabelLog.Course.{
  Ingested, turned_away, processed, ingest-Ingested, batch_of, with_retained,
}
use kenaz_ml.LabelLog.Labels.{best}
use kenaz_ml.LabelLog.Loop.{admitted, stored_at-take_rows, UniqueBatch-take_rows}
use kenaz_ml.LabelLog.Covered.{IsCovered, best-IsCovered, IsQuiet, take_rows-IsQuiet, stored_quiet}

-- The index after the two updates holds what the batch and the index held.
pub get-updated_index :
    (index : Dict LabelKey Record) (b : Batch) (key : LabelKey)
    → UniqueKeys b.pending_new × UniqueKeys b.replaced
    → get (updated_index index b) key ≡ stored_at index b key
unfolding stored_at
get-updated_index index b key u =
    rw
      (
        get-update (update index b.replaced) b.pending_new key u.0,
        get-update index b.replaced key u.1,
      )
      refl

batch_holds :
    {M : Type 0} (c : Codec) (disk : Disk) (client kind : String) (stamp : ℤ) (rows : List Row)
    (store : Store M) (key : LabelKey)
    → stored_at (loaded disk store) (batch_of c disk client kind stamp rows store) key
      ≡ best key (get (loaded disk store) key) (admitted c client kind stamp rows)
unfolding stored_at get
batch_holds c disk client kind stamp rows store key =
    stored_at-take_rows c client kind stamp (loaded disk store) 0 rows (new_batch store.dirty) key

module _ {M : Type 0} (c : Codec) (retained : Retained M) (disk : Disk) (client kind : String)
    (contract : LabelContract) (stamp : ℤ) (max_bytes : ℕ) where
  -- Unless the index was dropped, it holds the best of what it held and the admitted rows.
  pub Settled-index :
      (rows : List Row) (store : Store M) (r : IngestResult) (after : Ended × Store M)
      → Settled c retained disk contract max_bytes
          (loaded disk store)
          (batch_of c disk client kind stamp rows store)
          store
          after
      → after.0 ≡ returned r
      → r.refusal ≡ none
      → r.evicted ≡ 0
      → (index : Dict LabelKey Record) × (after.1.index ≡ some index)
        × ((key : LabelKey)
            → get index key
              ≡ best key (get (loaded disk store) key) (admitted c client kind stamp rows))
  Settled-index rows store r after (unwritten p q w) e ok kept = (
    loaded disk store,
    w.index,
    λ key.
        sym (
          stored_quiet (loaded disk store) (batch_of c disk client kind stamp rows store) key
            (p, q))
        ∙ batch_holds c disk client kind stamp rows store key,
  )
  Settled-index rows store r after (failed file some_row f same) e ok kept = ground arith
  Settled-index rows store r after (written file some_row f w) e ok kept =
      let told = subst (IsReport (batch_of c disk client kind stamp rows store) _) e w.report in
      let u =
        UniqueBatch-take_rows c client kind stamp (loaded disk store) 0 rows (new_batch store.dirty)
          (tt, tt) in
      (
        updated_index (loaded disk store) (batch_of c disk client kind stamp rows store),
        ground (arith, w.index, told.1, kept),
        λ key.
            get-updated_index (loaded disk store) (batch_of c disk client kind stamp rows store) key
              u
            ∙ batch_holds c disk client kind stamp rows store key,
      )

IsCovered-same :
    (c : Codec) (client kind : String) (held other : LabelKey → Option Record) (rows : List Row)
    → ((key : LabelKey) → other key ≡ held key)
    → All (IsCovered c client kind held) rows
    → All (IsCovered c client kind other) rows
IsCovered-same c client kind held other [] same h = tt
IsCovered-same c client kind held other (row ∷ rows) same (first, rest) = (
  (λ fits. let (top, e, le) = first fits in (top, same (row_key row) ∙ e, le)),
  IsCovered-same c client kind held other rows same rest,
)

module _ {M : Type 0} (c : Codec) (retained : Retained M) (client kind : String)
    (contract : LabelContract) (max_bytes : ℕ) where
  -- With nothing to write, the log stays, and the index is the one that the rows met.
  quiet-Settled :
      (disk : Disk) (index : Dict LabelKey Record) (b : Batch) (store : Store M)
      (after : Ended × Store M)
      → Settled c retained disk contract max_bytes index b store after
      → IsQuiet b
      → (after.1.log ≡ store.log) × (after.1.index ≡ some index)
  quiet-Settled disk index b store after (unwritten p q w) quiet = (w.log, w.index)
  quiet-Settled disk index b store after (failed file some_row f same) quiet =
      absurd (ground (arith, some_row, quiet))
  quiet-Settled disk index b store after (written file some_row f w) quiet =
      absurd (ground (arith, some_row, quiet))

  covered_again :
      (disk : Disk) (stamp : ℤ) (rows : List Row) (store : Store M) (index : Dict LabelKey Record)
      → store.index ≡ some index
      → All (IsCovered c client kind (get index)) rows
      → (after : Ended × Store M)
      → Ingested c retained disk client kind contract stamp max_bytes rows store after
      → (after.1.log ≡ store.log) × (after.1.index ≡ store.index)
  covered_again disk stamp rows store index e h after (turned_away reason m same) = ground arith
  covered_again disk stamp rows store index e h after (processed m fits s) =
      let met : loaded disk store ≡ index = rw e refl in
      let quiet =
        take_rows-IsQuiet c client kind stamp index 0 rows (new_batch store.dirty) h (refl, refl) in
      let (log, kept) = quiet-Settled disk (loaded disk store) _ (with_retained store m) after s (
        subst (λ i. IsQuiet (take_rows c client kind stamp i 0 rows (new_batch store.dirty)))
          (sym met) quiet) in
      (log, kept ∙ ap some met ∙ sym e)

  -- A batch that came through without an eviction changes neither the log nor the index when it is
  -- sent again, at whatever time and whatever fails the second time.
  pub ingest_again :
      (disk later : Disk) (stamp later_stamp : ℤ) (rows : List Row) (store : Store M)
      (r : IngestResult)
      → let (end, first) = ingest c retained disk client kind contract stamp max_bytes rows store in
        end ≡ returned r
        → r.refusal ≡ none
        → r.evicted ≡ 0
        → let (_, again) =
            ingest c retained later client kind contract later_stamp max_bytes rows first in
          (again.log ≡ first.log) × (again.index ≡ first.index)
  ingest_again disk later stamp later_stamp rows store r e ok kept =
      elim (ingest-Ingested c retained disk client kind contract stamp max_bytes rows store) [
        | turned_away reason m same ↦ ground arith
        | processed m fits s ↦
            let (index, held, is_best) =
              Settled-index c retained disk client kind contract stamp max_bytes rows
                (with_retained store m) r _ s e ok kept in
            covered_again later later_stamp rows _ index held
              (IsCovered-same c client kind _ (get index) rows is_best
                (best-IsCovered c client kind stamp rows (get (loaded disk store))))
              _ (ingest-Ingested c retained later client kind contract later_stamp max_bytes rows _)
      ]
