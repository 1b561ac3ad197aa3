-- ===== src/LabelLog/Placed.antt =====
-- Where the loop of `_ingest` puts a record: a new key's in `pending_new`, a stored key's in
-- `replaced`, never both, and always under its own key.
use kenaz_ml.Prelude.{
  ℕ, suc, String, Bool, true, Option, none, some, List, [], ◌∷◌, ◌≡◌, ◌≢◌, refl, arith,
}
use kenaz_ml.Dict.{Dict, get, put, has, UniqueKeys}
use kenaz_ml.Dict.Laws.{get-put, has-eq-get}
use kenaz_ml.Dict.Update.{prefer}
use kenaz_ml.Registry.Json.{ℤ}
use kenaz_ml.LabelLog.{
  label_key_eq, same_key_iff, Row, Record, LabelKey, row_key, label_key, Codec, training_label,
  is_newer,
}
use kenaz_ml.LabelLog.Checks.{row_refusal, RowReason}
use kenaz_ml.LabelLog.Rows.{
  Batch, new_batch, stored_at, take_row, take_rows, on_checked, stamped, values,
}
use kenaz_ml.LabelLog.Labels.{improve, best}
use kenaz_ml.LabelLog.Loop.{relabel_keeps}

-- What is pending, replaced and in the index under one key.
abbrev pub PlacedAt : LabelKey → Option Record → Option Record → Option Record → Type 0
PlacedAt key (some rec) replaced held = (label_key rec ≡ key) × (replaced ≡ none) × (held ≡ none)
PlacedAt key none (some rec) held = (label_key rec ≡ key) × (held ≢ none)
PlacedAt key none none held = Unit

abbrev pub IsPlaced : Dict LabelKey Record → Batch → LabelKey → Type 0
IsPlaced index b key = PlacedAt key (get b.pending_new key) (get b.replaced key) (get index key)

-- Each value of a dictionary stands under its own key.
abbrev pub WellKeyed : Dict LabelKey Record → Type 0
WellKeyed [] = Unit
WellKeyed ((key, rec) ∷ d) = (label_key rec ≡ key) × WellKeyed d

WellKeyed-put :
    (d : Dict LabelKey Record) (rec : Record) → WellKeyed d → WellKeyed (put d (label_key rec) rec)
unfolding put
WellKeyed-put [] rec w = (refl, tt)
WellKeyed-put ((key, old) ∷ d) rec w =
    ground (arith, same_key_iff key (label_key rec), WellKeyed-put d rec w.1)

pub new_batch-IsPlaced :
    (index : Dict LabelKey Record) (dirty : Bool) (key : LabelKey)
    → IsPlaced index (new_batch dirty) key
unfolding get
new_batch-IsPlaced index dirty key = tt

module _ (c : Codec) (client kind : String) (stamp : ℤ) (index : Dict LabelKey Record) where
  on_checked-IsPlaced :
      (i : ℕ) (row : Row) (reason : Option RowReason) (b : Batch) (key : LabelKey)
      → IsPlaced index b key
      → IsPlaced index (on_checked index i (stamped stamp row) reason b) key
  unfolding stored_at label_key
  on_checked-IsPlaced i row reason b key h = ground (
    arith,
    same_key_iff (row_key row) key,
    get-put b.pending_new (row_key row) key (stamped stamp row),
    get-put b.replaced (row_key row) key (stamped stamp row),
    has-eq-get b.pending_new (row_key row),
    λ (old : Record).
        relabel_keeps (training_label old) (training_label (stamped stamp row)) (stamped stamp row)
          (record b { replaced = put b.replaced (row_key row) (stamped stamp row) }),
  )

  on_checked-WellKeyed :
      (i : ℕ) (row : Row) (reason : Option RowReason) (b : Batch)
      → WellKeyed b.pending_new
      → WellKeyed (on_checked index i (stamped stamp row) reason b).pending_new
  unfolding label_key
  on_checked-WellKeyed i row reason b w = ground (
    arith,
    WellKeyed-put b.pending_new (stamped stamp row) w,
    λ (old : Record).
        relabel_keeps (training_label old) (training_label (stamped stamp row)) (stamped stamp row)
          (record b { replaced = put b.replaced (row_key row) (stamped stamp row) }),
  )

  pub take_rows-WellKeyed :
      (i : ℕ) (rows : List Row) (b : Batch)
      → WellKeyed b.pending_new
      → WellKeyed (take_rows c client kind stamp index i rows b).pending_new
  unfolding take_rows take_row
  take_rows-WellKeyed i [] b w = w
  take_rows-WellKeyed i (row ∷ rows) b w =
      take_rows-WellKeyed (suc i) rows (take_row c client kind stamp index i row b)
        (on_checked-WellKeyed i row (row_refusal c client kind row) b w)

  pub take_rows-IsPlaced :
      (i : ℕ) (rows : List Row) (b : Batch) (key : LabelKey)
      → IsPlaced index b key
      → IsPlaced index (take_rows c client kind stamp index i rows b) key
  unfolding take_rows take_row
  take_rows-IsPlaced i [] b key h = h
  take_rows-IsPlaced i (row ∷ rows) b key h =
      take_rows-IsPlaced (suc i) rows (take_row c client kind stamp index i row b) key
        (on_checked-IsPlaced i row (row_refusal c client kind row) b key h)

-- Appended, the values of such a dictionary are found under their keys.
pub best-values :
    (key : LabelKey) (held : Option Record) (d : Dict LabelKey Record)
    → UniqueKeys d
    → WellKeyed d
    → (has d key ≡ true → held ≡ none)
    → best key held (values d) ≡ prefer (get d key) held
unfolding best values get has improve is_newer
best-values key held [] u w new = refl
best-values key held ((k, rec) ∷ d) u w new = ground (
  arith,
  same_key_iff k key,
  same_key_iff (label_key rec) key,
  has-eq-get d key,
  best-values key (some rec) d u.1 w.1,
  best-values key held d u.1 w.1,
)
