-- ===== src/LabelLog/Labels.antt =====
-- The labels of a log by key: one record each, of the highest revision.
use kenaz_ml.Prelude.{
  ◌≤◌, nat_eq, ◌==◌, Option, none, some, List, [], ◌∷◌, ◌++◌, ◌≡◌, ◌≢◌, refl, arith, Occurs, ◌<◌,
  if◌then◌else◌, All, ◌⊎◌, inl, inr,
}
use kenaz_ml.Dict.{Dict, get}
use kenaz_ml.Dict.Laws.{get-put}
use kenaz_ml.LabelLog.{
  label_key_eq, same_key_iff, Record, LabelKey, label_key, is_newer, LogEntry, label, unrelated,
}
use kenaz_ml.LabelLog.File.{LabelLogRead, note_label, labels_from, labels}

-- What one more record makes of the record that is held for a key.
unfoldable pub improve : LabelKey → Option Record → Record → Option Record
improve key held rec =
    if label_key rec == key then (if is_newer held rec then some rec else held) else held

-- The same for a list of records, in order: the specification of the log and of the index.
unfoldable pub best : LabelKey → Option Record → List Record → Option Record
best key held [] = held
best key held (rec ∷ recs) = best key (improve key held rec) recs

unfoldable pub label_records : List LogEntry → List Record
label_records [] = []
label_records (label rec ∷ entries) = rec ∷ label_records entries
label_records (unrelated object ∷ entries) = label_records entries

pub get-note_label :
    (rec : Record) (out : Dict LabelKey Record) (key : LabelKey)
    → get (note_label rec out) key ≡ improve key (get out key) rec
unfolding note_label improve
get-note_label rec out key =
    ground (arith, same_key_iff (label_key rec) key, get-put out (label_key rec) key rec)

pub get-labels_from :
    (entries : List LogEntry) (out : Dict LabelKey Record) (key : LabelKey)
    → get (labels_from entries out) key ≡ best key (get out key) (label_records entries)
unfolding labels_from best label_records
get-labels_from [] out key = refl
get-labels_from (label rec ∷ entries) out key =
    rw (get-labels_from entries (note_label rec out) key, get-note_label rec out key)
get-labels_from (unrelated object ∷ entries) out key = get-labels_from entries out key

pub best-append :
    (key : LabelKey) (held : Option Record) (recs more : List Record)
    → best key held (recs ++ more) ≡ best key (best key held recs) more
unfolding best
best-append key held [] more = refl
best-append key held (rec ∷ recs) more = best-append key (improve key held rec) recs more

pub label_records-append :
    (entries more : List LogEntry)
    → label_records (entries ++ more) ≡ label_records entries ++ label_records more
unfolding label_records
label_records-append [] more = refl
label_records-append (label rec ∷ entries) more = rw (label_records-append entries more)
label_records-append (unrelated object ∷ entries) more = label_records-append entries more

-- A record of the key that no record of the key exceeds, if there is one at all.
abbrev pub IsHighest : LabelKey → List Record → Option Record → Type 0
IsHighest key recs none = All (λ rec. label_key rec ≢ key) recs
IsHighest key recs (some top) =
    Occurs top recs
    × (label_key top ≡ key)
    × All (λ rec. label_key rec ≡ key → rec.row.revision ≤ top.row.revision) recs

pub improve_held :
    (key : LabelKey) (held rec : Record)
    → ((improve key (some held) rec ≡ some rec)
        × (label_key rec ≡ key)
        × (held.row.revision < rec.row.revision))
      ⊎ ((improve key (some held) rec ≡ some held)
          × (label_key rec ≡ key → rec.row.revision ≤ held.row.revision))
unfolding improve is_newer
improve_held key held rec = ground (arith, same_key_iff (label_key rec) key)

-- The highest of the records from the newer one on is the highest of all.
IsHighest-newer :
    (key : LabelKey) (held rec top : Record) (recs : List Record)
    → label_key rec ≡ key
    → held.row.revision < rec.row.revision
    → IsHighest key (rec ∷ recs) (some top)
    → IsHighest key (held ∷ rec ∷ recs) (some top)
IsHighest-newer key held rec top recs e less (occurs, k, (first, rest)) =
    (inr occurs, k, ((λ same. omega (arith, first e)), (first, rest)))

IsHighest-older :
    (key : LabelKey) (held rec top : Record) (recs : List Record)
    → label_key held ≡ key
    → (label_key rec ≡ key → rec.row.revision ≤ held.row.revision)
    → IsHighest key (held ∷ recs) (some top)
    → IsHighest key (held ∷ rec ∷ recs) (some top)
IsHighest-older key held rec top recs e older (inl same_top, k, (first, rest)) =
    (inl same_top, k, (first, ((λ same. omega (arith, first e, older same)), rest)))
IsHighest-older key held rec top recs e older (inr occurs, k, (first, rest)) =
    (inr (inr occurs), k, (first, ((λ same. omega (arith, first e, older same)), rest)))

pub best_held :
    (key : LabelKey) (held : Record) (recs : List Record)
    → label_key held ≡ key
    → (top : Record) × (best key (some held) recs ≡ some top)
      × IsHighest key (held ∷ recs) (some top)
unfolding best
best_held key held [] e = (held, refl, (inl refl, e, ((λ same. omega arith), tt)))
best_held key held (rec ∷ recs) e = elim (improve_held key held rec) [
  | inl (i, k, less) ↦
      let (top, b, h) = best_held key rec recs k in
      (top, rw i b, IsHighest-newer key held rec top recs k less h)
  | inr (i, older) ↦
      let (top, b, h) = best_held key held recs e in
      (top, rw i b, IsHighest-older key held rec top recs e older h)
]

pub improve-none :
    (key : LabelKey) (rec : Record)
    → ((improve key none rec ≡ some rec) × (label_key rec ≡ key))
      ⊎ ((improve key none rec ≡ none) × (label_key rec ≢ key))
unfolding improve is_newer
improve-none key rec = ground (arith, same_key_iff (label_key rec) key)

IsHighest-skip :
    (key : LabelKey) (rec : Record) (recs : List Record) (o : Option Record)
    → label_key rec ≢ key
    → IsHighest key recs o
    → IsHighest key (rec ∷ recs) o
IsHighest-skip key rec recs none ne h = (ne, h)
IsHighest-skip key rec recs (some top) ne (occurs, k, rest) =
    (inr occurs, k, ((λ same. absurd (ne same)), rest))

pub best-IsHighest : (key : LabelKey) (recs : List Record) → IsHighest key recs (best key none recs)
unfolding best
best-IsHighest key [] = tt
best-IsHighest key (rec ∷ recs) = elim (improve-none key rec) [
  | inl (i, k) ↦ let (top, b, h) = best_held key rec recs k in rw (i, b) h
  | inr (i, ne) ↦
      rw i (IsHighest-skip key rec recs (best key none recs) ne (best-IsHighest key recs))
]

-- In what a read of the label log returns, the label under a key is a label record of the read with
-- that key whose revision no other record of the key exceeds, and a key has no label only when no
-- label record of the read has it.
pub labels-IsHighest :
    (read : LabelLogRead) (key : LabelKey)
    → IsHighest key (label_records read.records) (get (labels read) key)
unfolding labels get
labels-IsHighest read key =
    rw (get-labels_from read.records [] key) (best-IsHighest key (label_records read.records))
