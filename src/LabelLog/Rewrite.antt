-- ===== src/LabelLog/Rewrite.antt =====
-- The rewrite of the log for a batch that changes stored labels.
use kenaz_ml.Prelude.{
  Bool, true, false, ◌==◌, Option, none, some, List, [], ◌∷◌, ◌≡◌, ◌≢◌, refl, ap, ◌∙◌, ◌⊎◌, inl,
  inr, arith, if◌then◌else◌,
}
use kenaz_ml.Dict.{Dict, get}
use kenaz_ml.Dict.Update.{prefer}
use kenaz_ml.Registry.Json.{Fields}
use kenaz_ml.LabelLog.{
  label_key_eq, same_key_iff, Record, LabelKey, label_key, is_newer, LogEntry, label, unrelated,
}
use kenaz_ml.LabelLog.Rows.{rewritten, is_member, current}
use kenaz_ml.LabelLog.Labels.{improve, best, label_records, best_held, improve-none}

-- The objects of a log that are no labels, in their order.
unfoldable pub unrelated_of : List LogEntry → List Fields
unrelated_of [] = []
unrelated_of (label rec ∷ entries) = unrelated_of entries
unrelated_of (unrelated object ∷ entries) = object ∷ unrelated_of entries

-- A label record with the key stands in the log.
unfoldable pub has_label : LabelKey → List LogEntry → Bool
has_label key [] = false
has_label key (label rec ∷ entries) = if label_key rec == key then true else has_label key entries
has_label key (unrelated object ∷ entries) = has_label key entries

best_absent :
    (key : LabelKey) (held : Option Record) (recs : List Record)
    → best key none recs ≡ none
    → best key held recs ≡ held
unfolding best improve
best_absent key held [] e = refl
best_absent key held (rec ∷ recs) e = elim (improve-none key rec) [
  | inl (i, k) ↦
      let (top, found, h) = best_held key rec recs k in absurd (ground (arith, e, i, found))
  | inr (i, ne) ↦ ground (arith, e, i, same_key_iff (label_key rec) key, best_absent key held recs)
]

module _ (replaced index : Dict LabelKey Record) where
  -- What is written for a key that is stored.
  abbrev pub now : LabelKey → Option Record
  now key = prefer (get replaced key) (get index key)

  abbrev pub KeyedAt : LabelKey → Option Record → Type 0
  KeyedAt key none = Unit
  KeyedAt key (some rec) = label_key rec ≡ key

  pub unrelated_of-rewritten :
      (seen : List LabelKey) (entries : List LogEntry)
      → unrelated_of (rewritten replaced index seen entries) ≡ unrelated_of entries
  unfolding rewritten unrelated_of
  unrelated_of-rewritten seen [] = refl
  unrelated_of-rewritten seen (label rec ∷ entries) =
      ground (arith, unrelated_of-rewritten (label_key rec ∷ seen) entries)
  unrelated_of-rewritten seen (unrelated object ∷ entries) =
      rw (unrelated_of-rewritten seen entries) refl

  current_key :
      (rec : Record)
      → KeyedAt (label_key rec) (now (label_key rec))
      → label_key (current replaced index rec) ≡ label_key rec
  current_key rec h = ground arith

  pub best-rewritten :
      (key : LabelKey) (seen : List LabelKey) (entries : List LogEntry)
      → ((k : LabelKey) → KeyedAt k (now k))
      → now key ≢ none ⊎ (has_label key entries ≡ false)
      → best key none (label_records (rewritten replaced index seen entries))
        ≡ (if is_member seen key then none else if has_label key entries then now key else none)
  unfolding rewritten best label_records has_label is_member improve is_newer
  best-rewritten key seen [] keyed found = ground arith
  best-rewritten key seen (unrelated object ∷ entries) keyed found =
      best-rewritten key seen entries keyed found
  best-rewritten key seen (label rec ∷ entries) keyed found =
      let rest = rewritten replaced index (label_key rec ∷ seen) entries in
      ground (
        arith,
        same_key_iff (label_key rec) key,
        same_key_iff (label_key (current replaced index rec)) key,
        current_key rec (keyed (label_key rec)),
        keyed key,
        best_absent key (some (current replaced index rec)) (label_records rest),
        best-rewritten key (label_key rec ∷ seen) entries keyed,
      )

has_label_ne :
    (key : LabelKey) (rec : Record) (entries : List LogEntry)
    → label_key rec ≢ key
    → has_label key (label rec ∷ entries) ≡ has_label key entries
unfolding has_label
has_label_ne key rec entries ne = ground (arith, same_key_iff (label_key rec) key)

-- The best record of a log for a key is there exactly when a label record has the key.
pub best_label :
    (key : LabelKey) (entries : List LogEntry)
    → ((best key none (label_records entries) ≡ none) × (has_label key entries ≡ false))
      ⊎ ((top : Record) × (best key none (label_records entries) ≡ some top)
          × (label_key top ≡ key)
          × (has_label key entries ≡ true))
unfolding best label_records has_label
best_label key [] = inl (refl, refl)
best_label key (label rec ∷ entries) = elim (improve-none key rec) [
  | inl (i, k) ↦
      let (top, found, h) = best_held key rec (label_records entries) k in
      inr (
        top,
        ap (λ held. best key held (label_records entries)) i ∙ found,
        h.1,
        ground (arith, k, same_key_iff (label_key rec) key),
      )
  | inr (i, ne) ↦
      let skip = ap (λ held. best key held (label_records entries)) i in
      let absent = has_label_ne key rec entries ne in
      elim (best_label key entries) [
        | inl (e, h) ↦ inl (skip ∙ e, absent ∙ h)
        | inr (top, found, k, h) ↦ inr (top, skip ∙ found, k, absent ∙ h)
      ]
]
best_label key (unrelated object ∷ entries) = best_label key entries
