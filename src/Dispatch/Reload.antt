-- ===== src/Dispatch/Reload.antt =====
-- `reload_kind` of advice/dispatch.py. What resolving the kind afresh gave is an argument: the
-- entry of `_entry_for`, or nothing if that raised.
use kenaz_ml.Prelude.{
  String, string_eq, ◌==◌, Bool, true, false, not, ◌||◌, Option, none, some, ◌≡◌, ◌⊎◌, refl, sym,
  ap, arith, if◌then◌else◌, Bool-cases, inl, inr,
}
use kenaz_ml.Dict.{get, put}
use kenaz_ml.Dict.Laws.{get-put}
use kenaz_ml.Registry.Manifest.{Manifest}
use kenaz_ml.Dispatch.{DispatchEntry, is_some}
use kenaz_ml.Dispatch.Table.{DispatchTable, Swap, swapped, value_error, replace_entry}

pub record ReloadResult : Type 0 where
  pub kind_id : String
  pub reloaded : Bool
  pub generation : Option String

-- The table and the result, or the `ValueError` of the swap.
pub data Reload (F M : Type 0) : Type 0 where
  ended : DispatchTable F M → ReloadResult → Reload F M
  swap_error : Reload F M

-- str(entry.manifest.version) if entry.manifest is not None else None
abbrev pub generation_of : Option Manifest → Option String
generation_of none = none
generation_of (some m) = some m.version

-- expected_generation is not None and generation != str(expected_generation)
abbrev pub other_generation : Option String → Option String → Bool
other_generation none found = false
other_generation (some expected) none = true
other_generation (some expected) (some found) = not (found == expected)

unfoldable pub result_of : String → Bool → Option String → ReloadResult
result_of kind reloaded generation = record {
  kind_id = kind;
  reloaded = reloaded;
  generation = generation;
}

module _ {F M : Type 0} where
  abbrev pub has_model : DispatchEntry F M → Bool
  has_model entry = is_some entry.server || is_some entry.shadow_model

  unfoldable pub after_swap : String → Option String → Swap F M → Reload F M
  after_swap kind generation value_error = swap_error
  after_swap kind generation (swapped t) = ended t (result_of kind true generation)

  unfoldable pub reload_kind :
      String → Option String → Option (DispatchEntry F M) → DispatchTable F M → Reload F M
  reload_kind kind expected none table = ended table (result_of kind false none)
  reload_kind kind expected (some entry) table =
      if not (has_model entry) || other_generation expected (generation_of entry.manifest)
      then ended table (result_of kind false (generation_of entry.manifest))
      else after_swap kind (generation_of entry.manifest) (replace_entry entry table)

  -- The fresh entry carries a model of the generation that was asked for, and stands in the new
  -- table in the place of its kind; every other kind and every latency ring is as it was.
  pub record Installed (expected : Option String) (fresh : Option (DispatchEntry F M))
      (table t : DispatchTable F M) : Type 0 where
    pub entry : DispatchEntry F M
    pub resolved : fresh ≡ some entry
    pub modelled : has_model entry ≡ true
    pub wanted : other_generation expected (generation_of entry.manifest) ≡ false
    pub snapshot :
        (kind : String)
        → get t.snapshot kind
          ≡ (if entry.kind_id == kind then some entry else get table.snapshot kind)
    pub rings : t.latency ≡ table.latency

  ended_injective :
      {t u : DispatchTable F M} {r s : ReloadResult} → ended t r ≡ ended u s → (t ≡ u) × (r ≡ s)
  ended_injective h = (cc h, cc h)

  swapped_table :
      (entry : DispatchEntry F M) (table t : DispatchTable F M)
      → replace_entry entry table ≡ swapped t
      → t ≡ record table { snapshot = put table.snapshot entry.kind_id entry }
  unfolding replace_entry
  swapped_table entry table t h = ground arith

  after_swap_ended :
      (kind : String) (generation : Option String) (s : Swap F M) (t : DispatchTable F M)
      (r : ReloadResult)
      → after_swap kind generation s ≡ ended t r
      → (s ≡ swapped t) × (r.reloaded ≡ true)
  unfolding after_swap result_of
  after_swap_ended kind generation value_error t r h = cc
  after_swap_ended kind generation (swapped u) t r h =
      let (e, f) = ended_injective h in (cc e, sym (ap (λ (x : ReloadResult). x.reloaded) f))

  -- A reload that ends either reports that it did not reload and leaves the table as it was, or
  -- reports that it did: then the fresh entry has a server or a shadow model, is of the generation
  -- that was asked for if any, and stands in the table under its kind, while every other kind and
  -- all latency rings are as they were.
  pub reload_kind_swaps :
      (kind : String) (expected : Option String) (fresh : Option (DispatchEntry F M))
      (table t : DispatchTable F M) (r : ReloadResult)
      → reload_kind kind expected fresh table ≡ ended t r
      → ((r.reloaded ≡ false) × (t ≡ table))
        ⊎ ((r.reloaded ≡ true) × Installed expected fresh table t)
  unfolding reload_kind result_of
  reload_kind_swaps kind expected none table t r h =
      let (e, f) = ended_injective h in inl (sym (ap (λ (x : ReloadResult). x.reloaded) f), sym e)
  reload_kind_swaps kind expected (some entry) table t r h =
      elim (Bool-cases
        (not (has_model entry) || other_generation expected (generation_of entry.manifest))) [
          | inl e ↦
              let (same, f) = ended_injective (rw e at h) in
              inl (sym (ap (λ (x : ReloadResult). x.reloaded) f), sym same)
          | inr e ↦
              let (s, done) =
                after_swap_ended kind (generation_of entry.manifest) (replace_entry entry table) t r
                  (rw e at h) in
              let new = swapped_table entry table t s in
              inr (
                done,
                record {
                  entry = entry;
                  resolved = refl;
                  modelled = ground (arith, e);
                  wanted = ground (arith, e);
                  snapshot = λ k. rw new (get-put table.snapshot entry.kind_id k entry);
                  rings = ap (λ (x : DispatchTable F M). x.latency) new;
                },
              )
        ]
