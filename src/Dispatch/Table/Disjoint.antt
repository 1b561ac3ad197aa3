-- ===== src/Dispatch/Table/Disjoint.antt =====
-- The table of advice/dispatch.py and the names of the workbench models.
use kenaz_ml.Prelude.{
  ℕ, String, string_eq, Bool, true, false, none, some, [], ◌∷◌, ◌≡◌, refl, sym, ap, arith,
  Bool-cases, Option-cases, inl, inr,
}
use kenaz_ml.Dict.{Dict, get, put}
use kenaz_ml.Dict.Laws.{get-put}
use kenaz_ml.Dispatch.{unknown_kind, DispatchEntry, RecommendRequest}
use kenaz_ml.Dispatch.Serve.{refused, dispatch, on_entry}
use kenaz_ml.Dispatch.Table.{
  DispatchTable, swapped, new, replace_entry, replace_all, any_workbench, known_backend,
  record_latency, is_workbench,
}

module _ {F M : Type 0} where
  -- Every entry stands under its own kind, as in the mapping that `build_table` makes.
  abbrev pub KeyedByKind : Dict String (DispatchEntry F M) → Type 0
  KeyedByKind d =
      (kind : String) (entry : DispatchEntry F M) → get d kind ≡ some entry → entry.kind_id ≡ kind

  -- What may happen to a table: a swap that does not raise, or a latency that is recorded.
  pub data Step : DispatchTable F M → DispatchTable F M → Type 0 where
    enters :
        (entry : DispatchEntry F M) {t t' : DispatchTable F M}
        → replace_entry entry t ≡ swapped t'
        → Step t t'
    replaces :
        (entries : Dict String (DispatchEntry F M)) {t t' : DispatchTable F M}
        → KeyedByKind entries
        → replace_all entries t ≡ swapped t'
        → Step t t'
    records :
        (kind : String) (elapsed : ℕ) (t : DispatchTable F M)
        → Step t (record_latency kind elapsed t)

  pub data Reach (t : DispatchTable F M) : DispatchTable F M → Type 0 where
    here : Reach t t
    next : {u v : DispatchTable F M} → Reach t u → Step u v → Reach t v

  -- No entry of the snapshot stands under the name of a workbench model.
  abbrev IsDisjoint : DispatchTable F M → Type 0
  IsDisjoint t = (kind : String) → is_workbench kind ≡ true → get t.snapshot kind ≡ none

  swapped_injective : {t u : DispatchTable F M} → swapped t ≡ swapped u → t ≡ u
  swapped_injective h = cc

  replace_entry_snapshot :
      (entry : DispatchEntry F M) (t t' : DispatchTable F M)
      → replace_entry entry t ≡ swapped t'
      → (is_workbench entry.kind_id ≡ false) × (t'.snapshot ≡ put t.snapshot entry.kind_id entry)
  unfolding replace_entry
  replace_entry_snapshot entry t t' h = elim (Bool-cases (is_workbench entry.kind_id)) [
    | inl e ↦ absurd (cc (rw e at h))
    | inr e ↦ elim (Bool-cases (known_backend entry.backend)) [
      | inl k ↦
          (e, sym (ap (λ (u : DispatchTable F M). u.snapshot) (swapped_injective (rw (e, k) at h))))
      | inr k ↦ absurd (cc (rw (e, k) at h))
    ]
  ]

  replace_all_snapshot :
      (entries : Dict String (DispatchEntry F M)) (t t' : DispatchTable F M)
      → replace_all entries t ≡ swapped t'
      → (any_workbench entries ≡ false) × (t'.snapshot ≡ entries)
  unfolding replace_all
  replace_all_snapshot entries t t' h = elim (Bool-cases (any_workbench entries)) [
    | inl e ↦ absurd (cc (rw e at h))
    | inr e ↦ (e, sym (ap (λ (u : DispatchTable F M). u.snapshot) (swapped_injective (rw e at h))))
  ]

  any_workbench-get :
      (d : Dict String (DispatchEntry F M)) (kind : String) (entry : DispatchEntry F M)
      → any_workbench d ≡ false
      → get d kind ≡ some entry
      → is_workbench entry.kind_id ≡ false
  unfolding any_workbench get
  any_workbench-get [] kind entry h e = cc
  any_workbench-get ((key, value) ∷ d) kind entry h e =
      ground (arith, any_workbench-get d kind entry)

  record_latency_snapshot :
      (kind : String) (elapsed : ℕ) (t : DispatchTable F M)
      → (record_latency kind elapsed t).snapshot ≡ t.snapshot
  unfolding record_latency
  record_latency_snapshot kind elapsed t = refl

  Step-IsDisjoint : {t t' : DispatchTable F M} → Step t t' → IsDisjoint t → IsDisjoint t'
  Step-IsDisjoint (enters entry {t} {t'} h) d kind w =
      let (free, e) = replace_entry_snapshot entry t t' h in
      ground (
        arith,
        get-put t.snapshot entry.kind_id kind entry,
        d kind w,
        string_eq.beq_iff entry.kind_id kind,
      )
  Step-IsDisjoint (replaces entries {t} {t'} keyed h) d kind w =
      let (free, e) = replace_all_snapshot entries t t' h in
      elim (Option-cases (get entries kind)) [
        | inl gone ↦ cc (e, gone)
        | inr (entry, found) ↦
            absurd (cc (w, keyed kind entry found, any_workbench-get entries kind entry free found))
      ]
  Step-IsDisjoint (records key elapsed t) d kind w =
      rw (record_latency_snapshot key elapsed t) (d kind w)

  Reach-IsDisjoint : {t t' : DispatchTable F M} → Reach t t' → IsDisjoint t → IsDisjoint t'
  Reach-IsDisjoint here d = d
  Reach-IsDisjoint (next r s) d = Step-IsDisjoint s (Reach-IsDisjoint r d)

  -- Whatever entries and mappings were swapped into a new table, each mapping keyed by the kinds of
  -- its entries, a request for the name of a workbench model is refused as an unknown kind and
  -- queues nothing for scoring in shadow.
  pub workbench_refused :
      (isfinite : F → Bool) (t : DispatchTable F M) (kind : String) (request : RecommendRequest F)
      → Reach new t
      → is_workbench kind ≡ true
      → dispatch isfinite t.snapshot kind request ≡ (refused unknown_kind, [])
  unfolding dispatch
  workbench_refused isfinite t kind request r w =
      let gone : get t.snapshot kind ≡ none =
        Reach-IsDisjoint r (unfold new get in (λ k q. refl)) kind w in
      rw gone (unfold on_entry in refl)
