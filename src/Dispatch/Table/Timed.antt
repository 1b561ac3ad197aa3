-- ===== src/Dispatch/Table/Timed.antt =====
-- Which kinds `timed_dispatch` of advice/dispatch.py measures.
use kenaz_ml.Prelude.{
  ℕ, String, string_eq, ◌==◌, Bool, true, false, List, [], ◌∷◌, ◌≡◌, refl, arith, if◌then◌else◌,
  Bool-cases, inl, inr,
}
use kenaz_ml.Dict.{Dict, get, has}
use kenaz_ml.Dict.Laws.{has-put}
use kenaz_ml.Dispatch.{DispatchEntry, RecommendRequest}
use kenaz_ml.Dispatch.Table.{
  DispatchTable, record_latency, timed_dispatch, append_ring, ring_or_empty,
}

module _ {F M : Type 0} (isfinite : F → Bool) where
  -- Requests that are served one after the other, each with the path's kind and the time it took.
  abbrev pub timed_each :
      List (String × (RecommendRequest F × ℕ)) → DispatchTable F M → DispatchTable F M
  timed_each [] table = table
  timed_each ((kind, (request, elapsed)) ∷ requests) table =
      timed_each requests (timed_dispatch isfinite kind request elapsed table).1

  timed_dispatch_table :
      (kind : String) (request : RecommendRequest F) (elapsed : ℕ) (table : DispatchTable F M)
      (key : String)
      → ((timed_dispatch isfinite kind request elapsed table).1.snapshot ≡ table.snapshot)
        × (has (timed_dispatch isfinite kind request elapsed table).1.latency key ≡ (
            if has table.snapshot kind
            then (if kind == key then true else has table.latency key)
            else has table.latency key))
  unfolding timed_dispatch record_latency
  timed_dispatch_table kind request elapsed table key =
      elim (Bool-cases (has table.snapshot kind)) [
        | inl e ↦ rw e (
          refl,
          has-put table.latency kind key
              (append_ring elapsed (ring_or_empty (get table.latency kind))),
        )
        | inr e ↦ rw e (refl, refl)
      ]

  timed_each_rings :
      (requests : List (String × (RecommendRequest F × ℕ))) (table : DispatchTable F M)
      (key : String)
      → has table.snapshot key ≡ false
      → has table.latency key ≡ false
      → has (timed_each requests table).latency key ≡ false
  timed_each_rings [] table key unknown none_yet = none_yet
  timed_each_rings ((kind, (request, elapsed)) ∷ requests) table key unknown none_yet =
      let (same, rings) = timed_dispatch_table kind request elapsed table key in
      timed_each_rings requests (timed_dispatch isfinite kind request elapsed table).1 key
        (cc (same, unknown)) (ground (arith, rings, unknown, none_yet, string_eq.beq_iff kind key))

  -- Whatever kinds clients ask for, a table that starts without rings never has one for a kind that
  -- is not in its snapshot.
  pub unknown_not_measured :
      (requests : List (String × (RecommendRequest F × ℕ)))
      (snapshot : Dict String (DispatchEntry F M)) (key : String)
      → has snapshot key ≡ false
      → has (timed_each requests (record { snapshot = snapshot; latency = [] })).latency key ≡ false
  unknown_not_measured requests snapshot key unknown =
      timed_each_rings requests (record { snapshot = snapshot; latency = [] }) key unknown
        (unfold has in refl)
