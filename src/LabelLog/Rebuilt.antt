-- ===== src/LabelLog/Rebuilt.antt =====
-- What a rebuild of the retained set went through, when a batch reports one.
use kenaz_ml.Prelude.{
  ℕ, String, true, false, Option, none, some, List, ◌≡◌, refl, sym, subst, ap, ◌∙◌, inl, inr, arith,
}
use kenaz_ml.Registry.Json.{ℤ}
use kenaz_ml.LabelLog.{Row, Codec, Example}
use kenaz_ml.LabelLog.Checks.{LabelContract}
use kenaz_ml.LabelLog.Mirror.{
  Appended, appended, append_refused, append_raises, Retained, Disk, IngestResult, Store, Mirrored,
  mirror, rebuild_retained, rebuilding, on_reset, on_rebuilt, mark_dirty, clear_dirty,
}
use kenaz_ml.LabelLog.Ingest.{Ended, returned, ingest}
use kenaz_ml.LabelLog.Kept.{mirror-IsKept}
use kenaz_ml.LabelLog.Dirty.{all_examples, ingest-Tried}

module _ {M : Type 0} (retained : Retained M) (disk : Disk) where
  -- The examples were appended to a set that was reset, and the retained set is what that append
  -- left.
  pub record IsRebuilt (examples : Option (List Example)) (before after : M) : Type 0 where
    pub xs : List Example
    pub next : String
    pub reset : M
    pub n : ℕ
    pub generation : Option String
    pub trained : examples ≡ some xs
    pub was_reset : retained.reset_retained before ≡ (some next, reset)
    pub was_appended :
        retained.append_examples xs (some next) reset ≡ (appended n generation, after)

  on_rebuilt-appended :
      (next : String) (result : IngestResult) (store : Store M) (p : Appended × M)
      → result.retained_rebuilt ≡ false
      → let (r, after) = on_rebuilt disk next result store p in
        r.retained_rebuilt ≡ true
        → (n : ℕ) × (generation : Option String) × (p ≡ (appended n generation, after.retained))
  unfolding mark_dirty clear_dirty
  on_rebuilt-appended next result store (appended n generation, m) e r =
      (n, generation, ground arith)
  on_rebuilt-appended next result store (append_refused reason, m) e r =
      absurd (ground (arith, e, r))
  on_rebuilt-appended next result store (append_raises, m) e r = absurd (ground (arith, e, r))

  on_reset-IsRebuilt :
      (xs : List Example) (result : IngestResult) (store : Store M) (p : Option String × M)
      → retained.reset_retained store.retained ≡ p
      → result.retained_rebuilt ≡ false
      → let (r, after) = on_reset retained disk xs result store p in
        r.retained_rebuilt ≡ true → IsRebuilt (some xs) store.retained after.retained
  on_reset-IsRebuilt xs result store (none, m) was e r = absurd (ground (arith, e, r))
  on_reset-IsRebuilt xs result store (some next, m) was e r =
      let (n, generation, same) =
        on_rebuilt-appended next result store (retained.append_examples xs (some next) m) e r in
      record {
        xs = xs;
        next = next;
        reset = m;
        n = n;
        generation = generation;
        trained = refl;
        was_reset = was;
        was_appended = same;
      }

  rebuilding-IsRebuilt :
      (examples : Option (List Example)) (result : IngestResult) (store : Store M)
      → result.retained_rebuilt ≡ false
      → let (r, after) = rebuilding retained disk examples result store in
        r.retained_rebuilt ≡ true → IsRebuilt examples store.retained after.retained
  rebuilding-IsRebuilt none result store e r = absurd (ground (arith, e, r))
  rebuilding-IsRebuilt (some xs) result store e r =
      on_reset-IsRebuilt xs result store (retained.reset_retained store.retained) refl e r

module _ {M : Type 0} (c : Codec) (retained : Retained M) (disk : Disk) (client kind : String)
    (contract : LabelContract) (stamp : ℤ) (max_bytes : ℕ) where
  returned_injective : {r q : IngestResult} → returned r ≡ returned q → r ≡ q
  returned_injective h = cc

  mirror-IsRebuilt :
      (examples : List Example) (result : IngestResult) (before : Store M) (made : Mirrored M)
      → mirror c retained disk contract.names true examples result before ≡ made
      → result.retained_rebuilt ≡ false
      → made.0.retained_rebuilt ≡ true
      → IsRebuilt retained disk
          (all_examples c retained disk contract max_bytes made.1.log)
          before.retained
          made.1.retained
  unfolding rebuild_retained mirror
  mirror-IsRebuilt examples result before made m e r =
      subst
        (λ log.
          IsRebuilt retained disk (all_examples c retained disk contract max_bytes log)
            before.retained made.1.retained)
        (sym (mirror-IsKept c retained disk contract.names true examples result before).log
          ∙ ap (λ (made : Mirrored M). made.1.log) m)
        (subst
          (λ (made : Mirrored M).
            made.0.retained_rebuilt ≡ true
            → IsRebuilt retained disk (all_examples c retained disk contract max_bytes before.log)
                before.retained made.1.retained)
          m
          (rebuilding-IsRebuilt retained disk
            (all_examples c retained disk contract max_bytes before.log) result before e)
          r)

  -- A batch that meets a dirty mirror and reports a rebuild has put the examples of every label of
  -- the log into a set that was reset.
  pub ingest-IsRebuilt :
      (rows : List Row) (store : Store M) (r : IngestResult)
      → let (end, after) = ingest c retained disk client kind contract stamp max_bytes rows store in
        store.dirty ≡ true
        → end ≡ returned r
        → r.retained_rebuilt ≡ true
        → (before : M) × IsRebuilt retained disk
            (all_examples c retained disk contract max_bytes after.log)
            before
            after.retained
  unfolding rebuild_retained mirror
  ingest-IsRebuilt rows store r e told rebuilt =
      elim (ingest-Tried c retained disk client kind contract stamp max_bytes rows store e) [
        | inl (reason, same, kept) ↦ absurd (ground (arith, same, told, rebuilt))
        | inr (examples, result, before, kept, held, unmarked, same) ↦
            let made = mirror c retained disk contract.names true examples result before in
            let report = returned_injective (sym (ap (λ (a : Ended × Store M). a.0) same) ∙ told) in
            (
              before.retained,
              subst
                  (λ (a : Ended × Store M).
                    IsRebuilt retained disk
                      (all_examples c retained disk contract max_bytes a.1.log) before.retained
                      a.1.retained)
                  (sym same)
                  (mirror-IsRebuilt examples result before made refl unmarked
                    (ap (λ (r : IngestResult). r.retained_rebuilt) report ∙ rebuilt)),
            )
      ]
