-- ===== src/Shadow/Accounts.antt =====
-- What the writer thread of advice/shadow.py and its queue account for.
use kenaz_ml.Prelude.{
  ℕ, suc, ◌+◌, ◌<◌, ◌≤◌, Bool, true, false, Option, none, some, List, [], ◌∷◌, ◌++◌, ◌≡◌, refl, sym,
  ap, ◌∙◌, inl, inr, arith, length, length-append, Bool-cases,
}
use mathlib.Core.List.{append_assoc}
use kenaz_ml.Registry.Json.{Fields}
use kenaz_ml.LabelLog.{Codec}
use kenaz_ml.LabelLog.Mirror.{Store}
use kenaz_ml.Shadow.Writer.{
  ShadowWriter, is_full, submit, on_get, take_next, count_write, as_list, Trail, noted, Reach,
  fresh, submitted, taken, wrote_one, elsewhere,
}

module _ {P : Type 0} (maxsize : ℕ) where
  -- What holds of the writer and the trail at each point.
  pub record IsAccounted (t : Trail P) (w : ShadowWriter P) : Type 0 where
    pub in_order : t.handled ++ (as_list w.in_hand ++ w.queue) ≡ t.queued
    pub counted : w.dropped + w.failed + w.written ≡ t.refused + length t.handled
    pub bounded : 0 < maxsize → length w.queue ≤ maxsize

  added_in_order :
      (pending : P) (t : Trail P) (w : ShadowWriter P)
      → IsAccounted t w
      → t.handled ++ (as_list w.in_hand ++ (w.queue ++ (pending ∷ []))) ≡ t.queued ++ (pending ∷ [])
  added_in_order pending t w h =
      ap (λ rest. t.handled ++ rest) (sym (append_assoc (as_list w.in_hand) w.queue (pending ∷ [])))
      ∙ sym (append_assoc t.handled (as_list w.in_hand ++ w.queue) (pending ∷ []))
      ∙ ap (λ before. before ++ (pending ∷ [])) h.in_order

  submit-IsAccounted :
      (starts : Bool) (pending : P) (t : Trail P) (w : ShadowWriter P)
      → IsAccounted t w
      → IsAccounted
          (noted pending (submit maxsize starts pending w).0 t)
          (submit maxsize starts pending w).1
  unfolding submit
  submit-IsAccounted false pending t w h = record {
    in_order = h.in_order;
    counted = omega (arith, h.counted);
    bounded = h.bounded;
  }
  submit-IsAccounted true pending t w h = elim (Bool-cases (is_full maxsize w.queue)) [
    | inl full ↦
        rw full
          record { in_order = h.in_order; counted = omega (arith, h.counted); bounded = h.bounded }
    | inr room ↦ rw room record {
      in_order = added_in_order pending t w h;
      counted = h.counted;
      bounded =
          λ some_bound. ground (arith, room, some_bound, length-append w.queue (pending ∷ []));
    }
  ]

  on_get-IsAccounted :
      (queue : List P) (t : Trail P) (w : ShadowWriter P)
      → w.queue ≡ queue
      → w.in_hand ≡ none
      → IsAccounted t w
      → IsAccounted t (on_get w queue)
  on_get-IsAccounted [] t w e idle h = h
  on_get-IsAccounted (pending ∷ queue) t w e idle h = record {
    in_order =
        ap (λ held. t.handled ++ (as_list held ++ (pending ∷ queue))) (sym idle)
        ∙ ap (λ rest. t.handled ++ (as_list w.in_hand ++ rest)) (sym e)
        ∙ h.in_order;
    counted = h.counted;
    bounded = λ some_bound. ground (arith, e, h.bounded some_bound);
  }

  take-IsAccounted :
      (t : Trail P) (w : ShadowWriter P)
      → w.in_hand ≡ none
      → IsAccounted t w
      → IsAccounted t (take_next w)
  unfolding take_next
  take-IsAccounted t w idle h = on_get-IsAccounted w.queue t w refl idle h

  done_in_order :
      (pending : P) (t : Trail P) (w : ShadowWriter P)
      → w.in_hand ≡ some pending
      → IsAccounted t w
      → (t.handled ++ (pending ∷ [])) ++ w.queue ≡ t.queued
  done_in_order pending t w held h =
      append_assoc t.handled (pending ∷ []) w.queue
      ∙ ap (λ hand. t.handled ++ (as_list hand ++ w.queue)) (sym held)
      ∙ h.in_order

  settled-IsAccounted :
      (pending : P) (failed written : ℕ) (t : Trail P) (w : ShadowWriter P)
      → w.in_hand ≡ some pending
      → IsAccounted t w
      → failed + written ≡ suc (w.failed + w.written)
      → IsAccounted
          (record t { handled = t.handled ++ (pending ∷ []) })
          (record w { in_hand = none; failed = failed; written = written })
  settled-IsAccounted pending failed written t w held h one_more = record {
    in_order = done_in_order pending t w held h;
    counted = omega (arith, one_more, h.counted, length-append t.handled (pending ∷ []));
    bounded = h.bounded;
  }

  count-IsAccounted :
      (pending : P) (result : Option Bool) (t : Trail P) (w : ShadowWriter P)
      → w.in_hand ≡ some pending
      → IsAccounted t w
      → IsAccounted (record t { handled = t.handled ++ (pending ∷ []) }) (count_write result w)
  unfolding count_write
  count-IsAccounted pending none t w held h =
      settled-IsAccounted pending _ _ t w held h (omega arith)
  count-IsAccounted pending (some false) t w held h =
      settled-IsAccounted pending _ _ t w held h (omega arith)
  count-IsAccounted pending (some true) t w held h =
      settled-IsAccounted pending _ _ t w held h (omega arith)

module _ {P M : Type 0} (record_of : P → Option Fields) (c : Codec) (max_bytes maxsize : ℕ) where
  -- However submissions, the thread and the other writers of the log interleave, the records that
  -- were queued are exactly those that are counted, in hand and in the queue, in the order of their
  -- submission; each submission that was refused and each record that the thread is done with is
  -- counted once, as dropped, failed or written; and the queue keeps to its maximum.
  pub Reach-IsAccounted :
      (t : Trail P) (w : ShadowWriter P) (store : Store M)
      → Reach record_of c max_bytes maxsize t w store
      → IsAccounted maxsize t w
  Reach-IsAccounted t w store (fresh _) = record {
    in_order = refl;
    counted = refl;
    bounded = λ some_bound. omega arith;
  }
  Reach-IsAccounted t w store (submitted {t = t0} {w = w0} starts pending r) =
      submit-IsAccounted maxsize starts pending t0 w0 (Reach-IsAccounted t0 w0 store r)
  Reach-IsAccounted t w store (taken {w = w0} idle r) =
      take-IsAccounted maxsize t w0 idle (Reach-IsAccounted t w0 store r)
  Reach-IsAccounted t w store (wrote_one {t = t0} {w = w0} {store = store0} disk pending held r) =
      count-IsAccounted maxsize pending _ t0 w0 held (Reach-IsAccounted t0 w0 store0 r)
  Reach-IsAccounted t w store (elsewhere {store = store0} after r) = Reach-IsAccounted t w store0 r
