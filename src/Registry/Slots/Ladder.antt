-- ===== src/Registry/Slots/Ladder.antt =====
-- Which slot of modelstore/registry/slots.py answers.
use kenaz_ml.Prelude.{
  false, Option, none, some, List, [], ◌∷◌, ◌++◌, ◌≡◌, refl, ap, ◌∙◌, subst, Text,
}
use mathlib.Core.List.{append-nil, append_assoc}
use kenaz_ml.Exceptions.{Exc, ok, raised, raises, ok_injective}
use kenaz_ml.Registry.Manifest.{Manifest, FeatureContract, Refusal}
use kenaz_ml.Registry.Slots.{
  Slot, local, SlotDir, SlotRefusal, Outside, Served, Resolution, Attempt, resolved, refusal,
  try_slot, ladder, resolution_at, cold, on_attempt, climb, resolve_model,
}

module _ (out : Outside) (expected : Option FeatureContract) (running : Option Text) where
  open out use {Model}

  -- Every slot of the list refuses, with these refusals in this order.
  abbrev pub Refusing : List (Slot × SlotDir) → List SlotRefusal → Type 0
  Refusing [] [] = Unit {0}
  Refusing [] (r ∷ rs) = ⊥
  Refusing (rung ∷ rungs) [] = ⊥
  Refusing (rung ∷ rungs) (r ∷ rs) =
      (r.slot ≡ rung.0)
      × (try_slot out rung.1 expected running ≡ ok (refusal r.refusal))
      × Refusing rungs rs

  -- How a climb of the ladder ends: at the first rung that resolves, or on the ground.
  pub data Outcome (rungs : List (Slot × SlotDir)) (acc : List SlotRefusal)
      : Resolution Model → Type 0 where
    answered :
        (before after : List (Slot × SlotDir)) (at : Slot) (dir : SlotDir) (model : Served Model)
        (m : Manifest) (refs : List SlotRefusal)
        → rungs ≡ before ++ (at, dir) ∷ after
        → Refusing before refs
        → try_slot out dir expected running ≡ ok (resolved model m)
        → Outcome rungs acc (resolution_at out at model m (acc ++ refs))
    exhausted :
        (refs : List SlotRefusal) → Refusing rungs refs → Outcome rungs acc (cold out (acc ++ refs))

  abbrev refusal_at : Slot → Refusal → SlotRefusal
  refusal_at at r = record { slot = at; refusal = r }

  Outcome-cons :
      (at : Slot) (dir : SlotDir) (rungs : List (Slot × SlotDir)) (r : Refusal)
      (acc : List SlotRefusal) {res : Resolution Model}
      → try_slot out dir expected running ≡ ok (refusal r)
      → Outcome rungs (acc ++ refusal_at at r ∷ []) res
      → Outcome ((at, dir) ∷ rungs) acc res
  Outcome-cons at dir rungs r acc e (answered before after a d model m refs split h t) =
      rw (append_assoc acc (refusal_at at r ∷ []) refs) (
        answered ((at, dir) ∷ before) after a d model m (refusal_at at r ∷ refs)
          (ap (λ l. (at, dir) ∷ l) split) (refl, e, h) t)
  Outcome-cons at dir rungs r acc e (exhausted refs h) =
      rw (append_assoc acc (refusal_at at r ∷ []) refs)
        (exhausted (refusal_at at r ∷ refs) (refl, e, h))

  on_attempt_outcome :
      (at : Slot) (dir : SlotDir) (rungs : List (Slot × SlotDir)) (acc : List SlotRefusal)
      (a : Exc (Attempt Model)) (res : Resolution Model)
      → try_slot out dir expected running ≡ a
      → ((collected : List SlotRefusal)
          → climb out expected running rungs collected ≡ ok res
          → Outcome rungs collected res)
      → on_attempt out at a acc (λ collected. climb out expected running rungs collected) ≡ ok res
      → Outcome ((at, dir) ∷ rungs) acc res
  unfolding on_attempt
  on_attempt_outcome at dir rungs acc (raised x) res e rest h = cc
  on_attempt_outcome at dir rungs acc (ok (resolved model m)) res e rest h =
      subst (Outcome ((at, dir) ∷ rungs) acc)
        (ap (resolution_at out at model m) (append-nil acc) ∙ ok_injective h)
        (answered [] rungs at dir model m [] refl tt e)
  on_attempt_outcome at dir rungs acc (ok (refusal r)) res e rest h =
      Outcome-cons at dir rungs r acc e (rest (acc ++ refusal_at at r ∷ []) h)

  climb_outcome :
      (rungs : List (Slot × SlotDir)) (acc : List SlotRefusal) (res : Resolution Model)
      → climb out expected running rungs acc ≡ ok res
      → Outcome rungs acc res
  unfolding climb
  climb_outcome [] acc res h =
      subst (Outcome [] acc) (ap (cold out) (append-nil acc) ∙ ok_injective h) (exhausted [] tt)
  climb_outcome ((at, dir) ∷ rungs) acc res h =
      on_attempt_outcome at dir rungs acc (try_slot out dir expected running) res refl
        (λ collected k. climb_outcome rungs collected res k) h

  -- A resolution that returns is that of the first slot of the ladder that resolves, with the
  -- refusals of all slots before it in their order; where no slot resolves, it is the cold start
  -- with the refusals of all of them.
  pub resolve_model_outcome :
      (local_dir base_dir : SlotDir) (org_dir : Option SlotDir) (res : Resolution Model)
      → resolve_model out local_dir org_dir base_dir expected running ≡ ok res
      → Outcome (ladder local_dir org_dir base_dir) [] res
  unfolding resolve_model
  resolve_model_outcome local_dir base_dir org_dir res h =
      climb_outcome (ladder local_dir org_dir base_dir) [] res h

  -- The local slot wins whenever it resolves, whatever the other slots hold.
  pub local_wins :
      (local_dir base_dir : SlotDir) (org_dir : Option SlotDir) (model : Served Model)
      (m : Manifest)
      → try_slot out local_dir expected running ≡ ok (resolved model m)
      → resolve_model out local_dir org_dir base_dir expected running
        ≡ ok (resolution_at out local model m [])
  unfolding resolve_model ladder climb on_attempt
  local_wins local_dir base_dir none model m h = rw (h, on_attempt)
  local_wins local_dir base_dir (some org_dir) model m h = rw (h, on_attempt)

  on_attempt-raises :
      (at : Slot) (a : Exc (Attempt Model)) (acc : List SlotRefusal)
      (next : List SlotRefusal → Exc (Resolution Model))
      → raises a ≡ false
      → ((collected : List SlotRefusal) → raises (next collected) ≡ false)
      → raises (on_attempt out at a acc next) ≡ false
  unfolding on_attempt
  on_attempt-raises at (raised x) acc next h k = cc
  on_attempt-raises at (ok (resolved model m)) acc next h k = refl
  on_attempt-raises at (ok (refusal r)) acc next h k = k _

  abbrev pub Quiet : List (Slot × SlotDir) → Type 0
  Quiet [] = Unit {0}
  Quiet (rung ∷ rungs) = (raises (try_slot out rung.1 expected running) ≡ false) × Quiet rungs

  pub climb_returns :
      (rungs : List (Slot × SlotDir)) (acc : List SlotRefusal)
      → Quiet rungs
      → raises (climb out expected running rungs acc) ≡ false
  unfolding climb
  climb_returns [] acc q = refl
  climb_returns ((at, dir) ∷ rungs) acc q =
      on_attempt-raises at (try_slot out dir expected running) acc _ q.0
        (λ collected. climb_returns rungs collected q.1)
