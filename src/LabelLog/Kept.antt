-- ===== src/LabelLog/Kept.antt =====
-- What `_mirror` leaves alone: the log, the index, and what is reported of the rows.
use kenaz_ml.Prelude.{
  ℕ, ◌&&◌, String, nat_beq, Bool, true, false, Option, none, some, List, [], ◌∷◌, ◌≡◌, refl, arith,
  if◌then◌else◌, Bool-cases, inl, inr,
}
use kenaz_ml.Dict.{Dict}
use kenaz_ml.LabelLog.{Codec, Example, LabelKey, Record}
use kenaz_ml.LabelLog.File.{LogFile, is_empty, enforce_bound}
use kenaz_ml.LabelLog.Checks.{LabelContract, io_error}
use kenaz_ml.LabelLog.Rows.{Batch}
use kenaz_ml.LabelLog.Ingest.{
  Ended, returned, raised_out, reporting, mirrored_batch, new_examples, on_written, settled,
  updated_index, finished, write_log, refusing,
}
use kenaz_ml.LabelLog.Mirror.{
  Retained, Disk, IngestResult, Store, Mirrored, mirror, rebuild_retained, mark_dirty, clear_dirty,
}

-- What the caller is told when the rows came through and `n` lines were evicted.
abbrev pub IsReport : Batch → ℕ → Ended → Type 0
IsReport b n raised_out = Unit
IsReport b n (returned r) =
    (r.refusal ≡ none) × (r.evicted ≡ n) × (r.ack ≡ b.ack) × (r.outcomes ≡ b.outcomes)

module _ {M : Type 0} where
  pub record IsKept (result : IngestResult) (store : Store M) (after : Mirrored M) : Type 0 where
    pub log : after.1.log ≡ store.log
    pub index : after.1.index ≡ store.index
    pub evicted : after.0.evicted ≡ result.evicted
    pub refusal : after.0.refusal ≡ result.refusal
    pub ack : after.0.ack ≡ result.ack
    pub outcomes : after.0.outcomes ≡ result.outcomes

  pub mirror-IsKept :
      (c : Codec) (retained : Retained M) (disk : Disk) (names : List String) (rebuild : Bool)
      (examples : List Example) (result : IngestResult) (store : Store M)
      → IsKept result store (mirror c retained disk names rebuild examples result store)
  unfolding mirror rebuild_retained mark_dirty clear_dirty
  mirror-IsKept c retained disk names rebuild examples result store = ground arith

  pub record IsWritten (b : Batch) (n : ℕ) (store : Store M) (after : Ended × Store M)
      : Type 0 where
    pub log : after.1.log ≡ store.log
    pub index : after.1.index ≡ store.index
    pub report : IsReport b n after.0

  pub kept-IsWritten :
      (b : Batch) (n : ℕ) (store : Store M) (result : IngestResult) (after : Mirrored M)
      → result ≡ reporting b n
      → IsKept result store after
      → IsWritten b n store (returned after.0, after.1)
  kept-IsWritten b n store result after e h = ground arith

module _ {M : Type 0} where
  -- The store once the log is written and bounded.
  abbrev pub bounded_store : Dict LabelKey Record → Batch → Store M → LogFile × ℕ → Store M
  bounded_store index b store (file, n) = record store {
    log = file;
    index = if nat_beq n 0 then some (updated_index index b) else none;
  }

  abbrev pub cached : Dict LabelKey Record → Store M → Store M
  cached index store = record store { index = some index }

pub empty_lem : {A : Type 0} (xs : List A) → is_empty xs ≡ true → xs ≡ []
empty_lem [] e = refl
empty_lem (x ∷ xs) e = cc

module _ {M : Type 0} (c : Codec) (retained : Retained M) (disk : Disk) (contract : LabelContract)
    (max_bytes : ℕ) where
  mirrored_batch-IsWritten :
      (b : Batch) (n : ℕ) (examples : Option (List Example)) (store : Store M)
      → IsWritten b n store (mirrored_batch c retained disk contract max_bytes b n examples store)
  mirrored_batch-IsWritten b n none store = record { log = refl; index = refl; report = tt }
  mirrored_batch-IsWritten b n (some examples) store =
      kept-IsWritten b n store (reporting b n) _ refl (
        mirror-IsKept c retained disk contract.names b.needs_rebuild examples (reporting b n) store)

  -- How a batch that passed the checks ends: nothing to write, a failed write, or a written log.
  pub data Settled (index : Dict LabelKey Record) (b : Batch) (store : Store M)
      (after : Ended × Store M) : Type 0 where
    unwritten :
        b.pending_new ≡ []
        → b.replaced ≡ []
        → IsWritten b 0 (cached index store) after
        → Settled index b store after
    failed :
        (file : LogFile)
        → (is_empty b.pending_new && is_empty b.replaced) ≡ false
        → write_log c disk index b store.log ≡ (false, file)
        → after ≡ (returned (refusing io_error), record store { log = file; index = some index })
        → Settled index b store after
    written :
        (file : LogFile)
        → (is_empty b.pending_new && is_empty b.replaced) ≡ false
        → write_log c disk index b store.log ≡ (true, file)
        → IsWritten b
            (enforce_bound disk.evict_fails max_bytes file).1
            (bounded_store index b store (enforce_bound disk.evict_fails max_bytes file))
            after
        → Settled index b store after

  unwritten-IsWritten :
      (rebuild : Bool) (index : Dict LabelKey Record) (b : Batch) (store : Store M)
      → IsWritten b 0 (cached index store) (
          if rebuild
          then finished c retained disk contract max_bytes
              (mirror c retained disk contract.names true [] (reporting b 0) (cached index store))
          else (returned (reporting b 0), cached index store))
  unwritten-IsWritten true index b store =
      kept-IsWritten b 0 (cached index store) (reporting b 0) _ refl
        (mirror-IsKept c retained disk contract.names true [] (reporting b 0) (cached index store))
  unwritten-IsWritten false index b store = record {
    log = refl;
    index = refl;
    report = (refl, refl, refl, refl);
  }

  on_written-Settled :
      (index : Dict LabelKey Record) (b : Batch) (store : Store M) (w : Bool × LogFile)
      → (is_empty b.pending_new && is_empty b.replaced) ≡ false
      → write_log c disk index b store.log ≡ w
      → Settled index b store (on_written c retained disk contract max_bytes index b store w)
  on_written-Settled index b store (false, file) some_row e = failed file some_row e refl
  on_written-Settled index b store (true, file) some_row e =
      written file some_row e
        (mirrored_batch-IsWritten b _ (new_examples c retained disk contract max_bytes b) _)

  pub settled-Settled :
      (index : Dict LabelKey Record) (b : Batch) (store : Store M)
      → Settled index b store (settled c retained disk contract max_bytes index b store)
  settled-Settled index b store =
      elim (Bool-cases (is_empty b.pending_new && is_empty b.replaced)) [
        | inl e ↦
            unwritten (empty_lem b.pending_new (ground (arith, e)))
              (empty_lem b.replaced (ground (arith, e)))
              (rw e (unwritten-IsWritten b.needs_rebuild index b store))
        | inr e ↦ rw e (on_written-Settled index b store _ e refl)
      ]
