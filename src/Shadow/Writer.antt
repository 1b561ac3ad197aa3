-- ===== src/Shadow/Writer.antt =====
-- The writer thread of advice/shadow.py (`ShadowWriter`) and its bounded queue, as the requests and
-- the thread see it: each submission, each take from the queue and each write is one step.
-- An increment of a counter is not interrupted, and a thread that died is started again by the next
-- submission.
use kenaz_ml.Prelude.{
  ℕ, suc, Bool, true, false, not, ◌&&◌, Option, none, some, List, [], ◌∷◌, ◌++◌, ◌≡◌, length, ltb,
  leb, if◌then◌else◌,
}
use kenaz_ml.Registry.Json.{Fields}
use kenaz_ml.LabelLog.{Codec}
use kenaz_ml.LabelLog.Mirror.{Disk, Store}
use kenaz_ml.Shadow.Log.{write_shadow_records}

-- The record that the thread took from the queue and has not counted is `in_hand`.
pub record ShadowWriter (P : Type 0) : Type 0 where
  pub queue : List P
  pub in_hand : Option P
  pub dropped : ℕ
  pub failed : ℕ
  pub written : ℕ

abbrev pub new_writer : {P : Type 0} → ShadowWriter P
new_writer = record { queue = []; in_hand = none; dropped = 0; failed = 0; written = 0 }

abbrev pub shadow_queue_max : ℕ
shadow_queue_max = 4096

-- `put_nowait` raises `queue.Full`; a maximum of 0 is no bound.
abbrev pub is_full : {P : Type 0} → ℕ → List P → Bool
is_full maxsize queue = ltb 0 maxsize && leb maxsize (length queue)

-- `submit`: `starts` says whether the thread runs or could be started.
unfoldable pub submit : {P : Type 0} → ℕ → Bool → P → ShadowWriter P → Bool × ShadowWriter P
submit maxsize starts pending w =
    if not starts
    then (false, record w { failed = suc w.failed })
    else if is_full maxsize w.queue
    then (false, record w { dropped = suc w.dropped })
    else (true, record w { queue = w.queue ++ (pending ∷ []) })

abbrev pub on_get : {P : Type 0} → ShadowWriter P → List P → ShadowWriter P
on_get w [] = w
on_get w (pending ∷ queue) = record w { queue = queue; in_hand = some pending }

-- `self._queue.get()` in `_run`; on an empty queue the thread waits.
unfoldable pub take_next : {P : Type 0} → ShadowWriter P → ShadowWriter P
take_next w = on_get w w.queue

-- What `_run` counts for a write: `none` is an exception of `_write`.
unfoldable pub count_write : {P : Type 0} → Option Bool → ShadowWriter P → ShadowWriter P
count_write (some true) w = record w { in_hand = none; written = suc w.written }
count_write (some false) w = record w { in_hand = none; failed = suc w.failed }
count_write none w = record w { in_hand = none; failed = suc w.failed }

abbrev pub on_record :
    {M : Type 0} → Codec → Disk → ℕ → Option Fields → Store M → Option Bool × Store M
on_record c disk max_bytes none store = (none, store)
on_record c disk max_bytes (some fields) store =
    let (ok, after) = write_shadow_records c disk max_bytes (fields ∷ []) store in (some ok, after)

-- `_write`: the scoring by the model, and the record it makes, is a function that may raise.
unfoldable pub write_pending :
    {P M : Type 0} → (P → Option Fields) → Codec → Disk → ℕ → P → Store M → Option Bool × Store M
write_pending record_of c disk max_bytes pending store =
    on_record c disk max_bytes (record_of pending) store

abbrev pub as_list : {P : Type 0} → Option P → List P
as_list none = []
as_list (some pending) = pending ∷ []

-- What was submitted: the records that were queued, in the order of their submission, those that
-- the thread has counted, and the number that was not queued.
pub record Trail (P : Type 0) : Type 0 where
  pub queued : List P
  pub handled : List P
  pub refused : ℕ

abbrev pub noted : {P : Type 0} → P → Bool → Trail P → Trail P
noted pending true t = record t { queued = t.queued ++ (pending ∷ []) }
noted pending false t = record t { refused = suc t.refused }

module _ {P M : Type 0} (record_of : P → Option Fields) (c : Codec) (max_bytes maxsize : ℕ) where
  -- What requests, the thread and the other writers of the log can reach from a new writer.
  pub data Reach : Trail P → ShadowWriter P → Store M → Type 0 where
    fresh :
        (store : Store M)
        → Reach (record { queued = []; handled = []; refused = 0 }) new_writer store
    submitted :
        {t : Trail P} {w : ShadowWriter P} {store : Store M} (starts : Bool) (pending : P)
        → Reach t w store
        → Reach
            (noted pending (submit maxsize starts pending w).0 t)
            (submit maxsize starts pending w).1
            store
    taken :
        {t : Trail P} {w : ShadowWriter P} {store : Store M}
        → w.in_hand ≡ none
        → Reach t w store
        → Reach t (take_next w) store
    wrote_one :
        {t : Trail P} {w : ShadowWriter P} {store : Store M} (disk : Disk) (pending : P)
        → w.in_hand ≡ some pending
        → Reach t w store
        → Reach
            (record t { handled = t.handled ++ (pending ∷ []) })
            (count_write (write_pending record_of c disk max_bytes pending store).0 w)
            (write_pending record_of c disk max_bytes pending store).1
    elsewhere :
        {t : Trail P} {w : ShadowWriter P} {store : Store M} (after : Store M)
        → Reach t w store
        → Reach t w after
