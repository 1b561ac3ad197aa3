-- ===== src/Dispatch/Table.antt =====
-- `DispatchTable` of advice/dispatch.py: snapshots, swaps, and the latency rings.
-- A latency is a natural number of clock ticks.
pub mod Rings
pub mod Timed
pub mod Disjoint
pub mod Percentile
use kenaz_ml.Prelude.{
  ℕ, zero, suc, ◌+◌, ◌-◌, ◌*◌, ◌/◌, String, string_eq, ◌==◌, Bool, true, false, not, ◌&&◌, ◌||◌,
  Option, none, some, List, [], ◌∷◌, ◌++◌, if◌then◌else◌, ltb, leb, length, drop, get_elem?,
}
use kenaz_ml.Dict.{Dict, get, has, put}
use kenaz_ml.Dispatch.{DispatchEntry, is_some, RecommendRequest, ShadowRecord}
use kenaz_ml.Dispatch.Serve.{member, Outcome, dispatch}

abbrev pub workbench_model_names : List String
workbench_model_names = "stuck" ∷ "activity" ∷ "workflow" ∷ "duration" ∷ "quality" ∷ "suggest" ∷ []

abbrev pub backends : List String
backends = "heuristic" ∷ "classic" ∷ "laya" ∷ []

abbrev pub latency_ring_size : ℕ
latency_ring_size = 512

pub record DispatchTable (F M : Type 0) : Type 0 where
  pub snapshot : Dict String (DispatchEntry F M)
  pub latency : Dict String (List ℕ)

-- A method that writes returns the table, or raises `ValueError` and writes nothing.
pub data Swap (F M : Type 0) : Type 0 where
  swapped : DispatchTable F M → Swap F M
  value_error : Swap F M

-- kind_id in WORKBENCH_MODEL_NAMES
unfoldable pub is_workbench : String → Bool
is_workbench kind = member kind workbench_model_names

abbrev pub known_backend : Option String → Bool
known_backend none = true
known_backend (some name) = member name backends

module _ {F M : Type 0} where
  unfoldable pub new : DispatchTable F M
  new = record { snapshot = []; latency = [] }

  unfoldable pub replace_entry : DispatchEntry F M → DispatchTable F M → Swap F M
  replace_entry entry table =
      if is_workbench entry.kind_id
      then value_error
      else if not (known_backend entry.backend)
      then value_error
      else swapped (record table { snapshot = put table.snapshot entry.kind_id entry })

  unfoldable pub any_workbench : Dict String (DispatchEntry F M) → Bool
  any_workbench [] = false
  any_workbench ((kind, entry) ∷ entries) = is_workbench entry.kind_id || any_workbench entries

  unfoldable pub replace_all : Dict String (DispatchEntry F M) → DispatchTable F M → Swap F M
  replace_all entries table =
      if any_workbench entries then value_error else swapped (record table { snapshot = entries })

abbrev pub ring_or_empty : Option (List ℕ) → List ℕ
ring_or_empty none = []
ring_or_empty (some ring) = ring

-- `append` on a deque with `maxlen`
unfoldable pub push_ring : ℕ → List ℕ → List ℕ
push_ring maxlen ring = if leb (length ring) maxlen then ring else drop (length ring - maxlen) ring

unfoldable pub append_ring : ℕ → List ℕ → List ℕ
unfolding push_ring
append_ring elapsed ring = push_ring latency_ring_size (ring ++ elapsed ∷ [])

unfoldable pub insert_sorted : ℕ → List ℕ → List ℕ
insert_sorted x [] = x ∷ []
insert_sorted x (y ∷ ys) = if ltb y x then y ∷ insert_sorted x ys else x ∷ y ∷ ys

-- sorted(samples)
unfoldable pub sorted : List ℕ → List ℕ
unfolding insert_sorted
sorted [] = []
sorted (x ∷ xs) = insert_sorted x (sorted xs)

-- `math.ceil(0.95 * n) - 1`; for the sizes of a ring the rounding of the float does not show.
unfoldable pub p95_index : ℕ → ℕ
p95_index n = (19 * n + 19) / 20 - 1

unfoldable pub p95 : List ℕ → Option ℕ
p95 samples = get_elem? (sorted samples) (p95_index (length samples))

module _ {F M : Type 0} where
  unfoldable pub record_latency : String → ℕ → DispatchTable F M → DispatchTable F M
  unfolding append_ring
  record_latency kind elapsed table = record table {
    latency = put table.latency kind (append_ring elapsed (ring_or_empty (get table.latency kind)));
  }

  unfoldable pub latency_samples : String → DispatchTable F M → List ℕ
  latency_samples kind table = ring_or_empty (get table.latency kind)

  unfoldable pub latency_p95_ms : String → DispatchTable F M → Option ℕ
  unfolding latency_samples
  latency_p95_ms kind table = p95 (latency_samples kind table)

  -- `timed_dispatch`: `elapsed` is the difference of its two readings of the clock.
  unfoldable pub timed_dispatch :
      (F → Bool)
      → String
      → RecommendRequest F
      → ℕ
      → DispatchTable F M
      → (Outcome × List (ShadowRecord F M)) × DispatchTable F M
  timed_dispatch isfinite kind request elapsed table = (
    dispatch isfinite table.snapshot kind request,
    if has table.snapshot kind then record_latency kind elapsed table else table,
  )
