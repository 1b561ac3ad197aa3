-- ===== src/Lease/Sweep.antt =====
-- What `sweep` of lifecycle/leases.py removes.
use kenaz_ml.Prelude.{
  ℕ, nat_eq, string_eq, pair_eq, Bool, false, not, Option, none, some, ◌≡◌, arith, if◌then◌else◌,
  filter, Bool-cases, inl, inr, Option-cases,
}
use kenaz_ml.Dict.{Dict, get, has, remove_all, UniqueKeys}
use kenaz_ml.Dict.Laws.{has-eq-get}
use kenaz_ml.Dict.Removal.{get-remove_all}
use kenaz_ml.Dict.Filter.{get-filter}
use kenaz_ml.Lease.{Lease, Key, LeaseTable, sweep_scan, sweep_collect, sweep, live}
use kenaz_ml.Lease.Invariant.{IsWellFormed}

collected-leases :
    (dead : Dict Key Lease) (checked stamped : ℕ) (t : LeaseTable)
    → (sweep_collect dead checked stamped t).leases ≡ remove_all dead t.leases
unfolding sweep_collect
collected-leases dead checked stamped t =
    elim (Bool-cases (live checked (record t { leases = remove_all dead t.leases }))) [
      | inl e ↦ rw e
      | inr e ↦ rw e
    ]

pub collected-idle_exit_sec :
    (dead : Dict Key Lease) (checked stamped : ℕ) (t : LeaseTable)
    → (sweep_collect dead checked stamped t).idle_exit_sec ≡ t.idle_exit_sec
unfolding sweep_collect
collected-idle_exit_sec dead checked stamped t =
    elim (Bool-cases (live checked (record t { leases = remove_all dead t.leases }))) [
      | inl e ↦ rw e
      | inr e ↦ rw e
    ]

-- The removal takes away the scanned keys and nothing else.
pub get-sweep_collect :
    (dead : Dict Key Lease) (checked stamped : ℕ) (t : LeaseTable) (key : Key)
    → UniqueKeys t.leases
    → get (sweep_collect dead checked stamped t).leases key
      ≡ (if has dead key then none else get t.leases key)
get-sweep_collect dead checked stamped t key u =
    rw (collected-leases dead checked stamped t) (get-remove_all dead t.leases key u)

-- The lease of a key, if its pid is alive.
abbrev pub alive_lease : (ℕ → Bool) → Key → Option Lease → Option Lease
alive_lease alive key none = none
alive_lease alive key (some lease) = if alive key.1 then some lease else none

-- The scan lists a key exactly when the table holds it and its pid is dead.
pub has-sweep_scan :
    (alive : ℕ → Bool) (t : LeaseTable) (key : Key)
    → IsWellFormed t
    → has (sweep_scan alive t) key ≡ (if has t.leases key then not (alive key.1) else false)
unfolding sweep_scan
has-sweep_scan alive t key h =
    let p = λ (entry : Key × Lease). not (alive entry.1.pid) in
    let scan = get-filter p t.leases key h.unique in
    elim (Option-cases (get t.leases key)) [
      | inl e ↦ ground (arith, scan, has-eq-get t.leases key, has-eq-get (filter p t.leases) key)
      | inr (lease, e) ↦ ground (
        arith,
        scan,
        has-eq-get t.leases key,
        has-eq-get (filter p t.leases) key,
        h.keyed key lease e,
      )
    ]

-- In a well-formed table, a sweep with nothing between its two sections keeps exactly the leases
-- whose pid is alive, and they are unchanged.
pub sweep-get :
    (alive : ℕ → Bool) (checked stamped : ℕ) (t : LeaseTable) (key : Key)
    → IsWellFormed t
    → get (sweep alive checked stamped t).0.leases key ≡ alive_lease alive key (get t.leases key)
unfolding sweep
sweep-get alive checked stamped t key h = ground (
  arith,
  get-sweep_collect (sweep_scan alive t) checked stamped t key h.unique,
  has-sweep_scan alive t key h,
  has-eq-get t.leases key,
)
