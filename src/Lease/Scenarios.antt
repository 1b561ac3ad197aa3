-- ===== src/Lease/Scenarios.antt =====
-- Two clients of lifecycle/leases.py: one that renews, one that is swept, and one at its cap.
use kenaz_ml.Prelude.{
  ℕ, nat_eq, string_eq, pair_eq, ◌==◌, Bool, true, false, none, some, [], ◌∷◌, ◌≡◌, ◌≤◌, ◌<◌, refl,
  arith, if◌then◌else◌,
}
use kenaz_ml.Dict.{get, has, put, UniqueKeys}
use kenaz_ml.Dict.Count.{count_keys}
use kenaz_ml.Lease.{
  Lease, Key, LeaseTable, new, renew, make_room, should_exit, max_leases_per_client, sweep_scan,
}
use kenaz_ml.Lease.Room.{leases_of, IsOldest}
use kenaz_ml.Lease.Renew.{renew_at_cap}
use kenaz_ml.Lease.Invariant.{IsWellFormed, new-IsWellFormed}
use kenaz_ml.Lease.Engine.{Engine, Reach, here, next, renewed, scans, start, Reach-IsWellFormed}
use kenaz_ml.Lease.Pinned
use kenaz_ml.Lease.Pinned.{IsPinned, SparingRun, held_pins_engine}

abbrev at_start : Engine
at_start = start 60 600 5

abbrev one_lease : Engine
one_lease = record at_start { table = (renew 10 "harness" 7 "1.0" none at_start.table).0 }

one_lease_reached : Reach at_start one_lease
one_lease_reached = next here (renewed at_start 10 "harness" 7 "1.0" none)

one_lease-IsWellFormed : IsWellFormed one_lease.table
one_lease-IsWellFormed = Reach-IsWellFormed (new-IsWellFormed 60 600 5) one_lease_reached

Reach-IsWellFormed_example : IsWellFormed one_lease.table
Reach-IsWellFormed_example = Reach-IsWellFormed (new-IsWellFormed 60 600 5) one_lease_reached

one_lease_held : has one_lease.table.leases ("harness", 7) ≡ true
unfolding renew make_room new has put
one_lease_held = refl

one_lease_waits : 0 < one_lease.table.idle_exit_sec
unfolding renew new
one_lease_waits = omega arith

one_lease-IsPinned : IsPinned ("harness", 7) one_lease
one_lease-IsPinned = record {
  formed = one_lease-IsWellFormed;
  held = one_lease_held;
  waits = one_lease_waits;
  unlisted = tt;
}

-- The pid 7 lives, and all others are dead.
abbrev only_seven : ℕ → Bool
only_seven pid = pid == 7

abbrev scanned_once : Engine
scanned_once = record one_lease { scanned = some (sweep_scan only_seven one_lease.table) }

spared : SparingRun ("harness", 7) one_lease scanned_once
spared = Pinned.next Pinned.here (scans one_lease only_seven) refl

held_pins_engine_example :
    (has scanned_once.table.leases ("harness", 7) ≡ true)
    × ((managed : Bool) (checked now : ℕ)
        → should_exit managed checked now scanned_once.table ≡ false)
held_pins_engine_example =
    held_pins_engine ("harness", 7) one_lease scanned_once one_lease-IsPinned spared

one_lease_room : leases_of "harness" one_lease.table.leases < max_leases_per_client
unfolding renew make_room new has put count_keys
one_lease_room = omega arith

at_start_waits : 0 < at_start.table.idle_exit_sec
unfolding new
at_start_waits = omega arith

abbrev first_key : Key
first_key = ("harness", 7)

abbrev second_key : Key
second_key = ("harness", 8)

-- The client "cli" holds as many leases as it may.
abbrev cli_lease : ℕ → Key × Lease
cli_lease pid = (
  ("cli", pid),
  record { client = "cli"; pid = pid; client_version = "1"; min_contracts = []; renewed_at = pid },
)

abbrev full_table : LeaseTable
full_table = record {
  implicit_lease_sec = 60;
  idle_exit_sec = 600;
  leases =
      cli_lease 4
      ∷ cli_lease 2
      ∷ cli_lease 3
      ∷ cli_lease 1
      ∷ cli_lease 5
      ∷ cli_lease 6
      ∷ cli_lease 7
      ∷ cli_lease 8
      ∷ [];
  last_health_poll = none;
  last_live = 9;
}

full_table-UniqueKeys : UniqueKeys full_table.leases
unfolding has
full_table-UniqueKeys = (refl, (refl, (refl, (refl, (refl, (refl, (refl, (refl, tt))))))))

full_table_absent : has full_table.leases ("cli", 9) ≡ false
unfolding has
full_table_absent = refl

full_table_full : max_leases_per_client ≤ leases_of "cli" full_table.leases
unfolding count_keys
full_table_full = omega arith

renew_at_cap_example :
    (victim : Key) × (lease : Lease) × IsOldest "cli" full_table.leases victim lease
    × ((key : Key)
        → get (renew 10 "cli" 9 "1" none full_table).0.leases key ≡ (
            if ("cli", 9) == key
            then some (renew 10 "cli" 9 "1" none full_table).1
            else if victim == key
            then none
            else get full_table.leases key))
renew_at_cap_example =
    renew_at_cap 10 "cli" 9 "1" none full_table full_table-UniqueKeys full_table_absent
      full_table_full
