-- ===== src/Lease/Room.antt =====
-- How `renew` makes room for a new lease of a client.
use kenaz_ml.Prelude.{
  ℕ, ◌≤◌, ◌<◌, String, nat_eq, string_eq, pair_eq, true, some, [], ◌∷◌, ◌≡◌, refl, arith, length,
  filter, All, All-filter, min_by, min_by-All, min_by_le, min_by_le_first,
}
use kenaz_ml.Dict.{Dict, get, remove, UniqueKeys}
use kenaz_ml.Dict.Count.{count_keys, length-filter_keys}
use kenaz_ml.Dict.Entries.{get_entries}
use kenaz_ml.Lease.{Lease, Key, is_client, drop_oldest, make_room, max_leases_per_client}

-- How many leases a client holds.
abbrev pub leases_of : String → Dict Key Lease → ℕ
leases_of client leases = count_keys (is_client client) leases

abbrev pub mine_of : String → Dict Key Lease → Dict Key Lease
mine_of client leases = filter (λ (entry : Key × Lease). is_client client entry.0) leases

-- The lease that is given up: one of the client's own, and none of them was renewed before it.
pub record IsOldest (client : String) (leases : Dict Key Lease) (key : Key) (lease : Lease)
    : Type 0 where
  pub held : get leases key ≡ some lease
  pub own : is_client client key ≡ true
  pub oldest :
      All (λ (entry : Key × Lease). lease.renewed_at ≤ entry.1.renewed_at) (mine_of client leases)

pub make_room_below :
    (client : String) (leases : Dict Key Lease)
    → leases_of client leases < max_leases_per_client
    → make_room client leases ≡ leases
unfolding make_room
make_room_below client leases h = ground (arith, length-filter_keys (is_client client) leases)

abbrev Candidate : String → Dict Key Lease → Key × Lease → Type 0
Candidate client leases entry =
    (get leases entry.0 ≡ some entry.1) × (is_client client entry.0 ≡ true)

abbrev Dropped : String → Dict Key Lease → Dict Key Lease → Dict Key Lease → Type 0
Dropped client leases mine after =
    (victim : Key × Lease) × Candidate client leases victim
    × All (λ (entry : Key × Lease). victim.1.renewed_at ≤ entry.1.renewed_at) mine
    × (after ≡ remove leases victim.0)

drop_oldest_lem :
    (client : String) (leases mine : Dict Key Lease)
    → 0 < length mine
    → All (Candidate client leases) mine
    → Dropped client leases mine (drop_oldest mine leases)
unfolding drop_oldest
drop_oldest_lem client leases [] h own = elim h [ ]
drop_oldest_lem client leases (item ∷ mine) h own =
    let f = λ (entry : Key × Lease). entry.1.renewed_at in
    (
      min_by f item mine,
      min_by-All f (Candidate client leases) item mine own.0 own.1,
      (min_by_le_first f item mine, min_by_le f item mine),
      refl,
    )

-- At the cap one lease is removed, and it is the least recently renewed of that client's.
pub make_room_full :
    (client : String) (leases : Dict Key Lease)
    → UniqueKeys leases
    → max_leases_per_client ≤ leases_of client leases
    → (key : Key) × (lease : Lease) × IsOldest client leases key lease
      × (make_room client leases ≡ remove leases key)
unfolding make_room
make_room_full client leases u h =
    let own =
      All-filter (λ (entry : Key × Lease). get leases entry.0 ≡ some entry.1)
        (λ (entry : Key × Lease). is_client client entry.0) leases (get_entries leases u) in
    let n = length-filter_keys (is_client client) leases in
    let (victim, (g, c), least, e) =
      drop_oldest_lem client leases (mine_of client leases) (omega (arith, n)) own in
    (victim.0, victim.1, record { held = g; own = c; oldest = least }, ground (arith, n, e))
