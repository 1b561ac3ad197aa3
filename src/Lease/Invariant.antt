-- ===== src/Lease/Invariant.antt =====
-- What every operation of the lease table keeps: the table is a dictionary whose entries stand under
-- their own client and pid, and no client holds more leases than its cap.
use kenaz_ml.Prelude.{
  ℕ, ◌≤◌, ◌<◌, String, nat_eq, string_eq, pair_eq, pair_beq_iff, true, some, Option, ◌≡◌, arith,
  Bool-cases, inl, inr, ◌⊎◌, leb, [], ◌∷◌,
}
use kenaz_ml.Dict.{Dict, get, has, put, remove, remove_all, UniqueKeys}
use kenaz_ml.Dict.Laws.{get-put, get-remove, has-eq-get, put-UniqueKeys, remove-UniqueKeys}
use kenaz_ml.Dict.Count.{count_keys, count_keys-put, count_keys-remove}
use kenaz_ml.Lease.{
  Lease, Key, LeaseTable, new, is_client, make_room, make_lease, renew, live, sweep_collect,
  max_leases_per_client,
}
use kenaz_ml.Lease.Room.{leases_of, make_room_below, make_room_full}

abbrev lease_key : Lease → Key
lease_key lease = (lease.client, lease.pid)

pub record IsTable (leases : Dict Key Lease) : Type 0 where
  pub unique : UniqueKeys leases
  pub keyed : (key : Key) (lease : Lease) → get leases key ≡ some lease → lease_key lease ≡ key
  pub capped : (client : String) → leases_of client leases ≤ max_leases_per_client

pub remove-IsTable :
    {leases : Dict Key Lease} (key : Key) → IsTable leases → IsTable (remove leases key)
remove-IsTable {leases} key h = record {
  unique = remove-UniqueKeys leases key h.unique;
  keyed = λ j lease g. ground (arith, get-remove leases key j h.unique, h.keyed j lease);
  capped =
      λ client. omega (arith, count_keys-remove (is_client client) leases key, h.capped client);
}

-- After a lease of this client is gone there is room for one more.
make_room-IsTable :
    {leases : Dict Key Lease} (client : String)
    → IsTable leases
    → IsTable (make_room client leases) × (leases_of client (make_room client leases) < 8)
make_room-IsTable {leases} client h = elim (Bool-cases (leb 8 (leases_of client leases))) [
  | inl full ↦
      let (victim, lease, oldest, e) = make_room_full client leases h.unique (ground arith) in
      rw e (
        remove-IsTable victim h,
        ground (
          arith,
          count_keys-remove (is_client client) leases victim,
          h.capped client,
          has-eq-get leases victim,
          oldest.held,
          oldest.own,
        ),
      )
  | inr room ↦ rw (make_room_below client leases (ground arith)) (h, ground arith)
]

put-IsTable :
    {leases : Dict Key Lease} (lease : Lease)
    → IsTable leases
    → (has leases (lease_key lease) ≡ true) ⊎ (leases_of lease.client leases < 8)
    → IsTable (put leases (lease_key lease) lease)
put-IsTable {leases} lease h room = record {
  unique = put-UniqueKeys leases (lease_key lease) lease h.unique;
  keyed = λ j l g. ground (
    arith,
    get-put leases (lease_key lease) j lease,
    pair_beq_iff (lease_key lease) j,
    h.keyed j l,
  );
  capped = λ client. ground (
    arith,
    count_keys-put (is_client client) leases (lease_key lease) lease,
    h.capped client,
    string_eq.beq_iff lease.client client,
  );
}

-- The invariant of the table.
abbrev pub IsWellFormed : LeaseTable → Type 0
IsWellFormed t = IsTable t.leases

pub new-IsWellFormed : (implicit idle now : ℕ) → IsWellFormed (new implicit idle now)
unfolding new get count_keys
new-IsWellFormed implicit idle now = record {
  unique = tt;
  keyed = λ key lease g. cc;
  capped = λ client. omega arith;
}

pub renew-IsWellFormed :
    (now : ℕ) (client : String) (pid : ℕ) (version : String)
    (contracts : Option (Dict String String)) (t : LeaseTable)
    → IsWellFormed t
    → IsWellFormed (renew now client pid version contracts t).0
unfolding renew make_lease
renew-IsWellFormed now client pid version contracts t h =
    let lease = make_lease now client pid version contracts in
    elim (Bool-cases (has t.leases (client, pid))) [
      | inl held ↦ rw held (put-IsTable lease h (inl held))
      | inr absent ↦
          rw absent (let (h', room) = make_room-IsTable client h in put-IsTable lease h' (inr room))
    ]

pub remove_all-IsTable :
    (dead : Dict Key Lease) {leases : Dict Key Lease}
    → IsTable leases
    → IsTable (remove_all dead leases)
unfolding remove_all
remove_all-IsTable [] h = h
remove_all-IsTable (entry ∷ dead) h = remove_all-IsTable dead (remove-IsTable entry.0 h)

pub sweep_collect-IsWellFormed :
    (dead : Dict Key Lease) (checked stamped : ℕ) (t : LeaseTable)
    → IsWellFormed t
    → IsWellFormed (sweep_collect dead checked stamped t)
unfolding sweep_collect
sweep_collect-IsWellFormed dead checked stamped t h =
    elim (Bool-cases (live checked (record t { leases = remove_all dead t.leases }))) [
      | inl e ↦ rw e (remove_all-IsTable dead h)
      | inr e ↦ rw e (remove_all-IsTable dead h)
    ]
