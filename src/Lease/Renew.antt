-- ===== src/Lease/Renew.antt =====
-- What `renew` of lifecycle/leases.py does to the table.
use kenaz_ml.Prelude.{
  ℕ, ◌≤◌, ◌<◌, String, nat_eq, string_eq, pair_eq, ◌==◌, true, false, some, none, Option, ◌≡◌,
  arith, if◌then◌else◌, ◌⊎◌,
}
use kenaz_ml.Dict.{Dict, get, has, UniqueKeys}
use kenaz_ml.Dict.Laws.{get-put, get-remove}
use kenaz_ml.Lease.{Lease, Key, LeaseTable, make_room, make_lease, renew, max_leases_per_client}
use kenaz_ml.Lease.Room.{leases_of, make_room_below, IsOldest, make_room_full}

module _ (now : ℕ) (client : String) (pid : ℕ) (version : String)
    (contracts : Option (Dict String String)) (t : LeaseTable) where
  abbrev renewed : LeaseTable × Lease
  renewed = renew now client pid version contracts t

  -- Renewing a lease that is held, or taking one below the cap, writes that entry of the table and
  -- leaves every other lease as it was.
  pub renew_below_cap :
      (has t.leases (client, pid) ≡ true) ⊎ (leases_of client t.leases < max_leases_per_client)
      → (key : Key)
      → get renewed.0.leases key
        ≡ (if (client, pid) == key then some renewed.1 else get t.leases key)
  unfolding renew
  renew_below_cap h key = ground (
    arith,
    make_room_below client t.leases,
    get-put t.leases (client, pid) key (make_lease now client pid version contracts),
  )

  -- In a table where no key occurs twice, a new lease of a client at its cap, for a key that is not
  -- held, takes the place of a least recently renewed lease of the same client: that one is gone,
  -- the new one is there, and every other lease is as it was.
  pub renew_at_cap :
      UniqueKeys t.leases
      → has t.leases (client, pid) ≡ false
      → max_leases_per_client ≤ leases_of client t.leases
      → (victim : Key) × (lease : Lease) × IsOldest client t.leases victim lease
        × ((key : Key)
            → get renewed.0.leases key ≡ (
                if (client, pid) == key
                then some renewed.1
                else if victim == key
                then none
                else get t.leases key))
  unfolding renew
  renew_at_cap u new full =
      let (victim, lease, oldest, e) = make_room_full client t.leases u full in
      (
        victim,
        lease,
        oldest,
        λ key. ground (
          arith,
          e,
          get-remove t.leases victim key,
          get-put (make_room client t.leases) (client, pid) key
              (make_lease now client pid version contracts),
        ),
      )
