-- ===== src/Cache/Reads.antt =====
-- What `get` of modelstore/cache.py returns after a `put`.
use kenaz_ml.Prelude.{
  ℕ, ◌≤◌, ◌+◌, String, nat_eq, string_eq, pair_eq, pair_beq_iff, ◌==◌, Bool, some, none, Option,
  ◌≡◌, arith, if◌then◌else◌, length, leb, not,
}
use kenaz_ml.Dict.{get, UniqueKeys}
use kenaz_ml.Dict.Laws.{get-put}
use kenaz_ml.Dict.Filter.{get_if, get-filter}
use kenaz_ml.Dict.Removal.{remove_all-filter, length-filter-not}
use kenaz_ml.Cache.{
  Key, CacheEntry, ModelCache, is_expired, get_model, make_room, put_model, evict_where,
  cleanup_expired, evict,
}

module _ {M : Type 0} where
  -- The model of an entry that is not older than the window.
  abbrev pub fresh_model : ℕ → ℕ → Option (CacheEntry M) → Option M
  fresh_model now ttl none = none
  fresh_model now ttl (some entry) = if is_expired now ttl entry then none else some entry.model

  pub get_model-eq :
      (tenant name : String) (now : ℕ) (c : ModelCache M)
      → (get_model tenant name now c).1
        ≡ fresh_model now c.ttl_seconds (get c.entries (tenant, name))
  unfolding get_model
  get_model-eq tenant name now c = ground arith

  ttl-make_room : (key : Key) (c : ModelCache M) → (make_room key c).ttl_seconds ≡ c.ttl_seconds
  unfolding make_room
  ttl-make_room key c = ground arith

  -- A model that was put at `loaded` is returned by a `get` at `now` while `now` lies before the end
  -- of its window, and no longer after that; whether the cache was full does not matter.
  pub get-put_self :
      (tenant name : String) (model : M) (loaded now : ℕ) (c : ModelCache M)
      → (get_model tenant name now (put_model tenant name model loaded c)).1
        ≡ (if leb (loaded + c.ttl_seconds) now then none else some model)
  unfolding put_model
  get-put_self tenant name model loaded now c =
      let c' = make_room (tenant, name) c in
      let entry : CacheEntry M = record { model = model; loaded_at = loaded } in
      ground (
        arith,
        get_model-eq tenant name now (put_model tenant name model loaded c),
        ttl-make_room (tenant, name) c,
        get-put c'.entries (tenant, name) (tenant, name) entry,
        pair_beq_iff (tenant, name) (tenant, name),
      )

  evict_where-get :
      (test : Key × CacheEntry M → Bool) (c : ModelCache M) (key : Key)
      → UniqueKeys c.entries
      → get (evict_where test c).0.entries key
        ≡ get_if (λ item. not (test item)) key (get c.entries key)
  unfolding evict_where
  evict_where-get test c key u =
      rw (remove_all-filter test c.entries u)
        (get-filter (λ (item : Key × CacheEntry M). not (test item)) c.entries key u)

  -- In a cache where no key occurs twice, removing the expired entries ahead of time changes no
  -- later answer: a `get` that reads the clock no earlier returns what it would have returned
  -- without.
  pub cleanup_transparent :
      (tenant name : String) (swept now : ℕ) (c : ModelCache M)
      → UniqueKeys c.entries
      → swept ≤ now
      → (get_model tenant name now (cleanup_expired swept c).0).1 ≡ (get_model tenant name now c).1
  unfolding cleanup_expired
  cleanup_transparent tenant name swept now c u h = ground (
    arith,
    get_model-eq tenant name now (cleanup_expired swept c).0,
    get_model-eq tenant name now c,
    evict_where-get (λ item. is_expired swept c.ttl_seconds item.1) c (tenant, name) u,
  )

  -- In a cache where no key occurs twice, `evict` of a tenant takes away every model of that tenant
  -- and leaves those of all others, and returns how many it took.
  pub evict_tenant :
      (tenant : String) (c : ModelCache M)
      → UniqueKeys c.entries
      → ((key : Key)
          → get (evict tenant c).0.entries key
            ≡ (if key.0 == tenant then none else get c.entries key))
        × (length (evict tenant c).0.entries + (evict tenant c).1 ≡ length c.entries)
  unfolding evict
  evict_tenant tenant c u =
      let test = λ (item : Key × CacheEntry M). item.0.0 == tenant in
      (
        λ key. ground (arith, evict_where-get test c key u),
        rw (remove_all-filter test c.entries u) (length-filter-not test c.entries),
      )
