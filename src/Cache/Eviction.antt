-- ===== src/Cache/Eviction.antt =====
-- Which entry `put` of modelstore/cache.py gives up.
use kenaz_ml.Prelude.{
  ℕ, ◌≤◌, ◌<◌, ◌+◌, String, nat_eq, string_eq, pair_eq, ◌==◌, true, false, some, none, [], ◌∷◌, ◌≡◌,
  refl, arith, if◌then◌else◌, length, All, min_by, min_by-All, min_by_le, min_by_le_first, leb,
  ◌&&◌,
}
use kenaz_ml.Dict.{Dict, get, has, remove, UniqueKeys}
use kenaz_ml.Dict.Laws.{get-put, get-remove}
use kenaz_ml.Dict.Entries.{get_entries}
use kenaz_ml.Cache.{Key, CacheEntry, ModelCache, get_model, evict_oldest, make_room, put_model}

module _ {M : Type 0} where
  abbrev Held : Dict Key (CacheEntry M) → Key × CacheEntry M → Type 0
  Held entries item = get entries item.0 ≡ some item.1

  -- The victim is an entry, and none was loaded before it.
  pub record IsOldest (entries : Dict Key (CacheEntry M)) (key : Key) (entry : CacheEntry M)
      : Type 0 where
    pub held : get entries key ≡ some entry
    pub oldest : All (λ (item : Key × CacheEntry M). entry.loaded_at ≤ item.1.loaded_at) entries

  abbrev Evicted : ModelCache M → Dict Key (CacheEntry M) → ModelCache M → Type 0
  Evicted c entries after =
      (item : Key × CacheEntry M) × Held c.entries item
      × All (λ (other : Key × CacheEntry M). item.1.loaded_at ≤ other.1.loaded_at) entries
      × (after ≡ record c { entries = remove c.entries item.0; evictions = c.evictions + 1 })

  evict_oldest_among :
      (entries : Dict Key (CacheEntry M)) (c : ModelCache M)
      → 0 < length entries
      → All (Held c.entries) entries
      → Evicted c entries (evict_oldest entries c)
  unfolding evict_oldest
  evict_oldest_among [] c h own = elim h [ ]
  evict_oldest_among (item ∷ rest) c h own =
      let f = λ (entry : Key × CacheEntry M). entry.1.loaded_at in
      (
        min_by f item rest,
        min_by-All f (Held c.entries) item rest own.0 own.1,
        (min_by_le_first f item rest, min_by_le f item rest),
        refl,
      )

  pub make_room_full :
      (key : Key) (c : ModelCache M)
      → UniqueKeys c.entries
      → has c.entries key ≡ false
      → 0 < length c.entries
      → c.max_size ≤ length c.entries
      → (victim : Key) × (entry : CacheEntry M) × IsOldest c.entries victim entry
        × (make_room key c
            ≡ record c { entries = remove c.entries victim; evictions = c.evictions + 1 })
  unfolding make_room
  make_room_full key c u absent some_entry full =
      let (item, held, least, e) =
        evict_oldest_among c.entries c some_entry (get_entries c.entries u) in
      (item.0, item.1, record { held = held; oldest = least }, ground (arith, e))

  evict_oldest_empty :
      (entries : Dict Key (CacheEntry M)) (c : ModelCache M)
      → length entries ≡ 0
      → evict_oldest entries c ≡ c
  unfolding evict_oldest
  evict_oldest_empty [] c h = refl
  evict_oldest_empty (item ∷ rest) c h = absurd (omega arith)

  -- Nothing is given up for a key that is there, below the size, or in an empty cache.
  pub make_room_held :
      (key : Key) (c : ModelCache M) → has c.entries key ≡ true → make_room key c ≡ c
  unfolding make_room
  make_room_held key c h = ground arith

  pub make_room_below :
      (key : Key) (c : ModelCache M)
      → (leb 1 (length c.entries) && leb c.max_size (length c.entries)) ≡ false
      → make_room key c ≡ c
  unfolding make_room
  make_room_below key c h = ground (arith, evict_oldest_empty c.entries c)

  -- In a cache where no key occurs twice and that is full and not empty, the put of a new key takes
  -- the place of an entry that was loaded earliest: that one is gone, the new one is there, and
  -- every other entry is as it was.
  pub put_full :
      (tenant name : String) (model : M) (now : ℕ) (c : ModelCache M)
      → UniqueKeys c.entries
      → has c.entries (tenant, name) ≡ false
      → 0 < length c.entries
      → c.max_size ≤ length c.entries
      → (victim : Key) × (entry : CacheEntry M) × IsOldest c.entries victim entry
        × ((key : Key)
            → get (put_model tenant name model now c).entries key ≡ (
                if (tenant, name) == key
                then some (record { model = model; loaded_at = now })
                else if victim == key
                then none
                else get c.entries key))
  unfolding put_model
  put_full tenant name model now c u absent some_entry full =
      let (victim, entry, oldest, e) = make_room_full (tenant, name) c u absent some_entry full in
      (
        victim,
        entry,
        oldest,
        λ key. rw e (
            ground (
              arith,
              get-remove c.entries victim key u,
              get-put (remove c.entries victim) (tenant, name) key
                  (record { model = model; loaded_at = now }),
            )),
      )

  hit_state :
      (tenant name : String) (found : M) (now : ℕ) (c : ModelCache M)
      → (get_model tenant name now c).1 ≡ some found
      → (get_model tenant name now c).0 ≡ record c { hits = c.hits + 1 }
  unfolding get_model
  hit_state tenant name found now c h = ground arith

  evict_oldest-hits :
      (entries : Dict Key (CacheEntry M)) (c : ModelCache M) (n : ℕ)
      → (evict_oldest entries (record c { hits = n })).entries ≡ (evict_oldest entries c).entries
  unfolding evict_oldest
  evict_oldest-hits [] c n = refl
  evict_oldest-hits (item ∷ rest) c n = refl

  make_room-hits :
      (key : Key) (c : ModelCache M) (n : ℕ)
      → (make_room key (record c { hits = n })).entries ≡ (make_room key c).entries
  unfolding make_room
  make_room-hits key c n = ground (arith, evict_oldest-hits c.entries c n)

  -- A hit leaves no trace on what is evicted: after a `get` that returned a model, a `put` ends
  -- with the same entries as without that `get`.
  pub hit_no_trace :
      (tenant name tenant' name' : String) (model found : M) (now later : ℕ) (c : ModelCache M)
      → (get_model tenant' name' now c).1 ≡ some found
      → (put_model tenant name model later (get_model tenant' name' now c).0).entries
        ≡ (put_model tenant name model later c).entries
  unfolding put_model
  hit_no_trace tenant name tenant' name' model found now later c h =
      rw (hit_state tenant' name' found now c h) (cc (make_room-hits (tenant, name) c (c.hits + 1)))
