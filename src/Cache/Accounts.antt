-- ===== src/Cache/Accounts.antt =====
-- Every sequence of calls on the cache of modelstore/cache.py: its size and its counters.
use Prim.Native.Nat.{max}
use kenaz_ml.Prelude.{
  ℕ, ◌≤◌, ◌+◌, String, nat_eq, string_eq, pair_eq, ◌==◌, Bool, false, List, [], ◌∷◌, ◌≡◌, ◌&&◌,
  arith, if◌then◌else◌, length, leb, not, Bool-cases, inl, inr,
}
use kenaz_ml.Dict.{has, UniqueKeys}
use kenaz_ml.Dict.Laws.{
  put-UniqueKeys, remove-UniqueKeys, length-put, length-remove, has-remove, has-eq-get,
}
use kenaz_ml.Dict.Removal.{remove_all-filter, length-filter-not}
use kenaz_ml.Dict.Filter.{filter-UniqueKeys}
use kenaz_ml.Cache.{
  Key, CacheEntry, ModelCache, new, is_expired, get_model, make_room, put_model, evict_where, evict,
  evict_all, cleanup_expired,
}
use kenaz_ml.Cache.Eviction.{make_room_full, make_room_held, make_room_below}

-- A call, with the clock's reading in it.
pub data Call (M : Type 0) : Type 0 where
  gets : String → String → ℕ → Call M
  puts : String → String → M → ℕ → Call M
  evicts : String → Call M
  clears : Call M
  cleans : ℕ → Call M

module _ {M : Type 0} where
  unfoldable pub call : ModelCache M → Call M → ModelCache M
  call c (gets tenant name now) = (get_model tenant name now c).0
  call c (puts tenant name model now) = put_model tenant name model now c
  call c (evicts tenant) = (evict tenant c).0
  call c clears = (evict_all c).0
  call c (cleans now) = (cleanup_expired now c).0

  unfoldable pub run : ModelCache M → List (Call M) → ModelCache M
  unfolding call
  run c [] = c
  run c (k ∷ calls) = run (call c k) calls

  -- How many entries a run adds: the puts whose key is absent at the time.
  unfoldable pub added : ModelCache M → Call M → ℕ
  added c (puts tenant name model now) = if has c.entries (tenant, name) then 0 else 1
  added c _ = 0

  unfoldable pub total_added : ModelCache M → List (Call M) → ℕ
  total_added c [] = 0
  total_added c (k ∷ calls) = added c k + total_added (call c k) calls

  abbrev asked : Call M → ℕ
  asked (gets tenant name now) = 1
  asked _ = 0

  -- How many calls are `get`s.
  unfoldable pub total_asked : List (Call M) → ℕ
  total_asked [] = 0
  total_asked (k ∷ calls) = asked k + total_asked calls

  pub record IsWellFormed (c : ModelCache M) : Type 0 where
    pub unique : UniqueKeys c.entries
    pub bounded : length c.entries ≤ max 1 c.max_size

  -- What one call does to the size, the counters and the settings.
  record Accounted (c : ModelCache M) (more queries : ℕ) (after : ModelCache M) : Type 0 where
    formed : IsWellFormed after
    balanced : length after.entries + after.evictions ≡ length c.entries + c.evictions + more
    counted : after.hits + after.misses ≡ c.hits + c.misses + queries
    sized : after.max_size ≡ c.max_size

  get_model-Accounted :
      (tenant name : String) (now : ℕ) (c : ModelCache M)
      → IsWellFormed c
      → Accounted c 0 1 (get_model tenant name now c).0
  unfolding get_model
  get_model-Accounted tenant name now c h = ground (
    arith,
    has-eq-get c.entries (tenant, name),
    remove-UniqueKeys c.entries (tenant, name),
    length-remove c.entries (tenant, name),
  )

  make_room_fits :
      (key : Key) (c : ModelCache M)
      → IsWellFormed c
      → has c.entries key ≡ false
      → Accounted c 0 0 (make_room key c)
        × (has (make_room key c).entries key ≡ false)
        × (length (make_room key c).entries + 1 ≤ max 1 c.max_size)
  make_room_fits key c h absent =
      elim (Bool-cases (leb 1 (length c.entries) && leb c.max_size (length c.entries))) [
        | inl full ↦
            let (victim, entry, oldest, e) =
              make_room_full key c h.unique absent (ground arith) (ground arith) in
            rw e (
              ground (
                arith,
                oldest.held,
                has-eq-get c.entries victim,
                remove-UniqueKeys c.entries victim,
                length-remove c.entries victim,
                has-remove c.entries victim key h.unique,
                h.bounded,
              ))
        | inr room ↦ rw (make_room_below key c (ground arith)) (ground (arith, h.bounded))
      ]

  put_model-Accounted :
      (tenant name : String) (model : M) (now : ℕ) (c : ModelCache M)
      → IsWellFormed c
      → Accounted c (added c (puts tenant name model now)) 0 (put_model tenant name model now c)
  unfolding put_model added
  put_model-Accounted tenant name model now c h = elim (Bool-cases (has c.entries (tenant, name))) [
    | inl held ↦ rw (make_room_held (tenant, name) c held) (
        let entry : CacheEntry M = record { model = model; loaded_at = now } in
        ground (
          arith,
          h.bounded,
          length-put c.entries (tenant, name) entry,
          put-UniqueKeys c.entries (tenant, name) entry,
        ))
    | inr absent ↦
        let (a, absent', fits) = make_room_fits (tenant, name) c h absent in
        let entry : CacheEntry M = record { model = model; loaded_at = now } in
        let c' = make_room (tenant, name) c in
        ground (
          arith,
          length-put c'.entries (tenant, name) entry,
          put-UniqueKeys c'.entries (tenant, name) entry,
          a.formed.unique,
          a.balanced,
          a.counted,
          a.sized,
        )
  ]

  evict_where-Accounted :
      (test : Key × CacheEntry M → Bool) (c : ModelCache M)
      → IsWellFormed c
      → Accounted c 0 0 (evict_where test c).0
  unfolding evict_where
  evict_where-Accounted test c h = rw (remove_all-filter test c.entries h.unique) (
      ground (
        arith,
        length-filter-not test c.entries,
        h.bounded,
        filter-UniqueKeys (λ (x : Key × CacheEntry M). not (test x)) c.entries h.unique,
      ))

  evict_all-Accounted : (c : ModelCache M) → IsWellFormed c → Accounted c 0 0 (evict_all c).0
  unfolding evict_all
  evict_all-Accounted c h = ground arith

  call-Accounted :
      (c : ModelCache M) (k : Call M)
      → IsWellFormed c
      → Accounted c (added c k) (asked k) (call c k)
  unfolding call added evict cleanup_expired
  call-Accounted c (gets tenant name now) h = get_model-Accounted tenant name now c h
  call-Accounted c (puts tenant name model now) h = put_model-Accounted tenant name model now c h
  call-Accounted c (evicts tenant) h = evict_where-Accounted (λ item. item.0.0 == tenant) c h
  call-Accounted c clears h = evict_all-Accounted c h
  call-Accounted c (cleans now) h =
      evict_where-Accounted (λ item. is_expired now c.ttl_seconds item.1) c h

  run-Accounted :
      (calls : List (Call M)) (c : ModelCache M)
      → IsWellFormed c
      → Accounted c (total_added c calls) (total_asked calls) (run c calls)
  unfolding run total_added total_asked
  run-Accounted [] c h = ground (arith, h.unique, h.bounded)
  run-Accounted (k ∷ calls) c h =
      let a = call-Accounted c k h in
      let b = run-Accounted calls (call c k) a.formed in
      ground (arith, a.balanced, a.counted, a.sized, b.formed, b.balanced, b.counted, b.sized)

  -- After any calls on a new cache no key occurs twice and the cache holds at most its size, or one
  -- entry if its size is 0; the entries that it holds and those that it counts as evicted are
  -- together the entries that were added; and its hits and misses are together the `get` calls.
  pub run_accounts :
      (ttl size : ℕ) (calls : List (Call M))
      → let c = run (new ttl size) calls in
        UniqueKeys c.entries
        × (length c.entries ≤ max 1 size)
        × (length c.entries + c.evictions ≡ total_added (new ttl size) calls)
        × (c.hits + c.misses ≡ total_asked calls)
  unfolding new
  run_accounts ttl size calls =
      let a = run-Accounted calls (new ttl size) (record { unique = tt; bounded = omega arith }) in
      (
        a.formed.unique,
        ground (arith, a.formed.bounded, a.sized),
        ground (arith, a.balanced),
        ground (arith, a.counted),
      )
