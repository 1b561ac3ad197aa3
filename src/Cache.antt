-- ===== src/Cache.antt =====
-- kenaz_ml/modelstore/cache.py: loaded models by tenant and name, with expiry and eviction.
-- A time is a natural number of clock ticks, and each reading of the clock is an argument. Every
-- method holds the lock for its whole body, so a method is one step. The models are of any type.
-- The ratio `hit_rate` of `stats` is a float and is left out.
pub mod Eviction
pub mod Reads
pub mod Accounts
mod Scenarios
use kenaz_ml.Prelude.{
  ℕ, ◌+◌, String, nat_eq, string_eq, pair_eq, ◌==◌, Bool, true, false, not, ◌&&◌, Option, none,
  some, List, [], ◌∷◌, ◌++◌, map, ltb, leb, if◌then◌else◌, length, filter, min_by,
}
use kenaz_ml.Dict.{Dict, get, has, put, remove, remove_all}

abbrev pub Key : Type 0
Key = String × String

pub record CacheEntry (M : Type 0) : Type 0 where
  pub model : M
  pub loaded_at : ℕ

pub record ModelCache (M : Type 0) : Type 0 where
  pub entries : Dict Key (CacheEntry M)
  pub ttl_seconds : ℕ
  pub max_size : ℕ
  pub hits : ℕ
  pub misses : ℕ
  pub evictions : ℕ

pub record Stats : Type 0 where
  pub entries : ℕ
  pub max_size : ℕ
  pub ttl_seconds : ℕ
  pub hits : ℕ
  pub misses : ℕ
  pub evictions : ℕ

abbrev names_or_empty : Option (List String) → List String
names_or_empty none = []
names_or_empty (some names) = names

-- `result.setdefault(tenant_id, []).append(model_name)`
unfoldable pub add_name : Dict String (List String) → Key → Dict String (List String)
add_name result key = put result key.0 (names_or_empty (get result key.0) ++ key.1 ∷ [])

module _ {M : Type 0} where
  unfoldable pub new : ℕ → ℕ → ModelCache M
  new ttl size = record {
    entries = [];
    ttl_seconds = ttl;
    max_size = size;
    hits = 0;
    misses = 0;
    evictions = 0;
  }

  -- `now - loaded_at >= ttl_seconds`
  abbrev pub is_expired : ℕ → ℕ → CacheEntry M → Bool
  is_expired now ttl entry = leb (entry.loaded_at + ttl) now

  -- The body of `get` after the lookup.
  unfoldable pub serve : Key → ℕ → ModelCache M → Option (CacheEntry M) → ModelCache M × Option M
  serve key now c none = (record c { misses = c.misses + 1 }, none)
  serve key now c (some entry) =
      if is_expired now c.ttl_seconds entry
      then (
        record c {
          entries = remove c.entries key;
          misses = c.misses + 1;
          evictions = c.evictions + 1;
        },
        none,
      )
      else (record c { hits = c.hits + 1 }, some entry.model)

  unfoldable pub get_model : String → String → ℕ → ModelCache M → ModelCache M × Option M
  unfolding serve
  get_model tenant name now c = serve (tenant, name) now c (get c.entries (tenant, name))

  -- `_evict_oldest_unlocked`
  unfoldable pub evict_oldest : Dict Key (CacheEntry M) → ModelCache M → ModelCache M
  evict_oldest [] c = c
  evict_oldest (item ∷ rest) c = record c {
    entries =
        remove c.entries (min_by (λ (entry : Key × CacheEntry M). entry.1.loaded_at) item rest).0;
    evictions = c.evictions + 1;
  }

  unfoldable pub make_room : Key → ModelCache M → ModelCache M
  unfolding evict_oldest
  make_room key c =
      if not (has c.entries key) && leb c.max_size (length c.entries)
      then evict_oldest c.entries c
      else c

  unfoldable pub put_model : String → String → M → ℕ → ModelCache M → ModelCache M
  put_model tenant name model now c =
      let c' = make_room (tenant, name) c in
      record c' {
        entries = put c'.entries (tenant, name) (record { model = model; loaded_at = now });
      }

  -- `for k in keys: del self._entries[k]`, for the keys of the entries that satisfy a test.
  unfoldable pub evict_where : (Key × CacheEntry M → Bool) → ModelCache M → ModelCache M × ℕ
  evict_where test c =
      let keys = filter test c.entries in
      (
        record c { entries = remove_all keys c.entries; evictions = c.evictions + length keys },
        length keys,
      )

  unfoldable pub evict : String → ModelCache M → ModelCache M × ℕ
  unfolding evict_where
  evict tenant = evict_where (λ entry. entry.0.0 == tenant)

  unfoldable pub evict_all : ModelCache M → ModelCache M × ℕ
  evict_all c =
      (record c { entries = []; evictions = c.evictions + length c.entries }, length c.entries)

  unfoldable pub cleanup_expired : ℕ → ModelCache M → ModelCache M × ℕ
  unfolding evict_where
  cleanup_expired now c = evict_where (λ entry. is_expired now c.ttl_seconds entry.1) c

  unfoldable pub stats : ModelCache M → Stats
  stats c = record {
    entries = length c.entries;
    max_size = c.max_size;
    ttl_seconds = c.ttl_seconds;
    hits = c.hits;
    misses = c.misses;
    evictions = c.evictions;
  }

  unfoldable pub collect_names :
      ℕ → ℕ → Dict Key (CacheEntry M) → Dict String (List String) → Dict String (List String)
  unfolding add_name
  collect_names now ttl [] result = result
  collect_names now ttl (item ∷ entries) result =
      collect_names now ttl entries
        (if ltb now (item.1.loaded_at + ttl) then add_name result item.0 else result)

  unfoldable pub loaded_tenants : ℕ → ModelCache M → Dict String (List String)
  unfolding collect_names
  loaded_tenants now c = collect_names now c.ttl_seconds c.entries []
