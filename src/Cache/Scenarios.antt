-- ===== src/Cache/Scenarios.antt =====
-- A cache of two places with an hour's window.
use kenaz_ml.Prelude.{
  ℕ, max, nat_eq, string_eq, pair_eq, ◌==◌, false, none, some, List, [], ◌∷◌, ◌≡◌, ◌≤◌, ◌+◌, refl,
  arith, if◌then◌else◌, length,
}
use kenaz_ml.Dict.{get, has, UniqueKeys}
use kenaz_ml.Cache.{Key, CacheEntry, ModelCache, new, get_model, put_model}
use kenaz_ml.Cache.Eviction.{IsOldest, put_full, hit_no_trace}
use kenaz_ml.Cache.Accounts.{Call, gets, puts, evicts, run, total_added, total_asked, run_accounts}

abbrev entry_of : ℕ → Key × CacheEntry ℕ
entry_of n = (("acme", if n == 0 then "stuck" else "quality"), record { model = n; loaded_at = n })

abbrev two_models : ModelCache ℕ
two_models = record {
  entries = entry_of 1 ∷ entry_of 0 ∷ [];
  ttl_seconds = 3600;
  max_size = 2;
  hits = 0;
  misses = 0;
  evictions = 0;
}

two_models-UniqueKeys : UniqueKeys two_models.entries
unfolding has
two_models-UniqueKeys = (refl, (refl, tt))

two_models_absent : has two_models.entries ("acme", "duration") ≡ false
unfolding has
two_models_absent = refl

put_full_example :
    (victim : Key) × (entry : CacheEntry ℕ) × IsOldest two_models.entries victim entry
    × ((key : Key)
        → get (put_model "acme" "duration" 9 50 two_models).entries key ≡ (
            if ("acme", "duration") == key
            then some (record { model = 9; loaded_at = 50 })
            else if victim == key
            then none
            else get two_models.entries key))
put_full_example =
    put_full "acme" "duration" 9 50 two_models two_models-UniqueKeys two_models_absent (omega arith)
      (omega arith)

stuck_hit : (get_model "acme" "stuck" 40 two_models).1 ≡ some 0
unfolding get_model get
stuck_hit = refl

hit_no_trace_example :
    (put_model "acme" "duration" 9 50 (get_model "acme" "stuck" 40 two_models).0).entries
    ≡ (put_model "acme" "duration" 9 50 two_models).entries
hit_no_trace_example = hit_no_trace "acme" "duration" "acme" "stuck" 9 0 40 50 two_models stuck_hit

abbrev some_calls : List (Call ℕ)
some_calls =
    puts "a" "x" 1 0 ∷ puts "a" "y" 2 1 ∷ puts "b" "x" 3 2 ∷ gets "a" "x" 3 ∷ evicts "b" ∷ []

run_accounts_example :
    UniqueKeys (run (new 10 2) some_calls).entries
    × (length (run (new 10 2) some_calls).entries ≤ max 1 2)
    × (length (run (new 10 2) some_calls).entries + (run (new 10 2) some_calls).evictions
        ≡ total_added (new 10 2) some_calls)
    × ((run (new 10 2) some_calls).hits + (run (new 10 2) some_calls).misses
        ≡ total_asked some_calls)
run_accounts_example = run_accounts 10 2 some_calls
