-- ===== src/Cache/Tests.antt =====
-- Runs of the caches: at most two entries, a time to live of ten.
use paper_rag.Base.{
  ℕ, ltb, String, ◌≡◌, ◌≢◌, refl, true, false, some, [], ◌∷◌, ok, arith, string_eq, ==_iff,
}
use paper_rag.Base.Dict
use paper_rag.Cache.Semantic.{Cache, Settings, store, lookup, invalidate}
use paper_rag.Cache.Laws.{IsBounded, store-IsBounded}
use paper_rag.Cache.Lookups.{lookup-store, IsGone, invalidate-IsGone}
use paper_rag.Cache.Breaker.{Breaker, Reply, value}

-- Every query has its own normal form, and any two vectors are alike.
abbrev settings : Settings ℕ ℕ
settings = record {
  enabled = true;
  max_size = 2;
  ttl = 10;
  threshold = 1;
  lowest = 0;
  below = ltb;
  similarity = λ v w. 1;
  normalize = λ q. q;
  embed = some (λ q. some 7);
}

abbrev full_cache : Cache ℕ ℕ
full_cache = record {
  exact =
      ("a", record { query = "a"; result = 1; ts = 3; hits = 1 })
      ∷ ("b", record { query = "b"; result = 2; ts = 2; hits = 1 })
      ∷ [];
  semantic = [];
}

abbrev after_store : Cache ℕ ℕ
after_store = record {
  exact =
      ("a", record { query = "a"; result = 1; ts = 3; hits = 1 })
      ∷ ("c", record { query = "c"; result = 9; ts = 5; hits = 1 })
      ∷ [];
  semantic = record { entry = record { query = "c"; result = 9; ts = 5; hits = 1 }; emb = 7 } ∷ [];
}

-- The older entry makes room.
store_run : store settings "c" 9 5 full_cache ≡ ok after_store
unfolding store Dict.remove Dict.put
store_run = refl

full_cache-IsBounded : IsBounded settings full_cache
full_cache-IsBounded = record { exact_few = omega arith; semantic_few = omega arith }

store-IsBounded_example :
    (after : Cache ℕ ℕ) × (store settings "c" 9 5 full_cache ≡ ok after) × IsBounded settings after
store-IsBounded_example =
    store-IsBounded settings "c" 9 5 full_cache (omega arith) full_cache-IsBounded

lookup-store_example : (lookup settings "c" 14 after_store).0 ≡ some 9
lookup-store_example =
    lookup-store settings "c" "c" 9 5 14 full_cache after_store refl store_run refl (omega arith)

-- Another query finds the entry by its vector.
semantic_run : (lookup settings "d" 15 after_store).0 ≡ some 9
unfolding lookup Dict.get
semantic_run = refl

abbrev asked : String
asked = "c"

abbrev other : String
other = "a"

apart : other ≢ asked
apart e = let q : false ≡ true = (==_iff other asked).1 e in cc

invalidate-IsGone_example :
    IsGone settings "c" (invalidate settings (some "c") after_store).1
    × (Dict.get "a" (invalidate settings (some "c") after_store).1.exact
        ≡ Dict.get "a" after_store.exact)
invalidate-IsGone_example = invalidate-IsGone settings "c" "a" after_store apart

abbrev found : Reply ℕ
found = value 4

abbrev calm : Breaker
calm = record { failure_count = 0; circuit_open_until = 0 }
