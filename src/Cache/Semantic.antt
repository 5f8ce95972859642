-- ===== src/Cache/Semantic.antt =====
-- backend/services/cache.py: `SemanticCache`. The normal form of a query, the embedding function and
-- the similarity are parameters, and an operation reads the clock once.
use paper_rag.Base.{
  ℕ, zero, suc, ◌+◌, ◌-◌, ltb, leb, min, String, Bool, not, ◌&&◌, Option, none, some, List, [], ◌∷◌,
  ◌++◌, length, keep, ◌==◌, string_eq, if◌then◌else◌, Result, ok, raise, ◌>>=◌,
}
use paper_rag.Base.Dict
use paper_rag.Base.Dict.{Dict}

pub record Entry (R : Type 0) : Type 0 where
  pub query : String
  pub result : R
  pub ts : ℕ
  pub hits : ℕ

-- The entry with its vector, as the semantic level keeps it.
pub record Embedded (R V : Type 0) : Type 0 where
  pub entry : Entry R
  pub emb : V

pub record Cache (R V : Type 0) : Type 0 where
  pub exact : Dict String (Entry R)
  pub semantic : List (Embedded R V)

-- The settings, with the functions that the cache is given. An embedding may raise.
pub record Settings (V S : Type 0) : Type 0 where
  pub enabled : Bool
  pub max_size : ℕ
  pub ttl : ℕ
  pub threshold : S
  pub lowest : S
  pub below : S → S → Bool
  pub similarity : V → V → S
  pub normalize : String → String
  pub embed : Option (String → Option V)

pub data CacheError : Type 0 where
  empty_min : CacheError

abbrev pub hit : {R : Type 0} → Entry R → Entry R
hit e = record e { hits = suc e.hits }

-- `min(self._exact, key=ts)`: the first key of the smallest time
abbrev pub older :
    {R : Type 0} → String × Entry R → Option (String × Entry R) → Option (String × Entry R)
older (k, e) none = some (k, e)
older (k, e) (some (j, f)) = if leb e.ts f.ts then some (k, e) else some (j, f)

unfoldable pub oldest : {R : Type 0} → Dict String (Entry R) → Option (String × Entry R)
oldest [] = none
oldest (entry ∷ exact) = older entry (oldest exact)

-- The loop that makes room, with fuel.
unfoldable pub evict :
    {R : Type 0} → ℕ → ℕ → Dict String (Entry R) → Result CacheError (Dict String (Entry R))
unfolding oldest
evict max_size zero exact = raise empty_min
evict max_size (suc fuel) exact =
    let next = λ (k : String). evict max_size fuel (Dict.remove k exact) in
    if ltb (length exact) max_size
    then ok exact
    else elim (oldest exact) [ none ↦ raise empty_min | some (k, e) ↦ next k ]

-- `while len(self._semantic) > limit: self._semantic.pop(0)`
unfoldable pub trim : {A : Type 0} → ℕ → List A → List A
trim limit [] = []
trim limit (x ∷ xs) =
    let rest = trim limit xs in if ltb limit (suc (length xs)) then rest else x ∷ xs

module _ {R V S : Type 0} (settings : Settings V S) where
  abbrev pub live : ℕ → Embedded R V → Bool
  live now e = ltb now (e.entry.ts + settings.ttl)

  -- The semantic level after the entry is embedded, or as it was if the embedding raises.
  abbrev pub embedded : ℕ → Entry R → Option V → List (Embedded R V) → List (Embedded R V)
  embedded now e none semantic = semantic
  embedded now e (some v) semantic =
      trim (min settings.max_size 200)
        (keep (live now) (semantic ++ record { entry = e; emb = v } ∷ []))

  abbrev pub store_semantic :
      ℕ → Entry R → Option (String → Option V) → List (Embedded R V) → List (Embedded R V)
  store_semantic now e none semantic = semantic
  store_semantic now e (some fn) semantic = embedded now e (fn e.query) semantic

  abbrev pub stored : ℕ → Entry R → List (Embedded R V) → Dict String (Entry R) → Cache R V
  stored now e semantic exact = record {
    exact = Dict.put (settings.normalize e.query) e exact;
    semantic = store_semantic now e settings.embed semantic;
  }

  unfoldable pub store : String → R → ℕ → Cache R V → Result CacheError (Cache R V)
  unfolding evict trim
  store query result now cache =
      let e : Entry R = record { query = query; result = result; ts = now; hits = 1 } in
      if settings.enabled
      then (do
        exact ← evict settings.max_size (suc (length cache.exact)) cache.exact
        ok (stored now e cache.semantic exact))
      else ok cache

  -- The best entry so far: its score and its place, over the entries that have not expired.
  abbrev pub better : ℕ → V → ℕ → Embedded R V → Option (S × ℕ) → Option (S × ℕ)
  better now q i e best =
      let score = settings.similarity q e.emb in
      let bar : S = elim best [ none ↦ settings.lowest | some (s, j) ↦ s ] in
      if ltb (e.entry.ts + settings.ttl) now
      then best
      else if settings.below bar score && not (settings.below score settings.threshold)
      then some (score, i)
      else best

  unfoldable pub best_match : ℕ → V → ℕ → List (Embedded R V) → Option (S × ℕ) → Option (S × ℕ)
  best_match now q i [] best = best
  best_match now q i (e ∷ es) best = best_match now q (suc i) es (better now q i e best)

  unfoldable pub hit_at : ℕ → List (Embedded R V) → Option R × List (Embedded R V)
  hit_at i [] = (none, [])
  hit_at zero (e ∷ es) = (some e.entry.result, record e { entry = hit e.entry } ∷ es)
  hit_at (suc i) (e ∷ es) = let rest = hit_at i es in (rest.0, e ∷ rest.1)

  abbrev pub by_match : Option (S × ℕ) → Cache R V → Option R × Cache R V
  by_match none cache = (none, cache)
  by_match (some (s, i)) cache =
      let found = hit_at i cache.semantic in (found.0, record cache { semantic = found.1 })

  abbrev pub by_vector : ℕ → Option V → Cache R V → Option R × Cache R V
  by_vector now none cache = (none, cache)
  by_vector now (some v) cache = by_match (best_match now v 0 cache.semantic none) cache

  abbrev pub by_meaning : String → ℕ → Option (String → Option V) → Cache R V → Option R × Cache R V
  by_meaning query now none cache = (none, cache)
  by_meaning query now (some fn) cache = elim cache.semantic [
    | [] ↦ (none, cache)
    | e ∷ es ↦ by_vector now (fn query) cache
  ]

  abbrev pub lookup_enabled : String → ℕ → Cache R V → Option (Entry R) → Option R × Cache R V
  lookup_enabled query now cache none = by_meaning query now settings.embed cache
  lookup_enabled query now cache (some e) =
      if ltb now (e.ts + settings.ttl)
      then (
        some e.result,
        record cache { exact = Dict.put (settings.normalize query) (hit e) cache.exact },
      )
      else by_meaning query now settings.embed
          (record cache { exact = Dict.remove (settings.normalize query) cache.exact })

  unfoldable pub lookup : String → ℕ → Cache R V → Option R × Cache R V
  unfolding best_match hit_at
  lookup query now cache =
      if settings.enabled
      then lookup_enabled query now cache (Dict.get (settings.normalize query) cache.exact)
      else (none, cache)

  abbrev pub other_query : String → Embedded R V → Bool
  other_query norm e = not (settings.normalize e.entry.query == norm)

  unfoldable pub invalidate : Option String → Cache R V → ℕ × Cache R V
  invalidate none cache =
      (length cache.exact + length cache.semantic, record { exact = []; semantic = [] })
  invalidate (some query) cache =
      let norm = settings.normalize query in
      let kept = keep (other_query norm) cache.semantic in
      (
        (if Dict.member norm cache.exact then 1 else 0) + (length cache.semantic - length kept),
        record { exact = Dict.remove norm cache.exact; semantic = kept },
      )
