-- ===== src/Cache/Laws.antt =====
-- backend/services/cache.py: the eviction of `SemanticCache` and the limits of its levels.
use paper_rag.Base.{
  ℕ, zero, suc, ◌≤◌, ◌<◌, ltb, leb, min, String, ◌≡◌, refl, ◌∙◌, true, false, Option, none, some,
  List, [], ◌∷◌, length, ==_iff, string_eq, ok, arith, Bool-cases, Option-cases, inl, inr,
}
use paper_rag.Base.Dict
use paper_rag.Base.Dict.{Dict, get-put, get-put_self, get-remove}
use paper_rag.Cache.Semantic.{
  Entry, Embedded, Cache, Settings, oldest, evict, trim, embedded, store_semantic, stored, store,
}

module _ {R : Type 0} where
  length-remove-le : (k : String) (d : Dict String (Entry R)) → length (Dict.remove k d) ≤ length d
  unfolding Dict.remove
  length-remove-le k [] = omega arith
  length-remove-le k ((j, e) ∷ d) = ground (arith, length-remove-le k d)

  length-put-le :
      (k : String) (v : Entry R) (d : Dict String (Entry R))
      → length (Dict.put k v d) ≤ suc (length d)
  unfolding Dict.put
  length-put-le k v [] = omega arith
  length-put-le k v ((j, e) ∷ d) = ground (arith, length-put-le k v d)

  -- The entry that the eviction takes is there, so that its removal makes the level smaller.
  oldest-remove :
      (d : Dict String (Entry R)) (k : String) (e : Entry R)
      → oldest d ≡ some (k, e)
      → length (Dict.remove k d) < length d
  unfolding Dict.remove oldest
  oldest-remove [] k e h = cc
  oldest-remove ((j, f) ∷ d) k e h = elim (Option-cases (oldest d)) [
    | inl nothing ↦
        let q : j ≡ k = ground arith in ground (arith, length-remove-le k d, ==_iff j k, q)
    | inr ((i, g), rest) ↦ elim (Bool-cases (leb f.ts g.ts)) [
      | inl first ↦
          let q : j ≡ k = ground arith in ground (arith, length-remove-le k d, ==_iff j k, q)
      | inr later ↦
          let q : i ≡ k = ground arith in
          let r = oldest-remove d i g rest in ground (arith, q, r, ==_iff j k)
    ]
  ]

  oldest-some :
      (entry : String × Entry R) (d : Dict String (Entry R))
      → (k : String) × (e : Entry R) × (oldest (entry ∷ d) ≡ some (k, e))
  unfolding oldest
  oldest-some (j, f) d = elim (Option-cases (oldest d)) [
    | inl nothing ↦ (j, f, rw nothing refl)
    | inr ((i, g), rest) ↦ elim (Bool-cases (leb f.ts g.ts)) [
      | inl first ↦ (j, f, rw rest (rw first refl))
      | inr later ↦ (i, g, rw rest (rw later refl))
    ]
  ]

  evict_next :
      (max_size fuel : ℕ) (d : Dict String (Entry R)) (k : String) (e : Entry R)
      → oldest d ≡ some (k, e)
      → ltb (length d) max_size ≡ false
      → evict max_size (suc fuel) d ≡ evict max_size fuel (Dict.remove k d)
  unfolding evict
  evict_next max_size fuel d k e h full = rw full (rw h refl)

  evict_room :
      (max_size fuel : ℕ) (d : Dict String (Entry R))
      → ltb (length d) max_size ≡ true
      → evict max_size (suc fuel) d ≡ ok d
  unfolding evict
  evict_room max_size fuel d room = rw room refl

  evict_full :
      (max_size fuel : ℕ) (d : Dict String (Entry R))
      → 0 < max_size
      → length d < suc fuel
      → ltb (length d) max_size ≡ false
      → ((d' : Dict String (Entry R))
          → length d' < fuel
          → (r : Dict String (Entry R)) × (evict max_size fuel d' ≡ ok r) × (length r < max_size))
      → (r : Dict String (Entry R)) × (evict max_size (suc fuel) d ≡ ok r) × (length r < max_size)
  evict_full max_size fuel [] p f full ih = absurd (ground arith)
  evict_full max_size fuel (entry ∷ d) p f full ih =
      let (k, e, h) = oldest-some entry d in
      let (r, found, small) =
        ih (Dict.remove k (entry ∷ d)) (omega (arith, oldest-remove (entry ∷ d) k e h)) in
      (r, evict_next max_size fuel (entry ∷ d) k e h full ∙ found, small)

  -- The loop ends with room for one entry: its fuel is enough.
  evict-ok :
      (max_size fuel : ℕ) (d : Dict String (Entry R))
      → 0 < max_size
      → length d < fuel
      → (d' : Dict String (Entry R)) × (evict max_size fuel d ≡ ok d') × (length d' < max_size)
  evict-ok max_size zero d p f = absurd (omega arith)
  evict-ok max_size (suc fuel) d p f = elim (Bool-cases (ltb (length d) max_size)) [
    | inl room ↦ (d, evict_room max_size fuel d room, ground arith)
    | inr full ↦ evict_full max_size fuel d p f full (λ d' f'. evict-ok max_size fuel d' p f')
  ]

length-trim-le : {A : Type 0} (limit : ℕ) (xs : List A) → length (trim limit xs) ≤ limit
unfolding trim
length-trim-le limit [] = omega arith
length-trim-le limit (x ∷ xs) = ground (arith, length-trim-le limit xs)

module _ {R V S : Type 0} (settings : Settings V S) where
  -- The levels are within their limits.
  pub record IsBounded (cache : Cache R V) : Type 0 where
    pub exact_few : length cache.exact ≤ settings.max_size
    pub semantic_few : length cache.semantic ≤ min settings.max_size 200

  length-semantic-le :
      (now : ℕ) (e : Entry R) (fn : Option (String → Option V)) (semantic : List (Embedded R V))
      → length semantic ≤ min settings.max_size 200
      → length (store_semantic settings now e fn semantic) ≤ min settings.max_size 200
  length-semantic-le now e none semantic h = h
  length-semantic-le now e (some fn) semantic h = length-embedded-le (fn e.query)
    where
      length-embedded-le :
          (o : Option V) → length (embedded settings now e o semantic) ≤ min settings.max_size 200
      length-embedded-le none = h
      length-embedded-le (some v) = length-trim-le (min settings.max_size 200) _

  store_off :
      (query : String) (result : R) (now : ℕ) (cache : Cache R V)
      → settings.enabled ≡ false
      → store settings query result now cache ≡ ok cache
  unfolding store
  store_off query result now cache off = ground arith

  store_on :
      (query : String) (result : R) (now : ℕ) (cache : Cache R V) (exact : Dict String (Entry R))
      → settings.enabled ≡ true
      → evict settings.max_size (suc (length cache.exact)) cache.exact ≡ ok exact
      → store settings query result now cache
        ≡ ok (
            stored settings now
              (record { query = query; result = result; ts = now; hits = 1 })
              cache.semantic
              exact)
  unfolding store
  store_on query result now cache exact on room = ground (arith, on, room)

  -- With room for at least one entry, a store never fails, and it keeps both levels within their
  -- limits.
  pub store-IsBounded :
      (query : String) (result : R) (now : ℕ) (cache : Cache R V)
      → 0 < settings.max_size
      → IsBounded cache
      → (after : Cache R V) × (store settings query result now cache ≡ ok after) × IsBounded after
  store-IsBounded query result now cache p b = elim (Bool-cases settings.enabled) [
    | inr off ↦ (cache, store_off query result now cache off, b)
    | inl on ↦
        let (exact, room, small) =
          evict-ok settings.max_size (suc (length cache.exact)) cache.exact p (omega arith) in
        let e : Entry R = record { query = query; result = result; ts = now; hits = 1 } in
        (
          stored settings now e cache.semantic exact,
          store_on query result now cache exact on room,
          record {
            exact_few = omega (arith, length-put-le (settings.normalize query) e exact, small);
            semantic_few = length-semantic-le now e settings.embed cache.semantic b.semantic_few;
          },
        )
  ]
