-- ===== src/Cache/Lookups.antt =====
-- backend/services/cache.py: what `lookup` answers after a `store` and after an `invalidate`.
use paper_rag.Base.{
  ℕ, suc, ◌+◌, ◌<◌, String, ◌≡◌, ◌≢◌, refl, ap, subst, ◌∙◌, true, false, none, some, List, [], ◌∷◌,
  length, keep, any, ◌==◌, ==_iff, ==_refl, string_eq, ok, arith, Bool-cases, Result-cases, inl,
  inr,
}
use paper_rag.Base.Dict
use paper_rag.Base.Dict.{Dict, get-put, get-put_self, get-remove}
use paper_rag.Cache.Semantic.{
  Entry, Embedded, Cache, Settings, evict, stored, store, lookup, invalidate, other_query,
}

module _ {R V S : Type 0} (settings : Settings V S) where
  lookup_fresh :
      (query : String) (now : ℕ) (cache : Cache R V) (e : Entry R)
      → settings.enabled ≡ true
      → Dict.get (settings.normalize query) cache.exact ≡ some e
      → now < e.ts + settings.ttl
      → (lookup settings query now cache).0 ≡ some e.result
  unfolding lookup
  lookup_fresh query now cache e on found young = ground (arith, on, found, young)

  store_exact :
      (query : String) (result : R) (now : ℕ) (cache after : Cache R V)
      → settings.enabled ≡ true
      → store settings query result now cache ≡ ok after
      → Dict.get (settings.normalize query) after.exact
        ≡ some (record { query = query; result = result; ts = now; hits = 1 })
  unfolding store
  store_exact query result now cache after on h =
      elim (Result-cases (evict settings.max_size (suc (length cache.exact)) cache.exact)) [
        | inr (x, bad) ↦ ground (arith, on, bad, h)
        | inl (exact, room) ↦
            let e : Entry R = record { query = query; result = result; ts = now; hits = 1 } in
            let q : stored settings now e cache.semantic exact ≡ after =
              ground (arith, on, room, h) in
            subst (λ c. Dict.get (settings.normalize query) c.exact ≡ some e) q
              (get-put_self (settings.normalize query) e exact)
      ]

  -- With the cache enabled, a query that has the normal form of a stored one, asked before the time
  -- to live is over, is answered with what was stored.
  pub lookup-store :
      (query asked : String) (result : R) (now later : ℕ) (cache after : Cache R V)
      → settings.enabled ≡ true
      → store settings query result now cache ≡ ok after
      → settings.normalize asked ≡ settings.normalize query
      → later < now + settings.ttl
      → (lookup settings asked later after).0 ≡ some result
  lookup-store query asked result now later cache after on h same young =
      lookup_fresh asked later after _ on
        (ap (λ k. Dict.get k after.exact) same ∙ store_exact query result now cache after on h)
        young

  -- Neither level holds an entry of this normal form.
  pub record IsGone (norm : String) (cache : Cache R V) : Type 0 where
    pub exact_gone : Dict.get norm cache.exact ≡ none
    pub semantic_gone : any (λ e. settings.normalize e.entry.query == norm) cache.semantic ≡ false

  keep-gone :
      (norm : String) (semantic : List (Embedded R V))
      → any
          (λ e. settings.normalize e.entry.query == norm)
          (keep (other_query settings norm) semantic)
        ≡ false
  keep-gone norm [] = refl
  keep-gone norm (e ∷ es) = elim (Bool-cases (settings.normalize e.entry.query == norm)) [
    | inl same ↦ rw same (keep-gone norm es)
    | inr other ↦ rw other (rw other (keep-gone norm es))
  ]

  -- After an invalidation of a query no entry of its normal form is left in either level, and the
  -- exact entries of every other normal form are as they were.
  pub invalidate-IsGone :
      (query other : String) (cache : Cache R V)
      → other ≢ settings.normalize query
      → IsGone (settings.normalize query) (invalidate settings (some query) cache).1
        × (Dict.get other (invalidate settings (some query) cache).1.exact
            ≡ Dict.get other cache.exact)
  unfolding invalidate
  invalidate-IsGone query other cache apart =
      let norm = settings.normalize query in
      (
        record {
          exact_gone = get-remove norm norm cache.exact ∙ rw (==_refl norm) refl;
          semantic_gone = keep-gone norm cache.semantic;
        },
        get-remove norm other cache.exact ∙ ground (arith, apart, ==_iff norm other),
      )
