-- ===== src/Retrieval/SearchLaws.antt =====
-- backend/rag/rag_utils.py: the size of the answers of `retrieve_documents`.
use paper_rag.Base.{
  ℕ, max, ◌+◌, ◌≤◌, String, ◌≡◌, refl, subst, ◌∙◌, Bool, true, false, Option, List, [], ◌∷◌, length,
  arith, Result, ok, raise, length-take-le, length-append,
}
use paper_rag.Base.Dict.{Dict}
use paper_rag.Retrieval.Doc.{Doc, Scores}
use paper_rag.Retrieval.Merge.{auto_merge_documents}
use paper_rag.Retrieval.Rerank.{rerank_documents, Call, answered, raised, Meta}
use paper_rag.Retrieval.Expand.{Limits, Parents, gathered, expanded, expand_set, expand_context}
use paper_rag.Retrieval.ExpandLaws.{length-cut-le}
use paper_rag.Retrieval.Citation.{citation_boost, split_cited, boost_by}
use paper_rag.Retrieval.Search.{
  Config, Stages, RetrievalError, Found, process, attempt, merge_and_expand, choose, unseen, fuse,
  finish, after_formula, retrieve_documents,
}

module _ {S : Type 0} (scores : Scores S) where
  length-auto_merge-le :
      (table : Dict String (Doc S)) (enabled : Bool) (threshold top_k : ℕ) (docs : List (Doc S))
      → length (auto_merge_documents scores table enabled threshold top_k docs).0 ≤ top_k
  unfolding auto_merge_documents
  length-auto_merge-le table enabled threshold top_k [] = omega arith
  length-auto_merge-le table false threshold top_k (d ∷ ds) = length-take-le top_k (d ∷ ds)
  length-auto_merge-le table true threshold top_k (d ∷ ds) = length-take-le top_k _

  length-expanded-le :
      (limits : Limits) (query : String → ℕ → Option (List (Doc S))) (docs : List (Doc S))
      (set : Parents)
      → length (expanded scores limits query docs set).0 ≤ max (length docs) limits.max_chunks
  length-expanded-le limits query docs [] = omega arith
  length-expanded-le limits query docs (entry ∷ set) =
      omega
        (arith, length-cut-le limits.max_chunks (gathered scores limits query docs (entry ∷ set)))

  length-expand-le :
      (limits : Limits) (query : String → ℕ → Option (List (Doc S))) (docs : List (Doc S))
      → length (expand_context scores limits query docs).0 ≤ max (length docs) limits.max_chunks
  unfolding expand_context
  length-expand-le limits query docs =
      ground (arith, length-expanded-le limits query docs (expand_set [] docs))

  length-process-le :
      (config : Config) (top_k : ℕ) (c : Call (Stages S)) (docs : List (Doc S))
      → process scores config top_k c ≡ answered docs
      → length docs ≤ max top_k config.limits.max_chunks
  unfolding process
  length-process-le config top_k (raised x) docs e = cc
  length-process-le config top_k (answered stages) docs e =
      length-merged-le
        (rerank_documents scores config.rerank stages.model stages.endpoint top_k stages.retrieved)
        e
    where
      length-merged-le :
          (r : Call (List (Doc S) × Meta))
          → merge_and_expand scores config top_k stages r ≡ answered docs
          → length docs ≤ max top_k config.limits.max_chunks
      length-merged-le (raised x) h = cc
      length-merged-le (answered reranked) h =
          let merged =
            auto_merge_documents scores stages.parents config.merge_enabled config.merge_threshold
              top_k reranked.0 in
          let q : (expand_context scores config.limits stages.children merged.0).0 ≡ docs = cc in
          subst (λ ds. length ds ≤ max top_k config.limits.max_chunks) q
            (omega (
              arith,
              length-expand-le config.limits stages.children merged.0,
              length-auto_merge-le stages.parents config.merge_enabled config.merge_threshold top_k
                  reranked.0,
            ))

length-unseen-le : {S : Type 0} (docs fds : List (Doc S)) → length (unseen docs fds) ≤ length fds
unfolding unseen
length-unseen-le docs [] = omega arith
length-unseen-le docs (fd ∷ fds) = ground (arith, length-unseen-le docs fds)

length-fuse-le :
    {S : Type 0} (docs fds : List (Doc S)) → length (fuse docs fds) ≤ length docs + length fds
unfolding fuse
length-fuse-le [] fds = omega arith
length-fuse-le (d ∷ ds) fds =
    omega (arith, length-append (d ∷ ds) (unseen (d ∷ ds) fds), length-unseen-le (d ∷ ds) fds)

module _ {S : Type 0} (extract : String → List String) where
  length-split :
      (refs : List String) (docs : List (Doc S))
      → length (split_cited extract refs docs).0 + length (split_cited extract refs docs).1
        ≡ length docs
  unfolding split_cited
  length-split refs [] = refl
  length-split refs (d ∷ ds) = ground (arith, length-split refs ds)

  length-boost_by :
      (refs : List String) (docs : List (Doc S)) → length (boost_by extract refs docs) ≡ length docs
  length-boost_by [] docs = refl
  length-boost_by (ref ∷ refs) docs =
      length-append (split_cited extract (ref ∷ refs) docs).0
        (split_cited extract (ref ∷ refs) docs).1
      ∙ length-split (ref ∷ refs) docs

  length-boost :
      (docs : List (Doc S)) (query : String)
      → length (citation_boost extract docs query) ≡ length docs
  unfolding citation_boost
  length-boost docs query = length-boost_by (extract query) docs

module _ {S : Type 0} (scores : Scores S) (config : Config) (extract : String → List String)
    (query : String) (top_k : ℕ) where
  length-attempt-le :
      (first second : Call (Stages S)) (found : Found S)
      → attempt scores config top_k first second ≡ ok found
      → length found.docs ≤ max top_k config.limits.max_chunks
  unfolding attempt
  length-attempt-le first second found e =
      length-choose-le (process scores config top_k first) (process scores config top_k second)
        (length-process-le scores config top_k first) (length-process-le scores config top_k second)
        e
    where
      bound : ℕ
      bound = max top_k config.limits.max_chunks

      length-choose-le :
          (a b : Call (List (Doc S)))
          → ((docs : List (Doc S)) → a ≡ answered docs → length docs ≤ bound)
          → ((docs : List (Doc S)) → b ≡ answered docs → length docs ≤ bound)
          → choose scores config top_k a b ≡ ok found
          → length found.docs ≤ bound
      length-choose-le (answered docs) b f g h =
          let q : docs ≡ found.docs = cc in subst (λ ds. length ds ≤ bound) q (f docs refl)
      length-choose-le (raised x) (answered docs) f g h =
          let q : docs ≡ found.docs = cc in subst (λ ds. length ds ≤ bound) q (g docs refl)
      length-choose-le (raised x) (raised y) f g h = cc

  length-finish-le :
      (bound : ℕ) (fds : List (Doc S)) (r : Result RetrievalError (Found S)) (result : Found S)
      → length fds ≤ top_k
      → ((found : Found S) → r ≡ ok found → length found.docs ≤ bound)
      → finish scores config extract query fds r ≡ ok result
      → length result.docs ≤ bound + top_k
  length-finish-le bound fds (raise x) result f h e = cc
  length-finish-le bound fds (ok found) result f h e =
      let q : citation_boost extract (fuse found.docs fds) query ≡ result.docs = cc in
      subst (λ ds. length ds ≤ bound + top_k) q
        (omega (
          arith,
          length-boost extract (fuse found.docs fds) query,
          length-fuse-le found.docs fds,
          h found refl,
          f,
        ))

  length-after-le :
      (bound : ℕ) (formula : Call (List (Doc S))) (r : Result RetrievalError (Found S))
      (result : Found S)
      → ((fds : List (Doc S)) → formula ≡ answered fds → length fds ≤ top_k)
      → ((found : Found S) → r ≡ ok found → length found.docs ≤ bound)
      → after_formula scores config extract query formula r ≡ ok result
      → length result.docs ≤ bound + top_k
  length-after-le bound (raised x) r result f h e = cc
  length-after-le bound (answered fds) r result f h e =
      length-finish-le bound fds r result (f fds refl) h e

  -- With at most `top_k` results of the formula search, an answer holds at most `top_k` chunks, or
  -- as many as the expansion may return, and `top_k` more, whatever the services answer.
  pub retrieve-bounds :
      (guard : Call Bool) (formula : Call (List (Doc S))) (first second : Call (Stages S))
      (result : Found S)
      → ((fds : List (Doc S)) → formula ≡ answered fds → length fds ≤ top_k)
      → retrieve_documents scores config extract query top_k guard formula first second ≡ ok result
      → length result.docs ≤ max top_k config.limits.max_chunks + top_k
  unfolding retrieve_documents
  retrieve-bounds (raised x) formula first second result f e = cc
  retrieve-bounds (answered true) formula first second result f e = cc
  retrieve-bounds (answered false) formula first second result f e =
      length-after-le (max top_k config.limits.max_chunks) formula
        (attempt scores config top_k first second) result f (length-attempt-le first second) e
