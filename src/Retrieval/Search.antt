-- ===== src/Retrieval/Search.antt =====
-- backend/rag/rag_utils.py: `retrieve_documents`. An attempt, hybrid or dense, raises, or its stages
-- answer as its record says. The guard of the index says whether an operation of it is pending, or it raises,
-- and so may the formula search; neither is inside a `try`. The texts are strings, on which the regular
-- expressions of the citations do not raise.
use paper_rag.Base.{
  ℕ, String, Bool, Option, List, [], ◌∷◌, ◌++◌, any, ◌==◌, string_eq, if◌then◌else◌, Result, ok,
  raise,
}
use paper_rag.Base.Dict.{Dict}
use paper_rag.Retrieval.Doc.{Doc, Scores}
use paper_rag.Retrieval.Merge.{auto_merge_documents}
use paper_rag.Retrieval.Rerank.{
  Settings, Call, answered, raised, Attempted, Response, Meta, rerank_documents,
}
use paper_rag.Retrieval.Expand.{Limits, expand_context}
use paper_rag.Retrieval.Citation.{citation_boost}

pub record Config : Type 0 where
  pub rerank : Settings
  pub merge_enabled : Bool
  pub merge_threshold : ℕ
  pub limits : Limits

-- What the services answer to the stages of an attempt.
pub record Stages (S : Type 0) : Type 0 where
  pub retrieved : List (Doc S)
  pub model : Call (List S)
  pub endpoint : Attempted (Response S)
  pub parents : Dict String (Doc S)
  pub children : String → ℕ → Option (List (Doc S))

pub data Mode : Type 0 where
  hybrid dense_fallback : Mode

pub data RetrievalError : Type 0 where
  operation_pending : RetrievalError
  retrieval_unavailable : RetrievalError
  other_error : String → RetrievalError

pub record Found (S : Type 0) : Type 0 where
  pub docs : List (Doc S)
  pub retrieval_mode : Mode

module _ {S : Type 0} (scores : Scores S) (config : Config) (top_k : ℕ) where
  -- Rerank, merge, expand.
  abbrev pub merge_and_expand : Stages S → Call (List (Doc S) × Meta) → Call (List (Doc S))
  merge_and_expand stages (raised e) = raised e
  merge_and_expand stages (answered reranked) =
      let merged =
        auto_merge_documents scores stages.parents config.merge_enabled config.merge_threshold top_k
          reranked.0 in
      answered (expand_context scores config.limits stages.children merged.0).0

  unfoldable pub process : Call (Stages S) → Call (List (Doc S))
  unfolding rerank_documents auto_merge_documents expand_context
  process (raised e) = raised e
  process (answered stages) =
      merge_and_expand stages
        (rerank_documents scores config.rerank stages.model stages.endpoint top_k stages.retrieved)

  -- The dense attempt is made when the hybrid one has raised.
  abbrev pub choose : Call (List (Doc S)) → Call (List (Doc S)) → Result RetrievalError (Found S)
  choose (answered docs) dense = ok (record { docs = docs; retrieval_mode = hybrid })
  choose (raised e) (answered docs) = ok (record { docs = docs; retrieval_mode = dense_fallback })
  choose (raised e) (raised e2) = raise retrieval_unavailable

  unfoldable pub attempt : Call (Stages S) → Call (Stages S) → Result RetrievalError (Found S)
  unfolding process
  attempt first dense = choose (process first) (process dense)

-- `{d.get("chunk_id") for d in result["docs"]}`, fixed before the loop
abbrev pub seen_in : {S : Type 0} → List (Doc S) → Doc S → Bool
seen_in docs fd = any (λ d. d.chunk_id == fd.chunk_id) docs

unfoldable pub unseen : {S : Type 0} → List (Doc S) → List (Doc S) → List (Doc S)
unseen docs [] = []
unseen docs (fd ∷ fds) = let rest = unseen docs fds in if seen_in docs fd then rest else fd ∷ rest

-- The formula results after the others, unless there are no others.
unfoldable pub fuse : {S : Type 0} → List (Doc S) → List (Doc S) → List (Doc S)
unfolding unseen
fuse [] fds = []
fuse (d ∷ ds) fds = (d ∷ ds) ++ unseen (d ∷ ds) fds

module _ {S : Type 0} (scores : Scores S) (config : Config)
    (extract_citation_refs : String → List String) where
  abbrev pub finish :
      String → List (Doc S) → Result RetrievalError (Found S) → Result RetrievalError (Found S)
  finish query formula_docs (raise e) = raise e
  finish query formula_docs (ok found) = ok (record {
    docs = citation_boost extract_citation_refs (fuse found.docs formula_docs) query;
    retrieval_mode = found.retrieval_mode;
  })

  abbrev pub after_formula :
      String
      → Call (List (Doc S))
      → Result RetrievalError (Found S)
      → Result RetrievalError (Found S)
  after_formula query (raised e) result = raise (other_error e)
  after_formula query (answered formula_docs) result = finish query formula_docs result

  -- `with read_document_index()`
  abbrev pub guarded : Call Bool → Result RetrievalError (Found S) → Result RetrievalError (Found S)
  guarded (raised e) rest = raise (other_error e)
  guarded (answered pending) rest = if pending then raise operation_pending else rest

  unfoldable pub retrieve_documents :
      String
      → ℕ
      → Call Bool
      → Call (List (Doc S))
      → Call (Stages S)
      → Call (Stages S)
      → Result RetrievalError (Found S)
  unfolding attempt fuse citation_boost
  retrieve_documents query top_k guard formula first second =
      guarded guard (after_formula query formula (attempt scores config top_k first second))
