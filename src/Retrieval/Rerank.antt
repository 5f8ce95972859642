-- ===== src/Retrieval/Rerank.antt =====
-- backend/rag/rag_utils.py: `_rerank_documents`. The local model and the endpoint are given by what
-- they answer to this query: scores, or a response, or an exception.
use paper_rag.Base.{
  ℕ, zero, suc, leb, String, Bool, true, false, ◌||◌, Option, none, some, List, [], ◌∷◌, map,
  length, take, if◌then◌else◌,
}
use paper_rag.Base.Int.{ℤ, pos, negsuc}
use paper_rag.Retrieval.Doc.{Doc, Scores}
use paper_rag.Retrieval.Sort.{sort}

-- `{**doc, "rrf_rank": i} for i, doc in enumerate(docs, 1)`
unfoldable pub ranked_from : {S : Type 0} → ℕ → List (Doc S) → List (Doc S)
ranked_from i [] = []
ranked_from i (doc ∷ docs) = record doc { rrf_rank = some i } ∷ ranked_from (suc i) docs

-- The settings of the reranking: the local model, and whether the endpoint is configured.
pub record Settings : Type 0 where
  pub local_reranker : Bool
  pub api_configured : Bool

abbrev pub rerank_enabled : Settings → Bool
rerank_enabled settings = settings.api_configured || settings.local_reranker

-- `item` of the response: an index that is an `int`, and a score.
pub record Item (S : Type 0) : Type 0 where
  pub index : Option ℤ
  pub relevance_score : Option S

-- A call that answers or raises; the text is `str(e)`.
pub data Call (A : Type 0) : Type 0 where
  answered : A → Call A
  raised : String → Call A

-- In the branch of the endpoint only RequestException, JSONDecodeError, KeyError, ValueError and TypeError
-- are caught. Another exception escapes, as the AttributeError of a body or an item that is no object.
pub data Attempted (A : Type 0) : Type 0 where
  gives : A → Attempted A
  caught : String → Attempted A
  escapes : String → Attempted A

-- The response: its status, its text, and what the loop over `results` of its JSON reads.
pub record Response (S : Type 0) : Type 0 where
  pub status_code : ℕ
  pub body : String
  pub results : Attempted (List (Item S))

-- What `rerank_error` says.
pub data RerankError : Type 0 where
  exception : String → RerankError
  http : ℕ → String → RerankError
  empty_rerank_results : RerankError
  different_lengths : RerankError

-- The entries of `meta` that the branches set.
pub record Meta : Type 0 where
  pub rerank_enabled : Bool
  pub rerank_applied : Bool
  pub rerank_error : Option RerankError
  pub candidate_count : ℕ

unfoldable pub nth : {A : Type 0} → ℕ → List A → Option A
nth n [] = none
nth zero (x ∷ xs) = some x
nth (suc n) (x ∷ xs) = nth n xs

module _ {S : Type 0} (scores : Scores S) where
  -- `zip(docs, scores, strict=True)`: raises on different lengths
  unfoldable pub zip_strict : List (Doc S) → List S → Option (List (Doc S × S))
  zip_strict [] [] = some []
  zip_strict [] (s ∷ ss) = none
  zip_strict (d ∷ ds) [] = none
  zip_strict (d ∷ ds) (s ∷ ss) = elim (zip_strict ds ss) [
    | none ↦ none
    | some rest ↦ some ((d, s) ∷ rest)
  ]

  abbrev pub higher : Doc S × S → Doc S × S → Bool
  higher a b = scores.below b.1 a.1

  abbrev pub with_score : Doc S × S → Doc S
  with_score p = record p.0 { rerank_score = some p.1 }

  -- The loop over `results`: an index out of range is skipped.
  abbrev pub scored_by : Doc S → Option S → Doc S
  scored_by doc none = doc
  scored_by doc (some s) = record doc { rerank_score = some s }

  abbrev pub doc_at : List (Doc S) → Option ℤ → Option (Doc S)
  doc_at docs none = none
  doc_at docs (some (pos n)) = nth n docs
  doc_at docs (some (negsuc n)) = none

  abbrev pub add_item : Option S → List (Doc S) → Option (Doc S) → List (Doc S)
  add_item s rest none = rest
  add_item s rest (some doc) = scored_by doc s ∷ rest

  unfoldable pub pick_items : List (Doc S) → List (Item S) → List (Doc S)
  unfolding nth
  pick_items docs [] = []
  pick_items docs (item ∷ items) =
      add_item item.relevance_score (pick_items docs items) (doc_at docs item.index)

  module _ (top_k : ℕ) (ranked : List (Doc S)) (off : Meta) where
    abbrev pub fallback : RerankError → List (Doc S) × Meta
    fallback e = (take top_k ranked, record off { rerank_applied = true; rerank_error = some e })

    abbrev pub by_zipped : Option (List (Doc S × S)) → List (Doc S) × Meta
    by_zipped none = fallback different_lengths
    by_zipped (some pairs) =
        (map with_score (take top_k (sort higher pairs)), record off { rerank_applied = true })

    -- the local model
    abbrev pub by_model : Call (List S) → List (Doc S) × Meta
    by_model (raised e) = fallback (exception e)
    by_model (answered values) = by_zipped (zip_strict ranked values)

    -- the endpoint
    abbrev pub by_items : List (Doc S) → List (Doc S) × Meta
    by_items [] = fallback empty_rerank_results
    by_items (doc ∷ docs) = (take top_k (doc ∷ docs), record off { rerank_applied = true })

    abbrev pub by_results : Attempted (List (Item S)) → Call (List (Doc S) × Meta)
    by_results (gives items) = answered (by_items (pick_items ranked items))
    by_results (caught e) = answered (fallback (exception e))
    by_results (escapes e) = raised e

    abbrev pub by_endpoint : Attempted (Response S) → Call (List (Doc S) × Meta)
    by_endpoint (caught e) = answered (fallback (exception e))
    by_endpoint (escapes e) = raised e
    by_endpoint (gives response) =
        if leb 400 response.status_code
        then answered (fallback (http response.status_code response.body))
        else by_results response.results

  abbrev pub rerank_ranked :
      Settings
      → Call (List S)
      → Attempted (Response S)
      → ℕ
      → List (Doc S)
      → Meta
      → Call (List (Doc S) × Meta)
  rerank_ranked settings model endpoint top_k [] off = answered ([], off)
  rerank_ranked settings model endpoint top_k (doc ∷ docs) off =
      if rerank_enabled settings
      then (if settings.local_reranker
          then answered (by_model top_k (doc ∷ docs) off model)
          else by_endpoint top_k (doc ∷ docs) off endpoint)
      else answered (take top_k (doc ∷ docs), off)

  unfoldable pub rerank_documents :
      Settings
      → Call (List S)
      → Attempted (Response S)
      → ℕ
      → List (Doc S)
      → Call (List (Doc S) × Meta)
  unfolding ranked_from zip_strict pick_items sort
  rerank_documents settings model endpoint top_k docs =
      rerank_ranked settings model endpoint top_k (ranked_from 1 docs) (record {
        rerank_enabled = rerank_enabled settings;
        rerank_applied = false;
        rerank_error = none;
        candidate_count = length docs;
      })
