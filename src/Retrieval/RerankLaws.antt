-- ===== src/Retrieval/RerankLaws.antt =====
-- backend/rag/rag_utils.py: the results of `_rerank_documents`.
use paper_rag.Base.Keep.{All-map}
use paper_rag.Base.{
  All-take, length-map, ℕ, zero, suc, leb, ◌≤◌, ◌≡◌, refl, subst, Option, none, some, List, [], ◌∷◌,
  take, length, All, arith, Bool-cases, Option-cases, inl, inr, length-take-le, String, false, ◌<◌,
}
use paper_rag.Base.Int.{ℤ, pos, negsuc}
use paper_rag.Retrieval.Doc.{Doc, Scores}
use paper_rag.Retrieval.Sort.{sort, All-sort}
use paper_rag.Retrieval.Rerank.{
  Settings, Item, Response, Call, answered, raised, Attempted, gives, caught, escapes, by_results,
  Meta, ranked_from, zip_strict, higher, with_score, pick_items, doc_at, scored_by, add_item, nth,
  by_model, by_items, by_endpoint, rerank_ranked, rerank_documents, rerank_enabled,
}

-- At most `top_k` documents, each with the property.
pub record IsCut {S : Type 0} (P : Doc S → Type 0) (top_k : ℕ) (docs : List (Doc S)) : Type 0 where
  pub few : length docs ≤ top_k
  pub each : All P docs

-- The endpoint raises an exception that the branch does not name: the call itself, or the reading of the
-- body of a response that is no error.
pub data LetsOut {S : Type 0} : Attempted (Response S) → String → Type 0 where
  of_call : (e : String) → LetsOut (escapes e) e
  of_results :
      (response : Response S) (e : String)
      → response.status_code < 400
      → response.results ≡ escapes e
      → LetsOut (gives response) e

module _ {S : Type 0} (scores : Scores S) (P : Doc S → Type 0)
    (rank_kept : (d : Doc S) (i : Option ℕ) → P d → P (record d { rrf_rank = i }))
    (score_kept : (d : Doc S) (s : Option S) → P d → P (record d { rerank_score = s })) where
  -- A cut list is answered; or an exception that is not caught comes out.
  pub data EndsCut (top_k : ℕ) (c : Attempted (Response S))
      : Call (List (Doc S) × Meta) → Type 0 where
    cut_back :
        (docs : List (Doc S)) (m : Meta) → IsCut P top_k docs → EndsCut top_k c (answered (docs, m))
    let_out : (e : String) → LetsOut c e → EndsCut top_k c (raised e)

  ranked_from-All : (i : ℕ) (docs : List (Doc S)) → All P docs → All P (ranked_from i docs)
  unfolding ranked_from
  ranked_from-All i [] a = tt
  ranked_from-All i (d ∷ ds) a = (rank_kept d (some i) a.0, ranked_from-All (suc i) ds a.1)

  take-IsCut : (top_k : ℕ) (docs : List (Doc S)) → All P docs → IsCut P top_k (take top_k docs)
  take-IsCut top_k docs a = record {
    few = length-take-le top_k docs;
    each = All-take P top_k docs a;
  }

  zip_strict-All :
      (docs : List (Doc S)) (values : List S) (pairs : List (Doc S × S))
      → zip_strict scores docs values ≡ some pairs
      → All P docs
      → All (λ p. P (with_score scores p)) pairs
  unfolding zip_strict
  zip_strict-All [] [] pairs e a =
      let q : [] ≡ pairs = cc in subst (All (λ p. P (with_score scores p))) q tt
  zip_strict-All [] (s ∷ ss) pairs e a = cc
  zip_strict-All (d ∷ ds) [] pairs e a = cc
  zip_strict-All (d ∷ ds) (s ∷ ss) pairs e a = elim (Option-cases (zip_strict scores ds ss)) [
    | inl bad ↦ ground arith
    | inr (rest, good) ↦
        let q : (d, s) ∷ rest ≡ pairs = ground arith in
        subst (All (λ p. P (with_score scores p))) q
          (score_kept d (some s) a.0, zip_strict-All ds ss rest good a.1)
  ]

  nth-All : (n : ℕ) (docs : List (Doc S)) (d : Doc S) → nth n docs ≡ some d → All P docs → P d
  unfolding nth
  nth-All n [] d e a = cc
  nth-All zero (x ∷ xs) d e a = let q : x ≡ d = cc in subst P q a.0
  nth-All (suc n) (x ∷ xs) d e a = nth-All n xs d e a.1

  scored_by-P : (d : Doc S) (s : Option S) → P d → P (scored_by scores d s)
  scored_by-P d none p = p
  scored_by-P d (some s) p = score_kept d (some s) p

  doc_at-P :
      (docs : List (Doc S)) (i : Option ℤ) (d : Doc S)
      → doc_at scores docs i ≡ some d
      → All P docs
      → P d
  doc_at-P docs none d e a = cc
  doc_at-P docs (some (pos n)) d e a = nth-All n docs d e a
  doc_at-P docs (some (negsuc n)) d e a = cc

  add_item-All :
      (s : Option S) (rest : List (Doc S)) (o : Option (Doc S))
      → ((d : Doc S) → o ≡ some d → P d)
      → All P rest
      → All P (add_item scores s rest o)
  add_item-All s rest none h a = a
  add_item-All s rest (some d) h a = (scored_by-P d s (h d refl), a)

  pick_items-All :
      (docs : List (Doc S)) (items : List (Item S))
      → All P docs
      → All P (pick_items scores docs items)
  unfolding pick_items
  pick_items-All docs [] a = tt
  pick_items-All docs (item ∷ items) a =
      add_item-All item.relevance_score _ (doc_at scores docs item.index)
        (λ d e. doc_at-P docs item.index d e a) (pick_items-All docs items a)

  module _ (top_k : ℕ) (docs : List (Doc S)) (off : Meta) (a : All P docs) where
    by_items-IsCut :
        (picked : List (Doc S))
        → All P picked
        → IsCut P top_k (by_items scores top_k docs off picked).0
    by_items-IsCut [] b = take-IsCut top_k docs a
    by_items-IsCut (d ∷ ds) b = take-IsCut top_k (d ∷ ds) b

    leb-false : {n : ℕ} → leb 400 n ≡ false → n < 400
    leb-false h = ground (arith, h)

    by_results-IsCut :
        (response : Response S)
        → response.status_code < 400
        → (r : Attempted (List (Item S))) → response.results ≡ r
        → EndsCut top_k (gives response) (by_results scores top_k docs off r)
    by_results-IsCut response h (gives items) e =
        cut_back _ _ (by_items-IsCut (pick_items scores docs items) (pick_items-All docs items a))
    by_results-IsCut response h (caught x) e = cut_back _ _ (take-IsCut top_k docs a)
    by_results-IsCut response h (escapes x) e = let_out x (of_results response x h e)

    by_endpoint-IsCut :
        (c : Attempted (Response S)) → EndsCut top_k c (by_endpoint scores top_k docs off c)
    by_endpoint-IsCut (caught e) = cut_back _ _ (take-IsCut top_k docs a)
    by_endpoint-IsCut (escapes e) = let_out e (of_call e)
    by_endpoint-IsCut (gives response) = elim (Bool-cases (leb 400 response.status_code)) [
      | inl bad ↦ rw bad (cut_back _ _ (take-IsCut top_k docs a))
      | inr good ↦ rw good (by_results-IsCut response (leb-false good) response.results refl)
    ]

    by_model-IsCut : (c : Call (List S)) → IsCut P top_k (by_model scores top_k docs off c).0
    by_model-IsCut (raised e) = take-IsCut top_k docs a
    by_model-IsCut (answered values) = elim (Option-cases (zip_strict scores docs values)) [
      | inl bad ↦ rw bad (take-IsCut top_k docs a)
      | inr (pairs, good) ↦ rw good (record {
        few =
            rw (length-map (with_score scores) (take top_k (sort (higher scores) pairs)))
              (length-take-le top_k _);
        each = All-map P (with_score scores) _ (
            All-take _ top_k _
              (All-sort (higher scores) _ pairs (zip_strict-All docs values pairs good a)));
      })
    ]

  rerank_ranked-IsCut :
      (settings : Settings) (model : Call (List S)) (endpoint : Attempted (Response S)) (top_k : ℕ)
      (docs : List (Doc S)) (off : Meta)
      → All P docs
      → EndsCut top_k endpoint (rerank_ranked scores settings model endpoint top_k docs off)
  rerank_ranked-IsCut settings model endpoint top_k [] off a =
      cut_back [] off (record { few = omega arith; each = tt })
  rerank_ranked-IsCut settings model endpoint top_k (d ∷ ds) off a =
      elim (Bool-cases (rerank_enabled settings)) [
        | inr plain ↦ rw plain (cut_back _ _ (take-IsCut top_k (d ∷ ds) a))
        | inl on ↦ rw on (elim (Bool-cases settings.local_reranker) [
          | inl here ↦ rw here (cut_back _ _ (by_model-IsCut top_k (d ∷ ds) off a model))
          | inr there ↦ rw there (by_endpoint-IsCut top_k (d ∷ ds) off a endpoint)
        ])
      ]

  -- Whatever the local model answers or raises, and whatever the endpoint answers: at most `top_k`
  -- documents come back, and each is a candidate with its rank and, perhaps, a score, so that a property
  -- of the candidates that does not look at these two keys holds of each result. An exception comes out
  -- only from the endpoint, in the call or in the reading of a body that is no error, and then it is not one
  -- of those that the code names.
  pub rerank-IsCut :
      (settings : Settings) (model : Call (List S)) (endpoint : Attempted (Response S)) (top_k : ℕ)
      (docs : List (Doc S))
      → All P docs
      → EndsCut top_k endpoint (rerank_documents scores settings model endpoint top_k docs)
  unfolding rerank_documents
  rerank-IsCut settings model endpoint top_k docs a =
      rerank_ranked-IsCut settings model endpoint top_k (ranked_from 1 docs) _
        (ranked_from-All 1 docs a)
