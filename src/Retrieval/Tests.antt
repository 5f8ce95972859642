-- ===== src/Retrieval/Tests.antt =====
-- A retrieval of two chunks of one parent and a third chunk, with natural numbers as scores.
use Prim.Native.String.{String}
use paper_rag.Base.{
  any, ℕ, ltb, max, ◌+◌, ◌≤◌, ◌≡◌, ◌≢◌, refl, Bool, true, false, Option, none, some, List, [], ◌∷◌,
  length, arith, ok, raise, ◌⊎◌, Result, string_eq, inl, inr, subst,
}
use paper_rag.Base.Dict
use paper_rag.Base.Dict.{Dict}
use paper_rag.Retrieval.Doc.{Doc, Scores}
use paper_rag.Retrieval.Merge.{auto_merge_documents}
use paper_rag.Retrieval.ParentStore.{row_of}
use paper_rag.Retrieval.MergeLaws.{IsDistinct}
use paper_rag.Retrieval.AutoMerge.{IsOrder, IsMerged, auto_merge-IsMerged}
use paper_rag.Retrieval.Rerank.{
  Settings, Call, answered, raised, Attempted, caught, Response, rerank_documents,
}
use paper_rag.Retrieval.RerankLaws.{EndsCut, rerank-IsCut}
use paper_rag.Retrieval.Expand.{Limits, expand_context}
use paper_rag.Retrieval.ExpandLaws.{IsExpansion, expand-IsExpansion}
use paper_rag.Retrieval.Citation.{citation_boost}
use paper_rag.Retrieval.Search.{
  Config, Stages, Found, retrieval_unavailable, retrieve_documents, hybrid,
}
use paper_rag.Retrieval.SearchLaws.{retrieve-bounds}

abbrev points : Scores ℕ
points = record { zero_score = 0; below = ltb }

points-IsOrder : IsOrder points
points-IsOrder = record { asym = λ a b e. ground arith; cotrans = λ a b c e f. ground arith }

abbrev chunk : String → String → ℕ → ℕ → Doc ℕ
chunk id parent child score = record {
  text = id;
  filename = "a.pdf";
  page_number = 1;
  chunk_id = id;
  parent_chunk_id = parent;
  chunk_level = 3;
  parent_idx = some 0;
  child_idx = child;
  has_theorem = false;
  has_proof = false;
  score = some score;
  rrf_rank = none;
  rerank_score = none;
  merged_child_count = none;
  formula_match = false;
}

abbrev hits : List (Doc ℕ)
hits = chunk "a" "p" 0 5 ∷ chunk "b" " p " 1 7 ∷ chunk "c" "q" 2 6 ∷ []

abbrev parents : Dict String (Doc ℕ)
parents = ("p", chunk "p" "" 0 0) ∷ []

abbrev limits : Limits
limits = record { enabled = true; prev_parent = 1; next_parent = 1; max_chunks = 2 }

abbrev local : Settings
local = record { local_reranker = true; api_configured = false }

abbrev values : Call (List ℕ)
values = answered (1 ∷ 3 ∷ 2 ∷ [])

abbrev unreachable : Attempted (Response ℕ)
unreachable = caught "no endpoint"

abbrev siblings : String → ℕ → Option (List (Doc ℕ))
siblings filename pi = some hits

abbrev no_refs : String → List String
no_refs s = s ∷ []

abbrev stages : Stages ℕ
stages = record {
  retrieved = hits;
  model = values;
  endpoint = unreachable;
  parents = parents;
  children = siblings;
}

abbrev config : Config
config = record { rerank = local; merge_enabled = true; merge_threshold = 2; limits = limits }

abbrev down : Call (Stages ℕ)
down = raised "milvus"

hits-IsDistinct : IsDistinct hits
unfolding IsDistinct
hits-IsDistinct = ((refl, (refl, tt)), ((refl, tt), (tt, tt)))

auto_merge-IsMerged_example :
    IsMerged points 2 (auto_merge_documents points parents true 2 2 hits).0
auto_merge-IsMerged_example =
    auto_merge-IsMerged points parents 2 2 hits points-IsOrder hits-IsDistinct

-- Every candidate is of this file.
abbrev OfFile : Doc ℕ → Type 0
OfFile d = d.filename ≡ "a.pdf"

rerank-IsCut_example :
    EndsCut points OfFile
      (λ d i e. e)
      (λ d s e. e)
      2
      unreachable
      (rerank_documents points local values unreachable 2 hits)
rerank-IsCut_example =
    rerank-IsCut points OfFile (λ d i e. e) (λ d s e. e) local values unreachable 2 hits
      (refl, (refl, (refl, tt)))

expanded_run : (expand_context points limits siblings hits).1 ≡ true
unfolding expand_context paper_rag.Base.Dict.get paper_rag.Base.Dict.put
expanded_run = refl

expand-IsExpansion_example :
    IsExpansion points limits siblings hits (expand_context points limits siblings hits).0
expand-IsExpansion_example = expand-IsExpansion points limits siblings hits expanded_run

-- The chunk that the query names comes first.
boosted_run :
    citation_boost no_refs hits "b"
    ≡ chunk "b" " p " 1 7 ∷ chunk "a" "p" 0 5 ∷ chunk "c" "q" 2 6 ∷ []
unfolding citation_boost
boosted_run = refl

abbrev answer_docs : List (Doc ℕ)
answer_docs = chunk "a" "p" 0 5 ∷ []

abbrev quiet : Config
quiet = record {
  rerank = record { local_reranker = false; api_configured = false };
  merge_enabled = false;
  merge_threshold = 2;
  limits = record { enabled = false; prev_parent = 0; next_parent = 0; max_chunks = 1 };
}

abbrev answer : Found ℕ
answer = record {
  docs = record (chunk "a" "p" 0 5) { rrf_rank = some 1 } ∷ chunk "c" "q" 2 6 ∷ [];
  retrieval_mode = hybrid;
}

retrieve_run :
    retrieve_documents points quiet no_refs "z" 1
      (answered false)
      (answered (chunk "c" "q" 2 6 ∷ []))
      (answered stages)
      down
    ≡ ok answer
unfolding retrieve_documents
retrieve_run = refl

retrieve-bounds_example : length answer.docs ≤ max 1 quiet.limits.max_chunks + 1
retrieve-bounds_example =
    retrieve-bounds points quiet no_refs "z" 1 (answered false) (answered (chunk "c" "q" 2 6 ∷ []))
      (answered stages) down answer
      (λ fds e.
        let q : chunk "c" "q" 2 6 ∷ [] ≡ fds = cc in subst (λ ds. length ds ≤ 1) q (omega arith))
      retrieve_run

refused_run :
    retrieve_documents points config no_refs "z" 1 (answered false) (answered []) down down
    ≡ raise retrieval_unavailable
unfolding retrieve_documents
refused_run = refl

abbrev stored_rows : Dict String (Doc ℕ)
stored_rows = ("p", row_of (chunk "p" "x" 1 1)) ∷ []

abbrev upserted : List (Doc ℕ)
upserted = chunk " p" "" 0 3 ∷ chunk "p" "x" 1 1 ∷ []
