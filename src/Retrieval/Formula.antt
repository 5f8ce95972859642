-- ===== src/Retrieval/Formula.antt =====
-- backend/rag/rag_utils.py: `_formula_search` and `_build_formula_index`. The formulas of the query,
-- their normal form and the LSH index are given by what they answer.
use Prim.Native.String.{String, [] as no_text, ◌∷◌ as ◌∷ₜ◌}
use Prim.Native.Char.{code}
use paper_rag.Base.{
  ℕ, ◌*◌, leb, Bool, true, false, ◌||◌, ◌&&◌, Option, none, some, List, [], ◌∷◌, ◌++◌, length, take,
  any, ◌==◌, string_eq, nat_eq, if◌then◌else◌,
}
use paper_rag.Base.Text.{is_empty}
use paper_rag.Retrieval.Doc.{Doc}

-- `formula_id.split("::")[0]`
abbrev pub colons_next : String → Bool
colons_next no_text = false
colons_next (c ∷ₜ s) = code c == 58

unfoldable pub chunk_of : String → String
chunk_of no_text = no_text
chunk_of (c ∷ₜ s) = if code c == 58 && colons_next s then no_text else c ∷ₜ chunk_of s

module _ {S : Type 0} (top_k : ℕ) (query : String → Option (List (Doc S))) where
  -- The chunks seen, and the results so far.
  pub record Found : Type 0 where
    pub seen : List String
    pub results : List (Doc S)

  abbrev pub formula_doc : S → Doc S → Doc S
  formula_doc similarity row = record row {
    score = some similarity;
    formula_match = true;
    rrf_rank = none;
    rerank_score = none;
    merged_child_count = none;
  }

  -- `rows` of the query, which may raise; only the first counts.
  abbrev pub add_row : S → Option (List (Doc S)) → List (Doc S) → List (Doc S)
  add_row similarity none results = results
  add_row similarity (some []) results = results
  add_row similarity (some (row ∷ rows)) results = results ++ formula_doc similarity row ∷ []

  unfoldable pub add_candidates : List (String × S) → Found → Found
  unfolding chunk_of
  add_candidates [] found = found
  add_candidates ((formula_id, similarity) ∷ candidates) found =
      let id = chunk_of formula_id in
      add_candidates candidates (
        if any (λ s. s == id) found.seen || is_empty id then found else record {
          seen = id ∷ found.seen;
          results = add_row similarity (query id) found.results;
        })

  module _ (normalize : String → String) (lookup : String → ℕ → List (String × S)) where
    unfoldable pub search_formulas : List String → Found → Found
    unfolding add_candidates
    search_formulas [] found = found
    search_formulas (formula ∷ formulas) found =
        let norm = normalize formula in
        let after = add_candidates (lookup norm (top_k * 2)) found in
        let enough = leb top_k (length after.results) in
        let rest = search_formulas formulas in
        if is_empty norm then rest found else if enough then after else rest after

    unfoldable pub formula_search : List String → List (Doc S)
    unfolding search_formulas
    formula_search formulas =
        take top_k (search_formulas formulas (record { seen = []; results = [] })).results
