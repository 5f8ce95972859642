-- ===== src/Retrieval/Expand.antt =====
-- backend/rag/rag_utils.py: `_expand_context`. The rows of Milvus for a parent are a parameter: a
-- list, or an exception, which skips the parent.
use paper_rag.Base.{
  ℕ, zero, suc, ◌-◌, ◌+◌, ltb, leb, String, Bool, true, false, not, ◌||◌, ◌&&◌, Option, none, some,
  List, [], ◌∷◌, ◌++◌, map, length, take, keep, ◌==◌, string_eq, nat_eq, pair_eq, if◌then◌else◌,
}
use paper_rag.Base.Dict
use paper_rag.Base.Dict.{Dict}
use paper_rag.Base.Text.{is_empty}
use paper_rag.Retrieval.Doc.{Doc, Scores, is_theorem}
use paper_rag.Retrieval.Sort.{sort}

pub record Limits : Type 0 where
  pub enabled : Bool
  pub prev_parent : ℕ
  pub next_parent : ℕ
  pub max_chunks : ℕ

-- A parent block, and whether a hit says that it holds a theorem or a proof.
abbrev pub Parents : Type 0
Parents = Dict (String × ℕ) Bool

-- `if key not in expand_set: expand_set[key] = has_tp` / `elif has_tp: expand_set[key] = True`
abbrev pub mark : String × ℕ → Bool → Parents → Parents
mark key has_tp set =
    if Dict.member key set
    then (if has_tp then Dict.put key true set else set)
    else Dict.put key has_tp set

abbrev pub set_default : String × ℕ → Parents → Parents
set_default key parents = if Dict.member key parents then parents else Dict.put key false parents

-- The blocks before, by offsets from 1; one before the first block does not exist.
unfoldable pub add_before : String → ℕ → ℕ → ℕ → Parents → Parents
add_before filename pi offset zero parents = parents
add_before filename pi offset (suc n) parents =
    add_before filename pi (suc offset) n
      (if leb offset pi then set_default (filename, pi - offset) parents else parents)

unfoldable pub add_after : String → ℕ → ℕ → ℕ → Parents → Parents
add_after filename pi offset zero parents = parents
add_after filename pi offset (suc n) parents =
    add_after filename pi (suc offset) n (set_default (filename, pi + offset) parents)

unfoldable pub add_neighbours : Limits → Parents → Parents → Parents
unfolding add_before add_after
add_neighbours limits [] parents = parents
add_neighbours limits (((filename, pi), has_tp) ∷ set) parents = add_neighbours limits set (
    if has_tp
    then add_after filename pi 1 limits.next_parent
        (add_before filename pi 1 limits.prev_parent parents)
    else parents)

abbrev pub or_zero : Option ℕ → ℕ
or_zero none = 0
or_zero (some n) = n

module _ {S : Type 0} where
  abbrev pub mark_hit : Doc S → Option ℕ → Parents → Parents
  mark_hit doc none set = set
  mark_hit doc (some pi) set =
      if is_empty doc.filename then set else mark (doc.filename, pi) (is_theorem doc) set

  unfoldable pub expand_set : Parents → List (Doc S) → Parents
  expand_set set [] = set
  expand_set set (doc ∷ docs) = expand_set (mark_hit doc doc.parent_idx set) docs

  -- The dictionary that the expansion makes of a row.
  abbrev pub child_of : Scores S → Doc S → Doc S
  child_of scores row = record row {
    parent_idx = some (or_zero row.parent_idx);
    score = some scores.zero_score;
    rrf_rank = none;
    rerank_score = none;
    merged_child_count = none;
    formula_match = false;
  }

  unfoldable pub add_rows : Scores S → List (Doc S) → Dict String (Doc S) → Dict String (Doc S)
  add_rows scores [] children = children
  add_rows scores (row ∷ rows) children = add_rows scores rows (
      if is_empty row.chunk_id || Dict.member row.chunk_id children
      then children
      else Dict.put row.chunk_id (child_of scores row) children)

  abbrev pub add_answer :
      Scores S → Option (List (Doc S)) → Dict String (Doc S) → Dict String (Doc S)
  add_answer scores none children = children
  add_answer scores (some rows) children = add_rows scores rows children

  unfoldable pub all_children :
      Scores S
      → (String → ℕ → Option (List (Doc S)))
      → Parents
      → Dict String (Doc S)
      → Dict String (Doc S)
  unfolding add_rows
  all_children scores query [] children = children
  all_children scores query (((filename, pi), has_tp) ∷ parents) children =
      all_children scores query parents (add_answer scores (query filename pi) children)

  -- The hits over the children of one `chunk_id`.
  unfoldable pub result_map : Dict String (Doc S) → List (Doc S) → Dict String (Doc S)
  result_map results [] = results
  result_map results (doc ∷ docs) =
      result_map (if is_empty doc.chunk_id then results else Dict.put doc.chunk_id doc results) docs

  unfoldable pub by_place : Doc S → Doc S → Bool
  by_place a b =
      ltb (or_zero a.parent_idx) (or_zero b.parent_idx)
      || ((or_zero a.parent_idx == or_zero b.parent_idx) && ltb a.child_idx b.child_idx)

  unfoldable pub cut : ℕ → List (Doc S) → List (Doc S)
  cut limit result =
      let theorem_docs = keep is_theorem result in
      let other_docs = keep (λ d. not (is_theorem d)) result in
      if ltb limit (length result)
      then (if leb limit (length theorem_docs)
          then take limit theorem_docs
          else theorem_docs ++ take (limit - length theorem_docs) other_docs)
      else result

  -- The chunks in the order of the text, before the limit.
  unfoldable pub gathered :
      Scores S
      → Limits
      → (String → ℕ → Option (List (Doc S)))
      → List (Doc S)
      → Parents
      → List (Doc S)
  unfolding add_neighbours all_children result_map sort by_place
  gathered scores limits query docs set = sort by_place (
      map (λ e. e.1)
        (result_map (all_children scores query (add_neighbours limits set set) []) docs))

  -- The documents, and `context_expansion_applied`.
  abbrev pub expanded :
      Scores S
      → Limits
      → (String → ℕ → Option (List (Doc S)))
      → List (Doc S)
      → Parents
      → List (Doc S) × Bool
  expanded scores limits query docs [] = (docs, false)
  expanded scores limits query docs (entry ∷ set) =
      (cut limits.max_chunks (gathered scores limits query docs (entry ∷ set)), true)

  unfoldable pub expand_context :
      Scores S → Limits → (String → ℕ → Option (List (Doc S))) → List (Doc S) → List (Doc S) × Bool
  unfolding expand_set cut gathered
  expand_context scores limits query docs =
      if limits.enabled
      then expanded scores limits query docs (expand_set [] docs)
      else (docs, false)
