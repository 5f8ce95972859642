-- ===== src/Retrieval/Doc.antt =====
-- backend/rag/rag_utils.py: a chunk on its way through the retrieval, with the keys that the stages
-- read and write. The floating-point scores are a parameter with their order.
use paper_rag.Base.{ℕ, String, Bool, ◌||◌, Option, none, some, string_eq, nat_eq, if◌then◌else◌}

-- `float`: comparison, and the default score 0.0.
pub record Scores (S : Type 0) : Type 0 where
  pub zero_score : S
  pub below : S → S → Bool

pub record Doc (S : Type 0) : Type 0 where
  pub text : String
  pub filename : String
  pub page_number : ℕ
  pub chunk_id : String
  pub parent_chunk_id : String
  pub chunk_level : ℕ
  pub parent_idx : Option ℕ
  pub child_idx : ℕ
  pub has_theorem : Bool
  pub has_proof : Bool
  pub score : Option S
  pub rrf_rank : Option ℕ
  pub rerank_score : Option S
  pub merged_child_count : Option ℕ
  pub formula_match : Bool

-- `d.get("has_theorem_in_parent") or d.get("has_proof_in_parent")`
abbrev pub is_theorem : {S : Type 0} → Doc S → Bool
is_theorem doc = doc.has_theorem || doc.has_proof

-- `doc.get("score", 0.0)`
abbrev pub score_of : {S : Type 0} → Scores S → Doc S → S
score_of scores doc = elim doc.score [ none ↦ scores.zero_score | some s ↦ s ]

-- `max(a, b)` of Python: the first unless the second is greater
abbrev pub max_score : {S : Type 0} → Scores S → S → S → S
max_score scores a b = if scores.below a b then b else a
