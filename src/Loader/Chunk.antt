-- ===== src/Loader/Chunk.antt =====
-- backend/rag/document_loader.py: the dictionary of a chunk. A key that a kind of chunk does not have
-- is its default.
use paper_rag.Base.{ℕ, String, Bool, List}

pub record Chunk : Type 0 where
  pub text : String
  pub filename : String
  pub file_path : String
  pub file_type : String
  pub page_number : ℕ
  pub parser : String
  pub chunk_id : String
  pub parent_chunk_id : String
  pub root_chunk_id : String
  pub chunk_level : ℕ
  pub chunk_idx : ℕ
  pub parent_idx : ℕ
  pub child_idx : ℕ
  pub num_children : ℕ
  pub parent_content : String
  pub chapter_path : String
  pub has_theorem_in_parent : Bool
  pub has_proof_in_parent : Bool
  pub has_formula : Bool
  pub formulas : List String
  pub has_citation : Bool
  pub citations : List String
  pub has_glossary : Bool
  pub glossary_terms : List String
  pub has_figure : Bool
  pub has_table : Bool
