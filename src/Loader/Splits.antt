-- ===== src/Loader/Splits.antt =====
-- backend/rag/document_loader.py: `_split_standard` and `_split_structural`. The splitters, the
-- detection of theorems and the extraction of formulas, citations and terms are parameters. A key that
-- a chunk has not is its default.
use Prim.Native.String.{◌++◌ as ◌++ₜ◌}
use paper_rag.Base.{
  ℕ, suc, ◌+◌, String, string_eq, Bool, true, false, not, List, [], ◌∷◌, ◌++◌, map, take, length,
  keep,
}
use paper_rag.Base.Text.{is_empty}
use paper_rag.Loader.Chunk.{Chunk}
use paper_rag.Loader.Levels.{Splitters, split_page_to_three_levels}

-- A part of a text in Markdown, with the titles over it.
pub record Section : Type 0 where
  pub page_content : String
  pub header_1 : String
  pub header_2 : String
  pub header_3 : String

pub record Tools : Type 0 where
  pub splitters : Splitters
  pub split_markdown : String → List Section
  pub split_children : String → List String
  pub detect_theorem_proof : String → Bool × Bool
  pub extract_formulas : String → List String
  pub extract_citations : String → List String
  pub extract_glossary : String → List String

-- `len(xs) > 0`
abbrev pub is_nonempty : List String → Bool
is_nonempty [] = false
is_nonempty (x ∷ xs) = true

abbrev pub plain_chunk : Chunk
plain_chunk = record {
  text = "";
  filename = "";
  file_path = "";
  file_type = "";
  page_number = 0;
  parser = "";
  chunk_id = "";
  parent_chunk_id = "";
  root_chunk_id = "";
  chunk_level = 0;
  chunk_idx = 0;
  parent_idx = 0;
  child_idx = 0;
  num_children = 0;
  parent_content = "";
  chapter_path = "";
  has_theorem_in_parent = false;
  has_proof_in_parent = false;
  has_formula = false;
  formulas = [];
  has_citation = false;
  citations = [];
  has_glossary = false;
  glossary_terms = [];
  has_figure = false;
  has_table = false;
}

abbrev pub base_doc : String → String → String → String → Chunk
base_doc filename doc_type file_path parser = record plain_chunk {
  filename = filename;
  file_path = file_path;
  file_type = doc_type;
  parser = parser;
}

-- `" → ".join(parts)`
abbrev pub join_path : List String → String
join_path [] = ""
join_path (p ∷ []) = p
join_path (p ∷ q ∷ ps) = p ++ₜ (" → " ++ₜ join_path (q ∷ ps))

abbrev pub chapter_path_of : Section → String
chapter_path_of s =
    join_path (keep (λ h. not (is_empty h)) (s.header_1 ∷ s.header_2 ∷ s.header_3 ∷ []))

module _ (tools : Tools) where
  -- What a text says of itself.
  abbrev pub annotated : String → Chunk → Chunk
  annotated text c = record c {
    has_formula = is_nonempty (tools.extract_formulas text);
    formulas = take 5 (tools.extract_formulas text);
    has_citation = is_nonempty (tools.extract_citations text);
    citations = take 10 (tools.extract_citations text);
    has_glossary = is_nonempty (tools.extract_glossary text);
    glossary_terms = take 5 (tools.extract_glossary text);
  }

  unfoldable pub split_standard : String → String → String → String → String → List Chunk
  unfolding split_page_to_three_levels
  split_standard full_text filename doc_type file_path parser =
      map (λ c. annotated c.text c)
        (split_page_to_three_levels tools.splitters (base_doc filename doc_type file_path parser)
          full_text 0)

  abbrev pub section_id : String → ℕ → String
  section_id filename p_idx = filename ++ₜ ("_p" ++ₜ tools.splitters.str p_idx)

  abbrev pub child_id : String → ℕ → ℕ → String
  child_id filename p_idx c_idx =
      filename ++ₜ ("_p" ++ₜ (tools.splitters.str p_idx ++ₜ ("_c" ++ₜ tools.splitters.str c_idx)))

  abbrev pub parent_chunk : String → String → ℕ → Section → ℕ → ℕ → Chunk
  parent_chunk filename parser p_idx s children global_idx = record plain_chunk {
    text = s.page_content;
    chunk_id = section_id filename p_idx;
    root_chunk_id = section_id filename p_idx;
    chunk_level = 2;
    chunk_idx = global_idx;
    filename = filename;
    file_type = "PDF";
    parser = parser;
    parent_idx = p_idx;
    num_children = children;
    chapter_path = chapter_path_of s;
    has_theorem_in_parent = (tools.detect_theorem_proof s.page_content).0;
    has_proof_in_parent = (tools.detect_theorem_proof s.page_content).1;
  }

  abbrev pub child_chunk : Chunk → ℕ → String → ℕ → Chunk
  child_chunk parent c_idx text global_idx = annotated text (record parent {
    text = text;
    chunk_id = child_id parent.filename parent.parent_idx c_idx;
    parent_chunk_id = section_id parent.filename parent.parent_idx;
    root_chunk_id = section_id parent.filename parent.parent_idx;
    chunk_level = 3;
    chunk_idx = global_idx;
    child_idx = c_idx;
    parent_content = parent.text;
  })

  unfoldable pub child_chunks : Chunk → ℕ → List String → ℕ → List Chunk
  child_chunks parent c_idx [] global_idx = []
  child_chunks parent c_idx (text ∷ texts) global_idx =
      child_chunk parent c_idx text global_idx
      ∷ child_chunks parent (suc c_idx) texts (suc global_idx)

  -- A part without children is left out.
  abbrev pub section_chunks : String → String → ℕ → Section → List String → ℕ → List Chunk
  section_chunks filename parser p_idx s [] global_idx = []
  section_chunks filename parser p_idx s (t ∷ ts) global_idx =
      let parent = parent_chunk filename parser p_idx s (length (t ∷ ts)) global_idx in
      parent ∷ child_chunks parent 0 (t ∷ ts) (suc global_idx)

  unfoldable pub all_sections : String → String → ℕ → List Section → ℕ → List Chunk
  unfolding child_chunks
  all_sections filename parser p_idx [] global_idx = []
  all_sections filename parser p_idx (s ∷ ss) global_idx =
      let made =
        section_chunks filename parser p_idx s (tools.split_children s.page_content) global_idx in
      made ++ all_sections filename parser (suc p_idx) ss (global_idx + length made)

  unfoldable pub split_structural : String → String → String → List Chunk
  unfolding all_sections
  split_structural full_text filename parser =
      all_sections filename parser 0 (tools.split_markdown full_text) 0
