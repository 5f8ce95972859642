-- ===== src/Loader/Levels.antt =====
-- backend/rag/document_loader.py: `_build_chunk_id` and `_split_page_to_three_levels`. The splitters
-- and the decimal text of a number are parameters.
use Prim.Native.String.{◌++◌ as ◌++ₜ◌}
use paper_rag.Base.{ℕ, suc, String, not, List, [], ◌∷◌, ◌++◌, map, keep, if◌then◌else◌}
use paper_rag.Base.Text.{strip, is_empty}
use paper_rag.Loader.Chunk.{Chunk}

abbrev pub build_chunk_id : (ℕ → String) → String → ℕ → ℕ → ℕ → String
build_chunk_id str filename page_number level index =
    filename ++ₜ ("::p" ++ₜ (str page_number ++ₜ ("::l" ++ₜ (str level ++ₜ ("::" ++ₜ str index)))))

-- The counters of the three levels and the next position in the document.
pub record Counters : Type 0 where
  pub level_1_counter : ℕ
  pub level_2_counter : ℕ
  pub level_3_counter : ℕ
  pub page_global_chunk_idx : ℕ

-- The stripped texts of the pieces, without the empty ones.
abbrev pub pieces : List String → List String
pieces docs = keep (λ t. not (is_empty t)) (map strip docs)

pub record Splitters : Type 0 where
  pub str : ℕ → String
  pub split_1 : String → List String
  pub split_2 : String → List String
  pub split_3 : String → List String

module _ (tools : Splitters) (base : Chunk) where
  abbrev pub id_of : ℕ → ℕ → String
  id_of level index = build_chunk_id tools.str base.filename base.page_number level index

  abbrev pub chunk_at : String → String → String → String → ℕ → ℕ → Chunk
  chunk_at text id parent root level idx = record base {
    text = text;
    chunk_id = id;
    parent_chunk_id = parent;
    root_chunk_id = root;
    chunk_level = level;
    chunk_idx = idx;
  }

  abbrev pub after_1 : Counters → Counters
  after_1 c = record c {
    level_1_counter = suc c.level_1_counter;
    page_global_chunk_idx = suc c.page_global_chunk_idx;
  }

  abbrev pub after_2 : Counters → Counters
  after_2 c = record c {
    level_2_counter = suc c.level_2_counter;
    page_global_chunk_idx = suc c.page_global_chunk_idx;
  }

  abbrev pub after_3 : Counters → Counters
  after_3 c = record c {
    level_3_counter = suc c.level_3_counter;
    page_global_chunk_idx = suc c.page_global_chunk_idx;
  }

  abbrev pub leaf_at : String → String → String → Counters → Chunk
  leaf_at root parent text c =
      chunk_at text (id_of 3 c.level_3_counter) parent root 3 c.page_global_chunk_idx

  abbrev pub middle_at : String → String → Counters → Chunk
  middle_at root text c =
      chunk_at text (id_of 2 c.level_2_counter) root root 2 c.page_global_chunk_idx

  abbrev pub root_at : String → Counters → Chunk
  root_at text c =
      chunk_at text (id_of 1 c.level_1_counter) "" (id_of 1 c.level_1_counter) 1
        c.page_global_chunk_idx

  -- The loops over the pieces of the third, the second and the first level.
  unfoldable pub leaf_chunks : String → String → List String → Counters → List Chunk × Counters
  leaf_chunks root parent [] c = ([], c)
  leaf_chunks root parent (text ∷ texts) c =
      let rest = leaf_chunks root parent texts (after_3 c) in
      (leaf_at root parent text c ∷ rest.0, rest.1)

  unfoldable pub middle_chunks : String → List String → Counters → List Chunk × Counters
  middle_chunks root [] c = ([], c)
  middle_chunks root (text ∷ texts) c =
      let below =
        leaf_chunks root (id_of 2 c.level_2_counter) (pieces (tools.split_3 text)) (after_2 c) in
      let rest = middle_chunks root texts below.1 in
      (middle_at root text c ∷ (below.0 ++ rest.0), rest.1)

  unfoldable pub root_chunks : List String → Counters → List Chunk × Counters
  root_chunks [] c = ([], c)
  root_chunks (text ∷ texts) c =
      let below =
        middle_chunks (id_of 1 c.level_1_counter) (pieces (tools.split_2 text)) (after_1 c) in
      let rest = root_chunks texts below.1 in (root_at text c ∷ (below.0 ++ rest.0), rest.1)

  abbrev pub from_idx : ℕ → Counters
  from_idx idx = record {
    level_1_counter = 0;
    level_2_counter = 0;
    level_3_counter = 0;
    page_global_chunk_idx = idx;
  }

  unfoldable pub split_page_to_three_levels : String → ℕ → List Chunk
  unfolding root_chunks
  split_page_to_three_levels text idx =
      if is_empty text then [] else (root_chunks (pieces (tools.split_1 text)) (from_idx idx)).0
