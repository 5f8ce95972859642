-- ===== src/Vectors/Writer.antt =====
-- backend/vectordb/milvus_writer.py: `MilvusWriter.write_documents`. The two vectors of a text, and
-- which of the calls fail, are arguments. A caller that gives no `progress_callback` is one whose
-- callback never fails.
use paper_rag.Base.{
  ℕ, zero, suc, ◌+◌, min, String, Bool, Option, none, some, List, [], ◌∷◌, ◌++◌, map, take, drop,
  length, nat_eq, ◌==◌, if◌then◌else◌,
}
use paper_rag.Loader.Chunk.{Chunk}

-- A row of the collection.
pub record VectorRow (V : Type 0) : Type 0 where
  pub embeddings : V
  pub row_text : String
  pub row_filename : String
  pub row_file_type : String
  pub row_file_path : String
  pub row_page_number : ℕ
  pub row_chunk_idx : ℕ
  pub row_chunk_id : String
  pub row_parent_chunk_id : String
  pub row_root_chunk_id : String
  pub row_chunk_level : ℕ
  pub row_parent_idx : ℕ
  pub row_child_idx : ℕ
  pub row_num_children : ℕ
  pub row_has_theorem : Bool
  pub row_has_proof : Bool

abbrev pub insert_row : {V : Type 0} → Chunk → V → VectorRow V
insert_row doc v = record {
  embeddings = v;
  row_text = doc.text;
  row_filename = doc.filename;
  row_file_type = doc.file_type;
  row_file_path = doc.file_path;
  row_page_number = doc.page_number;
  row_chunk_idx = doc.chunk_idx;
  row_chunk_id = doc.chunk_id;
  row_parent_chunk_id = doc.parent_chunk_id;
  row_root_chunk_id = doc.root_chunk_id;
  row_chunk_level = doc.chunk_level;
  row_parent_idx = doc.parent_idx;
  row_child_idx = doc.child_idx;
  row_num_children = doc.num_children;
  row_has_theorem = doc.has_theorem_in_parent;
  row_has_proof = doc.has_proof_in_parent;
}

pub data WriteError : Type 0 where
  init_failed register_failed embed_failed lengths_differ insert_failed report_failed : WriteError
  zero_step out_of_rounds : WriteError

-- `init_collection` and `increment_add_documents`, which come before the first batch.
pub data Start : Type 0 where
  ready init_fails register_fails : Start

-- A batch: `get_all_embeddings`, `insert` and `progress_callback` may fail.
pub data BatchCall : Type 0 where
  succeeds embedding_fails insertion_fails report_fails : BatchCall

-- The texts that the statistics were given, the collection, and the reports of the progress.
pub record Written (V : Type 0) : Type 0 where
  pub registered_texts : List String
  pub collection : List (VectorRow V)
  pub progress : List (ℕ × ℕ)

-- `zip(batch, …, strict=True)`
unfoldable pub zip_rows : {V : Type 0} → List Chunk → List V → Option (List (VectorRow V))
zip_rows [] [] = some []
zip_rows [] (v ∷ vs) = none
zip_rows (d ∷ ds) [] = none
zip_rows (d ∷ ds) (v ∷ vs) = elim (zip_rows ds vs) [
  | none ↦ none
  | some rows ↦ some (insert_row d v ∷ rows)
]

abbrev pub doc_texts : List Chunk → List String
doc_texts = map (λ d. d.text)

-- What becomes of the next batch, and of those after it.
abbrev pub this_round : List BatchCall → BatchCall
this_round [] = succeeds
this_round (r ∷ rs) = r

abbrev pub later_rounds : List BatchCall → List BatchCall
later_rounds [] = []
later_rounds (r ∷ rs) = rs

module _ {V : Type 0} (embed : List String → List V) (batch_size : ℕ) where
  abbrev pub insert_rows : List (VectorRow V) → Written V → Written V
  insert_rows rows s = record s { collection = s.collection ++ rows }

  abbrev pub insert_batch : List (VectorRow V) → ℕ → ℕ → Written V → Written V
  insert_batch rows i total s = record s {
    collection = s.collection ++ rows;
    progress = s.progress ++ ((min (i + batch_size) total, total) ∷ []);
  }

  -- The vectors, `zip`, `insert` and the report, and then the next batches.
  abbrev pub inserting :
      BatchCall
      → Option (List (VectorRow V))
      → Written V
      → (List (VectorRow V) → Option WriteError × Written V)
      → Option WriteError × Written V
  inserting embedding_fails zipped s go = (some embed_failed, s)
  inserting insertion_fails none s go = (some lengths_differ, s)
  inserting insertion_fails (some rows) s go = (some insert_failed, s)
  inserting report_fails none s go = (some lengths_differ, s)
  inserting report_fails (some rows) s go = (some report_failed, insert_rows rows s)
  inserting succeeds none s go = (some lengths_differ, s)
  inserting succeeds (some rows) s go = go rows

  -- The loop from document `i`; its rounds are the fuel.
  unfoldable pub write_batches :
      ℕ → ℕ → ℕ → List Chunk → List BatchCall → Written V → Option WriteError × Written V
  write_batches rounds i total [] rs s = (none, s)
  write_batches zero i total (d ∷ ds) rs s = (some out_of_rounds, s)
  write_batches (suc n) i total (d ∷ ds) rs s =
      let batch = take batch_size (d ∷ ds) in
      inserting (this_round rs) (zip_rows batch (embed (doc_texts batch))) s (λ rows.
        write_batches n (i + batch_size) total (drop batch_size (d ∷ ds)) (later_rounds rs)
          (insert_batch rows i total s))

  -- As many rounds as documents are enough.
  abbrev pub write_rounds : List Chunk → List BatchCall → Written V → Option WriteError × Written V
  write_rounds docs rs s =
      if batch_size == 0
      then (some zero_step, s)
      else write_batches (length docs) 0 (length docs) docs rs s

  unfoldable pub write_documents :
      List Chunk → Start → List BatchCall → Written V → Option WriteError × Written V
  unfolding write_batches
  write_documents [] start rs s = (none, s)
  write_documents (d ∷ ds) init_fails rs s = (some init_failed, s)
  write_documents (d ∷ ds) register_fails rs s = (some register_failed, s)
  write_documents (d ∷ ds) ready rs s =
      write_rounds (d ∷ ds) rs
        (record s { registered_texts = s.registered_texts ++ doc_texts (d ∷ ds) })
