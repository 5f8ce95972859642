-- ===== src/Retrieval/ParentStore.antt =====
-- backend/rag/parent_chunk_store.py: the writes of `ParentChunkStore`, each one transaction over the
-- table by `chunk_id`.
use paper_rag.Base.{
  ℕ, suc, ◌+◌, String, ◌≡◌, refl, Bool, false, Option, none, some, List, [], ◌∷◌, length, any, ◌==◌,
  string_eq, if◌then◌else◌, Result, ok, raise, arith,
}
use paper_rag.Base.Dict
use paper_rag.Base.Dict.{Dict}
use paper_rag.Base.Text.{strip, is_empty}
use paper_rag.Retrieval.Doc.{Doc}

pub data StoreError : Type 0 where
  no_chunk_id : StoreError

module _ {S : Type 0} where
  -- The row of a document: its identifier without the spaces around it, and the columns of the table.
  abbrev pub row_of : Doc S → Doc S
  row_of doc = record doc {
    chunk_id = strip doc.chunk_id;
    parent_idx = none;
    child_idx = 0;
    has_theorem = false;
    has_proof = false;
    score = none;
    rrf_rank = none;
    rerank_score = none;
    merged_child_count = none;
    formula_match = false;
  }

  -- The loop of the transaction; an exception rolls all of it back.
  unfoldable pub upsert_rows :
      List (Doc S) → Dict String (Doc S) → Result StoreError (Dict String (Doc S))
  upsert_rows [] table = ok table
  upsert_rows (doc ∷ docs) table =
      let rest = upsert_rows docs (Dict.put (strip doc.chunk_id) (row_of doc) table) in
      if is_empty (strip doc.chunk_id) then raise no_chunk_id else rest

  abbrev pub counted :
      ℕ → Result StoreError (Dict String (Doc S)) → Result StoreError (ℕ × Dict String (Doc S))
  counted n (ok table) = ok (n, table)
  counted n (raise e) = raise e

  unfoldable pub upsert_documents :
      List (Doc S) → Dict String (Doc S) → Result StoreError (ℕ × Dict String (Doc S))
  unfolding upsert_rows
  upsert_documents docs table = counted (length docs) (upsert_rows docs table)

  -- The last document with this identifier, as a row; else what the table has.
  unfoldable pub last_row : String → List (Doc S) → Option (Doc S) → Option (Doc S)
  last_row id [] old = old
  last_row id (doc ∷ docs) old =
      last_row id docs (if strip doc.chunk_id == id then some (row_of doc) else old)

  unfoldable pub remove_rows : String → Dict String (Doc S) → ℕ × Dict String (Doc S)
  remove_rows filename [] = (0, [])
  remove_rows filename ((id, row) ∷ table) =
      let rest = remove_rows filename table in
      if row.filename == filename then (suc rest.0, rest.1) else (rest.0, (id, row) ∷ rest.1)

  unfoldable pub delete_by_filename : String → Dict String (Doc S) → ℕ × Dict String (Doc S)
  unfolding remove_rows
  delete_by_filename filename table =
      if is_empty filename then (0, table) else remove_rows filename table

  abbrev pub of_file : String → String × Doc S → Bool
  of_file filename entry = entry.1.filename == filename

  remove_rows_lem :
      (filename : String) (table : Dict String (Doc S))
      → (any (of_file filename) (remove_rows filename table).1 ≡ false)
        × ((remove_rows filename table).0 + length (remove_rows filename table).1 ≡ length table)
  unfolding remove_rows
  remove_rows_lem filename [] = (refl, refl)
  remove_rows_lem filename ((id, row) ∷ table) = ground (arith, remove_rows_lem filename table)

  -- A deletion for a file leaves no row of it, and counts the rows that it removed.
  pub delete_leaves :
      (filename : String) (table : Dict String (Doc S))
      → is_empty filename ≡ false
      → (any (of_file filename) (delete_by_filename filename table).1 ≡ false)
        × ((delete_by_filename filename table).0 + length (delete_by_filename filename table).1
            ≡ length table)
  unfolding delete_by_filename
  delete_leaves filename table named = rw named (remove_rows_lem filename table)
