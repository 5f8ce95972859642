-- ===== src/Documents/Index.antt =====
-- backend/services/document_jobs.py: `_index_document_locked`, `_remove_document_locked`,
-- `read_document_index` and `recover_pending_documents`, under the lock of the index, with
-- `_mark_pending`, `_update_ingested_record` and `_remove_existing_index`.
use paper_rag.Base.{
  ℕ, zero, suc, String, Bool, true, false, not, ◌||◌, Option, none, some, List, [], ◌∷◌, ◌++◌, map,
  keep, take, length, ◌==◌, string_eq, nat_eq, if◌then◌else◌,
}
use paper_rag.Base.Dict
use paper_rag.Base.Dict.{Dict}
use paper_rag.Loader.Chunk.{Chunk}
use paper_rag.Loader.Splits.{plain_chunk}
use paper_rag.Documents.Calls.{
  Pending, index, delete, Row, World, file_missing, file_changed, parse_failed, no_leaves,
  changed_while_parsed, Action, pure, fail, ◌>>=◌, ◌>>◌, look, reject_if, call, write, visit,
}

-- The code that the operations call: SHA-256 of a content, the loader on a content and a name, the
-- store of parent chunks and the BM25 statistics. What these do to their tables is not said here:
-- Retrieval/ParentStore.antt and Bm25 model them.
pub record Services (B P S : Type 0) : Type 0 where
  pub digest : B → String
  pub load_document : String → B → Option (List Chunk)
  pub upsert_parents : List Chunk → P → P
  pub delete_parents : String → P → P
  pub restate_documents : List String → S → S
  pub add_documents : List String → S → S

abbrev pub is_of_file : String → Chunk → Bool
is_of_file filename c = c.filename == filename

abbrev pub other_file : String → Chunk → Bool
other_file filename c = not (c.filename == filename)

-- What is left when the first `n` rows of a file are deleted.
unfoldable pub drop_rows : String → ℕ → List Chunk → List Chunk
drop_rows filename zero cs = cs
drop_rows filename (suc n) [] = []
drop_rows filename (suc n) (c ∷ cs) =
    if c.filename == filename then drop_rows filename n cs else c ∷ drop_rows filename (suc n) cs

abbrev pub texts_of : List Chunk → List String
texts_of = map (λ c. c.text)

abbrev pub is_parent : Chunk → Bool
is_parent c = c.chunk_level == 1 || c.chunk_level == 2

abbrev pub is_leaf : Chunk → Bool
is_leaf c = c.chunk_level == 3

abbrev pub is_none_left : List Chunk → Bool
is_none_left [] = true
is_none_left (c ∷ cs) = false

-- `row["file_path"] = …`
abbrev pub relocated : String → Chunk → Chunk
relocated path c = record c { file_path = path }

abbrev pub placed : String → List Chunk → List Chunk
placed path = map (relocated path)

-- The columns that `MilvusWriter.write_documents` stores; the two vectors are left out.
abbrev pub vector_columns : Chunk → Chunk
vector_columns c = record plain_chunk {
  text = c.text;
  filename = c.filename;
  file_type = c.file_type;
  file_path = c.file_path;
  page_number = c.page_number;
  chunk_idx = c.chunk_idx;
  chunk_id = c.chunk_id;
  parent_chunk_id = c.parent_chunk_id;
  root_chunk_id = c.root_chunk_id;
  chunk_level = c.chunk_level;
  parent_idx = c.parent_idx;
  child_idx = c.child_idx;
  num_children = c.num_children;
  has_theorem_in_parent = c.has_theorem_in_parent;
  has_proof_in_parent = c.has_proof_in_parent;
}

abbrev pub no_row : String → Row
no_row path = record { hash = ""; path = path; pending = none }

abbrev pub row_or : Row → Option Row → Row
row_or r none = r
row_or r (some s) = s

-- `operation.get("destination", "")`
abbrev pub destination_of : Pending → String
destination_of (index source destination hash) = destination
destination_of delete = ""

abbrev pub differs : Option String → String → Bool
differs none h = false
differs (some e) h = not (h == e)

abbrev pub path_or : String → Option String → String
path_or source none = source
path_or source (some destination) = destination

-- While the loader works, another process may write the file once, after the loader has read it and before
-- the second hash is taken. Other writes by other processes are not represented.
abbrev pub edited_files : {B : Type 0} → String → Option B → Dict String B → Dict String B
edited_files path none fs = fs
edited_files path (some b) fs = Dict.put path b fs

module _ {B P S : Type 0} where
  abbrev pub set_record : String → Option Row → World B P S → World B P S
  set_record filename none w = record w { ingested = Dict.remove filename w.ingested }
  set_record filename (some row) w = record w { ingested = Dict.put filename row w.ingested }

  -- The state is replaced by `os.replace`, whole or not at all.
  unfoldable pub update_ingested_record : String → Option Row → Action B P S (Unit {0})
  update_ingested_record filename row = write (set_record filename row)

  unfoldable pub mark_pending : String → Pending → Action B P S (Unit {0})
  unfolding update_ingested_record
  mark_pending filename operation = do
    previous ← look (λ w. row_or (no_row (destination_of operation)) (Dict.get filename w.ingested))
    update_ingested_record filename (some (record previous { pending = some operation }))

  abbrev pub edited : String → Option B → World B P S → World B P S
  edited path edit w = record w { files = edited_files path edit w.files }

  abbrev pub moved_file : String → String → Option B → World B P S → World B P S
  moved_file source destination none w = w
  moved_file source destination (some b) w = record w {
    files = Dict.put destination b (Dict.remove source w.files);
  }

  -- `os.replace(source, destination)`, which is atomic
  unfoldable pub move : String → Option String → Action B P S (Unit {0})
  move source none = pure tt
  move source (some destination) =
      write (λ w. moved_file source destination (Dict.get source w.files) w)

  -- The loader raises, or it returns the chunks.
  abbrev pub chunks_of : Option (List Chunk) → Action B P S (List Chunk)
  chunks_of none = fail parse_failed
  chunks_of (some docs) = pure docs

module _ {B P S : Type 0} (services : Services B P S) where
  -- A missing file cannot be opened.
  abbrev pub digest_of : Option B → Action B P S String
  digest_of none = fail file_missing
  digest_of (some b) = pure (services.digest b)

  unfoldable pub compute_file_hash : String → Action B P S String
  compute_file_hash path = do visit; content ← look (λ w. Dict.get path w.files); digest_of content

  abbrev pub parsed : String → Option B → Action B P S (List Chunk)
  parsed filename none = fail parse_failed
  parsed filename (some b) = chunks_of (services.load_document filename b)

  unfoldable pub load_document : String → String → Option B → Action B P S (List Chunk)
  load_document path filename edit = do
    content ← look (λ w. Dict.get path w.files)
    call (edited path edit) (λ n. edited path edit)
    parsed filename content

  unfoldable pub remove_existing_index : String → Action B P S ℕ
  unfolding drop_rows
  remove_existing_index filename = do
    count ← look (λ w. length (keep (is_of_file filename) w.vectors))
    call (λ w. record w { vectors = keep (other_file filename) w.vectors })
        (λ n w. record w { vectors = drop_rows filename n w.vectors })
    write (λ w. record w { parents = services.delete_parents filename w.parents })
    surviving ← look (λ w. keep is_leaf w.vectors)
    write (λ w. record w { stats = services.restate_documents (texts_of surviving) w.stats })
    pure count

  -- `write_documents` registers the texts first and then inserts the rows in batches.
  abbrev pub inserted : List Chunk → ℕ → World B P S → World B P S
  inserted leaves zero w = w
  inserted leaves (suc n) w = record w {
    stats = services.add_documents (texts_of leaves) w.stats;
    vectors = w.vectors ++ take n (map vector_columns leaves);
  }

  unfoldable pub write_documents : List Chunk → Action B P S (Unit {0})
  write_documents leaves = call (inserted leaves (suc (length leaves))) (inserted leaves)

  -- From the intent to the end: everything that changes the index.
  unfoldable pub replace_index :
      String → String → Option String → String → List Chunk → Action B P S (Unit {0})
  unfolding mark_pending remove_existing_index write_documents move update_ingested_record
  replace_index source filename destination hash docs = do
    let final = path_or source destination
    mark_pending filename (index source final hash)
    visit
    count ← remove_existing_index filename
    visit
    write (λ w. record w {
      parents = services.upsert_parents (placed final (keep is_parent docs)) w.parents;
    })
    visit
    write_documents (placed final (keep is_leaf docs))
    move source destination
    update_ingested_record filename (some (record { hash = hash; path = final; pending = none }))

  unfoldable pub index_document_locked :
      String → String → Option String → Option String → Option B → Action B P S (ℕ × ℕ)
  unfolding compute_file_hash load_document replace_index
  index_document_locked source filename destination expected edit = do
    visit
    before ← compute_file_hash source
    reject_if (differs expected before) file_changed
    docs ← load_document source filename edit
    reject_if (is_none_left (keep is_leaf docs)) no_leaves
    after ← compute_file_hash source
    reject_if (not (after == before)) changed_while_parsed
    visit
    replace_index source filename destination before docs
    pure (length (keep is_leaf docs), length (keep is_parent docs))

  unfoldable pub remove_document_locked : String → Action B P S ℕ
  unfolding mark_pending remove_existing_index update_ingested_record
  remove_document_locked filename = do
    visit
    mark_pending filename delete
    count ← remove_existing_index filename
    update_ingested_record filename none
    pure count
