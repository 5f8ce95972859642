-- ===== src/Documents/Tests.antt =====
-- Runs of the operations of backend/services/document_jobs.py.
use paper_rag.Base.{
  ◌⊎◌, ℕ, ◌+◌, String, string_eq, ◌≡◌, ◌≢◌, refl, ap, ◌∙◌, subst, true, false, inl, inr, Option,
  none, some, List, [], ◌∷◌, ◌++◌, All, keep, length, arith, ==_iff, ==_refl, ◌==◌, Bool-cases,
}
use paper_rag.Base.Dict
use paper_rag.Base.Dict.{Dict}
use paper_rag.Loader.Chunk.{Chunk}
use paper_rag.Loader.Samples.{marks-IsDecimal, knives, reading_of}
use paper_rag.Documents.Loading.{loader, program, HasParents, index_document_locked-HasParents}
use paper_rag.Documents.Program.{
  index_document-Ends, read_index-IsWhole, recover-Ends, recover-IsRecovered,
}
use paper_rag.Documents.Calls.{index, World, Faults, ok, Ends, call}
use paper_rag.Documents.Index.{
  Services, other_file, index_document_locked, remove_document_locked, compute_file_hash,
}
use paper_rag.Documents.Safety.{IsBegun, KeepsOthers}
use paper_rag.Documents.Filename.{Names, FilenameError, validate_document_filename}
use paper_rag.Documents.FilenameLaws.{IsSegment, accepted-IsSegment}
use paper_rag.Documents.Locked.{IsDone, IsUndone}
use paper_rag.Documents.Remove.{IsGone, IsRemovalLeft}
use paper_rag.Documents.Removal.{remove_document_locked-Ends}
use paper_rag.Documents.Recovery.{
  read_document_index, recover_one, recover_pending_documents, recover_rows,
}
use paper_rag.Documents.RecoveryLaws.{IsWhole}
use paper_rag.Documents.Replay.{IsRecovered, IsRecoverable}

abbrev test_chunk : String → String → String → ℕ → Chunk
test_chunk text filename id level = record {
  text = text;
  filename = filename;
  file_path = "";
  file_type = "PDF";
  page_number = 1;
  parser = "structural";
  chunk_id = id;
  parent_chunk_id = "";
  root_chunk_id = "";
  chunk_level = level;
  chunk_idx = 0;
  parent_idx = 0;
  child_idx = 0;
  num_children = 0;
  parent_content = "";
  chapter_path = "";
  has_theorem_in_parent = false;
  has_proof_in_parent = false;
  formulas = [];
  citations = [];
  glossary_terms = [];
  has_formula = false;
  has_citation = false;
  has_glossary = false;
  has_figure = false;
  has_table = false;
}

-- Contents are texts, and each makes a parent and a leaf.
abbrev shop : Services String (List Chunk) ℕ
shop = record {
  digest = λ b. b;
  load_document = λ f b. some (test_chunk b f "p" 1 ∷ test_chunk b f "c" 3 ∷ []);
  upsert_parents = λ cs p. p ++ cs;
  delete_parents = λ f p. keep (other_file f) p;
  restate_documents = λ ts s. length ts;
  add_documents = λ ts s. s + length ts;
}

abbrev app : Services String (List Chunk) ℕ
app = program shop knives reading_of "/in/a.doc"

abbrev shelf : World String (List Chunk) ℕ
shelf = record {
  ingested = ("b.pdf", record { hash = "beta"; path = "/b.pdf"; pending = none }) ∷ [];
  files = ("/in/a.pdf", "alpha") ∷ ("/b.pdf", "beta") ∷ [];
  vectors = test_chunk "beta" "b.pdf" "bc" 3 ∷ test_chunk "old" "a.pdf" "ac" 3 ∷ [];
  parents = test_chunk "beta" "b.pdf" "bp" 1 ∷ [];
  stats = 2;
}

-- The eighth call fails.
abbrev late_fault : Faults
late_fault = none ∷ none ∷ none ∷ none ∷ none ∷ none ∷ none ∷ some 1 ∷ []

abbrev doc_shelf : World String (List Chunk) ℕ
doc_shelf = record shelf { files = ("/in/a.doc", "gamma") ∷ [] }

index_document-Ends_example :
    Ends
      (IsDone app "a.doc" "/in/a.doc" "/a.doc" none doc_shelf)
      (IsUndone app "a.doc" "/in/a.doc" "/a.doc" none doc_shelf)
      (index_document_locked app "/in/a.doc" "a.doc" (some "/a.doc") none none doc_shelf late_fault)
index_document-Ends_example =
    index_document-Ends shop knives marks-IsDecimal reading_of "/in/a.doc" (λ x y e. e) "a.doc"
      "/in/a.doc" (some "/a.doc") none none doc_shelf late_fault

remove_document_locked-Ends_example :
    Ends
      (λ n v. (IsGone shop "b.pdf" shelf v × KeepsOthers shop "b.pdf" shelf v) × (n ≡ 1))
      (IsRemovalLeft shop "b.pdf" shelf)
      (remove_document_locked shop "b.pdf" shelf late_fault)
remove_document_locked-Ends_example = remove_document_locked-Ends shop "b.pdf" shelf late_fault

read_index-IsWhole_example :
    IsWhole app "a.doc" "/in/a.doc"
      (some "/a.doc")
      none
      doc_shelf
      (index_document_locked app "/in/a.doc" "a.doc" (some "/a.doc") none none doc_shelf []).world
unfolding index_document_locked read_document_index call Dict.get Dict.put
    paper_rag.Loader.Files.load_document paper_rag.Base.Text.strip
    paper_rag.Loader.Levels.middle_chunks paper_rag.Loader.Levels.leaf_chunks
read_index-IsWhole_example =
    read_index-IsWhole shop knives marks-IsDecimal reading_of "/in/a.doc" (λ x y e. e) "a.doc"
      "/in/a.doc" (some "/a.doc") none none doc_shelf [] [] refl

-- The process ended when the file was moved and the state was not yet written.
abbrev moved_shelf : World String (List Chunk) ℕ
moved_shelf = record shelf {
  ingested =
      (
        "a.pdf",
        record { hash = ""; path = "/a.pdf"; pending = some (index "/in/a.pdf" "/a.pdf" "alpha") },
      )
      ∷ shelf.ingested;
  files = ("/b.pdf", "beta") ∷ ("/a.pdf", "alpha") ∷ [];
}

abbrev moved_doc : World String (List Chunk) ℕ
moved_doc = record shelf {
  ingested =
      (
        "a.doc",
        record { hash = ""; path = "/a.doc"; pending = some (index "/in/a.doc" "/a.doc" "gamma") },
      )
      ∷ shelf.ingested;
  files = ("/b.pdf", "beta") ∷ ("/a.doc", "gamma") ∷ [];
}

moved_doc-IsBegun : IsBegun app "a.doc" "/in/a.doc" "/a.doc" "gamma" moved_doc
unfolding Dict.get
moved_doc-IsBegun = record {
  marked = (
    record { hash = ""; path = "/a.doc"; pending = some (index "/in/a.doc" "/a.doc" "gamma") },
    refl,
    refl,
  );
  present = inr (refl, refl);
}

abbrev plain_names : Names
plain_names = record { strip = λ s. s; rstrip = λ s. s; upper = λ s. s; path_name = λ s. s }

recover-Ends_example :
    Ends
      (λ u v. IsRecovered app "a.doc" "/a.doc" "gamma" moved_doc v)
      (IsRecoverable app "a.doc" "/a.doc" "gamma")
      (recover_one app plain_names
        (λ s. [])
        (λ path. none)
        "a.doc"
        (index "/in/a.doc" "/a.doc" "gamma")
        moved_doc
        late_fault)
recover-Ends_example =
    recover-Ends shop knives marks-IsDecimal reading_of "/in/a.doc" (λ x y e. e) plain_names
      (λ s. []) "a.doc" "/in/a.doc" "/a.doc" "gamma" moved_doc moved_doc-IsBegun late_fault

abbrev chunks_or_none : Option (List Chunk) → List Chunk
chunks_or_none none = []
chunks_or_none (some cs) = cs

abbrev doc_chunks : List Chunk
doc_chunks = chunks_or_none (loader knives reading_of "/in/a.doc" "a.doc" "gamma")

recover-IsRecovered_example :
    IsRecovered app "a.doc" "/a.doc" "gamma" moved_doc
      (recover_one app plain_names
        (λ s. [])
        (λ path. none)
        "a.doc"
        (index "/in/a.doc" "/a.doc" "gamma")
        moved_doc
        []).world
unfolding paper_rag.Loader.Files.load_document paper_rag.Base.Text.strip
    paper_rag.Loader.Levels.middle_chunks paper_rag.Loader.Levels.leaf_chunks
recover-IsRecovered_example =
    recover-IsRecovered shop knives marks-IsDecimal reading_of "/in/a.doc" (λ x y e. e) plain_names
      (λ s. []) "a.doc" "/in/a.doc" "/a.doc" "gamma" moved_doc moved_doc-IsBegun doc_chunks refl
      refl

-- a.p
accepted-IsSegment_example :
    ((validate_document_filename plain_names (97 ∷ 46 ∷ 112 ∷ []) ≡ none)
      × IsSegment plain_names (97 ∷ 46 ∷ 112 ∷ []))
    ⊎ ((e : FilenameError) × (validate_document_filename plain_names (97 ∷ 46 ∷ 112 ∷ []) ≡ some e)
        × ¬ (IsSegment plain_names (97 ∷ 46 ∷ 112 ∷ [])))
accepted-IsSegment_example = accepted-IsSegment plain_names (97 ∷ 46 ∷ 112 ∷ [])

-- A recovery of the whole state, and names that are refused.
recover_pending_documents_run :
    (recover_pending_documents shop plain_names (λ s. 97 ∷ []) (λ path. none) moved_shelf []).answer
    ≡ ok 1
unfolding recover_pending_documents call recover_rows validate_document_filename recover_one
    Dict.get compute_file_hash index_document_locked
recover_pending_documents_run = refl

index_document_locked-HasParents_example :
    HasParents app "a.doc"
      (index_document_locked app "/in/a.doc" "a.doc" none none none doc_shelf []).world
unfolding index_document_locked call Dict.get paper_rag.Loader.Files.load_document
    paper_rag.Base.Text.strip paper_rag.Loader.Levels.middle_chunks
    paper_rag.Loader.Levels.leaf_chunks
index_document_locked-HasParents_example =
    index_document_locked-HasParents shop knives marks-IsDecimal reading_of "/in/a.doc" "a.doc"
      "/in/a.doc" none none none doc_shelf [] (2, 2) (λ x y e. e) refl
