-- ===== src/Documents/Recovery.antt =====
-- backend/services/document_jobs.py: `read_document_index` and `recover_pending_documents`.
use paper_rag.Base.{
  ℕ, zero, suc, String, string_eq, Bool, true, false, not, ◌||◌, Option, none, some, List, [], ◌∷◌,
  ◌==◌, if◌then◌else◌,
}
use paper_rag.Base.Dict
use paper_rag.Base.Dict.{Dict}
use paper_rag.Documents.Calls.{
  Pending, index, delete, Row, recovery_refused, operation_pending, invalid_filename, Action, pure,
  ◌>>=◌, ◌>>◌, look, reject_if, visit,
}
use paper_rag.Documents.Index.{
  Services, compute_file_hash, index_document_locked, remove_document_locked,
}
use paper_rag.Documents.Filename.{Names, validate_document_filename}

abbrev pub is_some : {A : Type 0} → Option A → Bool
is_some none = false
is_some (some a) = true

abbrev pub any_pending : List (String × Row) → Bool
any_pending [] = false
any_pending ((filename, row) ∷ rows) = is_some row.pending || any_pending rows

-- `source.is_file()`
abbrev pub source_of : {B : Type 0} → String → String → Dict String B → String
source_of source destination files = if is_some (Dict.get source files) then source else destination

abbrev pub move_to : String → String → Option String
move_to source destination = if source == destination then none else some destination

-- A reader holds the shared lock, under which no operation runs.
unfoldable pub read_document_index : {B P S : Type 0} → Action B P S (Unit {0})
read_document_index = do
  visit
  rows ← look (λ w. w.ingested)
  reject_if (any_pending rows) operation_pending

module _ {B P S : Type 0} (services : Services B P S) (names : Names) (points : String → List ℕ)
    (edit : String → Option B) where
  -- What is done once the source is settled.
  abbrev pub recover_from : String → String → String → String → Action B P S (Unit {0})
  recover_from filename destination hash source = do
    there ← look (λ w. is_some (Dict.get source w.files))
    reject_if (not there) recovery_refused
    found ← compute_file_hash services source
    reject_if (not (found == hash)) recovery_refused
    index_document_locked services source filename (move_to source destination) (some hash)
        (edit source)
    pure tt

  unfoldable pub recover_one : String → Pending → Action B P S (Unit {0})
  recover_one filename delete = do remove_document_locked services filename; pure tt
  recover_one filename (index stored destination hash) = do
    source ← look (λ w. source_of stored destination w.files)
    recover_from filename destination hash source

  -- A row, and then the rows after it.
  abbrev pub recover_row : String → Option Pending → Action B P S ℕ → Action B P S ℕ
  recover_row filename none rest = rest
  recover_row filename (some operation) rest = do
    reject_if (is_some (validate_document_filename names (points filename))) invalid_filename
    recover_one filename operation
    recovered ← rest
    pure (suc recovered)

  unfoldable pub recover_rows : List (String × Row) → Action B P S ℕ
  recover_rows [] = pure zero
  recover_rows ((filename, row) ∷ rows) = recover_row filename row.pending (recover_rows rows)

  abbrev pub replay : Action B P S ℕ
  replay = do visit; rows ← look (λ w. w.ingested); recover_rows rows

  unfoldable pub recover_pending_documents : Action B P S ℕ
  recover_pending_documents = do
    visit
    before ← look (λ w. w.ingested)
    if any_pending before then replay else pure zero
