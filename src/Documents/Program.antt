-- ===== src/Documents/Program.antt =====
-- backend/services/document_jobs.py with the loader of backend/rag/document_loader.py: what its operations
-- on the index leave. The store of parent chunks and the statistics are any functions on their tables.
use paper_rag.Base.{ℕ, String, ◌≡◌, false, Option, none, some, List, [], keep}
use paper_rag.Loader.Chunk.{Chunk}
use paper_rag.Loader.Identifiers.{IsDecimal}
use paper_rag.Loader.Splits.{Tools}
use paper_rag.Loader.Files.{Reading}
use paper_rag.Documents.Calls.{index, World, Faults, Ends, ok}
use paper_rag.Documents.Index.{Services, is_leaf, is_none_left, path_or, index_document_locked}
use paper_rag.Documents.Safety.{IsBegun}
use paper_rag.Documents.Filename.{Names}
use paper_rag.Documents.Loading.{program, program-IsSound}
use paper_rag.Documents.Locked.{IsDone, IsUndone, index_document_locked-Ends}
use paper_rag.Documents.Recovery.{read_document_index, recover_one}
use paper_rag.Documents.RecoveryLaws.{IsWhole, read_document_index-IsWhole}
use paper_rag.Documents.Replay.{IsRecovered, IsRecoverable, recover_one-Ends}
use paper_rag.Documents.Live.{recover_one-IsRecovered}

module _ {B P S : Type 0} (services : Services B P S) (tools : Tools)
    (decimal : IsDecimal tools.splitters.str) (read : B → Reading) (path : String)
    (injective : (x y : B) → services.digest x ≡ services.digest y → x ≡ y) where
  abbrev app : Services B P S
  app = program services tools read path

  -- Whatever call fails, also when another process writes the file once between the loader's read and the
  -- second hash: when the operation returns, the index holds the leaves of one content of the source, its
  -- parents were given to their table after a deletion for the file, the numbers of both are returned, and
  -- other files keep their records and vectors; when it does not, nothing is changed but by that write, or
  -- the intent is stored and the content is still there, or the index is complete. The digest tells
  -- contents apart, and decimal texts differ and hold no colon and no underscore.
  pub index_document-Ends :
      (filename source : String) (destination expected : Option String) (edit : Option B)
      (w : World B P S) (φ : Faults)
      → Ends
          (IsDone app filename source (path_or source destination) edit w)
          (IsUndone app filename source (path_or source destination) edit w)
          (index_document_locked app source filename destination expected edit w φ)
  index_document-Ends filename source destination expected edit w φ =
      index_document_locked-Ends app (program-IsSound services tools decimal read path) filename
        source destination edit w expected φ injective

  -- A reader whom the guard lets in after an operation on a file, done or failed, finds the index as it
  -- was before, or the complete index of a content of the file. Another process may have written the file once,
  -- between the loader's read and the second hash. The digest tells contents apart, and decimal texts
  -- differ and hold no colon and no underscore.
  pub read_index-IsWhole :
      (filename source : String) (destination expected : Option String) (edit : Option B)
      (w : World B P S) (φ ψ : Faults)
      → (read_document_index
          (index_document_locked app source filename destination expected edit w φ).world
          ψ).answer
        ≡ ok tt
      → IsWhole app filename source destination edit w
          (index_document_locked app source filename destination expected edit w φ).world
  read_index-IsWhole filename source destination expected edit w φ ψ =
      read_document_index-IsWhole app filename source destination edit w expected φ ψ
        (program-IsSound services tools decimal read path) injective

  module _ (names : Names) (points : String → List ℕ) (filename stored final : String) (b : B)
      (w : World B P S) (begun : IsBegun app filename stored final b w) where
    -- From a stored intent whose content is still there, while no other process writes the file, and
    -- whatever call fails: when the recovery of the row returns, the content is indexed at its place, no
    -- intent is left, and other files keep their records and vectors; when it does not, the intent is still
    -- stored with the content there, so that the next recovery can follow it, or the index is complete. The
    -- digest tells contents apart, and decimal texts differ and hold no colon and no underscore.
    pub recover-Ends :
        (φ : Faults)
        → Ends
            (λ u v. IsRecovered app filename final b w v)
            (IsRecoverable app filename final b)
            (recover_one app names points
              (λ path. none)
              filename
              (index stored final (services.digest b))
              w
              φ)
    recover-Ends φ =
        recover_one-Ends app (program-IsSound services tools decimal read path) injective names
          points filename stored final b w begun φ

    -- A recovery in which no call fails completes what was begun: from a stored intent whose content is
    -- still there and is parsed into leaves, the content is indexed at its place, no intent is left, and
    -- other files keep their records and vectors. The digest tells contents apart, and decimal texts
    -- differ and hold no colon and no underscore.
    pub recover-IsRecovered :
        (docs : List Chunk)
        → app.load_document filename b ≡ some docs
        → is_none_left (keep is_leaf docs) ≡ false
        → IsRecovered app filename final b w
            (recover_one app names points
              (λ path. none)
              filename
              (index stored final (services.digest b))
              w
              []).world
    recover-IsRecovered docs loaded has_leaves =
        recover_one-IsRecovered app names points filename stored final b docs w
          (program-IsSound services tools decimal read path) injective loaded has_leaves begun
