-- ===== src/Documents/Loading.antt =====
-- backend/services/document_jobs.py with the loader of backend/rag/document_loader.py.
use paper_rag.Base.{
  ℕ, String, string_eq, nat_eq, ◌≡◌, subst, true, Option, none, some, List, keep, All, arith,
  Result, ok, raise,
}
use paper_rag.Loader.Chunk.{Chunk}
use paper_rag.Loader.Identifiers.{IsDecimal}
use paper_rag.Loader.Forest.{IsForest}
use paper_rag.Loader.Splits.{Tools}
use paper_rag.Loader.Files.{Reading, LoadError, load_document}
use paper_rag.Loader.Loads.{Returns, load_document-IsForest}
use paper_rag.Documents.Calls as Calls
use paper_rag.Documents.Calls.{World, Faults, EndsBy}
use paper_rag.Documents.Index.{
  Services, is_of_file, is_parent, placed, path_or, index_document_locked,
}
use paper_rag.Documents.Safety.{IsSound}
use paper_rag.Documents.Locked.{IsDone, IsUndone, index_document_locked-Ends}
use paper_rag.Documents.References.{has_parent, indexed-has_parents}

abbrev pub to_option : Result LoadError (List Chunk) → Option (List Chunk)
to_option (ok xs) = some xs
to_option (raise e) = none

-- `get_document_loader().load_document(path, filename)`, where what the libraries make of a content is given.
abbrev pub loader : {B : Type 0} → Tools → (B → Reading) → String → String → B → Option (List Chunk)
loader tools read path filename b = to_option (load_document tools (read b) path filename)

abbrev pub with_loader :
    {B P S : Type 0} → Services B P S → (String → B → Option (List Chunk)) → Services B P S
with_loader services load = record services { load_document = load }

-- The services with the program's loader.
abbrev pub program :
    {B P S : Type 0} → Services B P S → Tools → (B → Reading) → String → Services B P S
program services tools read path = with_loader services (loader tools read path)

-- The table of parents was last given a deletion for the file, and then chunks among which each leaf of
-- the file in the index finds its parent, with the same root.
pub record HasParents {B P S : Type 0} (services : Services B P S) (filename : String)
    (w : World B P S) : Type 0 where
  pub given : List Chunk
  pub upserted_last :
      (p : P) × (w.parents ≡ services.upsert_parents given (services.delete_parents filename p))
  pub all_found : All (λ leaf. has_parent given leaf ≡ true) (keep (is_of_file filename) w.vectors)

option-IsForest :
    (filename : String) (r : Result LoadError (List Chunk)) (cs : List Chunk)
    → Returns (IsForest filename 0) r
    → to_option r ≡ some cs
    → IsForest filename 0 cs
option-IsForest filename (ok xs) cs h e = subst (IsForest filename 0) (ground (arith, e)) h
option-IsForest filename (raise x) cs h e = absurd (ground (arith, e))

module _ {B P S : Type 0} (services : Services B P S) (tools : Tools)
    (decimal : IsDecimal tools.splitters.str) (read : B → Reading) (path : String) where
  loader-IsForest :
      (f : String) (b : B) (cs : List Chunk)
      → loader tools read path f b ≡ some cs
      → IsForest f 0 cs
  loader-IsForest f b cs e =
      option-IsForest f (load_document tools (read b) path f) cs
        (load_document-IsForest tools decimal (read b) path f) e

  -- The loader keeps what the operations rely on.
  pub program-IsSound : IsSound (program services tools read path)
  program-IsSound = record { named = λ f b cs e. (loader-IsForest f b cs e).all_named }

  abbrev all : Services B P S
  all = program services tools read path

  -- When an operation that loads a document with the loader has returned, the table of parents was last given
  -- a deletion for the file, and then chunks among which each leaf of the file in the index finds its parent, with the
  -- same root. Another process may have written the file once, between the loader's read and the second
  -- hash. The digest tells contents apart, and decimal texts differ and hold no colon and no underscore.
  pub index_document_locked-HasParents :
      (filename source : String) (destination expected : Option String) (edit : Option B)
      (w : World B P S) (φ : Faults) (n : ℕ × ℕ)
      → ((x y : B) → services.digest x ≡ services.digest y → x ≡ y)
      → (index_document_locked all source filename destination expected edit w φ).answer
        ≡ Calls.ok n
      → HasParents all filename
          (index_document_locked all source filename destination expected edit w φ).world
  index_document_locked-HasParents filename source destination expected edit w φ n injective
        returned =
      let o = index_document_locked all source filename destination expected edit w φ in
      let done : IsDone all filename source (path_or source destination) edit w n o.world =
        subst
          (λ a.
            EndsBy (λ k v. IsDone all filename source (path_or source destination) edit w k v)
              (λ v. IsUndone all filename source (path_or source destination) edit w v) a o.world)
          returned
          (index_document_locked-Ends all program-IsSound filename source destination edit w
            expected φ injective).holds in
      record {
        given = placed (path_or source destination) (keep is_parent done.docs);
        upserted_last = done.is_indexed.parents_of;
        all_found =
            indexed-has_parents all filename (path_or source destination) done.content done.docs
              o.world (loader-IsForest filename done.content done.docs done.loaded) done.is_indexed;
      }
