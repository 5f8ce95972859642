-- ===== src/Documents/Before.antt =====
-- backend/services/document_jobs.py: the steps of `_index_document_locked` before the intent, which
-- read and check and change nothing that it keeps.
use paper_rag.Base.{
  String, string_eq, ◌≡◌, refl, Bool, true, false, Option, none, some, List, [], ◌∷◌,
}
use paper_rag.Base.Dict
use paper_rag.Base.Dict.{Dict}
use paper_rag.Loader.Chunk.{Chunk}
use paper_rag.Documents.Calls.{World, Faults, DocError, Action, Ends, call, visit, reject_if, ◌>>=◌}
use paper_rag.Documents.Index.{
  Services, compute_file_hash, load_document, digest_of, parsed, chunks_of, edited,
}

module _ {B P S : Type 0} {C : Type 0} {Q : C → World B P S → Type 0}
    {R : World B P S → Type 0} where
  pub visit-then :
      (f : Unit {0} → Action B P S C) (w : World B P S) (φ : Faults)
      → R w
      → ((ψ : Faults) → Ends Q R (f tt w ψ))
      → Ends Q R ((visit >>= f) w φ)
  unfolding call
  visit-then f w [] r k = k []
  visit-then f w (none ∷ φ) r k = k φ
  visit-then f w (some n ∷ φ) r k = record { holds = r }

  pub reject-then :
      (test : Bool) (e : DocError) (f : Unit {0} → Action B P S C) (w : World B P S) (φ : Faults)
      → R w
      → (test ≡ false → Ends Q R (f tt w φ))
      → Ends Q R ((reject_if test e >>= f) w φ)
  reject-then true e f w φ r k = record { holds = r }
  reject-then false e f w φ r k = k refl

  pub hash-then :
      (services : Services B P S) (path : String) (f : String → Action B P S C) (w : World B P S)
      (φ : Faults)
      → R w
      → ((b : B) (ψ : Faults)
          → Dict.get path w.files ≡ some b
          → Ends Q R (f (services.digest b) w ψ))
      → Ends Q R ((compute_file_hash services path >>= f) w φ)
  unfolding call compute_file_hash
  hash-then services path f w φ r k = by_fault φ
    where
      opened :
          (content : Option B) (ψ : Faults)
          → Dict.get path w.files ≡ content
          → Ends Q R ((digest_of services content >>= f) w ψ)
      opened none ψ e = record { holds = r }
      opened (some b) ψ e = k b ψ e

      by_fault : (ψ : Faults) → Ends Q R ((compute_file_hash services path >>= f) w ψ)
      by_fault [] = opened (Dict.get path w.files) [] refl
      by_fault (none ∷ ψ) = opened (Dict.get path w.files) ψ refl
      by_fault (some n ∷ ψ) = record { holds = r }

  pub load-then :
      (services : Services B P S) (path filename : String) (edit : Option B)
      (f : List Chunk → Action B P S C) (w : World B P S) (φ : Faults)
      → R (edited path edit w)
      → ((b : B) (docs : List Chunk) (ψ : Faults)
          → Dict.get path w.files ≡ some b
          → services.load_document filename b ≡ some docs
          → Ends Q R (f docs (edited path edit w) ψ))
      → Ends Q R ((load_document services path filename edit >>= f) w φ)
  unfolding call load_document
  load-then services path filename edit f w φ r k = by_fault φ
    where
      after : World B P S
      after = edited path edit w

      by_result :
          (b : B) (result : Option (List Chunk)) (ψ : Faults)
          → Dict.get path w.files ≡ some b
          → services.load_document filename b ≡ result
          → Ends Q R ((chunks_of result >>= f) after ψ)
      by_result b none ψ e l = record { holds = r }
      by_result b (some docs) ψ e l = k b docs ψ e l

      by_content :
          (content : Option B) (ψ : Faults)
          → Dict.get path w.files ≡ content
          → Ends Q R ((parsed services filename content >>= f) after ψ)
      by_content none ψ e = record { holds = r }
      by_content (some b) ψ e = by_result b (services.load_document filename b) ψ e refl

      by_fault : (ψ : Faults) → Ends Q R ((load_document services path filename edit >>= f) w ψ)
      by_fault [] = by_content (Dict.get path w.files) [] refl
      by_fault (none ∷ ψ) = by_content (Dict.get path w.files) ψ refl
      by_fault (some n ∷ ψ) = record { holds = r }
