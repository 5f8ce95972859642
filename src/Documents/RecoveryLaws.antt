-- ===== src/Documents/RecoveryLaws.antt =====
-- backend/services/document_jobs.py: what a reader of the index sees, and what a recovery leaves.
use paper_rag.Base.{
  ℕ, String, string_eq, ◌≡◌, refl, sym, ◌∙◌, subst, Bool, true, false, ◌||◌, inl, inr, Option, none,
  some, List, [], ◌∷◌, arith, ◌==◌, Bool-cases,
}
use paper_rag.Base.Dict
use paper_rag.Base.Dict.{Dict}
use paper_rag.Loader.Chunk.{Chunk}
use paper_rag.Documents.Calls.{Row, Pending, World, Faults, Answer, ok, raise, EndsBy, call}
use paper_rag.Documents.Index.{Services, index_document_locked, path_or, edited}
use paper_rag.Documents.Safety.{IsSound, IsUntouched, IsBegun, IsIndexed, untouched, begun, indexed}
use paper_rag.Documents.Locked.{
  IsDone, IsUndone, unchanged, only_edited, left_at, index_document_locked-Ends,
}
use paper_rag.Documents.Recovery.{is_some, any_pending, read_document_index}

any_pending-get :
    (filename : String) (row : Row) (p : Pending) (rows : Dict String Row)
    → Dict.get filename rows ≡ some row
    → row.pending ≡ some p
    → any_pending rows ≡ true
unfolding Dict.get
any_pending-get filename row p [] h e = ground arith
any_pending-get filename row p ((k, r) ∷ rows) h e = elim (Bool-cases (k == filename)) [
  | inl here ↦
      let found : r ≡ row = ground (arith, h, here) in
      subst (λ x. is_some x.pending || any_pending rows ≡ true) (sym found) (rw e refl)
  | inr later ↦
      let rest : any_pending rows ≡ true =
        any_pending-get filename row p rows (ground (arith, h, later)) e in
      ground (arith, rest)
]

-- A reader is let in only when no operation is pending.
read-none_pending :
    {B P S : Type 0} (w : World B P S) (φ : Faults)
    → (read_document_index w φ).answer ≡ ok tt
    → any_pending w.ingested ≡ false
unfolding read_document_index call
read-none_pending w [] h = ground (arith, h)
read-none_pending w (none ∷ φ) h = ground (arith, h)
read-none_pending w (some n ∷ φ) h = ground (arith, h)

module _ {B P S : Type 0} (services : Services B P S) (filename source : String)
    (destination : Option String) (edit : Option B) (w : World B P S) where
  -- The index as it was, or as it is after the whole operation.
  pub data IsWhole (v : World B P S) : Type 0 where
    old : IsUntouched services filename w v → IsWhole v
    old_edited : IsUntouched services filename (edited source edit w) v → IsWhole v
    new :
        (b : B) (docs : List Chunk)
        → services.load_document filename b ≡ some docs
        → IsIndexed services filename (path_or source destination) b docs v
        → IsWhole v

  not_begun :
      (final : String) (b : B) (v : World B P S)
      → any_pending v.ingested ≡ false
      → IsBegun services filename source final b v
      → ◌≡◌ {A = Bool} true false
  not_begun final b v e g =
      sym (any_pending-get filename g.marked.0 _ v.ingested g.marked.1 g.marked.2) ∙ e

  IsWhole-of :
      (o : Answer (ℕ × ℕ)) (v : World B P S)
      → any_pending v.ingested ≡ false
      → EndsBy
          (λ n x. IsDone services filename source (path_or source destination) edit w n x)
          (λ x. IsUndone services filename source (path_or source destination) edit w x)
          o
          v
      → IsWhole v
  IsWhole-of (ok n) v e d = new d.content d.docs d.loaded d.is_indexed
  IsWhole-of (raise x) v e (unchanged u) = old u
  IsWhole-of (raise x) v e (only_edited u) = old_edited u
  IsWhole-of (raise x) v e (left_at b docs h l (untouched u)) = old_edited u
  IsWhole-of (raise x) v e (left_at b docs h l (begun g k)) =
      absurd (ground (arith, not_begun _ b v e g))
  IsWhole-of (raise x) v e (left_at b docs h l (indexed i k)) = new b docs l i

  -- A reader whom the guard lets in after an operation on a file, done or failed, finds the index as it
  -- was before, or the complete index of a content of the file. The digest tells contents apart.
  pub read_document_index-IsWhole :
      (expected : Option String) (φ ψ : Faults)
      → IsSound services
      → ((x y : B) → services.digest x ≡ services.digest y → x ≡ y)
      → (read_document_index
          (index_document_locked services source filename destination expected edit w φ).world
          ψ).answer
        ≡ ok tt
      → IsWhole (index_document_locked services source filename destination expected edit w φ).world
  read_document_index-IsWhole expected φ ψ sound injective admitted =
      let o = index_document_locked services source filename destination expected edit w φ in
      IsWhole-of o.answer o.world (read-none_pending o.world ψ admitted)
        (index_document_locked-Ends services sound filename source destination edit w expected φ
          injective).holds
