-- ===== src/Documents/Replay.antt =====
-- backend/services/document_jobs.py: what `recover_pending_documents` makes of a stored intent.
use paper_rag.Base.{
  ℕ, String, string_eq, ◌≡◌, refl, sym, subst, not, ◌⊎◌, inl, inr, none, some, List, arith, ==_iff,
  ◌==◌, Bool-cases,
}
use paper_rag.Base.Dict
use paper_rag.Base.Dict.{Dict}
use paper_rag.Loader.Chunk.{Chunk}
use paper_rag.Documents.Calls.{
  Row, index, recovery_refused, World, Faults, Ends, then-Ends, weaken-Ends,
}
use paper_rag.Documents.Index.{Services, index_document_locked, path_or}
use paper_rag.Documents.Safety.{
  IsSound, IsUntouched, KeepsOthers, IsBegun, IsIndexed, untouched, begun, indexed,
}
use paper_rag.Documents.Locked.{
  IsDone, IsUndone, unchanged, only_edited, left_at, index_document_locked-Ends,
}
use paper_rag.Documents.Before.{reject-then, hash-then}
use paper_rag.Documents.Filename.{Names}
use paper_rag.Documents.Recovery.{is_some, move_to, recover_from, recover_one}

path_or-move_to :
    (source destination : String) → path_or source (move_to source destination) ≡ destination
path_or-move_to source destination = elim (Bool-cases (source == destination)) [
  | inl same ↦ rw same (ground (arith, ==_iff source destination))
  | inr apart ↦ rw apart refl
]

module _ {B P S : Type 0} (services : Services B P S) (filename final : String) (b : B) where
  -- The content is indexed at its place, and no intent is left.
  pub record IsRecovered (before after : World B P S) : Type 0 where
    pub docs : List Chunk
    pub loaded : services.load_document filename b ≡ some docs
    pub complete : IsIndexed services filename final b docs after
    pub kept : KeepsOthers services filename before after

  -- The intent can be followed again, or it has been.
  pub data IsRecoverable (after : World B P S) : Type 0 where
    again : (source : String) → IsBegun services filename source final b after → IsRecoverable after
    over :
        (docs : List Chunk) → IsIndexed services filename final b docs after → IsRecoverable after

module _ {B P S : Type 0} (services : Services B P S) (sound : IsSound services)
    (injective : (x y : B) → services.digest x ≡ services.digest y → x ≡ y) (names : Names)
    (points : String → List ℕ) (filename stored final : String) (b : B) (w : World B P S)
    (started : IsBegun services filename stored final b w) where
  abbrev Recovered : World B P S → Type 0
  Recovered v = IsRecovered services filename final b w v

  abbrev Recoverable : World B P S → Type 0
  Recoverable v = IsRecoverable services filename final b v

  same-Recoverable : (v : World B P S) → IsUntouched services filename w v → Recoverable v
  same-Recoverable v u = again stored (record {
    marked =
        subst
          (λ d.
            (row : Row) × (Dict.get filename d ≡ some row)
            × (row.pending ≡ some (index stored final (services.digest b))))
          (sym u.ingested_same) started.marked;
    present =
        subst
          (λ d.
            (Dict.get stored d ≡ some b)
            ⊎ ((Dict.get stored d ≡ none) × (Dict.get final d ≡ some b)))
          (sym u.files_same) started.present;
  })

  undone-Recoverable :
      (source : String) (v : World B P S)
      → Dict.get source w.files ≡ some b
      → IsUndone services filename source (path_or source (move_to source final)) none w v
      → Recoverable v
  undone-Recoverable source v here (unchanged u) = same-Recoverable v u
  undone-Recoverable source v here (only_edited u) = same-Recoverable v u
  undone-Recoverable source v here (left_at c docs also loads (untouched u)) = same-Recoverable v u
  undone-Recoverable source v here (left_at c docs also loads (begun g k)) =
      let same : c ≡ b = cc in
      again source (
        subst (λ x. IsBegun services filename source final x v) same
          (subst (λ f. IsBegun services filename source f c v) (path_or-move_to source final) g))
  undone-Recoverable source v here (left_at c docs also loads (indexed i k)) =
      let same : c ≡ b = cc in
      over docs (
        subst (λ x. IsIndexed services filename final x docs v) same
          (subst (λ f. IsIndexed services filename f c docs v) (path_or-move_to source final) i))

  done-Recovered :
      (source : String) (n : ℕ × ℕ) (v : World B P S)
      → Dict.get source w.files ≡ some b
      → IsDone services filename source (path_or source (move_to source final)) none w n v
      → Recovered v
  done-Recovered source n v here d =
      let same : d.content ≡ b = ground (arith, here, d.read) in
      record {
        docs = d.docs;
        loaded = subst (λ x. services.load_document filename x ≡ some d.docs) same d.loaded;
        complete =
            subst (λ x. IsIndexed services filename final x d.docs v) same
              (subst (λ f. IsIndexed services filename f d.content d.docs v)
                (path_or-move_to source final) d.is_indexed);
        kept = d.keeps;
      }

  from-Ends :
      (source : String) (φ : Faults)
      → Dict.get source w.files ≡ some b
      → Ends
          (λ u v. Recovered v)
          Recoverable
          (recover_from services names points
            (λ path. none)
            filename
            final
            (services.digest b)
            source
            w
            φ)
  from-Ends source φ here =
      let as_is = same-Recoverable w (record {
        ingested_same = refl;
        vectors_same = refl;
        parents_same = refl;
        stats_same = refl;
        files_same = refl;
      }) in
      reject-then (not (is_some (Dict.get source w.files))) recovery_refused _ w φ as_is (λ there.
        hash-then services source _ w φ as_is (λ c ψ also.
          reject-then (not (services.digest c == services.digest b)) recovery_refused _ w ψ as_is
            (λ as_stored.
              then-Ends {Q = λ n v. Recovered v}
                (index_document_locked services source filename (move_to source final)
                  (some (services.digest b)) none)
                _ w ψ
                (weaken-Ends _ (λ n v d. done-Recovered source n v here d)
                  (λ v l. undone-Recoverable source v here l)
                  (index_document_locked-Ends services sound filename source (move_to source final)
                    none w (some (services.digest b)) ψ injective))
                (λ n v χ r. record { holds = r }))))

  -- From a stored intent whose content is still there, while no other process writes the file, and
  -- whatever call fails: when the recovery of the row returns, the content is indexed at its place, no
  -- intent is left and other files are kept; when it does not, the intent is still stored with the
  -- content there, so that the next recovery can follow it, or the index is complete.
  pub recover_one-Ends :
      (φ : Faults)
      → Ends
          (λ u v. Recovered v)
          Recoverable
          (recover_one services names points
            (λ path. none)
            filename
            (index stored final (services.digest b))
            w
            φ)
  unfolding recover_one
  recover_one-Ends φ = by_place started.present
    where
      by_place :
          (Dict.get stored w.files ≡ some b)
            ⊎ ((Dict.get stored w.files ≡ none) × (Dict.get final w.files ≡ some b))
          → Ends
              (λ u v. Recovered v)
              Recoverable
              (recover_one services names points
                (λ path. none)
                filename
                (index stored final (services.digest b))
                w
                φ)
      by_place (inl here) =
          subst
            (λ x.
              Ends (λ u v. Recovered v) Recoverable
                (recover_from services names points (λ path. none) filename final
                  (services.digest b) x w φ))
            (sym (ground (arith, here))) (from-Ends stored φ here)
      by_place (inr (gone, there)) =
          subst
            (λ x.
              Ends (λ u v. Recovered v) Recoverable
                (recover_from services names points (λ path. none) filename final
                  (services.digest b) x w φ))
            (sym (ground (arith, gone))) (from-Ends final φ there)
