-- ===== src/Documents/Live.antt =====
-- backend/services/document_jobs.py: the operations when no call fails.
use paper_rag.Base.{
  ℕ, String, string_eq, ◌≡◌, refl, sym, subst, false, ◌⊎◌, inl, inr, Option, none, some, List, [],
  keep, length, arith, ==_refl,
}
use paper_rag.Base.Dict
use paper_rag.Base.Dict.{Dict}
use paper_rag.Loader.Chunk.{Chunk}
use paper_rag.Documents.Calls.{index, World, ok, EndsBy, call}
use paper_rag.Documents.Index.{
  Services, is_leaf, is_parent, is_none_left, differs, index_document_locked, compute_file_hash,
  load_document, replace_index, mark_pending, update_ingested_record, remove_existing_index,
  write_documents, move,
}
use paper_rag.Documents.Safety.{IsSound, IsBegun}
use paper_rag.Documents.Filename.{Names}
use paper_rag.Documents.Recovery.{move_to, recover_from, recover_one}
use paper_rag.Documents.Replay.{IsRecovered, IsRecoverable, recover_one-Ends}

module _ {B P S : Type 0} (services : Services B P S) (filename : String) (b : B)
    (docs : List Chunk) (loaded : services.load_document filename b ≡ some docs)
    (has_leaves : is_none_left (keep is_leaf docs) ≡ false) (w : World B P S) where
  hash-ok :
      (path : String)
      → Dict.get path w.files ≡ some b
      → compute_file_hash services path w []
        ≡ record { answer = ok (services.digest b); world = w; faults = [] }
  unfolding compute_file_hash call
  hash-ok path here = rw here refl

  load-ok :
      (path : String)
      → Dict.get path w.files ≡ some b
      → load_document services path filename none w []
        ≡ record { answer = ok docs; world = w; faults = [] }
  unfolding load_document call
  load-ok path here = rw here (rw loaded refl)

  replace-ok :
      (source : String) (destination : Option String) (hash : String)
      → (replace_index services source filename destination hash docs w []).answer ≡ ok tt
  unfolding replace_index mark_pending update_ingested_record remove_existing_index write_documents
      move call
  replace-ok source none hash = refl
  replace-ok source (some target) hash = refl

  -- A source that can be parsed is indexed.
  pub index_document_locked-ok :
      (source : String) (destination : Option String) (expected : Option String)
      → Dict.get source w.files ≡ some b
      → differs expected (services.digest b) ≡ false
      → (index_document_locked services source filename destination expected none w []).answer
        ≡ ok (length (keep is_leaf docs), length (keep is_parent docs))
  unfolding index_document_locked call
  index_document_locked-ok source destination expected here same = rw (hash-ok source here) (
      rw same (
        rw (load-ok source here) (
          rw has_leaves (
            rw (hash-ok source here) (
              rw (==_refl (services.digest b))
                (rw (replace-ok source destination (services.digest b)) refl))))))

module _ {B P S : Type 0} (services : Services B P S) (names : Names) (points : String → List ℕ)
    (filename stored final : String) (b : B) (docs : List Chunk) (w : World B P S) where
  from-ok :
      (source : String)
      → services.load_document filename b ≡ some docs
      → is_none_left (keep is_leaf docs) ≡ false
      → Dict.get source w.files ≡ some b
      → (recover_from services names points
          (λ path. none)
          filename
          final
          (services.digest b)
          source
          w
          []).answer
        ≡ ok tt
  from-ok source loaded has_leaves here = rw here (
      rw (hash-ok services filename b docs loaded has_leaves w source here) (
        rw (==_refl (services.digest b)) (
          rw
            (index_document_locked-ok services filename b docs loaded has_leaves w source
              (move_to source final) (some (services.digest b)) here
              (rw (==_refl (services.digest b)) refl))
            refl)))

  one-ok :
      services.load_document filename b ≡ some docs
      → is_none_left (keep is_leaf docs) ≡ false
      → IsBegun services filename stored final b w
      → (recover_one services names points
          (λ path. none)
          filename
          (index stored final (services.digest b))
          w
          []).answer
        ≡ ok tt
  unfolding recover_one
  one-ok loaded has_leaves started = by_place started.present
    where
      by_place :
          (Dict.get stored w.files ≡ some b)
            ⊎ ((Dict.get stored w.files ≡ none) × (Dict.get final w.files ≡ some b))
          → (recover_one services names points
              (λ path. none)
              filename
              (index stored final (services.digest b))
              w
              []).answer
            ≡ ok tt
      by_place (inl here) =
          subst
            (λ x.
              (recover_from services names points (λ path. none) filename final (services.digest b)
                x w []).answer
              ≡ ok tt)
            (sym (ground (arith, here))) (from-ok stored loaded has_leaves here)
      by_place (inr (gone, there)) =
          subst
            (λ x.
              (recover_from services names points (λ path. none) filename final (services.digest b)
                x w []).answer
              ≡ ok tt)
            (sym (ground (arith, gone))) (from-ok final loaded has_leaves there)

  -- A recovery in which no call fails completes what was begun: from a stored intent whose content is
  -- still there and is parsed into leaves, the content is indexed at its place, no intent is left and
  -- other files are kept.
  pub recover_one-IsRecovered :
      IsSound services
      → ((x y : B) → services.digest x ≡ services.digest y → x ≡ y)
      → services.load_document filename b ≡ some docs
      → is_none_left (keep is_leaf docs) ≡ false
      → IsBegun services filename stored final b w
      → IsRecovered services filename final b w
          (recover_one services names points
            (λ path. none)
            filename
            (index stored final (services.digest b))
            w
            []).world
  recover_one-IsRecovered sound injective loaded has_leaves started =
      let o =
        recover_one services names points (λ path. none) filename
          (index stored final (services.digest b)) w [] in
      subst
        (λ a.
          EndsBy (λ u v. IsRecovered services filename final b w v)
            (λ v. IsRecoverable services filename final b v) a o.world)
        (one-ok loaded has_leaves started)
        (recover_one-Ends services sound injective names points filename stored final b w started
          []).holds
