-- ===== src/Documents/Locked.antt =====
-- backend/services/document_jobs.py: `_index_document_locked` as a whole.
use paper_rag.Base.{
  ℕ, String, ◌≡◌, refl, subst, false, not, Option, some, List, keep, length, ◌==◌, ==_iff,
  string_eq, arith,
}
use paper_rag.Base.Dict
use paper_rag.Base.Dict.{Dict}
use paper_rag.Loader.Chunk.{Chunk}
use paper_rag.Documents.Calls.{
  pure, ◌>>◌, file_changed, no_leaves, changed_while_parsed, World, Faults, Ends, then-Ends,
  weaken-Ends,
}
use paper_rag.Documents.Index.{
  Services, is_leaf, is_parent, edited, edited_files, path_or, differs, is_none_left,
  index_document_locked, replace_index,
}
use paper_rag.Documents.Safety.{IsSound, IsUntouched, KeepsOthers, IsIndexed, IsLeft}
use paper_rag.Documents.Before.{visit-then, reject-then, hash-then, load-then}
use paper_rag.Documents.Replace.{replace_index-Ends}

module _ {B P S : Type 0} (services : Services B P S) (filename source final : String)
    (edit : Option B) (before : World B P S) where
  -- Done: the index holds the chunks of a content that the loader was given.
  pub record IsDone (counts : ℕ × ℕ) (after : World B P S) : Type 0 where
    pub content : B
    pub read : Dict.get source before.files ≡ some content
    pub docs : List Chunk
    pub loaded : services.load_document filename content ≡ some docs
    pub is_indexed : IsIndexed services filename final content docs after
    pub keeps : KeepsOthers services filename before after
    pub leaf_count : counts.0 ≡ length (keep is_leaf docs)
    pub parent_count : counts.1 ≡ length (keep is_parent docs)

  -- Not done, with nothing changed, or with the intent of a content stored.
  pub data IsUndone (after : World B P S) : Type 0 where
    unchanged : IsUntouched services filename before after → IsUndone after
    only_edited : IsUntouched services filename (edited source edit before) after → IsUndone after
    left_at :
        (b : B) (docs : List Chunk)
        → Dict.get source before.files ≡ some b
        → services.load_document filename b ≡ some docs
        → IsLeft services filename source final b docs (edited source edit before) after
        → IsUndone after

module _ {B P S : Type 0} (services : Services B P S) (filename : String) (w : World B P S)
    (fs : Dict String B) where
  -- Files that another process writes are no part of the index.
  keeps-edited :
      (v : World B P S)
      → KeepsOthers services filename (record w { files = fs }) v
      → KeepsOthers services filename w v
  keeps-edited v k = record {
    other_records = k.other_records;
    other_vectors = k.other_vectors;
    other_parents = k.other_parents;
  }

module _ {B P S : Type 0} (services : Services B P S) (sound : IsSound services)
    (filename source : String) (destination : Option String) (edit : Option B)
    (w : World B P S) where
  abbrev Done : ℕ × ℕ → World B P S → Type 0
  Done counts v = IsDone services filename source (path_or source destination) edit w counts v

  abbrev Undone : World B P S → Type 0
  Undone v = IsUndone services filename source (path_or source destination) edit w v

  same-Undone : Undone w
  same-Undone = unchanged (record {
    ingested_same = refl;
    vectors_same = refl;
    parents_same = refl;
    stats_same = refl;
    files_same = refl;
  })

  edited-Undone : Undone (edited source edit w)
  edited-Undone = only_edited (record {
    ingested_same = refl;
    vectors_same = refl;
    parents_same = refl;
    stats_same = refl;
    files_same = refl;
  })

  replaced-Ends :
      (b : B) (docs : List Chunk) (φ : Faults)
      → Dict.get source w.files ≡ some b
      → services.load_document filename b ≡ some docs
      → Dict.get source (edited_files source edit w.files) ≡ some b
      → Ends Done Undone (
          (replace_index services source filename destination (services.digest b) docs
              >> pure (length (keep is_leaf docs), length (keep is_parent docs)))
            (edited source edit w)
            φ)
  replaced-Ends b docs φ was loads here =
      then-Ends
        {Q = λ u v.
          IsIndexed services filename (path_or source destination) b docs v
          × KeepsOthers services filename w v}
        (replace_index services source filename destination (services.digest b) docs) _
        (edited source edit w) φ
        (weaken-Ends _
          (λ u v h.
            (h.0, keeps-edited services filename w (edited_files source edit w.files) v h.1))
          (λ v h. left_at b docs was loads h)
          (replace_index-Ends services sound filename source destination b docs loads
            (edited source edit w) φ here))
        (λ u v ψ h. record {
          holds = record {
            content = b;
            read = was;
            docs = docs;
            loaded = loads;
            is_indexed = h.0;
            keeps = h.1;
            leaf_count = refl;
            parent_count = refl;
          };
        })

  -- One content is hashed, loaded and hashed again.
  same-Ends :
      (b c d : B) (docs : List Chunk) (φ : Faults)
      → ((x y : B) → services.digest x ≡ services.digest y → x ≡ y)
      → Dict.get source w.files ≡ some b
      → Dict.get source w.files ≡ some c
      → services.load_document filename c ≡ some docs
      → Dict.get source (edited_files source edit w.files) ≡ some d
      → not (services.digest d == services.digest b) ≡ false
      → Ends Done Undone (
          (replace_index services source filename destination (services.digest b) docs
              >> pure (length (keep is_leaf docs), length (keep is_parent docs)))
            (edited source edit w)
            φ)
  same-Ends b c d docs φ injective here also loads still unmoved =
      let parsed_it : c ≡ b = cc in
      let kept_it : d ≡ b =
        injective d b (ground (arith, ==_iff (services.digest d) (services.digest b), unmoved)) in
      replaced-Ends b docs φ here
        (subst (λ x. services.load_document filename x ≡ some docs) parsed_it loads)
        (subst (λ x. Dict.get source (edited_files source edit w.files) ≡ some x) kept_it still)

  -- Whatever call fails, also when another process writes the file once after the loader's read: when the
  -- operation returns, the index holds the chunks of one content of the source, their numbers are returned,
  -- and other files keep their records and vectors; when it does not, nothing is changed, or the intent is stored and the content is
  -- still there, or the index is complete. The digest tells contents apart.
  pub index_document_locked-Ends :
      (expected : Option String) (φ : Faults)
      → ((x y : B) → services.digest x ≡ services.digest y → x ≡ y)
      → Ends Done Undone
          (index_document_locked services source filename destination expected edit w φ)
  unfolding index_document_locked
  index_document_locked-Ends expected φ injective = visit-then _ w φ same-Undone (λ φ1.
      hash-then services source _ w φ1 same-Undone (λ b φ2 here.
        reject-then (differs expected (services.digest b)) file_changed _ w φ2 same-Undone
          (λ as_expected.
            load-then services source filename edit _ w φ2 edited-Undone (λ c docs φ3 also loads.
              reject-then (is_none_left (keep is_leaf docs)) no_leaves _ _ φ3 edited-Undone
                (λ some_leaves. hash-then services source _ _ φ3 edited-Undone (λ d φ4 still.
                  reject-then (not (services.digest d == services.digest b)) changed_while_parsed _
                    _ φ4 edited-Undone
                    (λ unmoved.
                      visit-then _ _ φ4 edited-Undone (λ φ5.
                        same-Ends b c d docs φ5 injective here also loads still unmoved))))))))
