-- ===== src/Documents/Steps.antt =====
-- backend/services/document_jobs.py: what `_mark_pending`, `_remove_existing_index` and the steps of
-- `_index_document_locked` after them leave, wherever they fail.
use paper_rag.Base.{
  String, ◌≡◌, refl, sym, ap, ◌∙◌, subst, Bool, true, ◌⊎◌, inl, Option, none, some, List, keep, All,
  string_eq,
}
use paper_rag.Base.Dict
use paper_rag.Base.Dict.{Dict, get-put, get-put_self, get-put_ne, get-remove}
use paper_rag.Base.Keep.{All-map, All-kept, All-keep}
use paper_rag.Loader.Chunk.{Chunk}
use paper_rag.Documents.Calls.{index, Row, World, Faults, Ends, write-Ends, weaken-Ends}
use paper_rag.Documents.Index.{
  Services, is_of_file, other_file, is_leaf, is_leaf, placed, path_or, mark_pending,
  update_ingested_record, remove_existing_index, set_record, row_or, no_row,
}
use paper_rag.Documents.Remove.{IsKept, Cleared, clear-Ends}
use paper_rag.Documents.Safety.{
  IsSound, KeepsOthers, OnlyOf, OnlyOf-trans, as_it_was, IsBegun, IsLeft, untouched, begun,
}

module _ {B P S : Type 0} (services : Services B P S) (sound : IsSound services)
    (filename source : String) (destination : Option String) (b : B) (docs : List Chunk)
    (loaded : services.load_document filename b ≡ some docs) (w0 : World B P S) where
  abbrev pub Left : World B P S → Type 0
  Left w = IsLeft services filename source (path_or source destination) b docs w0 w

  abbrev pub Begun : World B P S → Type 0
  Begun w = IsBegun services filename source (path_or source destination) b w

  abbrev pub Others : World B P S → Type 0
  Others w = KeepsOthers services filename w0 w

  -- The intent is stored, and no file has been moved.
  abbrev pub Going : World B P S → Type 0
  Going w = (Begun w × Others w) × (w.files ≡ w0.files)

  pub mine-placed :
      (p : Chunk → Bool)
      → All (λ c. is_of_file filename c ≡ true) (placed (path_or source destination) (keep p docs))
  mine-placed p =
      All-map (λ c. is_of_file filename c ≡ true) _ (keep p docs)
        (All-kept (λ c. is_of_file filename c ≡ true) p docs (sound.named filename b docs loaded))

  pub mark-Ends :
      (φ : Faults)
      → Dict.get source w0.files ≡ some b
      → Ends
          (λ u w. Going w)
          Left
          (mark_pending filename
            (index source (path_or source destination) (services.digest b))
            w0
            φ)
  unfolding mark_pending update_ingested_record
  mark-Ends φ here =
      let row : Row =
        record (row_or (no_row (path_or source destination)) (Dict.get filename w0.ingested)) {
          pending = some (index source (path_or source destination) (services.digest b));
        } in
      let w : World B P S = set_record filename (some row) w0 in
      let begun_now : Begun w = record {
        marked = (row, get-put_self filename row w0.ingested, refl);
        present = inl here;
      } in
      let others_now : Others w = record {
        other_records = λ g apart. get-put_ne filename g row w0.ingested (λ e. apart (sym e));
        other_vectors = refl;
        other_parents = as_it_was;
      } in
      write-Ends (set_record filename (some row)) w0 φ ((begun_now, others_now), refl)
        (untouched (record {
          ingested_same = refl;
          vectors_same = refl;
          parents_same = refl;
          stats_same = refl;
          files_same = refl;
        }))
        (begun begun_now others_now)

  abbrev pub Clear : World B P S → Type 0
  Clear w = Going w × Cleared services filename w

  -- The intent stands while the state and the files do, and the rest may change for this file.
  pub stands :
      (w v : World B P S)
      → v.ingested ≡ w.ingested
      → v.files ≡ w.files
      → keep (other_file filename) v.vectors ≡ keep (other_file filename) w.vectors
      → OnlyOf services filename w.parents v.parents
      → Going w
      → Going v
  stands w v i f c p ((g, k), o) = (
    (
      record {
        marked =
            subst
              (λ d.
                (row : Row) × (Dict.get filename d ≡ some row)
                × (row.pending
                    ≡ some (index source (path_or source destination) (services.digest b))))
              (sym i) g.marked;
        present =
            subst
              (λ d.
                (Dict.get source d ≡ some b)
                ⊎ ((Dict.get source d ≡ none) × (Dict.get (path_or source destination) d ≡ some b)))
              (sym f) g.present;
      },
      record {
        other_records = λ h apart. ap (λ d. Dict.get h d) i ∙ k.other_records h apart;
        other_vectors = c ∙ k.other_vectors;
        other_parents = OnlyOf-trans services filename k.other_parents p;
      },
    ),
    f ∙ o,
  )

  pub left : (w : World B P S) → Going w → Left w
  left w ((g, k), o) = begun g k

  pub remove-Ends :
      (w : World B P S) (φ : Faults)
      → Going w
      → Ends (λ n v. Clear v) Left (remove_existing_index services filename w φ)
  remove-Ends w φ g =
      weaken-Ends _ (λ n v h. (after v h.0, h.1.0)) (λ v k. left v (after v k))
        (clear-Ends services filename w φ)
    where
      after : (v : World B P S) → IsKept services filename w v → Going v
      after v k = stands w v k.ingested_kept k.files_kept k.others_kept k.other_rows_kept g

  pub leaves-placed :
      All (λ c. is_leaf c ≡ true) (placed (path_or source destination) (keep is_leaf docs))
  leaves-placed = All-map (λ c. is_leaf c ≡ true) _ (keep is_leaf docs) (All-keep is_leaf docs)
