-- ===== src/Documents/Removal.antt =====
-- backend/services/document_jobs.py: what `_remove_document_locked` leaves, wherever it fails.
use paper_rag.Base.{
  String, string_eq, ◌≡◌, refl, sym, ap, ◌∙◌, none, some, keep, length, arith, ==_iff, ==_refl,
}
use paper_rag.Base.Dict
use paper_rag.Base.Dict.{Dict, get-put_self, get-put_ne, get-remove}
use paper_rag.Documents.Calls.{Row, delete, World, Faults, Ends, then-Ends, weaken-Ends, write-Ends}
use paper_rag.Documents.Index.{
  Services, is_of_file, mark_pending, remove_existing_index, update_ingested_record,
  remove_document_locked, set_record, row_or, no_row,
}
use paper_rag.Documents.Safety.{KeepsOthers, as_it_was, OnlyOf-trans}
use paper_rag.Documents.Before.{visit-then}
use paper_rag.Documents.Remove.{
  IsKept, Cleared, clear-Ends, IsGone, IsCondemned, IsRemovalLeft, as_before, condemned, removed,
}

module _ {B P S : Type 0} (services : Services B P S) (filename : String) (w : World B P S) where
  abbrev Others : World B P S → Type 0
  Others v = KeepsOthers services filename w v

  abbrev Condemned : World B P S → Type 0
  Condemned v = IsCondemned services filename w v × (Others v × (v.vectors ≡ w.vectors))

  abbrev Left : World B P S → Type 0
  Left v = IsRemovalLeft services filename w v

  mark-Ends : (φ : Faults) → Ends (λ u v. Condemned v) Left (mark_pending filename delete w φ)
  unfolding mark_pending update_ingested_record
  mark-Ends φ =
      let r : Row = record (row_or (no_row "") (Dict.get filename w.ingested)) {
        pending = some delete;
      } in
      let v : World B P S = set_record filename (some r) w in
      let kept : Others v = record {
        other_records = λ g apart. get-put_ne filename g r w.ingested (λ e. apart (sym e));
        other_vectors = refl;
        other_parents = as_it_was;
      } in
      let marked : IsCondemned services filename w v = record {
        row = r;
        found = get-put_self filename r w.ingested;
        to_delete = refl;
      } in
      write-Ends _ w φ (marked, (kept, refl))
        (as_before (record {
          ingested_same = refl;
          vectors_same = refl;
          parents_same = refl;
          stats_same = refl;
          files_same = refl;
        }))
        (condemned marked kept)

  -- What is kept of a marked world.
  still :
      (v x : World B P S)
      → Condemned v
      → IsKept services filename v x
      → IsCondemned services filename w x × Others x
  still v x (c, (o, s)) k = (
    record {
      row = c.row;
      found = ap (Dict.get filename) k.ingested_kept ∙ c.found;
      to_delete = c.to_delete;
    },
    record {
      other_records = λ g apart. ap (Dict.get g) k.ingested_kept ∙ o.other_records g apart;
      other_vectors = k.others_kept ∙ o.other_vectors;
      other_parents = OnlyOf-trans services filename o.other_parents k.other_rows_kept;
    },
  )

  forget-Ends :
      (x : World B P S) (φ : Faults)
      → IsCondemned services filename w x
      → Others x
      → Cleared services filename x
      → Ends
          (λ u v. IsGone services filename w v × Others v)
          Left
          (update_ingested_record filename none x φ)
  unfolding update_ingested_record
  forget-Ends x φ c o clear =
      let v : World B P S = set_record filename none x in
      let gone_now : IsGone services filename w v = record {
        no_record = get-remove filename filename x.ingested ∙ rw (==_refl filename) refl;
        gone = record {
          no_vectors = clear.no_vectors;
          no_parents = clear.no_parents;
          restated_all = clear.restated_all;
        };
      } in
      let kept : Others v = record {
        other_records = λ g apart.
            get-remove filename g x.ingested
            ∙ ground (arith, ==_iff filename g, o.other_records g apart, apart);
        other_vectors = o.other_vectors;
        other_parents = o.other_parents;
      } in
      write-Ends _ x φ (gone_now, kept) (condemned c o) (removed gone_now kept)

  -- Whatever call fails: when the operation returns, the record and the vectors of the file are gone, its
  -- parent chunks
  -- are deleted, the statistics are restated from the leaves that are left, the number of its chunks is returned, and
  -- other files keep their records and vectors; when it does not, nothing is changed, or the intent to delete
  -- is stored, or all of it is done.
  pub remove_document_locked-Ends :
      (φ : Faults)
      → Ends
          (λ n v.
            (IsGone services filename w v × Others v)
            × (n ≡ length (keep (is_of_file filename) w.vectors)))
          Left
          (remove_document_locked services filename w φ)
  unfolding remove_document_locked
  remove_document_locked-Ends φ =
      visit-then _ w φ
        (as_before (record {
          ingested_same = refl;
          vectors_same = refl;
          parents_same = refl;
          stats_same = refl;
          files_same = refl;
        }))
        (λ φ1.
          then-Ends {Q = λ u v. Condemned v} (mark_pending filename delete) _ w φ1 (mark-Ends φ1)
            (λ u v φ2 c.
              then-Ends
                {Q = λ n x.
                  (IsCondemned services filename w x × Others x)
                  × (Cleared services filename x
                      × (n ≡ length (keep (is_of_file filename) w.vectors)))}
                (remove_existing_index services filename) _ v φ2
                (weaken-Ends _
                  (λ n x k. (
                    still v x c k.0,
                    (k.1.0, k.1.1 ∙ ap (λ vs. length (keep (is_of_file filename) vs)) c.1.1),
                  ))
                  (λ x k. let s = still v x c k in condemned s.0 s.1)
                  (clear-Ends services filename v φ2))
                (λ n x φ3 k.
                  then-Ends {Q = λ u y. IsGone services filename w y × Others y}
                    (update_ingested_record filename none) _ x φ3
                    (forget-Ends x φ3 k.0.0 k.0.1 k.1.0)
                    (λ u y φ4 g. record { holds = (g, k.1.1) }))))
