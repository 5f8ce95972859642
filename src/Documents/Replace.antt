-- ===== src/Documents/Replace.antt =====
-- backend/services/document_jobs.py: what the steps of `_index_document_locked` from the intent on leave,
-- wherever they fail.
use paper_rag.Base.{
  String, ◌≡◌, refl, sym, ap, ◌∙◌, subst, ◌⊎◌, Option, none, some, List, keep, arith, ==_refl,
  string_eq,
}
use paper_rag.Base.Dict
use paper_rag.Base.Dict.{Dict, get-put, get-put_self, get-put_ne, get-remove}
use paper_rag.Loader.Chunk.{Chunk}
use paper_rag.Documents.Calls.{
  index, Row, World, Faults, Ends, then-Ends, write-Ends, visit, visit-Ends, write,
}
use paper_rag.Documents.Index.{
  Services, is_leaf, placed, path_or, mark_pending, update_ingested_record, remove_existing_index,
  write_documents, move, moved_file, replace_index, set_record,
}
use paper_rag.Documents.Safety.{IsSound, IsIndexed, begun, indexed}
use paper_rag.Documents.Steps.{Left, Begun, Others, Going, Clear, left, mark-Ends, remove-Ends}
use paper_rag.Documents.Rebuild.{Parented, Rebuilt, upsert-Ends, insert-Ends}

module _ {B P S : Type 0} (services : Services B P S) (sound : IsSound services)
    (filename source : String) (destination : Option String) (b : B) (docs : List Chunk)
    (loaded : services.load_document filename b ≡ some docs) (w0 : World B P S) where
  abbrev Active : World B P S → Type 0
  Active w = Going services sound filename source destination b docs loaded w0 w

  abbrev Failed : World B P S → Type 0
  Failed w = Left services sound filename source destination b docs loaded w0 w

  abbrev Built : World B P S → Type 0
  Built w = Rebuilt services sound filename source destination b docs loaded w0 w

  -- What is so once the file is in its place.
  abbrev Moved : World B P S → Type 0
  Moved w =
      (Begun services sound filename source destination b docs loaded w0 w
        × Others services sound filename source destination b docs loaded w0 w)
      × ((Dict.get (path_or source destination) w.files ≡ some b) × Built w)

  -- The move takes the file to its place, and nothing else changes.
  Moved-Moved :
      (w : World B P S) (target : String)
      → path_or source destination ≡ target
      → Dict.get source w.files ≡ some b
      → Active w
      → Built w
      → Moved (moved_file source target (Dict.get source w.files) w)
  Moved-Moved w target e here ((g, k), o) r = rw here (
    (
      record {
        marked = g.marked;
        present =
            subst
              (λ d.
                (Dict.get source (files_at target) ≡ some b)
                ⊎ ((Dict.get source (files_at target) ≡ none)
                    × (Dict.get d (files_at target) ≡ some b)))
              (sym e) by_place;
      },
      record {
        other_records = k.other_records;
        other_vectors = k.other_vectors;
        other_parents = k.other_parents;
      },
    ),
    (
      subst (λ d. Dict.get d (files_at target) ≡ some b) (sym e)
          (get-put_self target b (Dict.remove source w.files)),
      record { leaves_of = r.leaves_of; parents_in = r.parents_in; restated_in = r.restated_in },
    ),
  )
    where
      files_at : String → Dict String B
      files_at t = Dict.put t b (Dict.remove source w.files)

      by_place :
          (Dict.get source (Dict.put target b (Dict.remove source w.files)) ≡ some b)
          ⊎ ((Dict.get source (Dict.put target b (Dict.remove source w.files)) ≡ none)
              × (Dict.get target (Dict.put target b (Dict.remove source w.files)) ≡ some b))
      by_place = ground (
        arith,
        get-put target source b (Dict.remove source w.files),
        get-put_self target b (Dict.remove source w.files),
        get-remove source source w.files,
        ==_refl source,
      )

  move-Ends :
      (w : World B P S) (φ : Faults)
      → Dict.get source w0.files ≡ some b
      → Active w
      → Built w
      → Ends (λ u v. Moved v) Failed (move source destination w φ)
  unfolding move
  move-Ends w φ here ((g, k), o) r = by_target destination refl
    where
      here_still : Dict.get source w.files ≡ some b
      here_still = ap (Dict.get source) o ∙ here

      by_target :
          (d : Option String) → destination ≡ d → Ends (λ u v. Moved v) Failed (move source d w φ)
      by_target none e = record {
        holds = (
          (g, k),
          (subst (λ d. Dict.get (path_or source d) w.files ≡ some b) (sym e) here_still, r),
        );
      }
      by_target (some target) e =
          let done = Moved-Moved w target (ap (path_or source) e) here_still ((g, k), o) r in
          write-Ends _ w φ done (begun g k) (begun done.0.0 done.0.1)

  finish-Ends :
      (w : World B P S) (φ : Faults)
      → Moved w
      → Ends
          (λ u v.
            IsIndexed services filename (path_or source destination) b docs v
            × Others services sound filename source destination b docs loaded w0 v)
          Failed
          (update_ingested_record filename
            (some (record {
              hash = services.digest b;
              path = path_or source destination;
              pending = none;
            }))
            w
            φ)
  unfolding update_ingested_record
  finish-Ends w φ ((g, k), (there, r)) =
      let row : Row = record {
        hash = services.digest b;
        path = path_or source destination;
        pending = none;
      } in
      let v = set_record filename (some row) w in
      let others_then : Others services sound filename source destination b docs loaded w0 v =
        record {
          other_records = λ h apart.
              get-put_ne filename h row w.ingested (λ e. apart (sym e)) ∙ k.other_records h apart;
          other_vectors = k.other_vectors;
          other_parents = k.other_parents;
        } in
      let done : IsIndexed services filename (path_or source destination) b docs v = record {
        recorded = get-put_self filename row w.ingested;
        stored = there;
        leaves = r.leaves_of;
        parents_of = r.parents_in;
        statistics = r.restated_in;
      } in
      write-Ends _ w φ (done, others_then) (begun g k) (indexed done others_then)

  pub replace_index-Ends :
      (φ : Faults)
      → Dict.get source w0.files ≡ some b
      → Ends
          (λ u v.
            IsIndexed services filename (path_or source destination) b docs v
            × Others services sound filename source destination b docs loaded w0 v)
          Failed
          (replace_index services source filename destination (services.digest b) docs w0 φ)
  unfolding replace_index
  replace_index-Ends φ here =
      then-Ends {Q = λ u v. Active v}
        (mark_pending filename (index source (path_or source destination) (services.digest b))) _ w0
        φ (mark-Ends services sound filename source destination b docs loaded w0 φ here)
        (λ u v ψ g.
          then-Ends {Q = λ t x. Active x} visit _ v ψ
            (visit-Ends v ψ g
              (left services sound filename source destination b docs loaded w0 v g))
            (λ t x χ h.
              then-Ends
                {Q = λ n y. Clear services sound filename source destination b docs loaded w0 y}
                (remove_existing_index services filename) _ x χ
                (remove-Ends services sound filename source destination b docs loaded w0 x χ h)
                (λ n y ω c.
                  then-Ends
                    {Q = λ t z. Clear services sound filename source destination b docs loaded w0 z}
                    visit _ y ω
                    (visit-Ends y ω c
                      (left services sound filename source destination b docs loaded w0 y c.0))
                    (λ a z υ d.
                      then-Ends
                        {Q = λ m q.
                          Parented services sound filename source destination b docs loaded w0 q}
                        (write _) _ z υ
                        (upsert-Ends services sound filename source destination b docs loaded w0 z υ
                          d)
                        (λ m q τ f.
                          then-Ends
                            {Q = λ m q.
                              Parented services sound filename source destination b docs loaded w0
                                q}
                            visit _ q τ
                            (visit-Ends q τ f (
                              left services sound filename source destination b docs loaded w0 q
                                f.0))
                            (λ m2 q2 τ2 f2.
                              then-Ends {Q = λ m q. Active q × Built q}
                                (write_documents services
                                  (placed (path_or source destination) (keep is_leaf docs)))
                                _ q2 τ2
                                (insert-Ends services sound filename source destination b docs
                                  loaded w0 q2 τ2 f2.0 f2.1.0 f2.1.1.0 f2.1.1.1)
                                (λ m3 q3 τ3 f3.
                                  then-Ends {Q = λ m q. Moved q} (move source destination) _ q3 τ3
                                    (move-Ends q3 τ3 here f3.0 f3.1)
                                    (λ m4 q4 τ4 f4. finish-Ends q4 τ4 f4))))))))
