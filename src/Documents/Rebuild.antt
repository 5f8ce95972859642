-- ===== src/Documents/Rebuild.antt =====
-- backend/services/document_jobs.py: what the steps of `_index_document_locked` that store the new
-- chunks leave, wherever they fail.
use paper_rag.Base.{
  ℕ, zero, suc, map, true, All, String, ◌≡◌, refl, ap, ◌∙◌, Option, some, List, [], ◌++◌, keep,
  take, length, All-take, length-map, arith, string_eq,
}
use paper_rag.Base.Keep.{keep-append, keep-All, take-all, All-map}
use paper_rag.Loader.Chunk.{Chunk}
use paper_rag.Documents.Calls.{World, Faults, Ends, call-Ends, write-Ends, write}
use paper_rag.Documents.Index.{
  Services, is_of_file, texts_of, is_leaf, is_parent, placed, path_or, write_documents, inserted,
  vector_columns,
}
use paper_rag.Documents.Safety.{IsSound, as_it_was, upserted}
use paper_rag.Documents.Remove.{keep_other-append}
use paper_rag.Documents.Steps.{Left, Going, Clear, mine-placed, stands, left}

module _ {B P S : Type 0} (services : Services B P S) (sound : IsSound services)
    (filename source : String) (destination : Option String) (b : B) (docs : List Chunk)
    (loaded : services.load_document filename b ≡ some docs) (w0 : World B P S) where
  abbrev Active : World B P S → Type 0
  Active w = Going services sound filename source destination b docs loaded w0 w

  abbrev Failed : World B P S → Type 0
  Failed w = Left services sound filename source destination b docs loaded w0 w

  abbrev pub Stored : World B P S → Type 0
  Stored w =
      (p : P) × (w.parents
        ≡ services.upsert_parents (placed (path_or source destination) (keep is_parent docs))
            (services.delete_parents filename p))

  abbrev pub Restated : World B P S → Type 0
  Restated w =
      (stats : S) × (w.stats ≡ services.restate_documents (texts_of (keep is_leaf w.vectors)) stats)

  -- What is so once the parent chunks are stored, and once the leaves are.
  pub record Rebuilt (w : World B P S) : Type 0 where
    pub leaves_of :
        keep (is_of_file filename) w.vectors
        ≡ map vector_columns (placed (path_or source destination) (keep is_leaf docs))
    pub parents_in : Stored w
    pub restated_in :
        (rest : List Chunk) × (stats : S) × (w.vectors
          ≡ rest ++ map vector_columns (placed (path_or source destination) (keep is_leaf docs)))
        × (w.stats
            ≡ services.add_documents
                (texts_of (placed (path_or source destination) (keep is_leaf docs)))
                (services.restate_documents (texts_of (keep is_leaf rest)) stats))

  abbrev pub Parented : World B P S → Type 0
  Parented v = Active v × ((keep (is_of_file filename) v.vectors ≡ []) × (Stored v × Restated v))

  pub upsert-Ends :
      (w : World B P S) (φ : Faults)
      → Clear services sound filename source destination b docs loaded w0 w
      → Ends
          (λ u v. Parented v)
          Failed
          (write
            (λ x. record x {
              parents =
                  services.upsert_parents
                    (placed (path_or source destination) (keep is_parent docs))
                    x.parents;
            })
            w
            φ)
  upsert-Ends w φ (g, c) =
      let chunks = placed (path_or source destination) (keep is_parent docs) in
      let after =
        stands services sound filename source destination b docs loaded w0 w
          (record w { parents = services.upsert_parents chunks w.parents }) refl refl refl
          (upserted w.parents chunks
            (mine-placed services sound filename source destination b docs loaded w0 is_parent)
            as_it_was)
          g in
      write-Ends _ w φ
        (
          after,
          (
            c.no_vectors,
            ((c.no_parents.0, ap (services.upsert_parents chunks) c.no_parents.1), c.restated_all),
          ),
        )
        (left services sound filename source destination b docs loaded w0 w g)
        (left services sound filename source destination b docs loaded w0 _ after)

  mine-columns :
      All
        (λ c. is_of_file filename c ≡ true)
        (map vector_columns (placed (path_or source destination) (keep is_leaf docs)))
  mine-columns =
      All-map (λ c. is_of_file filename c ≡ true) _ _
        (mine-placed services sound filename source destination b docs loaded w0 is_leaf)

  insert-Going :
      (w : World B P S) (n : ℕ)
      → Active w
      → Active (inserted services (placed (path_or source destination) (keep is_leaf docs)) n w)
  insert-Going w zero g = g
  insert-Going w (suc n) g =
      let chunks = placed (path_or source destination) (keep is_leaf docs) in
      stands services sound filename source destination b docs loaded w0 w _ refl refl
        (keep_other-append filename w.vectors (take n (map vector_columns chunks))
          (All-take _ n (map vector_columns chunks) mine-columns))
        as_it_was g

  pub insert-Ends :
      (w : World B P S) (φ : Faults)
      → Active w
      → keep (is_of_file filename) w.vectors ≡ []
      → Stored w
      → Restated w
      → Ends
          (λ u v. Active v × Rebuilt v)
          Failed
          (write_documents services (placed (path_or source destination) (keep is_leaf docs)) w φ)
  unfolding write_documents
  insert-Ends w φ g none_yet ps (stats, restated) =
      let chunks = placed (path_or source destination) (keep is_leaf docs) in
      let whole : take (length chunks) (map vector_columns chunks) ≡ map vector_columns chunks =
        take-all (length chunks) (map vector_columns chunks)
          (omega (arith, length-map vector_columns chunks)) in
      call-Ends _ _ w φ
        (
          insert-Going w (suc (length chunks)) g,
          record {
            leaves_of =
                keep-append (is_of_file filename) w.vectors _
                ∙ (ap
                      (λ r.
                        r
                        ++ keep (is_of_file filename)
                            (take (length chunks) (map vector_columns chunks)))
                      none_yet
                    ∙ (ap (keep (is_of_file filename)) whole
                        ∙ keep-All (is_of_file filename) (map vector_columns chunks) mine-columns));
            parents_in = ps;
            restated_in = (
              w.vectors,
              stats,
              ap (λ r. w.vectors ++ r) whole,
              ap (services.add_documents (texts_of chunks)) restated,
            );
          },
        )
        (λ n.
          left services sound filename source destination b docs loaded w0 _ (insert-Going w n g))
