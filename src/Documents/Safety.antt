-- ===== src/Documents/Safety.antt =====
-- backend/services/document_jobs.py: the states of the index before, during and after an operation,
-- and what the operations rely on.
use paper_rag.Base.{String, ◌≡◌, ◌≢◌, true, ◌⊎◌, none, some, List, ◌++◌, keep, map, All, string_eq}
use paper_rag.Base.Dict
use paper_rag.Loader.Chunk.{Chunk}
use paper_rag.Documents.Calls.{index, Row, World}
use paper_rag.Documents.Index.{
  Services, is_of_file, other_file, is_leaf, is_parent, placed, texts_of, vector_columns,
}

-- What the operations rely on: the chunks of a document carry its name.
pub record IsSound {B P S : Type 0} (services : Services B P S) : Type 0 where
  pub named :
      (f : String) (b : B) (cs : List Chunk)
      → services.load_document f b ≡ some cs
      → All (λ c. is_of_file f c ≡ true) cs

module _ {B P S : Type 0} (services : Services B P S) (filename : String) where
  -- The tables of parent chunks that deletions for this file and upserts of its chunks make.
  pub data OnlyOf (before : P) : P → Type 0 where
    as_it_was : OnlyOf before before
    deleted : (p : P) → OnlyOf before p → OnlyOf before (services.delete_parents filename p)
    upserted :
        (p : P) (cs : List Chunk)
        → All (λ c. is_of_file filename c ≡ true) cs
        → OnlyOf before p
        → OnlyOf before (services.upsert_parents cs p)

  pub OnlyOf-trans : {x y z : P} → OnlyOf x y → OnlyOf y z → OnlyOf x z
  OnlyOf-trans h as_it_was = h
  OnlyOf-trans h (deleted p k) = deleted p (OnlyOf-trans h k)
  OnlyOf-trans h (upserted p cs a k) = upserted p cs a (OnlyOf-trans h k)

module _ {B P S : Type 0} (services : Services B P S) (filename : String) where
  -- The index, the tables, the state and the files are as before.
  pub record IsUntouched (before after : World B P S) : Type 0 where
    pub ingested_same : after.ingested ≡ before.ingested
    pub vectors_same : after.vectors ≡ before.vectors
    pub parents_same : after.parents ≡ before.parents
    pub stats_same : after.stats ≡ before.stats
    pub files_same : after.files ≡ before.files

  -- The records and the vectors of other files are as before, and the table of parent chunks has only
  -- been given deletions for this file and chunks of it.
  pub record KeepsOthers (before after : World B P S) : Type 0 where
    pub other_records :
        (g : String) → g ≢ filename → Dict.get g after.ingested ≡ Dict.get g before.ingested
    pub other_vectors :
        keep (other_file filename) after.vectors ≡ keep (other_file filename) before.vectors
    pub other_parents : OnlyOf services filename before.parents after.parents

  -- The intent is stored, and the file that it names is still there, at its old or its new place.
  pub record IsBegun (source final : String) (b : B) (w : World B P S) : Type 0 where
    pub marked :
        (row : Row) × (Dict.get filename w.ingested ≡ some row)
        × (row.pending ≡ some (index source final (services.digest b)))
    pub present :
        (Dict.get source w.files ≡ some b)
        ⊎ ((Dict.get source w.files ≡ none) × (Dict.get final w.files ≡ some b))

  -- The index holds the leaves of the content, the table was last given a deletion for the file and then
  -- the parents of the content, the statistics were restated from the leaves of other files and then given the new
  -- texts, and no intent is left.
  pub record IsIndexed (final : String) (b : B) (docs : List Chunk) (w : World B P S) : Type 0 where
    pub recorded :
        Dict.get filename w.ingested
        ≡ some (record { hash = services.digest b; path = final; pending = none })
    pub stored : Dict.get final w.files ≡ some b
    pub leaves :
        keep (is_of_file filename) w.vectors ≡ map vector_columns (placed final (keep is_leaf docs))
    pub parents_of :
        (p : P) × (w.parents
          ≡ services.upsert_parents
              (placed final (keep is_parent docs))
              (services.delete_parents filename p))
    pub statistics :
        (rest : List Chunk) × (stats : S) × (w.vectors
          ≡ rest ++ map vector_columns (placed final (keep is_leaf docs)))
        × (w.stats
            ≡ services.add_documents
                (texts_of (placed final (keep is_leaf docs)))
                (services.restate_documents (texts_of (keep is_leaf rest)) stats))

  -- A failure leaves one of three states.
  pub data IsLeft (source final : String) (b : B) (docs : List Chunk) (before after : World B P S)
      : Type 0 where
    untouched : IsUntouched before after → IsLeft source final b docs before after
    begun :
        IsBegun source final b after
        → KeepsOthers before after
        → IsLeft source final b docs before after
    indexed :
        IsIndexed final b docs after
        → KeepsOthers before after
        → IsLeft source final b docs before after
