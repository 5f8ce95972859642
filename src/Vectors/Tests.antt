-- ===== src/Vectors/Tests.antt =====
-- Runs of `write_documents` of backend/vectordb/milvus_writer.py.
use paper_rag.Base.{String, ◌≡◌, refl, List, [], ◌∷◌, map, arith}
use paper_rag.Loader.Chunk.{Chunk}
use paper_rag.Loader.Splits.{plain_chunk}
use paper_rag.Vectors.Writer.{Written, write_documents, ready, succeeds, report_fails}
use paper_rag.Vectors.Writes.{IsInserted, write_documents-IsInserted}

abbrev three : List Chunk
three =
    record plain_chunk { text = "a" }
    ∷ record plain_chunk { text = "b" }
    ∷ record plain_chunk { text = "c" }
    ∷ []

abbrev nothing : Written String
nothing = record { registered_texts = []; collection = []; progress = [] }

-- The second batch of two fails when its progress is reported.
write_documents-IsInserted_example :
    IsInserted
      (λ ts. map (λ t. t) ts)
      (λ t. t)
      (λ ts. refl)
      2
      (omega arith)
      three
      ready
      (succeeds ∷ report_fails ∷ [])
      []
      (write_documents (λ ts. map (λ t. t) ts) 2 three ready (succeeds ∷ report_fails ∷ []) nothing)
write_documents-IsInserted_example =
    write_documents-IsInserted (λ ts. map (λ t. t) ts) (λ t. t) (λ ts. refl) 2 (omega arith) three
      ready (succeeds ∷ report_fails ∷ []) nothing

progress_run :
    (write_documents (λ ts. map (λ t. t) ts) 2 three ready [] nothing).1.progress
    ≡ (2, 3) ∷ (3, 3) ∷ []
unfolding write_documents paper_rag.Vectors.Writer.zip_rows
progress_run = refl
