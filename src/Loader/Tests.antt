-- ===== src/Loader/Tests.antt =====
-- Runs of the loader of backend/rag/document_loader.py.
use paper_rag.Base.{
  ℕ, String, ◌≡◌, refl, Bool, Option, none, some, List, [], ◌∷◌, keep, ok, raise, Result,
}
use paper_rag.Loader.Chunk.{Chunk}
use paper_rag.Loader.Forest.{IsForest}
use paper_rag.Loader.Splits.{base_doc}
use paper_rag.Loader.Levels.{split_page_to_three_levels}
use paper_rag.Loader.Files.{
  parse_pdf_with_fallback, load_document, load_documents_from_folder, no_parser,
}
use paper_rag.Loader.Loads.{
  IsFallback, parse_pdf_with_fallback-IsFallback, Returns, load_document-IsForest, can_load,
  folder-skips,
}
use paper_rag.Loader.Samples.{marks-IsDecimal, knives, reading_of}

abbrev words : String
words = "a text of more than fifty characters, as a parser takes it"

parse_pdf_with_fallback-IsFallback_example :
    IsFallback
      (("OpenDataLoader", (reading_of words).parsers.opendataloader)
        ∷ ("PyMuPDF", (reading_of words).parsers.pymupdf)
        ∷ ("pdfplumber", (reading_of words).parsers.pdfplumber)
        ∷ ("PyPDF", (reading_of words).parsers.pypdf)
        ∷ [])
      (parse_pdf_with_fallback (reading_of words).parsers)
parse_pdf_with_fallback-IsFallback_example =
    parse_pdf_with_fallback-IsFallback (reading_of words).parsers

load_document-IsForest_example :
    Returns (IsForest "a.pdf" 0) (load_document knives (reading_of words) "/a.pdf" "a.pdf")
load_document-IsForest_example =
    load_document-IsForest knives marks-IsDecimal (reading_of words) "/a.pdf" "a.pdf"

folder-skips_example :
    load_documents_from_folder knives reading_of (λ f. f) ("a.txt" ∷ "b.pdf" ∷ "c.doc" ∷ [])
    ≡ load_documents_from_folder knives reading_of
        (λ f. f)
        (keep (can_load knives reading_of (λ f. f)) ("a.txt" ∷ "b.pdf" ∷ "c.doc" ∷ []))
folder-skips_example = folder-skips knives reading_of (λ f. f) ("a.txt" ∷ "b.pdf" ∷ "c.doc" ∷ [])

-- A PDF whose texts are all short is refused.
load_document_short : load_document knives (reading_of "b") "/b.pdf" "b.pdf" ≡ raise no_parser
unfolding load_document paper_rag.Base.Text.strip
load_document_short = refl

identifiers : List Chunk → List String
identifiers [] = []
identifiers (c ∷ cs) = c.chunk_id ∷ identifiers cs

load_identifiers :
    identifiers (split_page_to_three_levels knives.splitters (base_doc "f" "Word" "/f" "") "t" 0)
    ≡ "f::p::l1::" ∷ "f::p::l11::" ∷ "f::p::l111::" ∷ "f::p::l111::1" ∷ []
unfolding identifiers split_page_to_three_levels paper_rag.Base.Text.strip
    paper_rag.Loader.Levels.middle_chunks paper_rag.Loader.Levels.leaf_chunks
load_identifiers = refl
