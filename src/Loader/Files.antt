-- ===== src/Loader/Files.antt =====
-- backend/rag/document_loader.py: the parsers of a PDF, `_load_pdf`, `load_document` and
-- `load_documents_from_folder`. What the libraries make of a file is an argument, exceptions included.
use Prim.Native.String.{[] as no_text, ◌∷◌ as ◌∷ₜ◌, ◌++◌ as ◌++ₜ◌}
use paper_rag.Base.{
  ℕ, suc, String, string_eq, nat_eq, Bool, false, not, ◌||◌, ◌&&◌, Option, none, some, List, [],
  ◌∷◌, ◌++◌, map, keep, any, ltb, ◌==◌, if◌then◌else◌, Result, ok, raise,
}
use paper_rag.Base.Text.{strip, is_empty}
use paper_rag.Loader.Chunk.{Chunk}
use paper_rag.Loader.Splits.{Tools, split_standard, split_structural}

-- What becomes of a library that is to read a file.
pub data Loaded : Type 0 where
  not_installed load_raised : Loaded
  pages : List String → Loaded

-- `"\n\n".join(texts)`
abbrev pub join_pages : List String → String
join_pages [] = ""
join_pages (t ∷ []) = t
join_pages (t ∷ u ∷ ts) = t ++ₜ ("\n\n" ++ₜ join_pages (u ∷ ts))

-- `_try_opendataloader`, `_try_pymupdf`, `_try_pdfplumber` and `_try_pypdf`
abbrev pub try_parser : Loaded → Option String
try_parser not_installed = none
try_parser load_raised = none
try_parser (pages []) = none
try_parser (pages (t ∷ ts)) = some (join_pages (t ∷ ts))

pub record Parsers : Type 0 where
  pub opendataloader : Loaded
  pub pymupdf : Loaded
  pub pdfplumber : Loaded
  pub pypdf : Loaded

-- `_PDF_PARSERS`
abbrev pub pdf_parsers : Parsers → List (String × Loaded)
pdf_parsers ps =
    ("OpenDataLoader", ps.opendataloader)
    ∷ ("PyMuPDF", ps.pymupdf)
    ∷ ("pdfplumber", ps.pdfplumber)
    ∷ ("PyPDF", ps.pypdf)
    ∷ []

abbrev pub text_length : String → ℕ
text_length no_text = 0
text_length (c ∷ₜ s) = suc (text_length s)

-- `text and len(text.strip()) > 50`
abbrev pub is_good : Option String → Bool
is_good none = false
is_good (some text) = not (is_empty text) && ltb 50 (text_length (strip text))

pub data LoadError : Type 0 where
  no_parser unsupported_file document_failed : LoadError

unfoldable pub first_good : List (String × Loaded) → Option (String × String)
first_good [] = none
first_good ((name, loaded) ∷ rest) =
    let later = first_good rest in
    let text = try_parser loaded in
    if is_good text then elim text [ none ↦ later | some t ↦ some (t, name) ] else later

unfoldable pub parse_pdf_with_fallback : Parsers → Option (String × String)
unfolding first_good
parse_pdf_with_fallback ps = first_good (pdf_parsers ps)

pub record LayoutBlock : Type 0 where
  pub block_type : String
  pub page : ℕ

-- The settings, `clean_paper_text`, `str.lower`, and what the libraries make of a file: the layout
-- is none where its analysis raises.
pub record Reading : Type 0 where
  pub enable_academic_cleaning : Bool
  pub enable_structural_chunking : Bool
  pub clean_paper_text : String → String
  pub lower : String → String
  pub parsers : Parsers
  pub layout : Option (List LayoutBlock)
  pub word_or_excel : Loaded

abbrev pub pages_of_type : String → List LayoutBlock → List ℕ
pages_of_type type blocks = map (λ b. b.page) (keep (λ b. b.block_type == type) blocks)

abbrev pub marked_chunk : List ℕ → List ℕ → Chunk → Chunk
marked_chunk figures tables c = record c {
  has_figure = any (λ p. p == c.page_number) figures;
  has_table = any (λ p. p == c.page_number) tables;
}

abbrev pub mark_layout : Option (List LayoutBlock) → List Chunk → List Chunk
mark_layout none chunks = chunks
mark_layout (some []) chunks = chunks
mark_layout (some (b ∷ blocks)) chunks =
    map (marked_chunk (pages_of_type "Figure" (b ∷ blocks)) (pages_of_type "Table" (b ∷ blocks)))
      chunks

-- `name.endswith(suffix)`
abbrev pub ends_with : String → String → Bool
ends_with suffix no_text = suffix == no_text
ends_with suffix (c ∷ₜ s) = (suffix == (c ∷ₜ s)) || ends_with suffix s

abbrev pub is_pdf : String → Bool
is_pdf lowered = ends_with ".pdf" lowered

abbrev pub is_word : String → Bool
is_word lowered = ends_with ".docx" lowered || ends_with ".doc" lowered

abbrev pub is_excel : String → Bool
is_excel lowered = ends_with ".xlsx" lowered || ends_with ".xls" lowered

module _ (tools : Tools) where
  abbrev pub chunks_of_text : Reading → String → String → String → String → List Chunk
  chunks_of_text r text parser file_path filename =
      let cleaned = if r.enable_academic_cleaning then r.clean_paper_text text else text in
      if r.enable_structural_chunking
      then split_structural tools cleaned filename parser
      else split_standard tools cleaned filename "PDF" file_path parser

  unfoldable pub load_pdf : Reading → String → String → Result LoadError (List Chunk)
  unfolding split_structural split_standard parse_pdf_with_fallback
  load_pdf r file_path filename = elim (parse_pdf_with_fallback r.parsers) [
    | none ↦ raise no_parser
    | some (text, parser) ↦
        ok (mark_layout r.layout (chunks_of_text r text parser file_path filename))
  ]

  abbrev pub load_other : Loaded → String → String → String → Result LoadError (List Chunk)
  load_other not_installed doc_type file_path filename = raise document_failed
  load_other load_raised doc_type file_path filename = raise document_failed
  load_other (pages ts) doc_type file_path filename =
      ok (split_standard tools (join_pages ts) filename doc_type file_path "")

  unfoldable pub load_document : Reading → String → String → Result LoadError (List Chunk)
  unfolding load_pdf
  load_document r file_path filename =
      if is_pdf (r.lower filename)
      then load_pdf r file_path filename
      else if is_word (r.lower filename)
      then load_other r.word_or_excel "Word" file_path filename
      else if is_excel (r.lower filename)
      then load_other r.word_or_excel "Excel" file_path filename
      else raise unsupported_file

  abbrev pub or_no_chunks : Result LoadError (List Chunk) → List Chunk
  or_no_chunks (ok chunks) = chunks
  or_no_chunks (raise e) = []

  -- The files of a folder, in its order; a file that fails is left out. `join` is `os.path.join`.
  unfoldable pub load_documents_from_folder :
      (String → Reading) → (String → String) → List String → List Chunk
  unfolding load_document
  load_documents_from_folder read join [] = []
  load_documents_from_folder read join (filename ∷ rest) =
      let after = load_documents_from_folder read join rest in
      let r = read filename in
      if is_pdf (r.lower filename) || (is_word (r.lower filename) || is_excel (r.lower filename))
      then or_no_chunks (load_document r (join filename) filename) ++ after
      else after
