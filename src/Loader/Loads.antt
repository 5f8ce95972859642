-- ===== src/Loader/Loads.antt =====
-- backend/rag/document_loader.py: the parser that is taken, `load_document` and the folder.
use Prim.Native.String.{[] as no_text, ◌∷◌ as ◌∷ₜ◌}
use paper_rag.Base.{
  ℕ, ◌⊎◌, String, string_eq, nat_eq, ◌≡◌, refl, sym, ap, ◌∙◌, Bool, true, false, ◌||◌, ◌&&◌, Option,
  none, some, List, [], ◌∷◌, ◌++◌, keep, All, Bool-cases, Option-cases, Result-cases, inl, inr,
  arith, if◌then◌else◌, Result, ok, raise, ◌≤◌, ◌<◌,
}
use paper_rag.Base.Text.{strip}
use paper_rag.Loader.Chunk.{Chunk}
use paper_rag.Loader.Identifiers.{IsDecimal}
use paper_rag.Loader.Forest.{IsForest, IsRemark, IsForest-map}
use paper_rag.Loader.Splits.{Tools}
use paper_rag.Loader.Sections.{split_structural-IsForest, split_standard-IsForest}
use paper_rag.Loader.Files.{
  Loaded, not_installed, load_raised, pages, Parsers, pdf_parsers, try_parser, text_length, is_good,
  first_good, parse_pdf_with_fallback, LayoutBlock, Reading, LoadError, pages_of_type, marked_chunk,
  mark_layout, is_pdf, is_word, is_excel, join_pages, chunks_of_text, load_pdf, load_other,
  load_document, load_documents_from_folder,
}

-- A parser gives no text, or one of at most 50 characters when it is stripped.
pub TooShort : Option String → Type 0
TooShort none = Unit {0}
TooShort (some text) = text_length (strip text) ≤ 50

-- The parser whose text is taken, after parsers whose texts are too short; or all texts are.
pub data IsFallback (ps : List (String × Loaded)) : Option (String × String) → Type 0 where
  taken :
      (before after : List (String × Loaded)) (name text : String) (loaded : Loaded)
      → ps ≡ before ++ ((name, loaded) ∷ after)
      → All (λ p. TooShort (try_parser p.1)) before
      → try_parser loaded ≡ some text
      → 50 < text_length (strip text)
      → IsFallback ps (some (text, name))
  exhausted : All (λ p. TooShort (try_parser p.1)) ps → IsFallback ps none

is_good-TooShort : (o : Option String) → is_good o ≡ false → TooShort o
unfolding strip TooShort
is_good-TooShort none h = tt
is_good-TooShort (some no_text) h = omega arith
is_good-TooShort (some (c ∷ₜ s)) h = ground (arith, h)

is_good-long : (text : String) → is_good (some text) ≡ true → 50 < text_length (strip text)
is_good-long text h = ground (arith, h)

skip_bad :
    (name : String) (loaded : Loaded) (ps : List (String × Loaded)) (o : Option (String × String))
    → TooShort (try_parser loaded)
    → IsFallback ps o
    → IsFallback ((name, loaded) ∷ ps) o
skip_bad name loaded ps _ bad (taken before after n text l e a t g) =
    taken ((name, loaded) ∷ before) after n text l (ap (◌∷◌ (name, loaded)) e) (bad, a) t g
skip_bad name loaded ps _ bad (exhausted a) = exhausted (bad, a)

first_good-IsFallback : (ps : List (String × Loaded)) → IsFallback ps (first_good ps)
unfolding first_good
first_good-IsFallback [] = exhausted tt
first_good-IsFallback ((name, loaded) ∷ ps) =
    by_text (try_parser loaded) refl (Bool-cases (is_good (try_parser loaded)))
      (first_good-IsFallback ps)
  where
    by_text :
        (o : Option String)
        → try_parser loaded ≡ o
        → (is_good (try_parser loaded) ≡ true) ⊎ (is_good (try_parser loaded) ≡ false)
        → IsFallback ps (first_good ps)
        → IsFallback ((name, loaded) ∷ ps) (first_good ((name, loaded) ∷ ps))
    by_text o e (inr bad) later =
        rw bad
          (skip_bad name loaded ps (first_good ps) (is_good-TooShort (try_parser loaded) bad) later)
    by_text none e (inl good) later = absurd (ground (arith, ap is_good e, good))
    by_text (some text) e (inl good) later = rw good (
        rw e
          (taken [] ps name text loaded refl tt e (is_good-long text (ap is_good (sym e) ∙ good))))

-- A PDF's text is that of the first parser, among OpenDataLoader, PyMuPDF, pdfplumber and PyPDF in this
-- order, that gives one of more than 50 characters when it is stripped, and the name is the parser's;
-- the error means that none gives such a text.
pub parse_pdf_with_fallback-IsFallback :
    (ps : Parsers)
    → IsFallback
        (("OpenDataLoader", ps.opendataloader)
          ∷ ("PyMuPDF", ps.pymupdf)
          ∷ ("pdfplumber", ps.pdfplumber)
          ∷ ("PyPDF", ps.pypdf)
          ∷ [])
        (parse_pdf_with_fallback ps)
unfolding parse_pdf_with_fallback
parse_pdf_with_fallback-IsFallback ps = first_good-IsFallback (pdf_parsers ps)

marked-IsRemark : (figures tables : List ℕ) → IsRemark (marked_chunk figures tables)
marked-IsRemark figures tables = record {
  same_id = λ x. refl;
  same_level = λ x. refl;
  same_parent = λ x. refl;
  same_root = λ x. refl;
  same_idx = λ x. refl;
  same_filename = λ x. refl;
}

mark_layout-IsForest :
    (filename : String) (layout : Option (List LayoutBlock)) (xs : List Chunk)
    → IsForest filename 0 xs
    → IsForest filename 0 (mark_layout layout xs)
mark_layout-IsForest filename none xs t = t
mark_layout-IsForest filename (some []) xs t = t
mark_layout-IsForest filename (some (b ∷ bs)) xs t =
    IsForest-map _
      (marked-IsRemark (pages_of_type "Figure" (b ∷ bs)) (pages_of_type "Table" (b ∷ bs))) filename
      0 xs t

-- The chunks of a call that returned.
abbrev pub Returns : (List Chunk → Type 0) → Result LoadError (List Chunk) → Type 0
Returns Q (ok xs) = Q xs
Returns Q (raise e) = Unit {0}

module _ (tools : Tools) (decimal : IsDecimal tools.splitters.str) where
  chunks_of_text-IsForest :
      (r : Reading) (text parser file_path filename : String)
      → IsForest filename 0 (chunks_of_text tools r text parser file_path filename)
  chunks_of_text-IsForest r text parser file_path filename =
      let cleaned = if r.enable_academic_cleaning then r.clean_paper_text text else text in
      elim (Bool-cases r.enable_structural_chunking) [
        | inl e ↦ rw e (split_structural-IsForest tools cleaned filename parser decimal)
        | inr e ↦
            rw e (split_standard-IsForest tools cleaned filename "PDF" file_path parser decimal)
      ]

  load_pdf-IsForest :
      (r : Reading) (file_path filename : String)
      → Returns (IsForest filename 0) (load_pdf tools r file_path filename)
  unfolding load_pdf
  load_pdf-IsForest r file_path filename = elim (Option-cases (parse_pdf_with_fallback r.parsers)) [
    | inl e ↦ rw (e, Returns) tt
    | inr e ↦
        rw (e.1, Returns)
          (mark_layout-IsForest filename r.layout _
            (chunks_of_text-IsForest r e.0.0 e.0.1 file_path filename))
  ]

  load_other-IsForest :
      (loaded : Loaded) (doc_type file_path filename : String)
      → Returns (IsForest filename 0) (load_other tools loaded doc_type file_path filename)
  load_other-IsForest not_installed doc_type file_path filename = tt
  load_other-IsForest load_raised doc_type file_path filename = tt
  load_other-IsForest (pages ts) doc_type file_path filename =
      split_standard-IsForest tools (join_pages ts) filename doc_type file_path "" decimal

  -- The chunks of a document: each belongs to the file, their identifiers differ, their positions are
  -- 0, 1, 2 and so on, and each comes after the chunk that it names as its parent. Decimal texts differ
  -- and hold no colon and no underscore.
  pub load_document-IsForest :
      (r : Reading) (file_path filename : String)
      → Returns (IsForest filename 0) (load_document tools r file_path filename)
  unfolding load_document
  load_document-IsForest r file_path filename = elim (Bool-cases (is_pdf (r.lower filename))) [
    | inl e ↦ rw e (load_pdf-IsForest r file_path filename)
    | inr e ↦ elim (Bool-cases (is_word (r.lower filename))) [
      | inl f ↦ rw e (rw f (load_other-IsForest r.word_or_excel "Word" file_path filename))
      | inr f ↦ elim (Bool-cases (is_excel (r.lower filename))) [
        | inl g ↦
            rw e (rw f (rw g (load_other-IsForest r.word_or_excel "Excel" file_path filename)))
        | inr g ↦ rw e (rw f (rw g tt))
      ]
    ]
  ]

abbrev is_ok : Result LoadError (List Chunk) → Bool
is_ok (ok xs) = true
is_ok (raise e) = false

module _ (tools : Tools) (read : String → Reading) (join : String → String) where
  -- A file of a supported type that can be loaded.
  abbrev pub can_load : String → Bool
  can_load filename =
      (is_pdf ((read filename).lower filename)
        || (is_word ((read filename).lower filename) || is_excel ((read filename).lower filename)))
      && is_ok (load_document tools (read filename) (join filename) filename)

  -- Files that are of another type or fail leave no trace: the chunks are those of a folder without them.
  pub folder-skips :
      (filenames : List String)
      → load_documents_from_folder tools read join filenames
        ≡ load_documents_from_folder tools read join (keep can_load filenames)
  unfolding load_documents_from_folder
  folder-skips [] = refl
  folder-skips (f ∷ fs) =
      let r = read f in
      elim (Bool-cases (is_pdf (r.lower f) || (is_word (r.lower f) || is_excel (r.lower f)))) [
        | inr e ↦ rw e (folder-skips fs)
        | inl e ↦ elim (Result-cases (load_document tools r (join f) f)) [
          | inl l ↦ rw e (rw l.1 (rw e (rw l.1 (ap (λ zs. l.0 ++ zs) (folder-skips fs)))))
          | inr l ↦ rw e (rw l.1 (folder-skips fs))
        ]
      ]
