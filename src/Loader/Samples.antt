-- ===== src/Loader/Samples.antt =====
-- Tools of the loader that split a text into itself, and write a number as so many marks.
use Prim.Native.String.{[] as no_text, ◌∷◌ as ◌∷ₜ◌}
use Prim.Native.Char.{code}
use text.Mathlib.TextLemmas.{cons≢nil, nil≢cons, tail-eq_of_cons-eq}
use paper_rag.Base.{ℕ, zero, suc, String, ◌≡◌, refl, ap, true, false, none, [], ◌∷◌, arith}
use paper_rag.Loader.Identifiers.{Without, IsDecimal}
use paper_rag.Loader.Splits.{Tools}
use paper_rag.Loader.Files.{load_raised, pages, Reading}

abbrev pub marks : ℕ → String
marks zero = no_text
marks (suc n) = "1" ∷ₜ marks n

marks_inj : (m n : ℕ) → marks m ≡ marks n → m ≡ n
marks_inj zero zero e = refl
marks_inj zero (suc n) e = absurd (nil≢cons e)
marks_inj (suc m) zero e = absurd (cons≢nil e)
marks_inj (suc m) (suc n) e = ap suc (marks_inj m n (tail-eq_of_cons-eq e))

no_colons : (n : ℕ) → Without ":" (marks n)
no_colons zero = tt
no_colons (suc n) = (λ e. absurd (omega (arith, ap code e)), no_colons n)

no_underscores : (n : ℕ) → Without "_" (marks n)
no_underscores zero = tt
no_underscores (suc n) = (λ e. absurd (omega (arith, ap code e)), no_underscores n)

pub marks-IsDecimal : IsDecimal marks
marks-IsDecimal = record { apart = marks_inj; no_colon = no_colons; no_underscore = no_underscores }

abbrev pub knives : Tools
knives = record {
  splitters = record {
    str = marks;
    split_1 = λ t. t ∷ [];
    split_2 = λ t. t ∷ [];
    split_3 = λ t. t ∷ t ∷ [];
  };
  split_markdown =
      λ t. record { page_content = t; header_1 = "I"; header_2 = ""; header_3 = "A" } ∷ [];
  split_children = λ t. t ∷ t ∷ [];
  detect_theorem_proof = λ t. (true, false);
  extract_formulas = λ t. [];
  extract_citations = λ t. [];
  extract_glossary = λ t. t ∷ [];
}

abbrev pub reading_of : String → Reading
reading_of text = record {
  enable_academic_cleaning = false;
  enable_structural_chunking = true;
  clean_paper_text = λ t. t;
  lower = λ t. t;
  parsers = record {
    opendataloader = load_raised;
    pymupdf = pages ("too short" ∷ []);
    pdfplumber = pages (text ∷ text ∷ []);
    pypdf = pages (text ∷ []);
  };
  layout = none;
  word_or_excel = pages (text ∷ []);
}
