-- ===== src/Loader/Sections.antt =====
-- backend/rag/document_loader.py: `_split_structural` and `_split_standard`.
use paper_rag.Base.{
  ℕ, suc, String, string_eq, nat_eq, ◌≡◌, refl, true, List, [], ◌∷◌, length, any, All, ◌==◌,
  ==_refl, arith,
}
use paper_rag.Base.Keep.{All-append}
use paper_rag.Loader.Chunk.{Chunk}
use paper_rag.Loader.Identifiers.{IsDecimal}
use paper_rag.Loader.Links.{is_at, section, below_middle, AllLinked, linked-append}
use paper_rag.Loader.Numbering.{Positions, Positions-append}
use paper_rag.Loader.Forest.{IsForest, IsRemark, IsForest-map, split_page_to_three_levels-IsForest}
use paper_rag.Loader.SectionIds.{all_sections-distinct}
use paper_rag.Loader.Splits.{
  Tools, Section, annotated, section_id, child_chunks, section_chunks, all_sections, parent_chunk,
  split_structural, split_standard, base_doc,
}

module _ (tools : Tools) where
  children-AllLinked :
      (parent : Chunk) (lo : ℕ) (ts : List String) (g : ℕ) (before : List Chunk)
      → any
          (is_at 2
            (section_id tools parent.filename parent.parent_idx)
            (section_id tools parent.filename parent.parent_idx))
          before
        ≡ true
      → AllLinked before (child_chunks tools parent lo ts g)
  unfolding child_chunks AllLinked
  children-AllLinked parent lo [] g before h = tt
  children-AllLinked parent lo (t ∷ ts) g before h =
      (below_middle refl h, children-AllLinked parent (suc lo) ts (suc g) _ (ground (arith, h)))

  section-AllLinked :
      (filename parser : String) (p : ℕ) (s : Section) (ts : List String) (g : ℕ)
      (before : List Chunk)
      → AllLinked before (section_chunks tools filename parser p s ts g)
  unfolding AllLinked
  section-AllLinked filename parser p s [] g before = tt
  section-AllLinked filename parser p s (t ∷ ts) g before = (
    section refl refl refl,
    children-AllLinked (parent_chunk tools filename parser p s (length (t ∷ ts)) g) 0 (t ∷ ts)
        (suc g) _ (ground (arith, ==_refl (section_id tools filename p))),
  )

  all_sections-AllLinked :
      (filename parser : String) (lo : ℕ) (ss : List Section) (g : ℕ) (before : List Chunk)
      → AllLinked before (all_sections tools filename parser lo ss g)
  unfolding AllLinked all_sections
  all_sections-AllLinked filename parser lo [] g before = tt
  all_sections-AllLinked filename parser lo (s ∷ ss) g before =
      linked-append before
        (section_chunks tools filename parser lo s (tools.split_children s.page_content) g) _
        (section-AllLinked filename parser lo s (tools.split_children s.page_content) g before)
        (λ more f. all_sections-AllLinked filename parser (suc lo) ss _ more)

  children-Positions :
      (parent : Chunk) (lo : ℕ) (ts : List String) (g : ℕ)
      → Positions g (child_chunks tools parent lo ts g)
  unfolding child_chunks Positions
  children-Positions parent lo [] g = tt
  children-Positions parent lo (t ∷ ts) g = (refl, children-Positions parent (suc lo) ts (suc g))

  section-Positions :
      (filename parser : String) (p : ℕ) (s : Section) (ts : List String) (g : ℕ)
      → Positions g (section_chunks tools filename parser p s ts g)
  unfolding Positions
  section-Positions filename parser p s [] g = tt
  section-Positions filename parser p s (t ∷ ts) g = (
    refl,
    children-Positions (parent_chunk tools filename parser p s (length (t ∷ ts)) g) 0 (t ∷ ts)
        (suc g),
  )

  all_sections-Positions :
      (filename parser : String) (lo : ℕ) (ss : List Section) (g : ℕ)
      → Positions g (all_sections tools filename parser lo ss g)
  unfolding Positions all_sections
  all_sections-Positions filename parser lo [] g = tt
  all_sections-Positions filename parser lo (s ∷ ss) g =
      Positions-append g
        (section_chunks tools filename parser lo s (tools.split_children s.page_content) g) _
        (section-Positions filename parser lo s (tools.split_children s.page_content) g)
        (all_sections-Positions filename parser (suc lo) ss _)

  children-named :
      (parent : Chunk) (lo : ℕ) (ts : List String) (g : ℕ)
      → All (λ x. (x.filename == parent.filename) ≡ true) (child_chunks tools parent lo ts g)
  unfolding child_chunks
  children-named parent lo [] g = tt
  children-named parent lo (t ∷ ts) g =
      (==_refl parent.filename, children-named parent (suc lo) ts (suc g))

  section-named :
      (filename parser : String) (p : ℕ) (s : Section) (ts : List String) (g : ℕ)
      → All (λ x. (x.filename == filename) ≡ true) (section_chunks tools filename parser p s ts g)
  section-named filename parser p s [] g = tt
  section-named filename parser p s (t ∷ ts) g = (
    ==_refl filename,
    children-named (parent_chunk tools filename parser p s (length (t ∷ ts)) g) 0 (t ∷ ts) (suc g),
  )

  all_sections-named :
      (filename parser : String) (lo : ℕ) (ss : List Section) (g : ℕ)
      → All (λ x. (x.filename == filename) ≡ true) (all_sections tools filename parser lo ss g)
  unfolding all_sections
  all_sections-named filename parser lo [] g = tt
  all_sections-named filename parser lo (s ∷ ss) g =
      All-append _ _ _ (section-named filename parser lo s (tools.split_children s.page_content) g)
        (all_sections-named filename parser (suc lo) ss _)

  pub split_structural-IsForest :
      (text filename parser : String)
      → IsDecimal tools.splitters.str
      → IsForest filename 0 (split_structural tools text filename parser)
  unfolding split_structural
  split_structural-IsForest text filename parser decimal = record {
    all_distinct =
        all_sections-distinct tools decimal filename parser 0 (tools.split_markdown text) 0;
    all_linked = all_sections-AllLinked filename parser 0 (tools.split_markdown text) 0 [];
    all_placed = all_sections-Positions filename parser 0 (tools.split_markdown text) 0;
    all_named = all_sections-named filename parser 0 (tools.split_markdown text) 0;
  }

  annotated-IsRemark : IsRemark (λ c. annotated tools c.text c)
  annotated-IsRemark = record {
    same_id = λ x. refl;
    same_level = λ x. refl;
    same_parent = λ x. refl;
    same_root = λ x. refl;
    same_idx = λ x. refl;
    same_filename = λ x. refl;
  }

  pub split_standard-IsForest :
      (text filename doc_type file_path parser : String)
      → IsDecimal tools.splitters.str
      → IsForest filename 0 (split_standard tools text filename doc_type file_path parser)
  unfolding split_standard
  split_standard-IsForest text filename doc_type file_path parser decimal =
      IsForest-map (λ c. annotated tools c.text c) annotated-IsRemark filename 0 _
        (split_page_to_three_levels-IsForest tools.splitters
          (base_doc filename doc_type file_path parser) text 0 decimal)
