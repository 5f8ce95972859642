-- ===== src/Loader/SectionIds.antt =====
-- backend/rag/document_loader.py: the identifiers of `_split_structural` tell chunks apart.
use Prim.Native.String.{[] as no_text, ◌∷◌ as ◌∷ₜ◌, ◌++◌ as ◌++ₜ◌}
use Prim.Native.Char.{Char}
use text.Mathlib.TextLemmas.{
  nil-append, cons-append, append_cancel_left, head-eq_of_cons-eq, tail-eq_of_cons-eq, nil≢cons,
}
use paper_rag.Base.{
  ℕ, suc, ◌≤◌, String, string_eq, ◌≡◌, ◌≢◌, refl, sym, ap, ◌∙◌, true, false, List, [], ◌∷◌, length,
  All, ◌==◌, ==_iff, arith,
}
use paper_rag.Loader.Chunk.{Chunk}
use paper_rag.Loader.Distinct.{has_id, distinct_ids, has_id-append, distinct_ids-append}
use paper_rag.Loader.Identifiers.{Without, IsDecimal, split_once}
use paper_rag.Loader.Splits.{
  Tools, Section, section_id, child_id, child_chunks, section_chunks, all_sections, parent_chunk,
}

-- A text without a mark is none with it.
no_mark : (m : Char) (a b s : String) → Without m a → a ≢ b ++ₜ (m ∷ₜ s)
no_mark m no_text no_text s u e = nil≢cons (e ∙ nil-append (m ∷ₜ s))
no_mark m no_text (d ∷ₜ b) s u e = nil≢cons (e ∙ cons-append d b (m ∷ₜ s))
no_mark m (c ∷ₜ a) no_text s u e = u.0 (head-eq_of_cons-eq (e ∙ nil-append (m ∷ₜ s)))
no_mark m (c ∷ₜ a) (d ∷ₜ b) s u e =
    no_mark m a b s u.1 (tail-eq_of_cons-eq (e ∙ cons-append d b (m ∷ₜ s)))

-- `_c` before a text
marked : (s : String) → "_c" ++ₜ s ≡ "_" ∷ₜ ("c" ∷ₜ s)
marked s =
    cons-append "_" "c" s ∙ ap (◌∷ₜ◌ "_") (cons-append "c" "" s ∙ ap (◌∷ₜ◌ "c") (nil-append s))

module _ (tools : Tools) (decimal : IsDecimal tools.splitters.str) (filename : String) where
  pub section_id_inj : (p q : ℕ) → section_id tools filename p ≡ section_id tools filename q → p ≡ q
  section_id_inj p q e =
      decimal.apart p q (append_cancel_left "_p" _ _ (append_cancel_left filename _ _ e))

  pub section-child : (p q c : ℕ) → section_id tools filename p ≢ child_id tools filename q c
  section-child p q c e =
      no_mark "_" (tools.splitters.str p) (tools.splitters.str q) ("c" ∷ₜ tools.splitters.str c)
        (decimal.no_underscore p)
        (append_cancel_left "_p" _ _ (append_cancel_left filename _ _ e)
          ∙ ap (λ r. tools.splitters.str q ++ₜ r) (marked (tools.splitters.str c)))

  pub child_id_inj :
      (p q c d : ℕ) → child_id tools filename p c ≡ child_id tools filename q d → (p ≡ q) × (c ≡ d)
  child_id_inj p q c d e =
      let parts =
        split_once "_" (tools.splitters.str p) (tools.splitters.str q)
          ("c" ∷ₜ tools.splitters.str c) ("c" ∷ₜ tools.splitters.str d) (decimal.no_underscore p)
          (decimal.no_underscore q)
          (ap (λ r. tools.splitters.str p ++ₜ r) (sym (marked (tools.splitters.str c)))
            ∙ (append_cancel_left "_p" _ _ (append_cancel_left filename _ _ e)
                ∙ ap (λ r. tools.splitters.str q ++ₜ r) (marked (tools.splitters.str d)))) in
      (decimal.apart p q parts.0, decimal.apart c d (tail-eq_of_cons-eq parts.1))

module _ (tools : Tools) (decimal : IsDecimal tools.splitters.str) where
  -- An identifier that is none of the children's.
  other-children :
      (parent : Chunk) (id : String) (lo : ℕ) (ts : List String) (g : ℕ)
      → ((c : ℕ) → lo ≤ c → child_id tools parent.filename parent.parent_idx c ≢ id)
      → has_id id (child_chunks tools parent lo ts g) ≡ false
  unfolding child_chunks
  other-children parent id lo [] g h = refl
  other-children parent id lo (t ∷ ts) g h =
      let this : (child_id tools parent.filename parent.parent_idx lo == id) ≡ false = ground (
        arith,
        ==_iff (child_id tools parent.filename parent.parent_idx lo) id,
        h lo (omega arith),
      ) in
      rw this (other-children parent id (suc lo) ts (suc g) (λ c le. h c (omega (arith, le))))

  children-distinct :
      (parent : Chunk) (lo : ℕ) (ts : List String) (g : ℕ)
      → distinct_ids (child_chunks tools parent lo ts g) ≡ true
  unfolding child_chunks
  children-distinct parent lo [] g = refl
  children-distinct parent lo (t ∷ ts) g =
      rw
        (other-children parent (child_id tools parent.filename parent.parent_idx lo) (suc lo) ts
          (suc g) later)
        (children-distinct parent (suc lo) ts (suc g))
    where
      later :
          (c : ℕ)
          → suc lo ≤ c
          → child_id tools parent.filename parent.parent_idx c
            ≢ child_id tools parent.filename parent.parent_idx lo
      later c le e =
          let same =
            (child_id_inj tools decimal parent.filename parent.parent_idx parent.parent_idx c lo
              e).1 in
          absurd (omega (arith, le, same))

  module _ (filename parser : String) where
    -- An identifier that is none of a section's.
    other-section :
        (id : String) (p : ℕ) (s : Section) (ts : List String) (g : ℕ)
        → section_id tools filename p ≢ id
        → ((c : ℕ) → child_id tools filename p c ≢ id)
        → has_id id (section_chunks tools filename parser p s ts g) ≡ false
    other-section id p s [] g h k = refl
    other-section id p s (t ∷ ts) g h k =
        let this : (section_id tools filename p == id) ≡ false =
          ground (arith, ==_iff (section_id tools filename p) id, h) in
        rw this (
          other-children (parent_chunk tools filename parser p s (length (t ∷ ts)) g) id 0 (t ∷ ts)
            (suc g) (λ c le. k c))

    section-distinct :
        (p : ℕ) (s : Section) (ts : List String) (g : ℕ)
        → distinct_ids (section_chunks tools filename parser p s ts g) ≡ true
    section-distinct p s [] g = refl
    section-distinct p s (t ∷ ts) g =
        let parent = parent_chunk tools filename parser p s (length (t ∷ ts)) g in
        rw
          (other-children parent (section_id tools filename p) 0 (t ∷ ts) (suc g)
            (λ c le e. section-child tools decimal filename p p c (sym e)))
          (children-distinct parent 0 (t ∷ ts) (suc g))

    other-sections :
        (id : String) (lo : ℕ) (ss : List Section) (g : ℕ)
        → ((p : ℕ) → lo ≤ p → section_id tools filename p ≢ id)
        → ((p c : ℕ) → lo ≤ p → child_id tools filename p c ≢ id)
        → has_id id (all_sections tools filename parser lo ss g) ≡ false
    unfolding all_sections
    other-sections id lo [] g h k = refl
    other-sections id lo (s ∷ ss) g h k =
        has_id-append id
          (section_chunks tools filename parser lo s (tools.split_children s.page_content) g) _
          (other-section id lo s (tools.split_children s.page_content) g (h lo (omega arith))
            (λ c. k lo c (omega arith)))
          (other-sections id (suc lo) ss _ (λ p le. h p (omega (arith, le)))
            (λ p c le. k p c (omega (arith, le))))

    -- A child is in no later section, and a section neither.
    children-earlier :
        (parent : Chunk) (lo : ℕ) (ts : List String) (g : ℕ) (ss : List Section) (g' : ℕ)
        → parent.filename ≡ filename
        → All
            (λ x.
              has_id x.chunk_id (all_sections tools filename parser (suc parent.parent_idx) ss g')
              ≡ false)
            (child_chunks tools parent lo ts g)
    unfolding child_chunks
    children-earlier parent lo [] g ss g' n = tt
    children-earlier parent lo (t ∷ ts) g ss g' n = (
      other-sections (child_id tools parent.filename parent.parent_idx lo) (suc parent.parent_idx)
          ss g'
          (λ p le e.
            section-child tools decimal filename p parent.parent_idx lo
              (e ∙ ap (λ f. child_id tools f parent.parent_idx lo) n))
          (λ p c le e. later p c le (e ∙ ap (λ f. child_id tools f parent.parent_idx lo) n)),
      children-earlier parent (suc lo) ts (suc g) ss g' n,
    )
      where
        later :
            (p c : ℕ)
            → suc parent.parent_idx ≤ p
            → child_id tools filename p c ≢ child_id tools filename parent.parent_idx lo
        later p c le e =
            let same = (child_id_inj tools decimal filename p parent.parent_idx c lo e).0 in
            absurd (omega (arith, le, same))

    section-earlier :
        (p : ℕ) (s : Section) (ts : List String) (g : ℕ) (ss : List Section) (g' : ℕ)
        → All
            (λ x. has_id x.chunk_id (all_sections tools filename parser (suc p) ss g') ≡ false)
            (section_chunks tools filename parser p s ts g)
    section-earlier p s [] g ss g' = tt
    section-earlier p s (t ∷ ts) g ss g' = (
      other-sections (section_id tools filename p) (suc p) ss g'
          (λ q le e. absurd (omega (arith, le, section_id_inj tools decimal filename q p e)))
          (λ q c le e. section-child tools decimal filename p q c (sym e)),
      children-earlier (parent_chunk tools filename parser p s (length (t ∷ ts)) g) 0 (t ∷ ts)
          (suc g) ss g' refl,
    )

    pub all_sections-distinct :
        (lo : ℕ) (ss : List Section) (g : ℕ)
        → distinct_ids (all_sections tools filename parser lo ss g) ≡ true
    unfolding all_sections
    all_sections-distinct lo [] g = refl
    all_sections-distinct lo (s ∷ ss) g =
        distinct_ids-append
          (section_chunks tools filename parser lo s (tools.split_children s.page_content) g) _
          (section-distinct lo s (tools.split_children s.page_content) g)
          (all_sections-distinct (suc lo) ss _)
          (section-earlier lo s (tools.split_children s.page_content) g ss _)
