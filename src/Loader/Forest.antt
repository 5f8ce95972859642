-- ===== src/Loader/Forest.antt =====
-- backend/rag/document_loader.py: chunks that refer to one another as the retrieval expects.
use paper_rag.Base.{
  ℕ, suc, String, string_eq, nat_eq, ◌≡◌, refl, sym, ◌∙◌, true, List, [], ◌∷◌, map, any, All, ◌==◌,
  ==_refl, arith, Bool-cases, inl, inr,
}
use paper_rag.Base.Text.{is_empty}
use paper_rag.Base.Keep.{All-append}
use paper_rag.Loader.Chunk.{Chunk}
use paper_rag.Loader.Distinct.{has_id, distinct_ids}
use paper_rag.Loader.Identifiers.{IsDecimal}
use paper_rag.Loader.Levels.{
  Splitters, Counters, pieces, id_of, leaf_chunks, middle_chunks, root_chunks, after_1, after_2,
  after_3, from_idx, split_page_to_three_levels,
}
use paper_rag.Loader.Links.{
  is_at, IsLinked, top, section, below_top, below_middle, AllLinked, root_chunks-AllLinked,
}
use paper_rag.Loader.Numbering.{Positions, root_chunks-IsMade}

-- Chunks of one file with distinct identifiers and consecutive positions, each after its parent.
pub record IsForest (filename : String) (idx : ℕ) (xs : List Chunk) : Type 0 where
  pub all_distinct : distinct_ids xs ≡ true
  pub all_linked : AllLinked [] xs
  pub all_placed : Positions idx xs
  pub all_named : All (λ x. (x.filename == filename) ≡ true) xs

-- A change that leaves what the references read.
pub record IsRemark (f : Chunk → Chunk) : Type 0 where
  pub same_id : (x : Chunk) → (f x).chunk_id ≡ x.chunk_id
  pub same_level : (x : Chunk) → (f x).chunk_level ≡ x.chunk_level
  pub same_parent : (x : Chunk) → (f x).parent_chunk_id ≡ x.parent_chunk_id
  pub same_root : (x : Chunk) → (f x).root_chunk_id ≡ x.root_chunk_id
  pub same_idx : (x : Chunk) → (f x).chunk_idx ≡ x.chunk_idx
  pub same_filename : (x : Chunk) → (f x).filename ≡ x.filename

module _ (f : Chunk → Chunk) (remark : IsRemark f) where
  has_id-map : (id : String) (xs : List Chunk) → has_id id (map f xs) ≡ has_id id xs
  has_id-map id [] = refl
  has_id-map id (x ∷ xs) = rw (remark.same_id x) (ground (arith, has_id-map id xs))

  distinct_ids-map : (xs : List Chunk) → distinct_ids (map f xs) ≡ distinct_ids xs
  distinct_ids-map [] = refl
  distinct_ids-map (x ∷ xs) =
      rw (remark.same_id x) (ground (arith, has_id-map x.chunk_id xs, distinct_ids-map xs))

  any-is_at :
      (level : ℕ) (id root : String) (xs : List Chunk)
      → any (is_at level id root) (map f xs) ≡ any (is_at level id root) xs
  any-is_at level id root [] = refl
  any-is_at level id root (x ∷ xs) =
      rw (remark.same_level x) (
        rw (remark.same_id x)
          (rw (remark.same_root x) (ground (arith, any-is_at level id root xs))))

  IsLinked-map :
      (before : List Chunk) (x : Chunk) → IsLinked before x → IsLinked (map f before) (f x)
  IsLinked-map before x (top l p r) =
      top (remark.same_level x ∙ l) (remark.same_parent x ∙ p)
        (remark.same_root x ∙ (r ∙ sym (remark.same_id x)))
  IsLinked-map before x (section l p r) =
      section (remark.same_level x ∙ l) (remark.same_parent x ∙ p)
        (remark.same_root x ∙ (r ∙ sym (remark.same_id x)))
  IsLinked-map before x (below_top l h) = below_top (remark.same_level x ∙ l) (
      rw (remark.same_parent x)
        (rw (remark.same_root x) (any-is_at 1 x.parent_chunk_id x.root_chunk_id before ∙ h)))
  IsLinked-map before x (below_middle l h) = below_middle (remark.same_level x ∙ l) (
      rw (remark.same_parent x)
        (rw (remark.same_root x) (any-is_at 2 x.parent_chunk_id x.root_chunk_id before ∙ h)))

  AllLinked-map :
      (before xs : List Chunk) → AllLinked before xs → AllLinked (map f before) (map f xs)
  unfolding AllLinked
  AllLinked-map before [] a = tt
  AllLinked-map before (x ∷ xs) a = (IsLinked-map before x a.0, AllLinked-map (x ∷ before) xs a.1)

  Positions-map : (idx : ℕ) (xs : List Chunk) → Positions idx xs → Positions idx (map f xs)
  unfolding Positions
  Positions-map idx [] p = tt
  Positions-map idx (x ∷ xs) p = (remark.same_idx x ∙ p.0, Positions-map (suc idx) xs p.1)

  named-map :
      (filename : String) (xs : List Chunk)
      → All (λ x. (x.filename == filename) ≡ true) xs
      → All (λ x. (x.filename == filename) ≡ true) (map f xs)
  named-map filename [] a = tt
  named-map filename (x ∷ xs) a = (rw (remark.same_filename x) a.0, named-map filename xs a.1)

  pub IsForest-map :
      (filename : String) (idx : ℕ) (xs : List Chunk)
      → IsForest filename idx xs
      → IsForest filename idx (map f xs)
  IsForest-map filename idx xs t = record {
    all_distinct = distinct_ids-map xs ∙ t.all_distinct;
    all_linked = AllLinked-map [] xs t.all_linked;
    all_placed = Positions-map idx xs t.all_placed;
    all_named = named-map filename xs t.all_named;
  }

module _ (tools : Splitters) (base : Chunk) where
  abbrev Named : List Chunk → Type 0
  Named xs = All (λ x. (x.filename == base.filename) ≡ true) xs

  leaf_chunks-Named :
      (root parent : String) (texts : List String) (c : Counters)
      → Named (leaf_chunks tools base root parent texts c).0
  unfolding leaf_chunks
  leaf_chunks-Named root parent [] c = tt
  leaf_chunks-Named root parent (t ∷ ts) c =
      (==_refl base.filename, leaf_chunks-Named root parent ts (after_3 tools base c))

  middle_chunks-Named :
      (root : String) (texts : List String) (c : Counters)
      → Named (middle_chunks tools base root texts c).0
  unfolding middle_chunks
  middle_chunks-Named root [] c = tt
  middle_chunks-Named root (t ∷ ts) c = (
    ==_refl base.filename,
    All-append _ _ _
        (leaf_chunks-Named root (id_of tools base 2 c.level_2_counter) (pieces (tools.split_3 t))
          (after_2 tools base c))
        (middle_chunks-Named root ts _),
  )

  root_chunks-Named :
      (texts : List String) (c : Counters) → Named (root_chunks tools base texts c).0
  unfolding root_chunks
  root_chunks-Named [] c = tt
  root_chunks-Named (t ∷ ts) c = (
    ==_refl base.filename,
    All-append _ _ _
        (middle_chunks-Named (id_of tools base 1 c.level_1_counter) (pieces (tools.split_2 t))
          (after_1 tools base c))
        (root_chunks-Named ts _),
  )

  pub none-IsForest : (idx : ℕ) → IsForest base.filename idx []
  unfolding AllLinked Positions
  none-IsForest idx = record {
    all_distinct = refl;
    all_linked = tt;
    all_placed = tt;
    all_named = tt;
  }

  -- The three levels of a text: ...
  pub split_page_to_three_levels-IsForest :
      (text : String) (idx : ℕ)
      → IsDecimal tools.str
      → IsForest base.filename idx (split_page_to_three_levels tools base text idx)
  unfolding split_page_to_three_levels
  split_page_to_three_levels-IsForest text idx decimal = elim (Bool-cases (is_empty text)) [
    | inl e ↦ rw e (none-IsForest idx)
    | inr e ↦ rw e (record {
      all_distinct =
          (root_chunks-IsMade tools base decimal (pieces (tools.split_1 text))
            (from_idx tools base idx)).distinct;
      all_linked =
          root_chunks-AllLinked tools base (pieces (tools.split_1 text)) (from_idx tools base idx)
            [];
      all_placed =
          (root_chunks-IsMade tools base decimal (pieces (tools.split_1 text))
            (from_idx tools base idx)).positions;
      all_named = root_chunks-Named (pieces (tools.split_1 text)) (from_idx tools base idx);
    })
  ]
