-- ===== src/Loader/Links.antt =====
-- backend/rag/document_loader.py: the references of `_split_page_to_three_levels` from a chunk to its
-- parent and its root.
use paper_rag.Base.{
  ℕ, String, string_eq, nat_eq, ◌≡◌, refl, Bool, true, ◌&&◌, List, [], ◌∷◌, ◌++◌, any, ◌==◌,
  ==_refl, arith,
}
use paper_rag.Loader.Chunk.{Chunk}
use paper_rag.Loader.Levels.{
  Splitters, Counters, pieces, id_of, leaf_chunks, middle_chunks, root_chunks, after_1, after_2,
  after_3,
}

-- A chunk of the level with the identifier and the root.
abbrev pub is_at : ℕ → String → String → Chunk → Bool
is_at level id root x = x.chunk_level == level && (x.chunk_id == id && x.root_chunk_id == root)

-- A chunk whose parent is among those before it.
pub data IsLinked (before : List Chunk) (x : Chunk) : Type 0 where
  top :
      x.chunk_level ≡ 1 → x.parent_chunk_id ≡ "" → x.root_chunk_id ≡ x.chunk_id → IsLinked before x
  section :
      x.chunk_level ≡ 2 → x.parent_chunk_id ≡ "" → x.root_chunk_id ≡ x.chunk_id → IsLinked before x
  below_top :
      x.chunk_level ≡ 2
      → any (is_at 1 x.parent_chunk_id x.root_chunk_id) before ≡ true
      → IsLinked before x
  below_middle :
      x.chunk_level ≡ 3
      → any (is_at 2 x.parent_chunk_id x.root_chunk_id) before ≡ true
      → IsLinked before x

-- Each chunk of a list, where others come before the list.
unfoldable pub AllLinked : List Chunk → List Chunk → Type 0
AllLinked before [] = Unit {0}
AllLinked before (x ∷ xs) = IsLinked before x × AllLinked (x ∷ before) xs

-- What comes before one list comes before two.
pub linked-append :
    (before xs ys : List Chunk)
    → AllLinked before xs
    → ((more : List Chunk)
        → ((p : Chunk → Bool) → any p before ≡ true → any p more ≡ true)
        → AllLinked more ys)
    → AllLinked before (xs ++ ys)
unfolding AllLinked
linked-append before [] ys a f = f before (λ p h. h)
linked-append before (x ∷ xs) ys a f =
    (a.0, linked-append (x ∷ before) xs ys a.1 (λ more g. f more (λ p h. g p (ground (arith, h)))))

module _ (tools : Splitters) (base : Chunk) where
  leaf_chunks-AllLinked :
      (root parent : String) (texts : List String) (c : Counters) (before : List Chunk)
      → any (is_at 2 parent root) before ≡ true
      → AllLinked before (leaf_chunks tools base root parent texts c).0
  unfolding AllLinked leaf_chunks
  leaf_chunks-AllLinked root parent [] c before h = tt
  leaf_chunks-AllLinked root parent (text ∷ texts) c before h = (
    below_middle refl h,
    leaf_chunks-AllLinked root parent texts (after_3 tools base c) _ (ground (arith, h)),
  )

  middle_chunks-AllLinked :
      (root : String) (texts : List String) (c : Counters) (before : List Chunk)
      → any (is_at 1 root root) before ≡ true
      → AllLinked before (middle_chunks tools base root texts c).0
  unfolding AllLinked middle_chunks
  middle_chunks-AllLinked root [] c before h = tt
  middle_chunks-AllLinked root (text ∷ texts) c before h = (
    below_top refl h,
    linked-append _ _ _
        (leaf_chunks-AllLinked root (id_of tools base 2 c.level_2_counter)
          (pieces (tools.split_3 text)) (after_2 tools base c) _
          (ground (arith, ==_refl (id_of tools base 2 c.level_2_counter), ==_refl root)))
        (λ more f.
          middle_chunks-AllLinked root texts _ more (f (is_at 1 root root) (ground (arith, h)))),
  )

  pub root_chunks-AllLinked :
      (texts : List String) (c : Counters) (before : List Chunk)
      → AllLinked before (root_chunks tools base texts c).0
  unfolding AllLinked root_chunks
  root_chunks-AllLinked [] c before = tt
  root_chunks-AllLinked (text ∷ texts) c before = (
    top refl refl refl,
    linked-append _ _ _
        (middle_chunks-AllLinked (id_of tools base 1 c.level_1_counter)
          (pieces (tools.split_2 text)) (after_1 tools base c) _
          (ground (arith, ==_refl (id_of tools base 1 c.level_1_counter))))
        (λ more f. root_chunks-AllLinked texts _ more),
  )
