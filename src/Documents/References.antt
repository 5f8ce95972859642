-- ===== src/Documents/References.antt =====
-- backend/services/document_jobs.py with backend/rag/document_loader.py: the leaves that are stored find
-- their parents in the table.
use paper_rag.Base.{
  String, string_eq, nat_eq, ◌≡◌, refl, sym, subst, Bool, true, ◌&&◌, List, [], ◌∷◌, keep, any, All,
  ◌==◌, Bool-cases, inl, inr, arith,
}
use paper_rag.Loader.Chunk.{Chunk}
use paper_rag.Loader.Links.{is_at, IsLinked, top, section, below_top, below_middle, AllLinked}
use paper_rag.Loader.Forest.{IsForest}
use paper_rag.Base.Keep.{All-map}
use paper_rag.Documents.Calls.{World}
use paper_rag.Documents.Index.{Services, is_of_file, is_leaf, is_parent, placed, vector_columns}
use paper_rag.Documents.Safety.{IsIndexed}

abbrev pub has_parent : List Chunk → Chunk → Bool
has_parent ps leaf =
    any (λ p. p.chunk_id == leaf.parent_chunk_id && p.root_chunk_id == leaf.root_chunk_id) ps

-- A chunk of the second level is among the parents, at its new place too.
parent-placed :
    (final id root : String) (xs : List Chunk)
    → any (is_at 2 id root) xs ≡ true
    → any (λ p. p.chunk_id == id && p.root_chunk_id == root) (placed final (keep is_parent xs))
      ≡ true
parent-placed final id root [] h = ground arith
parent-placed final id root (x ∷ xs) h = elim (Bool-cases (is_at 2 id root x)) [
  | inl here ↦ ground (arith, here)
  | inr later ↦
      let rest = parent-placed final id root xs (ground (arith, h, later)) in ground (arith, rest)
]

linked-parent :
    (final : String) (before all : List Chunk) (x : Chunk)
    → ((p : Chunk → Bool) → any p before ≡ true → any p all ≡ true)
    → is_leaf x ≡ true
    → IsLinked before x
    → has_parent (placed final (keep is_parent all)) x ≡ true
linked-parent final before all x f leaf (top l p r) = absurd (ground (arith, leaf, l))
linked-parent final before all x f leaf (section l p r) = absurd (ground (arith, leaf, l))
linked-parent final before all x f leaf (below_top l h) = absurd (ground (arith, leaf, l))
linked-parent final before all x f leaf (below_middle l h) =
    parent-placed final x.parent_chunk_id x.root_chunk_id all
      (f (is_at 2 x.parent_chunk_id x.root_chunk_id) h)

leaves-have :
    (final : String) (before xs all : List Chunk)
    → ((p : Chunk → Bool) → any p before ≡ true → any p all ≡ true)
    → ((p : Chunk → Bool) → any p xs ≡ true → any p all ≡ true)
    → AllLinked before xs
    → All
        (λ leaf. has_parent (placed final (keep is_parent all)) leaf ≡ true)
        (placed final (keep is_leaf xs))
unfolding AllLinked
leaves-have final before [] all f g a = tt
leaves-have final before (x ∷ xs) all f g a =
    let rest = leaves-have final (x ∷ before) xs all with_head (λ p h. g p (or_head p h)) a.1 in
    elim (Bool-cases (is_leaf x)) [
      | inl leaf ↦ rw leaf (linked-parent final before all x f leaf a.0, rest)
      | inr other ↦ rw other rest
    ]
  where
    or_head : (p : Chunk → Bool) → any p xs ≡ true → any p (x ∷ xs) ≡ true
    or_head p h = ground (arith, h)

    with_head : (p : Chunk → Bool) → any p (x ∷ before) ≡ true → any p all ≡ true
    with_head p h = elim (Bool-cases (p x)) [
      | inl e ↦ g p (rw e refl)
      | inr e ↦ f p (ground (arith, h, e))
    ]

-- When a document has been indexed from chunks that the loader made, each leaf of the file in the index finds
-- its parent, with the same root, among the chunks that the table of parents was given last.
pub indexed-has_parents :
    {B P S : Type 0} (services : Services B P S) (filename final : String) (b : B)
    (docs : List Chunk) (w : World B P S)
    → IsForest filename 0 docs
    → IsIndexed services filename final b docs w
    → All
        (λ leaf. has_parent (placed final (keep is_parent docs)) leaf ≡ true)
        (keep (is_of_file filename) w.vectors)
indexed-has_parents services filename final b docs w t i =
    subst (λ ls. All (λ leaf. has_parent (placed final (keep is_parent docs)) leaf ≡ true) ls)
      (sym i.leaves)
      (All-map (λ leaf. has_parent (placed final (keep is_parent docs)) leaf ≡ true) vector_columns
        (placed final (keep is_leaf docs))
        (leaves-have final [] docs docs (λ p h. absurd (ground (arith, h))) (λ p h. h)
          t.all_linked))
