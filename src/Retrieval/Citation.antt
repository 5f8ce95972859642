-- ===== src/Retrieval/Citation.antt =====
-- backend/rag/rag_utils.py: `_citation_boost`. The references of a text, which
-- backend/rag/citation_extractor.py extracts, are a parameter.
use paper_rag.Base.{
  String, Bool, List, [], ◌∷◌, ◌++◌, any, ◌==◌, string_eq, if◌then◌else◌, Bool-cases, inl, inr,
}
use mathlib.Core.List.{Perm, perm_middle}
use mathlib.Core.List.Perm
use paper_rag.Retrieval.Doc.{Doc}

-- `set(a) & set(b)` is not empty.
abbrev pub meets : List String → List String → Bool
meets xs ys = any (λ x. any (λ y. x == y) ys) xs

module _ {S : Type 0} (extract_citation_refs : String → List String) where
  -- The loop: the cited chunks and the others, each in order.
  unfoldable pub split_cited : List String → List (Doc S) → List (Doc S) × List (Doc S)
  split_cited refs [] = ([], [])
  split_cited refs (doc ∷ docs) =
      let rest = split_cited refs docs in
      if meets (extract_citation_refs doc.text) refs
      then (doc ∷ rest.0, rest.1)
      else (rest.0, doc ∷ rest.1)

  abbrev pub boost_by : List String → List (Doc S) → List (Doc S)
  boost_by [] docs = docs
  boost_by (ref ∷ refs) docs = let parts = split_cited (ref ∷ refs) docs in parts.0 ++ parts.1

  unfoldable pub citation_boost : List (Doc S) → String → List (Doc S)
  unfolding split_cited
  citation_boost docs query = boost_by (extract_citation_refs query) docs

  split-Perm :
      (refs : List String) (docs : List (Doc S))
      → Perm ((split_cited refs docs).0 ++ (split_cited refs docs).1) docs
  unfolding split_cited
  split-Perm refs [] = Perm.refl []
  split-Perm refs (doc ∷ docs) = elim (Bool-cases (meets (extract_citation_refs doc.text) refs)) [
    | inl e ↦ rw e (Perm.cons doc (split-Perm refs docs))
    | inr e ↦ rw e (
        Perm.trans (perm_middle (split_cited refs docs).0 (split_cited refs docs).1)
          (Perm.cons doc (split-Perm refs docs)))
  ]

  boost-Perm : (refs : List String) (docs : List (Doc S)) → Perm (boost_by refs docs) docs
  boost-Perm [] docs = Perm.refl docs
  boost-Perm (ref ∷ refs) docs = split-Perm (ref ∷ refs) docs

  -- The boost only reorders: it loses no chunk and adds none.
  pub citation_boost-Perm :
      (docs : List (Doc S)) (query : String) → Perm (citation_boost docs query) docs
  unfolding citation_boost
  citation_boost-Perm docs query = boost-Perm (extract_citation_refs query) docs
