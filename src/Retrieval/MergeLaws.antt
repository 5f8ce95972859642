-- ===== src/Retrieval/MergeLaws.antt =====
-- backend/rag/rag_utils.py: the results of `_merge_to_parent_level` and `_auto_merge_documents`.
use paper_rag.Base.{
  ℕ, suc, ◌≤◌, String, ◌≡◌, refl, ap, true, List, [], ◌∷◌, length, any, All, arith, Bool-cases, inl,
  inr, ◌⊎◌, ==_iff, ==_refl, string_eq, nat_eq, none, some, false,
}
use paper_rag.Base.Dict
use paper_rag.Base.Text.{is_empty}
use paper_rag.Base.Dict.{Dict}
use paper_rag.Retrieval.Doc.{Doc, Scores}
use paper_rag.Retrieval.Merge.{
  DocKey, by_id, by_place, same_key, key_of, dedupe, replace_children, replaced, merge_groups,
  merge_to_parent_level, group_docs, parent_map, get_documents_by_ids, parent_of,
}

pub same_key_refl : (k : DocKey) → same_key k k ≡ true
same_key_refl (by_id a) = ==_refl a
same_key_refl (by_place f p t) = ground (arith, ==_refl f, ==_refl p, ==_refl t)

pub same_key_eq : (a b : DocKey) → same_key a b ≡ true → a ≡ b
same_key_eq (by_id a) (by_id b) e = ap by_id ((==_iff a b).0 e)
same_key_eq (by_place f p t) (by_place g q u) e =
    ground (arith, e, ==_iff f g, ==_iff p q, ==_iff t u)
same_key_eq (by_id a) (by_place g q u) e = cc
same_key_eq (by_place f p t) (by_id b) e = cc

module _ {S : Type 0} where
  -- No two of the documents have one key.
  unfoldable pub IsDistinct : List (Doc S) → Type 0
  IsDistinct [] = Unit
  IsDistinct (x ∷ xs) = All (λ y. same_key (key_of y) (key_of x) ≡ false) xs × IsDistinct xs

  -- A document that a list of keys does not hold.
  abbrev Fresh : List DocKey → Doc S → Type 0
  Fresh seen y = any (same_key (key_of y)) seen ≡ false

  -- A document with this key is in the list.
  abbrev pub Holds : DocKey → List (Doc S) → Type 0
  Holds k docs = any (λ d. same_key k (key_of d)) docs ≡ true

  Fresh-both :
      (k : DocKey) (seen : List DocKey) (xs : List (Doc S))
      → All (Fresh (k ∷ seen)) xs
      → All (λ y. same_key (key_of y) k ≡ false) xs × All (Fresh seen) xs
  Fresh-both k seen [] a = (tt, tt)
  Fresh-both k seen (y ∷ ys) a =
      let r = Fresh-both k seen ys a.1 in ((ground (arith, a.0), r.0), (ground (arith, a.0), r.1))

  dedupe-Fresh : (seen : List DocKey) (xs : List (Doc S)) → All (Fresh seen) (dedupe seen xs)
  unfolding dedupe
  dedupe-Fresh seen [] = tt
  dedupe-Fresh seen (x ∷ xs) = elim (Bool-cases (any (same_key (key_of x)) seen)) [
    | inl e ↦ rw e (dedupe-Fresh seen xs)
    | inr e ↦ rw e (e, (Fresh-both (key_of x) seen _ (dedupe-Fresh (key_of x ∷ seen) xs)).1)
  ]

  pub dedupe-IsDistinct : (seen : List DocKey) (xs : List (Doc S)) → IsDistinct (dedupe seen xs)
  unfolding dedupe IsDistinct
  dedupe-IsDistinct seen [] = tt
  dedupe-IsDistinct seen (x ∷ xs) = elim (Bool-cases (any (same_key (key_of x)) seen)) [
    | inl e ↦ rw e (dedupe-IsDistinct seen xs)
    | inr e ↦ rw e (
      (Fresh-both (key_of x) seen _ (dedupe-Fresh (key_of x ∷ seen) xs)).0,
      dedupe-IsDistinct (key_of x ∷ seen) xs,
    )
  ]

  length-dedupe-le : (seen : List DocKey) (xs : List (Doc S)) → length (dedupe seen xs) ≤ length xs
  unfolding dedupe
  length-dedupe-le seen [] = omega arith
  length-dedupe-le seen (x ∷ xs) =
      ground (arith, length-dedupe-le seen xs, length-dedupe-le (key_of x ∷ seen) xs)

  All-dedupe :
      (P : Doc S → Type 0) (seen : List DocKey) (xs : List (Doc S))
      → All P xs
      → All P (dedupe seen xs)
  unfolding dedupe
  All-dedupe P seen [] a = tt
  All-dedupe P seen (x ∷ xs) a = elim (Bool-cases (any (same_key (key_of x)) seen)) [
    | inl e ↦ rw e (All-dedupe P seen xs a.1)
    | inr e ↦ rw e (a.0, All-dedupe P (key_of x ∷ seen) xs a.1)
  ]

module _ {S : Type 0} (parents : Dict String (Doc S)) where
  -- A list holds the hit's key, where no parent is found for it, and else the key of its parent's row.
  pub data IsPlaced (rs : List (Doc S)) (d : Doc S) : Type 0 where
    as_itself :
        (is_empty (parent_of d) ≡ true) ⊎ (Dict.get (parent_of d) parents ≡ none)
        → Holds (key_of d) rs
        → IsPlaced rs d
    in_parent :
        (row : Doc S)
        → is_empty (parent_of d) ≡ false
        → Dict.get (parent_of d) parents ≡ some row
        → Holds (key_of row) rs
        → IsPlaced rs d

module _ {S : Type 0} (scores : Scores S) (groups : Dict String (List (Doc S)))
    (parents : Dict String (Doc S)) where
  length-replace_children :
      (docs : List (Doc S)) → length (replace_children scores groups parents docs).0 ≡ length docs
  unfolding replace_children
  length-replace_children [] = refl
  length-replace_children (doc ∷ docs) = ap suc (length-replace_children docs)

  count-le : (docs : List (Doc S)) → (replace_children scores groups parents docs).1 ≤ length docs
  unfolding replace_children
  count-le [] = omega arith
  count-le (doc ∷ docs) = ground (arith, count-le docs)

  -- The key under which the merged list holds a hit: its own, or its stored parent's.
  abbrev new_key : Doc S → DocKey
  new_key d = key_of (replaced scores groups parents d).0

module _ {S : Type 0} (scores : Scores S) (table : Dict String (Doc S)) where
  merge_groups-bounds :
      (docs : List (Doc S)) (groups : Dict String (List (Doc S))) (ids : List String)
      → length (merge_groups scores table docs groups ids).0 ≤ length docs
  unfolding merge_groups
  merge_groups-bounds docs groups [] = omega arith
  merge_groups-bounds docs groups (id ∷ ids) =
      let parents = parent_map [] (get_documents_by_ids table (id ∷ ids)) in
      omega (
        arith,
        length-dedupe-le [] (replace_children scores groups parents docs).0,
        length-replace_children scores groups parents docs,
      )

  merge_groups-IsDistinct :
      (docs : List (Doc S)) (groups : Dict String (List (Doc S))) (ids : List String)
      → IsDistinct docs
      → IsDistinct (merge_groups scores table docs groups ids).0
  unfolding merge_groups
  merge_groups-IsDistinct docs groups [] d = d
  merge_groups-IsDistinct docs groups (id ∷ ids) d =
      dedupe-IsDistinct []
        (replace_children scores groups (parent_map [] (get_documents_by_ids table (id ∷ ids)))
          docs).0

  pub merge-IsDistinct :
      (threshold : ℕ) (docs : List (Doc S))
      → IsDistinct docs
      → IsDistinct (merge_to_parent_level scores table threshold docs).0
  unfolding merge_to_parent_level
  merge-IsDistinct threshold docs d = merge_groups-IsDistinct docs (group_docs [] docs) _ d

  merge-bounds :
      (threshold : ℕ) (docs : List (Doc S))
      → length (merge_to_parent_level scores table threshold docs).0 ≤ length docs
  unfolding merge_to_parent_level
  merge-bounds threshold docs = merge_groups-bounds docs (group_docs [] docs) _
