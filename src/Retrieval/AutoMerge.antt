-- ===== src/Retrieval/AutoMerge.antt =====
-- backend/rag/rag_utils.py: the order and the number of the results of `_auto_merge_documents`.
use paper_rag.Base.{
  All-take, ℕ, zero, suc, ◌≤◌, String, ◌≡◌, Bool, true, false, List, [], ◌∷◌, take, length, All,
  arith, Bool-cases, inl, inr, string_eq, nat_eq, length-take-le,
}
use paper_rag.Base.Dict.{Dict}
use paper_rag.Retrieval.Doc.{Doc, Scores, score_of}
use paper_rag.Retrieval.Sort.{IsSorted, sort, place, All-place, All-sort, sort-IsSorted}
use paper_rag.Retrieval.Merge.{
  DocKey, same_key, key_of, merge_to_parent_level, auto_merge_documents, by_score,
}
use paper_rag.Retrieval.MergeLaws.{IsDistinct, same_key_eq, same_key_refl, merge-IsDistinct}

module _ {S : Type 0} (before : Doc S → Doc S → Bool) where
  same_key_sym : (a b : DocKey) → same_key a b ≡ false → same_key b a ≡ false
  same_key_sym a b e = elim (Bool-cases (same_key b a)) [
    | inr differ ↦ differ
    | inl same ↦ let q = same_key_eq b a same in let r = same_key_refl a in cc
  ]

  place-IsDistinct :
      (x : Doc S) (ys : List (Doc S))
      → All (λ y. same_key (key_of y) (key_of x) ≡ false) ys
      → IsDistinct ys
      → IsDistinct (place before x ys)
  unfolding place IsDistinct
  place-IsDistinct x [] a d = (tt, tt)
  place-IsDistinct x (y ∷ ys) a d = elim (Bool-cases (before y x)) [
    | inl e ↦ rw e (
      All-place before (λ z. same_key (key_of z) (key_of y) ≡ false) x ys
          (same_key_sym (key_of y) (key_of x) a.0) d.0,
      place-IsDistinct x ys a.1 d.1,
    )
    | inr e ↦ rw e (a, d)
  ]

  sort-IsDistinct : (xs : List (Doc S)) → IsDistinct xs → IsDistinct (sort before xs)
  unfolding sort IsDistinct
  sort-IsDistinct [] d = tt
  sort-IsDistinct (x ∷ xs) d =
      place-IsDistinct x (sort before xs)
        (All-sort before (λ y. same_key (key_of y) (key_of x) ≡ false) xs d.0)
        (sort-IsDistinct xs d.1)

  take-IsDistinct : (n : ℕ) (xs : List (Doc S)) → IsDistinct xs → IsDistinct (take n xs)
  unfolding IsDistinct
  take-IsDistinct zero xs d = tt
  take-IsDistinct (suc n) [] d = tt
  take-IsDistinct (suc n) (x ∷ xs) d =
      (All-take (λ y. same_key (key_of y) (key_of x) ≡ false) n xs d.0, take-IsDistinct n xs d.1)

  take-IsSorted : (n : ℕ) (xs : List (Doc S)) → IsSorted before xs → IsSorted before (take n xs)
  take-IsSorted zero xs s = tt
  take-IsSorted (suc n) [] s = tt
  take-IsSorted (suc n) (x ∷ xs) s =
      (All-take (λ y. before y x ≡ false) n xs s.0, take-IsSorted n xs s.1)

-- `<` on the scores: no NaN among them.
pub record IsOrder {S : Type 0} (scores : Scores S) : Type 0 where
  pub asym : (a b : S) → scores.below a b ≡ true → scores.below b a ≡ false
  pub cotrans :
      (a b c : S) → scores.below a b ≡ false → scores.below b c ≡ false → scores.below a c ≡ false

-- The result of the merging.
pub record IsMerged {S : Type 0} (scores : Scores S) (top_k : ℕ) (result : List (Doc S))
    : Type 0 where
  pub few : length result ≤ top_k
  pub ranked : IsSorted (by_score scores) result
  pub distinct : IsDistinct result

-- With merging enabled, from hits of which no two have one key and scores that are ordered:
-- at most `top_k` documents, by falling score, and no two of one key, so that no parent that several
-- children name comes twice.
pub auto_merge-IsMerged :
    {S : Type 0} (scores : Scores S) (table : Dict String (Doc S)) (threshold top_k : ℕ)
    (docs : List (Doc S))
    → IsOrder scores
    → IsDistinct docs
    → IsMerged scores top_k (auto_merge_documents scores table true threshold top_k docs).0
unfolding auto_merge_documents by_score IsDistinct
auto_merge-IsMerged scores table threshold top_k [] o d = record {
  few = omega arith;
  ranked = tt;
  distinct = tt;
}
auto_merge-IsMerged scores table threshold top_k (doc ∷ docs) o d =
    let first = merge_to_parent_level scores table threshold (doc ∷ docs) in
    let second = merge_to_parent_level scores table threshold first.0 in
    let unique =
      merge-IsDistinct scores table threshold first.0
        (merge-IsDistinct scores table threshold (doc ∷ docs) d) in
    record {
      few = length-take-le top_k _;
      ranked = take-IsSorted (by_score scores) top_k _ (
          sort-IsSorted (by_score scores)
            (λ x y e. o.asym (score_of scores y) (score_of scores x) e)
            (λ x y z e f. o.cotrans (score_of scores x) (score_of scores y) (score_of scores z) e f)
            second.0);
      distinct =
          take-IsDistinct (by_score scores) top_k _
            (sort-IsDistinct (by_score scores) second.0 unique);
    }
