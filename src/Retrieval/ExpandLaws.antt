-- ===== src/Retrieval/ExpandLaws.antt =====
-- backend/rag/rag_utils.py: the limit of `_expand_context` and the chunks with theorems.
use paper_rag.Base.Keep.{
  keep-keep, keep-append, keep-All, keep-none, All-keep, All-keep-not, append-nil, take-all,
  length-keep-le,
}
use paper_rag.Base.{
  All-take, ℕ, ◌-◌, ◌≤◌, ltb, leb, String, ◌≡◌, sym, ap, subst, ◌∙◌, true, false, not, Option, List,
  [], ◌∷◌, length, take, keep, string_eq, nat_eq, Bool-cases, inl, inr, arith, length-take-le,
  length-append,
}
use paper_rag.Retrieval.Doc.{Doc, Scores, is_theorem}
use paper_rag.Retrieval.Expand.{
  Limits, Parents, cut, gathered, expanded, expand_set, expand_context,
}

module _ {S : Type 0} where
  pub length-cut-le : (limit : ℕ) (xs : List (Doc S)) → length (cut limit xs) ≤ limit
  unfolding cut
  length-cut-le limit xs =
      let theorem_docs = keep is_theorem xs in
      let others = keep (λ d. not (is_theorem d)) xs in
      let n = limit - length theorem_docs in
      ground (
        arith,
        length-take-le limit theorem_docs,
        length-take-le n others,
        length-append theorem_docs (take n others),
      )

  keep-cut :
      (limit : ℕ) (xs : List (Doc S))
      → keep is_theorem (cut limit xs) ≡ take limit (keep is_theorem xs)
  unfolding cut
  keep-cut limit xs = elim (Bool-cases (ltb limit (length xs))) [
    | inr small ↦
        rw small
          (sym (take-all limit (keep is_theorem xs) (ground (arith, length-keep-le is_theorem xs))))
    | inl large ↦ rw large (elim (Bool-cases (leb limit (length (keep is_theorem xs)))) [
      | inl many ↦ rw many (keep-All is_theorem _ (All-take _ limit _ (All-keep is_theorem xs)))
      | inr few ↦ rw few (
          keep-append is_theorem (keep is_theorem xs) _
          ∙ rw (keep-keep is_theorem xs) (
              rw
                (keep-none is_theorem
                  (take (limit - length (keep is_theorem xs)) (keep (λ d. not (is_theorem d)) xs))
                  (All-take _ _ _ (All-keep-not is_theorem xs)))
                (append-nil (keep is_theorem xs)
                  ∙ sym (take-all limit (keep is_theorem xs) (ground arith)))))
    ])
  ]

  module _ (scores : Scores S) (limits : Limits) (query : String → ℕ → Option (List (Doc S)))
      (docs : List (Doc S)) where
    -- What the expansion, when it is applied, returns.
    pub record IsExpansion (result : List (Doc S)) : Type 0 where
      pub few : length result ≤ limits.max_chunks
      pub theorems_first :
          keep is_theorem result
          ≡ take limits.max_chunks
              (keep is_theorem (gathered scores limits query docs (expand_set [] docs)))

    expanded-IsExpansion :
        (set : Parents)
        → (expanded scores limits query docs set).1 ≡ true
        → (length (expanded scores limits query docs set).0 ≤ limits.max_chunks)
          × (keep is_theorem (expanded scores limits query docs set).0
              ≡ take limits.max_chunks (keep is_theorem (gathered scores limits query docs set)))
    expanded-IsExpansion [] e = cc
    expanded-IsExpansion (entry ∷ set) e =
        let all = gathered scores limits query docs (entry ∷ set) in
        (length-cut-le limits.max_chunks all, keep-cut limits.max_chunks all)

    expand_on :
        limits.enabled ≡ true
        → expand_context scores limits query docs
          ≡ expanded scores limits query docs (expand_set [] docs)
    unfolding expand_context
    expand_on on = ground arith

    expand_off : limits.enabled ≡ false → (expand_context scores limits query docs).1 ≡ false
    unfolding expand_context
    expand_off off = ground arith

    -- When the expansion is applied, whatever the index answers for each parent: at most `max_chunks`
    -- chunks come back, and those with a theorem or a proof are the first `max_chunks` of all such
    -- chunks that were gathered, so that no other chunk takes the place of one of them.
    pub expand-IsExpansion :
        (expand_context scores limits query docs).1 ≡ true
        → IsExpansion (expand_context scores limits query docs).0
    expand-IsExpansion e = elim (Bool-cases limits.enabled) [
      | inr off ↦ let q = expand_off off in cc
      | inl on ↦
          let q = expand_on on in
          let h = expanded-IsExpansion (expand_set [] docs) (ap (λ r. r.1) (sym q) ∙ e) in
          subst (λ r. IsExpansion r.0) (sym q) (record { few = h.0; theorems_first = h.1 })
    ]
