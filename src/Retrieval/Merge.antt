-- ===== src/Retrieval/Merge.antt =====
-- backend/rag/rag_utils.py: `_merge_to_parent_level` and `_auto_merge_documents`, with the part of
-- backend/rag/parent_chunk_store.py that they read.
use paper_rag.Base.{
  ℕ, ◌+◌, String, Bool, true, false, ◌&&◌, Option, none, some, List, [], ◌∷◌, ◌++◌, leb, length,
  take, any, ◌==◌, string_eq, nat_eq, if◌then◌else◌,
}
use paper_rag.Base.Dict
use paper_rag.Base.Dict.{Dict}
use paper_rag.Base.Text.{strip, is_empty}
use paper_rag.Retrieval.Doc.{Doc, Scores, score_of, max_score}
use paper_rag.Retrieval.Sort.{sort}

-- The table of parent chunks by `chunk_id`, and `get_documents_by_ids`.
unfoldable pub get_documents_by_ids :
    {S : Type 0} → Dict String (Doc S) → List String → List (Doc S)
get_documents_by_ids table [] = []
get_documents_by_ids table (id ∷ ids) =
    let rest = get_documents_by_ids table ids in
    elim (Dict.get id table) [ none ↦ rest | some row ↦ row ∷ rest ]

-- The key of a result: its `chunk_id`, or else its place and text.
pub data DocKey : Type 0 where
  by_id : String → DocKey
  by_place : String → ℕ → String → DocKey

abbrev pub same_key : DocKey → DocKey → Bool
same_key (by_id a) (by_id b) = a == b
same_key (by_place f p t) (by_place g q u) = (f == g) && ((p == q) && (t == u))
same_key _ _ = false

abbrev pub key_of : {S : Type 0} → Doc S → DocKey
key_of doc =
    if is_empty doc.chunk_id
    then by_place doc.filename doc.page_number doc.text
    else by_id doc.chunk_id

abbrev pub parent_of : {S : Type 0} → Doc S → String
parent_of doc = strip doc.parent_chunk_id

abbrev pub or_nothing : {A : Type 0} → Option (List A) → List A
or_nothing none = []
or_nothing (some xs) = xs

module _ {S : Type 0} where
  -- `groups[parent_id].append(doc)`
  abbrev pub add_child : Doc S → Dict String (List (Doc S)) → Dict String (List (Doc S))
  add_child doc groups =
      if is_empty (parent_of doc)
      then groups
      else Dict.put (parent_of doc) (or_nothing (Dict.get (parent_of doc) groups) ++ doc ∷ [])
          groups

  unfoldable pub group_docs : Dict String (List (Doc S)) → List (Doc S) → Dict String (List (Doc S))
  group_docs groups [] = groups
  group_docs groups (doc ∷ docs) = group_docs (add_child doc groups) docs

  unfoldable pub merge_parent_ids : ℕ → Dict String (List (Doc S)) → List String
  merge_parent_ids threshold [] = []
  merge_parent_ids threshold ((pid, children) ∷ groups) =
      let rest = merge_parent_ids threshold groups in
      if leb threshold (length children) then pid ∷ rest else rest

  unfoldable pub parent_map : Dict String (Doc S) → List (Doc S) → Dict String (Doc S)
  parent_map acc [] = acc
  parent_map acc (item ∷ items) =
      parent_map (if is_empty item.chunk_id then acc else Dict.put item.chunk_id item acc) items

  unfoldable pub dedupe : List DocKey → List (Doc S) → List (Doc S)
  dedupe seen [] = []
  dedupe seen (item ∷ items) =
      let again = dedupe seen items in
      let first = item ∷ dedupe (key_of item ∷ seen) items in
      if any (same_key (key_of item)) seen then again else first

  module _ (scores : Scores S) where
    -- The parent that takes the place of a child.
    abbrev pub parent_for : ℕ → Doc S → Doc S → Doc S
    parent_for count parent child = elim child.score [
      | none ↦ record parent { merged_child_count = some count }
      | some s ↦ record parent {
        merged_child_count = some count;
        score = some (max_score scores (elim parent.score [ none ↦ s | some p ↦ p ]) s);
      }
    ]

    module _ (groups : Dict String (List (Doc S))) (parents : Dict String (Doc S)) where
      -- One turn of the loop that replaces children: the document, and whether it is a parent.
      unfoldable pub replaced : Doc S → Doc S × Bool
      replaced doc =
          if is_empty (parent_of doc)
          then (doc, false)
          else elim (Dict.get (parent_of doc) parents) [
            | none ↦ (doc, false)
            | some parent ↦ (
              parent_for (length (or_nothing (Dict.get (parent_of doc) groups))) parent doc,
              true,
            )
          ]

      unfoldable pub replace_children : List (Doc S) → List (Doc S) × ℕ
      unfolding replaced
      replace_children [] = ([], 0)
      replace_children (doc ∷ docs) =
          let rest = replace_children docs in
          let here = replaced doc in (here.0 ∷ rest.0, (if here.1 then 1 else 0) + rest.1)

    unfoldable pub by_score : Doc S → Doc S → Bool
    by_score a b = scores.below (score_of scores b) (score_of scores a)

    module _ (table : Dict String (Doc S)) where
      unfoldable pub merge_groups :
          List (Doc S) → Dict String (List (Doc S)) → List String → List (Doc S) × ℕ
      unfolding replace_children parent_map get_documents_by_ids dedupe
      merge_groups docs groups [] = (docs, 0)
      merge_groups docs groups (id ∷ ids) =
          let merged =
            replace_children groups (parent_map [] (get_documents_by_ids table (id ∷ ids))) docs in
          (dedupe [] merged.0, merged.1)

      unfoldable pub merge_to_parent_level : ℕ → List (Doc S) → List (Doc S) × ℕ
      unfolding group_docs merge_parent_ids merge_groups
      merge_to_parent_level threshold docs =
          let groups = group_docs [] docs in
          merge_groups docs groups (merge_parent_ids threshold groups)

      unfoldable pub auto_merge_documents : Bool → ℕ → ℕ → List (Doc S) → List (Doc S) × ℕ
      unfolding merge_to_parent_level sort
      auto_merge_documents enabled threshold top_k [] = ([], 0)
      auto_merge_documents false threshold top_k docs = (take top_k docs, 0)
      auto_merge_documents true threshold top_k docs =
          let first = merge_to_parent_level threshold docs in
          let second = merge_to_parent_level threshold first.0 in
          (take top_k (sort by_score second.0), first.1 + second.1)
