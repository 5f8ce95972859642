-- ===== src/Bm25/Tests.antt =====
-- Runs of the BM25 statistics on two short texts.
use Prim.Native.String.{String}
use paper_rag.Base.{
  ℕ, ◌≡◌, refl, sym, ◌∙◌, Option, some, [], ◌∷◌, ok, arith, string_eq, ◌==◌, ==_iff, Bool-cases,
  inl, inr,
}
use paper_rag.Base.Dict
use paper_rag.Base.Dict.{Dict}
use paper_rag.Bm25.Stats.{
  Stats, Payload, saved, tokenize, increment_add_documents, get_sparse_embedding,
}
use paper_rag.Bm25.Dimensions.{IsApart, KeepsFile, add, run, run-KeepsFile}

abbrev same : {A : Type 0} → A → A
same a = a

tokens_run : tokenize same same "ab 1c中文" ≡ "ab" ∷ "c" ∷ "中" ∷ "文" ∷ []
unfolding tokenize
tokens_run = refl

abbrev none_yet : Stats
none_yet = record {
  vocab = [];
  vocab_counter = 0;
  doc_freq = [];
  total_docs = 0;
  sum_token_len = 0;
}

abbrev first_payload : Payload
first_payload = record {
  saved_total_docs = 1;
  saved_sum_token_len = 1;
  saved_vocab = ("ab", 4) ∷ [];
  saved_doc_freq = ("ab", 1) ∷ [];
}

abbrev second_stats : Stats
second_stats = record {
  vocab = ("ab", 4) ∷ ("c", 5) ∷ [];
  vocab_counter = 6;
  doc_freq = ("ab", 2) ∷ ("c", 1) ∷ [];
  total_docs = 2;
  sum_token_len = 3;
}

abbrev second_payload : Payload
second_payload = record {
  saved_total_docs = 2;
  saved_sum_token_len = 3;
  saved_vocab = ("ab", 4) ∷ ("c", 5) ∷ [];
  saved_doc_freq = ("ab", 2) ∷ ("c", 1) ∷ [];
}

first-IsApart : IsApart first_payload.saved_vocab
unfolding Dict.get
first-IsApart t u i h k =
    let p : String = "ab" in
    elim (Bool-cases (p == t)) [
      | inr other ↦ ground (arith, h, other)
      | inl one ↦ elim (Bool-cases (p == u)) [
        | inr other ↦ ground (arith, k, other)
        | inl two ↦ sym ((==_iff p t).0 one) ∙ (==_iff p u).0 two
      ]
    ]

add_run :
    run same same (add ("ab c" ∷ [])) (saved first_payload) none_yet
    ≡ ok (saved second_payload, second_stats)
unfolding increment_add_documents Dict.get Dict.put
add_run = refl

run-KeepsFile_example : KeepsFile same same first_payload.saved_vocab (saved second_payload)
run-KeepsFile_example =
    run-KeepsFile same same (add ("ab c" ∷ [])) first_payload none_yet second_stats
      (saved second_payload) first-IsApart add_run

-- Every token weighs its number of occurrences.
abbrev weight : Stats → ℕ → ℕ → ℕ → Option ℕ
weight stats freq doc_len df = some freq

abbrev query_stats : Stats
query_stats = record {
  vocab = ("ab", 4) ∷ ("d", 5) ∷ [];
  vocab_counter = 6;
  doc_freq = ("ab", 1) ∷ [];
  total_docs = 1;
  sum_token_len = 1;
}

abbrev query_payload : Payload
query_payload = record {
  saved_total_docs = 1;
  saved_sum_token_len = 1;
  saved_vocab = ("ab", 4) ∷ ("d", 5) ∷ [];
  saved_doc_freq = ("ab", 1) ∷ [];
}

abbrev query_vector : Dict ℕ ℕ
query_vector = (5, 1) ∷ (4, 2) ∷ []

query_run :
    get_sparse_embedding same same weight "d ab ab" (saved first_payload) none_yet
    ≡ ok (query_vector, (saved query_payload, query_stats))
unfolding get_sparse_embedding Dict.put Dict.get
query_run = refl
