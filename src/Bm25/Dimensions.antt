-- ===== src/Bm25/Dimensions.antt =====
-- backend/rag/embedding.py: the dimensions that the vocabulary gives to tokens.
use Prim.Native.String.{String}
use paper_rag.Base.{
  ℕ, suc, ◌<◌, ◌≡◌, refl, sym, ap, subst, ◌∙◌, Bool, false, Option, none, some, List, [], ◌∷◌,
  length, ◌==◌, ==_iff, string_eq, nat_eq, if◌then◌else◌, Result, ok, arith, Bool-cases,
  Option-cases, inl, inr, ◌⊎◌,
}
use paper_rag.Base.Dict
use paper_rag.Base.Dict.{Dict, get-put}
use paper_rag.Bm25.Stats.{
  Stats, Payload, File, saved, StateError, next_counter, load_state, persist, ensure, count_token,
  add_tokens, remove_tokens, add_statistics, remove_statistics, saving, emptied, replace_documents,
  increment_add_documents, increment_remove_documents, tokenize, counter, sparse_entries,
  sparse_vector_for_text, get_sparse_embedding,
}

-- No two tokens have one dimension.
abbrev pub IsApart : Dict String ℕ → Type 0
IsApart vocab =
    (t u : String) (i : ℕ) → Dict.get t vocab ≡ some i → Dict.get u vocab ≡ some i → t ≡ u

-- Each dimension is below the counter, and no two tokens have the same.
pub record IsNumbered (vocab : Dict String ℕ) (next : ℕ) : Type 0 where
  pub below : (t : String) (i : ℕ) → Dict.get t vocab ≡ some i → i < next
  pub apart : IsApart vocab

abbrev pub Keeps : Dict String ℕ → Dict String ℕ → Type 0
Keeps vocab vocab' = (t : String) (i : ℕ) → Dict.get t vocab ≡ some i → Dict.get t vocab' ≡ some i

-- The statistics number their tokens, and give those of `vocab` the dimensions that it gives.
pub record Extends (vocab : Dict String ℕ) (stats : Stats) : Type 0 where
  pub numbered : IsNumbered stats.vocab stats.vocab_counter
  pub kept : Keeps vocab stats.vocab

module _ (token : String) (n : ℕ) (vocab : Dict String ℕ) where
  -- A token of the larger vocabulary is the new one or an old one.
  put-cases :
      (t : String) (i : ℕ)
      → Dict.get t (Dict.put token n vocab) ≡ some i
      → ((token ≡ t) × (i ≡ n)) ⊎ (Dict.get t vocab ≡ some i)
  put-cases t i h = elim (Bool-cases (token == t)) [
    | inl same ↦
        let q : some n ≡ some i = sym (get-put token t n vocab ∙ rw same refl) ∙ h in
        inl ((==_iff token t).0 same, cc)
    | inr other ↦ inr (sym (get-put token t n vocab ∙ rw other refl) ∙ h)
  ]

  put-IsNumbered : IsNumbered vocab n → IsNumbered (Dict.put token n vocab) (suc n)
  put-IsNumbered x = record {
    below = λ t i h. elim (put-cases t i h) [
      | inl (q, e) ↦ omega (arith, e)
      | inr old ↦ omega (arith, x.below t i old)
    ];
    apart = λ t u i h k. elim (put-cases t i h) [
      | inl (q, e) ↦ elim (put-cases u i k) [
        | inl (r, f) ↦ sym q ∙ r
        | inr old ↦ absurd (omega (arith, e, x.below u i old))
      ]
      | inr young ↦ elim (put-cases u i k) [
        | inl (r, f) ↦ absurd (omega (arith, f, x.below t i young))
        | inr old ↦ x.apart t u i young old
      ]
    ];
  }

  put-Keeps : Dict.get token vocab ≡ none → Keeps vocab (Dict.put token n vocab)
  put-Keeps new t i h = elim (Bool-cases (token == t)) [
    | inl same ↦
        let q : token ≡ t = (==_iff token t).0 same in
        let r : none ≡ some i = sym new ∙ (ap (λ k. Dict.get k vocab) q ∙ h) in cc
    | inr other ↦ get-put token t n vocab ∙ (rw other refl ∙ h)
  ]

ensure_known :
    (token : String) (stats : Stats) (i : ℕ)
    → Dict.get token stats.vocab ≡ some i
    → ensure token stats ≡ stats
unfolding ensure
ensure_known token stats i known = ground (arith, known)

-- The statistics with a new token.
abbrev extended : String → Stats → Stats
extended token stats = record stats {
  vocab = Dict.put token stats.vocab_counter stats.vocab;
  vocab_counter = suc stats.vocab_counter;
}

ensure_new :
    (token : String) (stats : Stats)
    → Dict.get token stats.vocab ≡ none
    → ensure token stats ≡ extended token stats
unfolding ensure
ensure_new token stats new = ground (arith, new)

ensure-Extends :
    (vocab : Dict String ℕ) (token : String) (stats : Stats)
    → Extends vocab stats
    → Extends vocab (ensure token stats)
ensure-Extends vocab token stats x = elim (Option-cases (Dict.get token stats.vocab)) [
  | inr (i, known) ↦ subst (Extends vocab) (sym (ensure_known token stats i known)) x
  | inl new ↦ subst (Extends vocab) (sym (ensure_new token stats new)) (record {
    numbered = put-IsNumbered token stats.vocab_counter stats.vocab x.numbered;
    kept = λ t i h. put-Keeps token stats.vocab_counter stats.vocab new t i (x.kept t i h);
  })
]

next_counter-below :
    (vocab : Dict String ℕ) (t : String) (i : ℕ)
    → Dict.get t vocab ≡ some i
    → i < next_counter vocab
unfolding next_counter Dict.get
next_counter-below [] t i e = cc
next_counter-below ((u, j) ∷ vocab) t i e = ground (arith, next_counter-below vocab t i)

add_tokens-Extends :
    (vocab : Dict String ℕ) (tokens : List String) (stats : Stats)
    → Extends vocab stats
    → Extends vocab (add_tokens tokens stats)
unfolding add_tokens count_token
add_tokens-Extends vocab [] stats x = x
add_tokens-Extends vocab (token ∷ tokens) stats x =
    let y = ensure-Extends vocab token stats x in
    add_tokens-Extends vocab tokens (count_token token (ensure token stats))
      (record { numbered = y.numbered; kept = y.kept })

remove_tokens-Extends :
    (vocab : Dict String ℕ) (tokens : List String) (stats : Stats)
    → Extends vocab stats
    → Extends vocab (remove_tokens tokens stats)
unfolding remove_tokens
remove_tokens-Extends vocab [] stats x = x
remove_tokens-Extends vocab (token ∷ tokens) stats x =
    remove_tokens-Extends vocab tokens _ (record { numbered = x.numbered; kept = x.kept })

module _ (lower : String → String) (set_of : List String → List String) where
  add_statistics-Extends :
      (vocab : Dict String ℕ) (texts : List String) (stats : Stats)
      → Extends vocab stats
      → Extends vocab (add_statistics lower set_of texts stats)
  unfolding add_statistics
  add_statistics-Extends vocab [] stats x = x
  add_statistics-Extends vocab (text ∷ texts) stats x = add_statistics-Extends vocab texts _ (
      add_tokens-Extends vocab (set_of (tokenize lower set_of text)) _
        (record { numbered = x.numbered; kept = x.kept }))

  remove_statistics-Extends :
      (vocab : Dict String ℕ) (texts : List String) (stats : Stats)
      → Extends vocab stats
      → Extends vocab (remove_statistics lower set_of texts stats)
  unfolding remove_statistics
  remove_statistics-Extends vocab [] stats x = x
  remove_statistics-Extends vocab (text ∷ texts) stats x = remove_statistics-Extends vocab texts _ (
      remove_tokens-Extends vocab (set_of (tokenize lower set_of text)) _
        (record { numbered = x.numbered; kept = x.kept }))

  -- The file holds every dimension of the vocabulary, and gives none to two tokens.
  abbrev pub KeepsFile : Dict String ℕ → File → Type 0
  KeepsFile vocab file =
      (p : Payload) × (file ≡ saved p) × Keeps vocab p.saved_vocab × IsApart p.saved_vocab

  loaded : Payload → Stats
  loaded p = record {
    vocab = p.saved_vocab;
    vocab_counter = next_counter p.saved_vocab;
    doc_freq = p.saved_doc_freq;
    total_docs = p.saved_total_docs;
    sum_token_len = p.saved_sum_token_len;
  }

  loaded-Extends : (p : Payload) → IsApart p.saved_vocab → Extends p.saved_vocab (loaded p)
  unfolding loaded
  loaded-Extends p apart = record {
    numbered = record { below = next_counter-below p.saved_vocab; apart = apart };
    kept = λ t i h. h;
  }

  saving-KeepsFile :
      (p : Payload) (change : Stats → Stats) (before after : Stats) (file : File)
      → Extends p.saved_vocab (change (loaded p))
      → saving lower set_of change (load_state (saved p) before) ≡ ok (file, after)
      → KeepsFile p.saved_vocab file
  unfolding persist load_state loaded
  saving-KeepsFile p change before after file x e =
      let stats = change (loaded p) in
      let q : Payload = record {
        saved_total_docs = stats.total_docs;
        saved_sum_token_len = stats.sum_token_len;
        saved_vocab = stats.vocab;
        saved_doc_freq = stats.doc_freq;
      } in
      let same : saved q ≡ file = cc in (q, sym same, x.kept, x.numbered.apart)

  -- The operations that write the statistics.
  pub data Op : Type 0 where
    replace : List String → Op
    add : List String → Op
    drop : List String → Op

  abbrev pub run : Op → File → Stats → Result StateError (File × Stats)
  run (replace texts) = replace_documents lower set_of texts
  run (add texts) = increment_add_documents lower set_of texts
  run (drop texts) = increment_remove_documents lower set_of texts

  -- When the file gives no dimension to two tokens, then after a replacement, an addition or a
  -- removal of documents it holds every dimension that it held before, and again gives none to two
  -- tokens, in whatever order Python goes through a set.
  pub run-KeepsFile :
      (op : Op) (p : Payload) (before after : Stats) (file : File)
      → IsApart p.saved_vocab
      → run op (saved p) before ≡ ok (file, after)
      → KeepsFile p.saved_vocab file
  unfolding replace_documents increment_add_documents increment_remove_documents
  run-KeepsFile (replace texts) p before after file apart e =
      let x = loaded-Extends p apart in
      saving-KeepsFile p (λ s. add_statistics lower set_of texts (emptied lower set_of s)) before
        after file
        (add_statistics-Extends p.saved_vocab texts _
          (record { numbered = x.numbered; kept = x.kept }))
        e
  run-KeepsFile (add []) p before after file apart e = (p, cc, λ t i h. h, apart)
  run-KeepsFile (add (text ∷ texts)) p before after file apart e =
      saving-KeepsFile p (add_statistics lower set_of (text ∷ texts)) before after file
        (add_statistics-Extends p.saved_vocab (text ∷ texts) _ (loaded-Extends p apart)) e
  run-KeepsFile (drop []) p before after file apart e = (p, cc, λ t i h. h, apart)
  run-KeepsFile (drop (text ∷ texts)) p before after file apart e =
      saving-KeepsFile p (remove_statistics lower set_of (text ∷ texts)) before after file
        (remove_statistics-Extends p.saved_vocab (text ∷ texts) _ (loaded-Extends p apart)) e

  module _ {S : Type 0} (weight : Stats → ℕ → ℕ → ℕ → Option S) where
    sparse_entries-Extends :
        (vocab : Dict String ℕ) (doc_len : ℕ) (tf : Dict String ℕ) (stats : Stats) (changed : Bool)
        (vector : Dict ℕ S)
        → Extends vocab stats
        → Extends vocab (sparse_entries lower set_of weight doc_len tf stats changed vector).1.0
    unfolding sparse_entries
    sparse_entries-Extends vocab doc_len [] stats changed vector x = x
    sparse_entries-Extends vocab doc_len ((token, freq) ∷ tf) stats changed vector x =
        sparse_entries-Extends vocab doc_len tf (ensure token stats) _ _
          (ensure-Extends vocab token stats x)

    vector-Extends :
        (vocab : Dict String ℕ) (text : String) (stats : Stats)
        → Extends vocab stats
        → Extends vocab (sparse_vector_for_text lower set_of weight text stats).1.0
    unfolding sparse_vector_for_text
    vector-Extends vocab text stats x =
        sparse_entries-Extends vocab (length (tokenize lower set_of text))
          (counter (tokenize lower set_of text) []) stats false [] x

    -- A query, too, leaves every dimension of the file as it was and gives none to two tokens, also
    -- when it adds its new tokens.
    pub query-KeepsFile :
        (text : String) (p : Payload) (before after : Stats) (file : File) (vector : Dict ℕ S)
        → IsApart p.saved_vocab
        → get_sparse_embedding lower set_of weight text (saved p) before
          ≡ ok (vector, (file, after))
        → KeepsFile p.saved_vocab file
    unfolding get_sparse_embedding load_state persist loaded
    query-KeepsFile text p before after file vector apart e =
        let r = sparse_vector_for_text lower set_of weight text (loaded p) in
        let x = vector-Extends p.saved_vocab text (loaded p) (loaded-Extends p apart) in
        let stats = r.1.0 in
        let q : Payload = record {
          saved_total_docs = stats.total_docs;
          saved_sum_token_len = stats.sum_token_len;
          saved_vocab = stats.vocab;
          saved_doc_freq = stats.doc_freq;
        } in
        let kept : (if r.1.1 then saved q else saved p) ≡ file = cc in
        elim (Bool-cases r.1.1) [
          | inl changed ↦ (
            q,
            sym kept ∙ ap (λ b. if b then saved q else saved p) changed,
            x.kept,
            x.numbered.apart,
          )
          | inr same ↦
              (p, sym kept ∙ ap (λ b. if b then saved q else saved p) same, λ t i h. h, apart)
        ]
