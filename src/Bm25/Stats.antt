-- ===== src/Bm25/Stats.antt =====
-- backend/rag/embedding.py: the tokens of a text, the statistics and their file. The order in which
-- Python goes through a set and the lower case of a text are parameters, and so is the
-- floating-point weight of a token.
use Prim.Native.String.{String, [] as no_text, ◌∷◌ as ◌∷ₜ◌, ◌++◌ as ◌++ₜ◌}
use Prim.Native.Char.{code}
use paper_rag.Base.{
  ℕ, suc, ◌+◌, ◌-◌, max, leb, Bool, false, not, ◌||◌, ◌&&◌, Option, none, some, List, [], ◌∷◌,
  length, string_eq, nat_eq, if◌then◌else◌, Result, ok, raise,
}
use paper_rag.Base.Dict
use paper_rag.Base.Dict.{Dict}

abbrev pub is_chinese : ℕ → Bool
is_chinese n = leb 19968 n && leb n 40959

abbrev pub is_english : ℕ → Bool
is_english n = (leb 65 n && leb n 90) || (leb 97 n && leb n 122)

-- The run of letters that has been read, as a token.
abbrev pub flush : String → List String → List String
flush no_text tokens = tokens
flush (c ∷ₜ s) tokens = (c ∷ₜ s) ∷ tokens

-- The loop, with the run of letters before the position.
unfoldable pub scan : String → String → List String
scan word no_text = flush word []
scan word (c ∷ₜ s) =
    let longer = scan (word ++ₜ (c ∷ₜ no_text)) s in
    let fresh = scan no_text s in
    if is_chinese (code c)
    then flush word ((c ∷ₜ no_text) ∷ fresh)
    else if is_english (code c)
    then longer
    else flush word fresh

-- What `EmbeddingService` keeps in memory; the average length is computed from the two sums.
pub record Stats : Type 0 where
  pub vocab : Dict String ℕ
  pub vocab_counter : ℕ
  pub doc_freq : Dict String ℕ
  pub total_docs : ℕ
  pub sum_token_len : ℕ

-- What the file holds.
pub record Payload : Type 0 where
  pub saved_total_docs : ℕ
  pub saved_sum_token_len : ℕ
  pub saved_vocab : Dict String ℕ
  pub saved_doc_freq : Dict String ℕ

-- There is no file, or it cannot be read or has another version, or it is of version 1.
pub data File : Type 0 where
  absent : File
  unreadable : File
  saved : Payload → File

pub data StateError : Type 0 where
  refused : StateError

-- `max(values) + 1`, or 0
unfoldable pub next_counter : Dict String ℕ → ℕ
next_counter [] = 0
next_counter ((token, i) ∷ vocab) = max (suc i) (next_counter vocab)

unfoldable pub load_state : File → Stats → Result StateError Stats
unfolding next_counter
load_state absent stats = ok stats
load_state unreadable stats = raise refused
load_state (saved p) stats = ok (record {
  vocab = p.saved_vocab;
  vocab_counter = next_counter p.saved_vocab;
  doc_freq = p.saved_doc_freq;
  total_docs = p.saved_total_docs;
  sum_token_len = p.saved_sum_token_len;
})

unfoldable pub persist : Stats → File
persist stats = saved (record {
  saved_total_docs = stats.total_docs;
  saved_sum_token_len = stats.sum_token_len;
  saved_vocab = stats.vocab;
  saved_doc_freq = stats.doc_freq;
})

-- `if token not in self._vocab: …`
unfoldable pub ensure : String → Stats → Stats
ensure token stats = if Dict.member token stats.vocab then stats else record stats {
  vocab = Dict.put token stats.vocab_counter stats.vocab;
  vocab_counter = suc stats.vocab_counter;
}

abbrev pub or_zero : Option ℕ → ℕ
or_zero none = 0
or_zero (some n) = n

unfoldable pub count_token : String → Stats → Stats
count_token token stats = record stats {
  doc_freq = Dict.put token (suc (or_zero (Dict.get token stats.doc_freq))) stats.doc_freq;
}

unfoldable pub add_tokens : List String → Stats → Stats
unfolding ensure count_token
add_tokens [] stats = stats
add_tokens (token ∷ tokens) stats = add_tokens tokens (count_token token (ensure token stats))

-- `df -= 1`, and the entry goes when nothing is left
abbrev pub less : String → Option ℕ → Dict String ℕ → Dict String ℕ
less token none freq = freq
less token (some n) freq = if leb n 1 then Dict.remove token freq else Dict.put token (n - 1) freq

unfoldable pub remove_tokens : List String → Stats → Stats
remove_tokens [] stats = stats
remove_tokens (token ∷ tokens) stats =
    remove_tokens tokens
      (record stats { doc_freq = less token (Dict.get token stats.doc_freq) stats.doc_freq })

-- `Counter(tokens)`: a token's number of occurrences, in the order of the first ones
unfoldable pub counter : List String → Dict String ℕ → Dict String ℕ
counter [] freq = freq
counter (token ∷ tokens) freq =
    counter tokens (Dict.put token (suc (or_zero (Dict.get token freq))) freq)

module _ (lower : String → String) (set_of : List String → List String) where
  unfoldable pub tokenize : String → List String
  unfolding scan
  tokenize text = scan no_text (lower text)

  unfoldable pub add_statistics : List String → Stats → Stats
  unfolding tokenize add_tokens
  add_statistics [] stats = stats
  add_statistics (text ∷ texts) stats =
      let tokens = tokenize text in
      add_statistics texts (
        add_tokens (set_of tokens) (record stats {
          sum_token_len = stats.sum_token_len + length tokens;
          total_docs = suc stats.total_docs;
        }))

  unfoldable pub remove_statistics : List String → Stats → Stats
  unfolding tokenize remove_tokens
  remove_statistics [] stats = stats
  remove_statistics (text ∷ texts) stats =
      let tokens = tokenize text in
      remove_statistics texts (
        remove_tokens (set_of tokens) (record stats {
          sum_token_len = stats.sum_token_len - length tokens;
          total_docs = stats.total_docs - 1;
        }))

  -- `with self._lock, self._file_lock`: load, change, persist.
  abbrev pub saving : (Stats → Stats) → Result StateError Stats → Result StateError (File × Stats)
  saving change (raise e) = raise e
  saving change (ok stats) = ok (persist (change stats), change stats)

  abbrev pub emptied : Stats → Stats
  emptied stats = record stats { doc_freq = []; total_docs = 0; sum_token_len = 0 }

  unfoldable pub replace_documents : List String → File → Stats → Result StateError (File × Stats)
  unfolding load_state add_statistics persist
  replace_documents texts file stats =
      saving (λ s. add_statistics texts (emptied s)) (load_state file stats)

  unfoldable pub increment_add_documents :
      List String → File → Stats → Result StateError (File × Stats)
  unfolding load_state add_statistics persist
  increment_add_documents [] file stats = ok (file, stats)
  increment_add_documents (text ∷ texts) file stats =
      saving (add_statistics (text ∷ texts)) (load_state file stats)

  unfoldable pub increment_remove_documents :
      List String → File → Stats → Result StateError (File × Stats)
  unfolding load_state remove_statistics persist
  increment_remove_documents [] file stats = ok (file, stats)
  increment_remove_documents (text ∷ texts) file stats =
      saving (remove_statistics (text ∷ texts)) (load_state file stats)

  module _ {S : Type 0} (weight : Stats → ℕ → ℕ → ℕ → Option S) where
    -- The vector of a text: the dimension and the weight of each token that weighs more than zero.
    -- With it, the statistics and `vocab_changed`.
    unfoldable pub sparse_entries :
        ℕ → Dict String ℕ → Stats → Bool → Dict ℕ S → Dict ℕ S × (Stats × Bool)
    unfolding ensure
    sparse_entries doc_len [] stats changed vector = (vector, (stats, changed))
    sparse_entries doc_len ((token, freq) ∷ tf) stats changed vector =
        let known = ensure token stats in
        let df = or_zero (Dict.get token known.doc_freq) in
        let idx = or_zero (Dict.get token known.vocab) in
        sparse_entries doc_len tf known (changed || not (Dict.member token stats.vocab))
          (elim (weight known freq doc_len df) [ none ↦ vector | some w ↦ Dict.put idx w vector ])

    unfoldable pub sparse_vector_for_text : String → Stats → Dict ℕ S × (Stats × Bool)
    unfolding tokenize counter sparse_entries
    sparse_vector_for_text text stats =
        let tokens = tokenize text in
        sparse_entries (length tokens) (counter tokens []) stats false []

    abbrev pub query_saving :
        File → String → Result StateError Stats → Result StateError (Dict ℕ S × (File × Stats))
    query_saving file text (raise e) = raise e
    query_saving file text (ok stats) =
        let r = sparse_vector_for_text text stats in
        ok (r.0, (if r.1.1 then persist r.1.0 else file, r.1.0))

    unfoldable pub get_sparse_embedding :
        String → File → Stats → Result StateError (Dict ℕ S × (File × Stats))
    unfolding load_state sparse_vector_for_text persist
    get_sparse_embedding text file stats = query_saving file text (load_state file stats)
