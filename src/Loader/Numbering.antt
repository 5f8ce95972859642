-- ===== src/Loader/Numbering.antt =====
-- backend/rag/document_loader.py: the counters of `_split_page_to_three_levels`.
use paper_rag.Base.{
  ℕ, suc, ◌+◌, ◌≤◌, ◌<◌, String, string_eq, nat_eq, ◌≡◌, refl, sym, ◌∙◌, subst, true, false, List,
  [], ◌∷◌, ◌++◌, length, length-append, All, ◌==◌, ==_iff, Bool-cases, inl, inr, arith,
  if◌then◌else◌,
}
use paper_rag.Base.Keep.{All-append}
use paper_rag.Loader.Chunk.{Chunk}
use paper_rag.Loader.Distinct.{has_id, distinct_ids, distinct_ids-append}
use paper_rag.Loader.Identifiers.{IsDecimal, build_chunk_id_inj}
use paper_rag.Loader.Levels.{
  Splitters, Counters, pieces, id_of, leaf_chunks, middle_chunks, root_chunks, after_1, after_2,
  after_3, middle_at, leaf_at, root_at,
}

abbrev pub count_of : ℕ → Counters → ℕ
count_of level c =
    if level == 1
    then c.level_1_counter
    else if level == 2
    then c.level_2_counter
    else c.level_3_counter

-- The positions of the chunks are consecutive.
unfoldable pub Positions : ℕ → List Chunk → Type 0
Positions idx [] = Unit {0}
Positions idx (x ∷ xs) = (x.chunk_idx ≡ idx) × Positions (suc idx) xs

pub Positions-append :
    (idx : ℕ) (xs ys : List Chunk)
    → Positions idx xs
    → Positions (idx + length xs) ys
    → Positions idx (xs ++ ys)
unfolding Positions
Positions-append idx [] ys p q = subst (λ n. Positions n ys) (omega arith) q
Positions-append idx (x ∷ xs) ys p q =
    (p.0, Positions-append (suc idx) xs ys p.1 (subst (λ n. Positions n ys) (omega arith) q))

module _ (tools : Splitters) (base : Chunk) (decimal : IsDecimal tools.str) where
  -- A chunk that got its identifier between two states of the counters.
  pub record IsNumbered (c d : Counters) (x : Chunk) : Type 0 where
    pub index : ℕ
    pub low : count_of x.chunk_level c ≤ index
    pub high : index < count_of x.chunk_level d
    pub id_is : x.chunk_id ≡ id_of tools base x.chunk_level index

  pub record IsMade (c d : Counters) (xs : List Chunk) : Type 0 where
    pub grown : (level : ℕ) → count_of level c ≤ count_of level d
    pub numbered : All (IsNumbered c d) xs
    pub distinct : distinct_ids xs ≡ true
    pub positions : Positions c.page_global_chunk_idx xs
    pub idx_counted : d.page_global_chunk_idx ≡ c.page_global_chunk_idx + length xs

  IsNumbered-wider :
      (b c d e : Counters) (xs : List Chunk)
      → ((level : ℕ) → count_of level b ≤ count_of level c)
      → ((level : ℕ) → count_of level d ≤ count_of level e)
      → All (IsNumbered c d) xs
      → All (IsNumbered b e) xs
  IsNumbered-wider b c d e [] f g a = tt
  IsNumbered-wider b c d e (x ∷ xs) f g (n, a) = (
    record {
      index = n.index;
      low = omega (arith, f x.chunk_level, n.low);
      high = omega (arith, g x.chunk_level, n.high);
      id_is = n.id_is;
    },
    IsNumbered-wider b c d e xs f g a,
  )

  -- An identifier of earlier counters is none of later ones.
  earlier-apart :
      (c d e : Counters) (x : Chunk) (ys : List Chunk)
      → IsNumbered c d x
      → All (IsNumbered d e) ys
      → has_id x.chunk_id ys ≡ false
  earlier-apart c d e x [] n a = refl
  earlier-apart c d e x (y ∷ ys) n (m, a) = elim (Bool-cases (y.chunk_id == x.chunk_id)) [
    | inl same ↦
        let ids : y.chunk_id ≡ x.chunk_id = ground (arith, same, ==_iff y.chunk_id x.chunk_id) in
        let parts =
          build_chunk_id_inj tools.str base.filename base.page_number y.chunk_level x.chunk_level
            m.index n.index decimal (sym m.id_is ∙ (ids ∙ n.id_is)) in
        let low : count_of x.chunk_level d ≤ n.index =
          subst (λ i. count_of x.chunk_level d ≤ i) parts.1
            (subst (λ l. count_of l d ≤ m.index) parts.0 m.low) in
        absurd (omega (arith, low, n.high))
    | inr apart ↦ rw apart (earlier-apart c d e x ys n a)
  ]

  All-earlier-apart :
      (c d e : Counters) (xs ys : List Chunk)
      → All (IsNumbered c d) xs
      → All (IsNumbered d e) ys
      → All (λ x. has_id x.chunk_id ys ≡ false) xs
  All-earlier-apart c d e [] ys a b = tt
  All-earlier-apart c d e (x ∷ xs) ys (n, a) b =
      (earlier-apart c d e x ys n b, All-earlier-apart c d e xs ys a b)

  IsMade-append :
      (c d e : Counters) (xs ys : List Chunk)
      → IsMade c d xs
      → IsMade d e ys
      → IsMade c e (xs ++ ys)
  IsMade-append c d e xs ys m n = record {
    grown = λ level. omega (arith, m.grown level, n.grown level);
    numbered =
        All-append _ xs ys (IsNumbered-wider c c d e xs (λ level. omega arith) n.grown m.numbered)
          (IsNumbered-wider c d e e ys m.grown (λ level. omega arith) n.numbered);
    distinct =
        distinct_ids-append xs ys m.distinct n.distinct
          (All-earlier-apart c d e xs ys m.numbered n.numbered);
    positions =
        Positions-append _ xs ys m.positions
          (subst (λ k. Positions k ys) m.idx_counted n.positions);
    idx_counted = omega (arith, m.idx_counted, n.idx_counted, length-append xs ys);
  }

  IsMade-none : (c : Counters) → IsMade c c []
  unfolding Positions
  IsMade-none c = record {
    grown = λ level. omega arith;
    numbered = tt;
    distinct = refl;
    positions = tt;
    idx_counted = omega arith;
  }

  -- One chunk, with its counter.
  alone-IsMade :
      (c d : Counters) (x : Chunk)
      → ((level : ℕ) → count_of level c ≤ count_of level d)
      → count_of x.chunk_level c < count_of x.chunk_level d
      → x.chunk_id ≡ id_of tools base x.chunk_level (count_of x.chunk_level c)
      → x.chunk_idx ≡ c.page_global_chunk_idx
      → d.page_global_chunk_idx ≡ suc c.page_global_chunk_idx
      → IsMade c d (x ∷ [])
  unfolding Positions
  alone-IsMade c d x grown more id_is at_idx next = record {
    grown = grown;
    numbered = (
      record { index = count_of x.chunk_level c; low = omega arith; high = more; id_is = id_is },
      tt,
    );
    distinct = refl;
    positions = (at_idx, tt);
    idx_counted = omega (arith, next);
  }

  leaf_chunks-IsMade :
      (root parent : String) (texts : List String) (c : Counters)
      → IsMade c
          (leaf_chunks tools base root parent texts c).1
          (leaf_chunks tools base root parent texts c).0
  unfolding leaf_chunks
  leaf_chunks-IsMade root parent [] c = IsMade-none c
  leaf_chunks-IsMade root parent (text ∷ texts) c =
      IsMade-append c (after_3 tools base c) _ (leaf_at tools base root parent text c ∷ []) _
        (alone-IsMade c (after_3 tools base c) (leaf_at tools base root parent text c)
          (λ level. ground arith) (ground arith) refl refl refl)
        (leaf_chunks-IsMade root parent texts (after_3 tools base c))

  middle_chunks-IsMade :
      (root : String) (texts : List String) (c : Counters)
      → IsMade c (middle_chunks tools base root texts c).1 (middle_chunks tools base root texts c).0
  unfolding middle_chunks
  middle_chunks-IsMade root [] c = IsMade-none c
  middle_chunks-IsMade root (text ∷ texts) c =
      IsMade-append c (after_2 tools base c) _ (middle_at tools base root text c ∷ []) _
        (alone-IsMade c (after_2 tools base c) (middle_at tools base root text c)
          (λ level. ground arith) (ground arith) refl refl refl)
        (IsMade-append (after_2 tools base c) _ _ _ _
          (leaf_chunks-IsMade root (id_of tools base 2 c.level_2_counter)
            (pieces (tools.split_3 text)) (after_2 tools base c))
          (middle_chunks-IsMade root texts _))

  pub root_chunks-IsMade :
      (texts : List String) (c : Counters)
      → IsMade c (root_chunks tools base texts c).1 (root_chunks tools base texts c).0
  unfolding root_chunks
  root_chunks-IsMade [] c = IsMade-none c
  root_chunks-IsMade (text ∷ texts) c =
      IsMade-append c (after_1 tools base c) _ (root_at tools base text c ∷ []) _
        (alone-IsMade c (after_1 tools base c) (root_at tools base text c) (λ level. ground arith)
          (ground arith) refl refl refl)
        (IsMade-append (after_1 tools base c) _ _ _ _
          (middle_chunks-IsMade (id_of tools base 1 c.level_1_counter) (pieces (tools.split_2 text))
            (after_1 tools base c))
          (root_chunks-IsMade texts _))
