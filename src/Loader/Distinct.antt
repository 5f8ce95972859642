-- ===== src/Loader/Distinct.antt =====
-- Chunks that are told apart by their identifiers.
use paper_rag.Base.{
  String, string_eq, ◌≡◌, refl, Bool, true, false, List, [], ◌∷◌, ◌++◌, keep, All, ◌==◌, arith,
  if◌then◌else◌,
}
use paper_rag.Loader.Chunk.{Chunk}

-- No two chunks have one identifier.
abbrev pub has_id : String → List Chunk → Bool
has_id id [] = false
has_id id (c ∷ cs) = if c.chunk_id == id then true else has_id id cs

abbrev pub distinct_ids : List Chunk → Bool
distinct_ids [] = true
distinct_ids (c ∷ cs) = if has_id c.chunk_id cs then false else distinct_ids cs

pub has_id-append :
    (id : String) (xs ys : List Chunk)
    → has_id id xs ≡ false
    → has_id id ys ≡ false
    → has_id id (xs ++ ys) ≡ false
has_id-append id [] ys h k = k
has_id-append id (x ∷ xs) ys h k =
    let rest : has_id id xs ≡ false = ground (arith, h) in
    ground (arith, h, has_id-append id xs ys rest k)

pub distinct_ids-append :
    (xs ys : List Chunk)
    → distinct_ids xs ≡ true
    → distinct_ids ys ≡ true
    → All (λ x. has_id x.chunk_id ys ≡ false) xs
    → distinct_ids (xs ++ ys) ≡ true
distinct_ids-append [] ys d e a = e
distinct_ids-append (x ∷ xs) ys d e a =
    let fresh : has_id x.chunk_id xs ≡ false = ground (arith, d) in
    let rest : distinct_ids xs ≡ true = ground (arith, d) in
    ground (arith, has_id-append x.chunk_id xs ys fresh a.0, distinct_ids-append xs ys rest e a.1)

has_id-keep :
    (p : Chunk → Bool) (id : String) (xs : List Chunk)
    → has_id id xs ≡ false
    → has_id id (keep p xs) ≡ false
has_id-keep p id [] h = refl
has_id-keep p id (x ∷ xs) h =
    let rest : has_id id xs ≡ false = ground (arith, h) in
    ground (arith, h, has_id-keep p id xs rest)

-- A part of distinct chunks is distinct.
pub distinct_ids-keep :
    (p : Chunk → Bool) (xs : List Chunk) → distinct_ids xs ≡ true → distinct_ids (keep p xs) ≡ true
distinct_ids-keep p [] d = refl
distinct_ids-keep p (x ∷ xs) d =
    let fresh : has_id x.chunk_id xs ≡ false = ground (arith, d) in
    let rest : distinct_ids xs ≡ true = ground (arith, d) in
    ground (arith, has_id-keep p x.chunk_id xs fresh, distinct_ids-keep p xs rest)
