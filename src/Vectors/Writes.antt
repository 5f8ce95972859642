-- ===== src/Vectors/Writes.antt =====
-- backend/vectordb/milvus_writer.py: what `write_documents` inserts, in whatever batches.
use paper_rag.Base.{
  ℕ, zero, suc, ◌+◌, ◌≤◌, String, ◌≡◌, refl, sym, ap, ◌∙◌, subst, false, Option, none, some, List,
  [], ◌∷◌, ◌++◌, map, take, drop, length, arith, nat_eq, ◌==◌,
}
use paper_rag.Base.Keep.{append-nil}
use paper_rag.Loader.Chunk.{Chunk}
use paper_rag.Vectors.Writer.{
  VectorRow, insert_row, WriteError, insert_failed, Written, zip_rows, doc_texts, insert_batch,
  write_batches, write_documents, init_failed, register_failed, embed_failed, report_failed, Start,
  ready, init_fails, register_fails, BatchCall, succeeds, embedding_fails, insertion_fails,
  report_fails, this_round, later_rounds, inserting,
}

append_assoc : {A : Type 0} (xs ys zs : List A) → (xs ++ ys) ++ zs ≡ xs ++ (ys ++ zs)
append_assoc [] ys zs = refl
append_assoc (x ∷ xs) ys zs = ap (◌∷◌ x) (append_assoc xs ys zs)

module _ {A B : Type 0} (f : A → B) where
  none_left : (m n : ℕ) → take {A = B} m [] ≡ take {A = B} n []
  none_left zero zero = refl
  none_left zero (suc n) = refl
  none_left (suc m) zero = refl
  none_left (suc m) (suc n) = refl

  -- Two parts of a list make one.
  take-add :
      (m n : ℕ) (xs : List A)
      → map f (take m xs) ++ take n (map f (drop m xs)) ≡ take (m + n) (map f xs)
  take-add zero n xs = ap (λ k. take k (map f xs)) (omega arith)
  take-add (suc m) n [] = none_left n (suc m + n)
  take-add (suc m) n (x ∷ xs) =
      let more : suc (m + n) ≡ suc m + n = omega arith in
      subst (λ k. f x ∷ (map f (take m xs) ++ take n (map f (drop m xs))) ≡ take k (f x ∷ map f xs))
        more (ap (◌∷◌ (f x)) (take-add m n xs))

  map-split : (m : ℕ) (xs : List A) → map f (take m xs) ++ map f (drop m xs) ≡ map f xs
  map-split zero xs = refl
  map-split (suc m) [] = refl
  map-split (suc m) (x ∷ xs) = ap (◌∷◌ (f x)) (map-split m xs)

length-drop :
    {A : Type 0} (m : ℕ) (x : A) (xs : List A) → 1 ≤ m → length (drop m (x ∷ xs)) ≤ length xs
length-drop zero x xs h = absurd (omega arith)
length-drop (suc zero) x xs h = omega arith
length-drop (suc (suc m)) x [] h = omega arith
length-drop (suc (suc m)) x (y ∷ xs) h = omega (arith, length-drop (suc m) y xs (omega arith))

zip_rows-map :
    {V : Type 0} (one : String → V) (ds : List Chunk)
    → zip_rows ds (map one (doc_texts ds)) ≡ some (map (λ d. insert_row d (one d.text)) ds)
unfolding zip_rows
zip_rows-map one [] = refl
zip_rows-map one (d ∷ ds) = rw (zip_rows-map one ds) refl

-- The error is that of a call that fails: before the first batch, or in some batch.
pub data CallFails : Start → List BatchCall → WriteError → Type 0 where
  at_init : (rs : List BatchCall) → CallFails init_fails rs init_failed
  at_register : (rs : List BatchCall) → CallFails register_fails rs register_failed
  at_embedding : (rs : List BatchCall) → CallFails ready (embedding_fails ∷ rs) embed_failed
  at_insertion : (rs : List BatchCall) → CallFails ready (insertion_fails ∷ rs) insert_failed
  at_report : (rs : List BatchCall) → CallFails ready (report_fails ∷ rs) report_failed
  at_later :
      (r : BatchCall) (rs : List BatchCall) (e : WriteError)
      → CallFails ready rs e
      → CallFails ready (r ∷ rs) e

CallFails-later :
    (rs : List BatchCall) (e : WriteError)
    → CallFails ready (later_rounds rs) e
    → CallFails ready rs e
CallFails-later [] e h = h
CallFails-later (r ∷ rs) e h = at_later r rs e h

module _ {V : Type 0} (embed : List String → List V) (one : String → V)
    (each : (ts : List String) → embed ts ≡ map one ts) (batch_size : ℕ)
    (positive : 1 ≤ batch_size) where
  abbrev pub row_of_doc : Chunk → VectorRow V
  row_of_doc d = insert_row d (one d.text)

  -- All rows are inserted; or a call fails, and those of some first documents are.
  pub data IsInserted (docs : List Chunk) (start : Start) (rs : List BatchCall)
      (before : List (VectorRow V)) : Option WriteError × Written V → Type 0 where
    complete :
        (s : Written V)
        → s.collection ≡ before ++ map row_of_doc docs
        → IsInserted docs start rs before (none, s)
    broken :
        (e : WriteError) (s : Written V) (n : ℕ)
        → CallFails start rs e
        → s.collection ≡ before ++ take n (map row_of_doc docs)
        → IsInserted docs start rs before (some e, s)

  -- A batch before the others.
  IsInserted-later :
      (docs : List Chunk) (rs : List BatchCall) (before : List (VectorRow V))
      (o : Option WriteError × Written V)
      → IsInserted
          (drop batch_size docs)
          ready
          (later_rounds rs)
          (before ++ map row_of_doc (take batch_size docs))
          o
      → IsInserted docs ready rs before o
  IsInserted-later docs rs before _ (complete s e) =
      complete s (
        e
        ∙ (append_assoc before _ _ ∙ ap (λ r. before ++ r) (map-split row_of_doc batch_size docs)))
  IsInserted-later docs rs before _ (broken x s n h e) =
      broken x s (batch_size + n) (CallFails-later rs x h) (
        e
        ∙ (append_assoc before _ _ ∙ ap (λ r. before ++ r) (take-add row_of_doc batch_size n docs)))

  zipped : (ds : List Chunk) → zip_rows ds (embed (doc_texts ds)) ≡ some (map row_of_doc ds)
  zipped ds = ap (zip_rows ds) (each (doc_texts ds)) ∙ zip_rows-map one ds

  -- What a batch leaves, when the batches after it are right.
  round-IsInserted :
      (docs : List Chunk) (rs : List BatchCall) (s : Written V)
      (go : List (VectorRow V) → Option WriteError × Written V)
      → IsInserted docs ready rs s.collection (go (map row_of_doc (take batch_size docs)))
      → IsInserted docs ready rs s.collection (
          inserting embed batch_size
            (this_round rs)
            (some (map row_of_doc (take batch_size docs)))
            s
            go)
  round-IsInserted docs [] s go h = h
  round-IsInserted docs (succeeds ∷ rs) s go h = h
  round-IsInserted docs (embedding_fails ∷ rs) s go h =
      broken embed_failed s 0 (at_embedding rs) (sym (append-nil s.collection))
  round-IsInserted docs (insertion_fails ∷ rs) s go h =
      broken insert_failed s 0 (at_insertion rs) (sym (append-nil s.collection))
  round-IsInserted docs (report_fails ∷ rs) s go h =
      broken report_failed _ (batch_size + 0) (at_report rs) (
        sym (append-nil (s.collection ++ map row_of_doc (take batch_size docs)))
        ∙ (append_assoc s.collection _ _
            ∙ ap (λ r. s.collection ++ r) (take-add row_of_doc batch_size 0 docs)))

  write_batches-IsInserted :
      (rounds i total : ℕ) (docs : List Chunk) (rs : List BatchCall) (s : Written V)
      → length docs ≤ rounds
      → IsInserted docs ready rs s.collection
          (write_batches embed batch_size rounds i total docs rs s)
  unfolding write_batches
  write_batches-IsInserted rounds i total [] rs s h = complete s (sym (append-nil s.collection))
  write_batches-IsInserted zero i total (d ∷ ds) rs s h = absurd (omega arith)
  write_batches-IsInserted (suc n) i total (d ∷ ds) rs s h =
      let docs = d ∷ ds in
      let batch = take batch_size docs in
      let next = insert_batch embed batch_size (map row_of_doc batch) i total s in
      rw (zipped batch, write_batches)
        (round-IsInserted docs rs s _ (
          IsInserted-later docs rs s.collection _ (
            write_batches-IsInserted n (i + batch_size) total (drop batch_size docs)
              (later_rounds rs) next (omega (arith, h, length-drop batch_size d ds positive)))))

  -- Whatever the size of the batches, which is not 0: all documents are inserted, in their order, each with
  -- the vectors of its text, and there is no error; or the error is that of a call that fails, among the
  -- initialisation, the registration of the texts, the embedding, the insertion and the report of a batch,
  -- and then those of some first documents are. The two vectors of a text do not depend on the batch that
  -- it is in.
  pub write_documents-IsInserted :
      (docs : List Chunk) (start : Start) (rs : List BatchCall) (s : Written V)
      → IsInserted docs start rs s.collection (write_documents embed batch_size docs start rs s)
  unfolding write_documents
  write_documents-IsInserted [] start rs s = complete s (sym (append-nil s.collection))
  write_documents-IsInserted (d ∷ ds) init_fails rs s =
      broken init_failed s 0 (at_init rs) (sym (append-nil s.collection))
  write_documents-IsInserted (d ∷ ds) register_fails rs s =
      broken register_failed s 0 (at_register rs) (sym (append-nil s.collection))
  write_documents-IsInserted (d ∷ ds) ready rs s =
      let some_size : (batch_size == 0) ≡ false = ground (arith, positive) in
      rw some_size (
        write_batches-IsInserted (length (d ∷ ds)) 0 (length (d ∷ ds)) (d ∷ ds) rs
          (record s { registered_texts = s.registered_texts ++ doc_texts (d ∷ ds) }) (omega arith))
