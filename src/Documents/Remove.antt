-- ===== src/Documents/Remove.antt =====
-- backend/services/document_jobs.py: `_remove_existing_index` and `_remove_document_locked`.
use paper_rag.Base.{
  ℕ, zero, suc, String, ◌≡◌, refl, ap, ◌∙◌, true, false, inl, inr, none, some, List, [], ◌∷◌, ◌++◌,
  keep, length, All, ◌==◌, string_eq, Bool-cases,
}
use paper_rag.Base.Dict
use paper_rag.Base.Dict.{Dict, get-put, get-put_self, get-put_ne, get-remove}
use paper_rag.Base.Keep.{keep-keep, keep-append, keep-none, keep-keep-not, append-nil}
use paper_rag.Loader.Chunk.{Chunk}
use paper_rag.Documents.Calls.{
  delete, Row, World, Faults, Ends, then-Ends, call-Ends, write-Ends, call, write,
}
use paper_rag.Documents.Index.{
  Services, is_of_file, other_file, drop_rows, texts_of, is_leaf, is_leaf, remove_existing_index,
}
use paper_rag.Documents.Safety.{IsUntouched, KeepsOthers, OnlyOf, as_it_was, deleted}

drop_rows-keep_other :
    (filename : String) (n : ℕ) (cs : List Chunk)
    → keep (other_file filename) (drop_rows filename n cs) ≡ keep (other_file filename) cs
unfolding drop_rows
drop_rows-keep_other filename zero cs = refl
drop_rows-keep_other filename (suc n) [] = refl
drop_rows-keep_other filename (suc n) (c ∷ cs) = elim (Bool-cases (c.filename == filename)) [
  | inl mine ↦ rw mine (drop_rows-keep_other filename n cs)
  | inr other ↦ rw other (rw other (ap (◌∷◌ c) (drop_rows-keep_other filename (suc n) cs)))
]

-- Chunks of one file, added to a list, are no others.
pub keep_other-append :
    (filename : String) (cs ds : List Chunk)
    → All (λ d. is_of_file filename d ≡ true) ds
    → keep (other_file filename) (cs ++ ds) ≡ keep (other_file filename) cs
keep_other-append filename cs ds a =
    keep-append (other_file filename) cs ds
    ∙ (ap (λ r. keep (other_file filename) cs ++ r)
          (keep-none (other_file filename) ds (none_other ds a))
        ∙ append-nil (keep (other_file filename) cs))
  where
    none_other :
        (es : List Chunk)
        → All (λ d. is_of_file filename d ≡ true) es
        → All (λ d. other_file filename d ≡ false) es
    none_other [] b = tt
    none_other (e ∷ es) b = (rw b.0 refl, none_other es b.1)

module _ {B P S : Type 0} (services : Services B P S) (filename : String) where
  -- What is so once the old index is gone.
  pub record Cleared (w : World B P S) : Type 0 where
    pub no_vectors : keep (is_of_file filename) w.vectors ≡ []
    pub no_parents : (p : P) × (w.parents ≡ services.delete_parents filename p)
    pub restated_all :
        (stats : S) × (w.stats
          ≡ services.restate_documents (texts_of (keep is_leaf w.vectors)) stats)

module _ {B P S : Type 0} (services : Services B P S) (filename : String) where
  -- The state and the files are as before, and so is what the index holds of other files.
  pub record IsKept (before after : World B P S) : Type 0 where
    pub ingested_kept : after.ingested ≡ before.ingested
    pub files_kept : after.files ≡ before.files
    pub others_kept :
        keep (other_file filename) after.vectors ≡ keep (other_file filename) before.vectors
    pub other_rows_kept : OnlyOf services filename before.parents after.parents

module _ {B P S : Type 0} (services : Services B P S) (filename : String) (w : World B P S) where
  abbrev Kept : World B P S → Type 0
  Kept v = IsKept services filename w v

  abbrev Deleted : World B P S → Type 0
  Deleted x = (p : P) × (x.parents ≡ services.delete_parents filename p)

  abbrev count : ℕ
  count = length (keep (is_of_file filename) w.vectors)

  pub clear-Ends :
      (φ : Faults)
      → Ends
          (λ n v. Kept v × (Cleared services filename v × (n ≡ count)))
          Kept
          (remove_existing_index services filename w φ)
  unfolding remove_existing_index
  clear-Ends φ =
      then-Ends {Q = λ u v. Kept v × (keep (is_of_file filename) v.vectors ≡ [])} (call _ _) _ w φ
        (call-Ends _ _ w φ
          (
            record {
              ingested_kept = refl;
              files_kept = refl;
              others_kept = keep-keep (other_file filename) w.vectors;
              other_rows_kept = as_it_was;
            },
            keep-keep-not (is_of_file filename) w.vectors,
          )
          (λ n. record {
            ingested_kept = refl;
            files_kept = refl;
            others_kept = drop_rows-keep_other filename n w.vectors;
            other_rows_kept = as_it_was;
          }))
        (λ u v ψ s.
          then-Ends {Q = λ t x. Kept x × ((keep (is_of_file filename) x.vectors ≡ []) × Deleted x)}
            (write _) _ v ψ (parents_gone v ψ s)
            (λ t x χ r.
              then-Ends {Q = λ a y. Kept y × Cleared services filename y} (write _) _ x χ
                (restated x χ r) (λ a y ω z. record { holds = (z.0, (z.1, refl)) })))
    where
      parents_gone :
          (v : World B P S) (ψ : Faults)
          → Kept v × (keep (is_of_file filename) v.vectors ≡ [])
          → Ends
              (λ t x. Kept x × ((keep (is_of_file filename) x.vectors ≡ []) × Deleted x))
              Kept
              (write (λ x. record x { parents = services.delete_parents filename x.parents }) v ψ)
      parents_gone v ψ (k, none_left) =
          let after : Kept (record v { parents = services.delete_parents filename v.parents }) =
            record {
              ingested_kept = k.ingested_kept;
              files_kept = k.files_kept;
              others_kept = k.others_kept;
              other_rows_kept = deleted v.parents k.other_rows_kept;
            } in
          write-Ends _ v ψ (after, (none_left, (v.parents, refl))) k after

      restated :
          (x : World B P S) (χ : Faults)
          → Kept x × ((keep (is_of_file filename) x.vectors ≡ []) × Deleted x)
          → Ends
              (λ a y. Kept y × Cleared services filename y)
              Kept
              (write
                (λ y. record y {
                  stats = services.restate_documents (texts_of (keep is_leaf x.vectors)) y.stats;
                })
                x
                χ)
      restated x χ (k, (none_left, no_rows)) =
          let after : Kept (record x {
            stats = services.restate_documents (texts_of (keep is_leaf x.vectors)) x.stats;
          }) =
            record {
              ingested_kept = k.ingested_kept;
              files_kept = k.files_kept;
              others_kept = k.others_kept;
              other_rows_kept = k.other_rows_kept;
            } in
          write-Ends _ x χ
            (
              after,
              record {
                no_vectors = none_left;
                no_parents = no_rows;
                restated_all = (x.stats, refl);
              },
            )
            k after

  -- Deleted, or to be deleted.
  pub record IsGone (v : World B P S) : Type 0 where
    pub no_record : Dict.get filename v.ingested ≡ none
    pub gone : Cleared services filename v

  pub record IsCondemned (v : World B P S) : Type 0 where
    pub row : Row
    pub found : Dict.get filename v.ingested ≡ some row
    pub to_delete : row.pending ≡ some delete

  pub data IsRemovalLeft (v : World B P S) : Type 0 where
    as_before : IsUntouched services filename w v → IsRemovalLeft v
    condemned : IsCondemned v → KeepsOthers services filename w v → IsRemovalLeft v
    removed : IsGone v → KeepsOthers services filename w v → IsRemovalLeft v
