-- ===== src/Execution/Replay.antt =====
-- Idempotent submission: what a retry of a request gets, whatever happened in between.
use paper_rag.Base.{
  ℕ, String, ◌≡◌, ◌≢◌, true, none, some, List, arith, ==_iff, string_eq, option_eq, pair_eq, ok,
  inl, inr, ◌⊎◌,
}
use paper_rag.Base.Dict
use paper_rag.Base.Json.{Json}
use paper_rag.Execution.Row.{Execution, ExecuteRequest}
use paper_rag.Execution.Store
use paper_rag.Execution.Store.{Store, key_of, existing, submit}
use paper_rag.Execution.Indexed.{
  IsIndexed, IsIndexed-empty, row_key, SameIdentity, SameIdentity-refl,
}
use paper_rag.Execution.Calls.{
  Call, IsFresh, Holds, perform_all, submit_old, perform_all-IsIndexed, perform_all-Holds,
}

existing_by_key :
    (s : Store) (req : ExecuteRequest) (id : String)
    → id ≢ ""
    → Dict.get (key_of req) s.by_idempotency ≡ some id
    → existing s req ≡ some id
unfolding existing
existing_by_key s req id n h = ground (arith, ==_iff id "")

existing_by_task :
    (s : Store) (req : ExecuteRequest) (id : String)
    → Dict.get (key_of req) s.by_idempotency ≡ none
    → Dict.get req.task_id s.by_task_id ≡ some id
    → existing s req ≡ some id
unfolding existing
existing_by_task s req id n h = ground arith

-- The request names the execution: by its key, or by its task when the key is new to the store.
abbrev pub Names : Store → ExecuteRequest → Execution → Type 0
Names s req row =
    (key_of req ≡ row_key row)
    ⊎ ((req.task_id ≡ row.task_id) × (Dict.get (key_of req) s.by_idempotency ≡ none))

pub existing_of_Names :
    (s : Store) (req : ExecuteRequest) (id : String) (row : Execution)
    → IsIndexed s
    → Dict.get id s.rows ≡ some row
    → Names s req row
    → existing s req ≡ some id
existing_of_Names s req id row h found (inl e) =
    existing_by_key s req id (h.named id row found).1 (rw e (h.row_to_key id row found))
existing_of_Names s req id row h found (inr (e, free)) =
    existing_by_task s req id free (rw e (h.row_to_task id row found))

module _ (dump : ExecuteRequest → Json) where
  -- An execution is in the store, and any calls follow, with new identifiers of their own. A request
  -- that then comes with the execution's run and idempotency key, or with its task and a key that
  -- the store does not know, is answered with that execution, marked as replayed: the same
  -- identifier, task, payload and deadline as before, whatever payload the request itself brings,
  -- and the store does not change.
  pub submit_replays :
      (s : Store) (id : String) (row : Execution) (cs : List Call) (fresh : String) (now : ℕ)
      (req : ExecuteRequest)
      → IsIndexed s
      → Dict.get id s.rows ≡ some row
      → IsFresh dump cs s
      → Names (perform_all dump cs s) req row
      → (row' : Execution) × (submit dump fresh now req (perform_all dump cs s)
          ≡ ok (perform_all dump cs s, row', true))
        × SameIdentity row' row
  submit_replays s id row cs fresh now req h found f names =
      let s' = perform_all dump cs s in
      let start : Holds id row s = record {
        row = row;
        found = found;
        same = SameIdentity-refl row;
      } in
      let k : Holds id row s' = perform_all-Holds dump id row cs s f h start in
      let h' : IsIndexed s' = perform_all-IsIndexed dump cs s f h in
      let names' : Names s' req k.row = ground (arith, names, k.same) in
      (
        k.row,
        submit_old dump fresh now req s' id k.row
            (existing_of_Names s' req id k.row h' k.found names') k.found,
        k.same,
      )

  -- After any calls on an empty store, two rows with one task, or with one run and idempotency key,
  -- are one row under one identifier.
  pub one_execution :
      (cs : List Call) (i j : String) (a b : Execution)
      → IsFresh dump cs Store.empty
      → Dict.get i (perform_all dump cs Store.empty).rows ≡ some a
      → Dict.get j (perform_all dump cs Store.empty).rows ≡ some b
      → (a.task_id ≡ b.task_id) ⊎ (row_key a ≡ row_key b)
      → (i ≡ j) × (a ≡ b)
  one_execution cs i j a b f p q same =
      let h = perform_all-IsIndexed dump cs Store.empty f IsIndexed-empty in
      ground (
        arith,
        h.row_to_task i a p,
        h.row_to_task j b q,
        h.row_to_key i a p,
        h.row_to_key j b q,
        same,
      )
