-- ===== src/Execution/RunEnds.antt =====
-- backend/internal_api/router.py: the calls of a run under the lock, between those of other callers.
use paper_rag.Base.{
  ℕ, String, ◌≡◌, ◌≢◌, true, none, some, List, [], ◌∷◌, All, arith, string_eq, option_eq,
  Option-cases, inl, inr, ◌⊎◌, string_discrete,
}
use paper_rag.Base.Dict
use paper_rag.Base.Dict.{get-put, get-put_ne, get-put_self}
use paper_rag.Base.Json.{Json}
use paper_rag.Execution.Row.{
  Execution, ExecuteRequest, Readings, Change, is_terminal, new_execution, read_change,
  cancel_change,
}
use paper_rag.Execution.Ops.{read, start, succeed, fail, cancel, after, change_of}
use paper_rag.Execution.Store.{Store, mutate}
use paper_rag.Execution.Indexed.{mutate_found, mutate_missing}
use paper_rag.Execution.Calls.{Call, submit_call, op_call, perform, perform_all, submit_state}

-- The row under an identifier has a property.
pub record At (id : String) (P : Execution → Type 0) (s : Store) : Type 0 where
  pub row : Execution
  pub found : Dict.get id s.rows ≡ some row
  pub holds : P row

abbrev pub Terminal : Execution → Type 0
Terminal row = is_terminal row.status ≡ true

-- As it was, or ended.
abbrev pub Calm : Execution → Execution → Type 0
Calm old row = (row ≡ old) ⊎ Terminal row

-- What another thread may do while the run lock of `id` is held: the endpoints submit, read and
-- cancel; runs of other executions change other rows.
abbrev pub IsOther : String → Call → Type 0
IsOther id (submit_call fresh now req) = fresh ≢ id
IsOther id (op_call j read now) = Unit
IsOther id (op_call j cancel now) = Unit
IsOther id (op_call j (start lease recover) now) = j ≢ id
IsOther id (op_call j (succeed s) now) = j ≢ id
IsOther id (op_call j (fail f) now) = j ≢ id

module _ (id : String) {P Q : Execution → Type 0} where
  pub mutate-At :
      (change : Change) (s : Store)
      → ((row : Execution) → P row → Q (change row).0)
      → At id P s
      → At id Q (mutate id change s).0
  mutate-At change s f a = rw (mutate_found id change s a.row a.found) (record {
    row = (change a.row).0;
    found = get-put_self id (change a.row).0 s.rows;
    holds = f a.row a.holds;
  })

  -- The same, where the call has answered with nothing.
  pub mutate_none-At :
      (change : Change) (s : Store)
      → ((row : Execution) → P row → (change row).1 ≡ none → Q (change row).0)
      → At id P s
      → (mutate id change s).1 ≡ none
      → At id Q (mutate id change s).0
  mutate_none-At change s f a e =
      let there = mutate_found id change s a.row a.found in
      let e' : (change a.row).1 ≡ none = rw there at e in
      rw there (record {
        row = (change a.row).0;
        found = get-put_self id (change a.row).0 s.rows;
        holds = f a.row a.holds e';
      })

module _ (id : String) {P : Execution → Type 0} where
  pub mutate_ne-At :
      (j : String) (change : Change) (s : Store)
      → j ≢ id
      → At id P s
      → At id P (mutate j change s).0
  mutate_ne-At j change s n a = elim (Option-cases (Dict.get j s.rows)) [
    | inl missing ↦ rw (mutate_missing j change s missing) a
    | inr (row, there) ↦ rw (mutate_found j change s row there) (record {
      row = a.row;
      found = rw (get-put_ne j id (change row).0 s.rows n) a.found;
      holds = a.holds;
    })
  ]

  pub submit-At :
      (dump : ExecuteRequest → Json) (fresh : String) (now : ℕ) (req : ExecuteRequest) (s : Store)
      → fresh ≢ id
      → At id P s
      → At id P (perform dump (submit_call fresh now req) s)
  submit-At dump fresh now req s n a = elim (submit_state dump fresh now req s) [
    | inl new ↦ rw new (record {
      row = a.row;
      found = rw (get-put_ne fresh id (new_execution dump fresh now req) s.rows n) a.found;
      holds = a.holds;
    })
    | inr same ↦ rw same a
  ]

  pub mutate_any-At :
      (j : String) (change : Change) (s : Store)
      → ((row : Execution) → P row → P (change row).0)
      → At id P s
      → At id P (mutate j change s).0
  mutate_any-At j change s f a = elim (string_discrete j id) [
    | yes same ↦ rw same (mutate-At id change s f a)
    | no other ↦ mutate_ne-At j change s other a
  ]

module _ (id : String) (old : Execution) where
  Calm-read : (now : Readings) (row : Execution) → Calm old row → Calm old (after read now row)
  unfolding read_change
  Calm-read now row c = ground arith

  Calm-cancel : (now : Readings) (row : Execution) → Calm old row → Calm old (after cancel now row)
  unfolding cancel_change
  Calm-cancel now row c = ground arith

  perform-Calm :
      (dump : ExecuteRequest → Json) (c : Call) (s : Store)
      → IsOther id c
      → At id (Calm old) s
      → At id (Calm old) (perform dump c s)
  perform-Calm dump (submit_call fresh now req) s o a = submit-At id dump fresh now req s o a
  perform-Calm dump (op_call j read now) s o a =
      mutate_any-At id j (change_of read now) s (Calm-read now) a
  perform-Calm dump (op_call j cancel now) s o a =
      mutate_any-At id j (change_of cancel now) s (Calm-cancel now) a
  perform-Calm dump (op_call j (start lease recover) now) s o a =
      mutate_ne-At id j (change_of (start lease recover) now) s o a
  perform-Calm dump (op_call j (succeed r) now) s o a =
      mutate_ne-At id j (change_of (succeed r) now) s o a
  perform-Calm dump (op_call j (fail f) now) s o a =
      mutate_ne-At id j (change_of (fail f) now) s o a

  -- While the lock is held, the endpoints leave the row as it is, or end it.
  pub perform_all-Calm :
      (dump : ExecuteRequest → Json) (cs : List Call) (s : Store)
      → All (IsOther id) cs
      → At id (Calm old) s
      → At id (Calm old) (perform_all dump cs s)
  unfolding perform_all
  perform_all-Calm dump [] s o a = a
  perform_all-Calm dump (c ∷ cs) s o a =
      perform_all-Calm dump cs (perform dump c s) o.1 (perform-Calm dump c s o.0 a)
