-- ===== src/Execution/Store.antt =====
-- backend/internal_api/executions.py: `ExecutionStore`, the store of executions in memory. Each
-- method runs under the store's lock, so it is one step; rows are handed out as copies.
use paper_rag.Base.{
  ℕ, String, Bool, true, false, not, Option, none, some, List, [], ◌∷◌, ◌==◌, string_eq, option_eq,
  pair_eq, if◌then◌else◌, Result, ok, raise, any, keep,
}
use paper_rag.Base.Dict
use paper_rag.Base.Dict.{Dict}
use paper_rag.Base.Json.{Json}
use paper_rag.Execution.Row.{
  Execution, ExecuteRequest, Change, Readings, Success, Failure, is_terminal, new_execution,
  read_change, start_change, succeed_change, fail_change, cancel_change, or_text, is_some,
}

pub data StoreError : Type 0 where
  key_error : StoreError
  value_error : String → StoreError

pub record Store : Type 0 where
  pub rows : Dict String Execution
  pub by_idempotency : Dict (Option String × String) String
  pub by_task_id : Dict String String
  pub active : List String

abbrev pub empty : Store
empty = record { rows = []; by_idempotency = []; by_task_id = []; active = [] }

abbrev pub key_of : ExecuteRequest → Option String × String
key_of req = (req.run_id, req.idempotency_key)

-- `self._by_idempotency.get(key) or self._by_task_id.get(req.task_id)`
unfoldable pub existing : Store → ExecuteRequest → Option String
existing s req =
    or_text (Dict.get (key_of req) s.by_idempotency) (Dict.get req.task_id s.by_task_id)

-- The new store; the row, and whether it is an earlier one.
unfoldable pub submit :
    (ExecuteRequest → Json)
    → String
    → ℕ
    → ExecuteRequest
    → Store
    → Result StoreError (Store × Execution × Bool)
submit dump fresh now req s = elim (existing s req) [
  | some id ↦ elim (Dict.get id s.rows) [ some row ↦ ok (s, row, true) | none ↦ raise key_error ]
  | none ↦
      let row = new_execution dump fresh now req in
      ok (
        record s {
          rows = Dict.put row.execution_id row s.rows;
          by_idempotency = Dict.put (key_of req) row.execution_id s.by_idempotency;
          by_task_id = Dict.put row.task_id row.execution_id s.by_task_id;
        },
        row,
        false,
      )
]

-- A change mutates the row in place, whether or not it then returns it.
unfoldable pub mutate : String → Change → Store → Store × Option Execution
mutate id change s = elim (Dict.get id s.rows) [
  | none ↦ (s, none)
  | some row ↦ (record s { rows = Dict.put id (change row).0 s.rows }, (change row).1)
]

unfoldable pub get : String → Readings → Store → Store × Option Execution
get id now = mutate id (read_change now)

unfoldable pub start : String → Option String → Bool → Readings → Store → Store × Option Execution
start id lease recover now = mutate id (start_change lease recover now)

-- `(result is None) == (result_ref is None)` raises.
unfoldable pub succeed :
    String → Success → Readings → Store → Result StoreError (Store × Option Execution)
succeed id r now s =
    if is_some r.result
    then (if is_some r.result_ref
        then raise (value_error "result 与 result_ref 必须且只能提供一项")
        else ok (mutate id (succeed_change r now) s))
    else (if is_some r.result_ref
        then ok (mutate id (succeed_change r now) s)
        else raise (value_error "result 与 result_ref 必须且只能提供一项"))

unfoldable pub fail : String → Failure → Readings → Store → Store × Option Execution
fail id f now = mutate id (fail_change f now)

unfoldable pub cancel : String → Readings → Store → Store × Option Execution
cancel id now = mutate id (cancel_change now)

unfoldable pub reset : Store → Store
reset s = record s { rows = []; by_idempotency = []; by_task_id = [] }

-- `[row.execution_id for row in rows.values() if row.status not in TERMINAL]`
unfoldable pub pending_of : Dict String Execution → List String
pending_of [] = []
pending_of ((id, row) ∷ rows) =
    if is_terminal row.status then pending_of rows else row.execution_id ∷ pending_of rows

abbrev pub pending_ids : Store → List String
pending_ids s = pending_of s.rows

-- `run_lock`: entering, with whether it was acquired, and leaving.
unfoldable pub acquire : String → Store → Store × Bool
acquire id s =
    if any (λ x. x == id) s.active then (s, false) else (record s { active = id ∷ s.active }, true)

unfoldable pub release : String → Store → Store
release id s = record s { active = keep (λ x. not (x == id)) s.active }
