-- ===== src/Execution/Postgres.antt =====
-- backend/internal_api/postgres_executions.py: the production store over the table `ai_executions`.
-- The table's rows are kept by primary key in the order of insertion. An INSERT with ON CONFLICT DO
-- NOTHING is given the table's three unique keys (server/migrations/000002_ai_executions.up.sql).
-- One transaction is one step: the row is read FOR UPDATE.
use paper_rag.Base.{
  ℕ, String, ◌≡◌, Bool, true, false, ◌&&◌, ◌||◌, Option, none, some, List, [], ◌∷◌, map, ◌==◌,
  string_eq, option_eq, if◌then◌else◌, Result, ok, raise,
}
use mathlib.Core.Logic.{ite}
use paper_rag.Base.Dict
use paper_rag.Base.Dict.{Dict}
use paper_rag.Base.Json.{Json}
use paper_rag.Execution.Row.{
  Status, TaskType, Usage, ErrorDetail, Execution, ExecuteRequest, Change, new_execution,
}
use paper_rag.Execution.Store.{StoreError, value_error}

pub record Record : Type 0 where
  pub execution_id : String
  pub task_id : String
  pub task_type : TaskType
  pub idempotency_key : String
  pub status : Status
  pub deadline : ℕ
  pub created_at : ℕ
  pub updated_at : ℕ
  pub request_payload : Option Json
  pub run_id : String
  pub trace_id : String
  pub lease_token : String
  pub result : Option Json
  pub result_ref : Option String
  pub proposed_tasks : List Json
  pub evidence_candidates : List Json
  pub usage : Option Json
  pub errors : List Json

-- pydantic's `model_dump(mode="json")` and `model_validate` on two models of schemas.py: what has
-- been dumped validates to what it was.
pub record Codec : Type 0 where
  pub dump_usage : Usage → Json
  pub load_usage : Json → Usage
  pub dump_error : ErrorDetail → Json
  pub load_error : Json → ErrorDetail
  pub load-dump_usage : (u : Usage) → load_usage (dump_usage u) ≡ u
  pub load-dump_error : (e : ErrorDetail) → load_error (dump_error e) ≡ e

-- `values[field] or ""`, and back `values[field] or None`
abbrev pub or_empty : Option String → String
or_empty none = ""
or_empty (some s) = s

abbrev pub or_none : String → Option String
or_none s = if s == "" then none else some s

abbrev pub opt_map : {A B : Type 0} → (A → B) → Option A → Option B
opt_map f none = none
opt_map f (some a) = some (f a)

module _ (c : Codec) where
  unfoldable pub decode : Record → Execution
  decode r = record {
    execution_id = r.execution_id;
    task_id = r.task_id;
    task_type = r.task_type;
    idempotency_key = r.idempotency_key;
    status = r.status;
    deadline = r.deadline;
    created_at = r.created_at;
    updated_at = r.updated_at;
    request_payload = r.request_payload;
    run_id = or_none r.run_id;
    trace_id = or_none r.trace_id;
    lease_token = or_none r.lease_token;
    result = r.result;
    result_ref = r.result_ref;
    proposed_tasks = r.proposed_tasks;
    evidence_candidates = r.evidence_candidates;
    usage = opt_map c.load_usage r.usage;
    errors = map c.load_error r.errors;
  }

  unfoldable pub encode : Execution → Record
  encode row = record {
    execution_id = row.execution_id;
    task_id = row.task_id;
    task_type = row.task_type;
    idempotency_key = row.idempotency_key;
    status = row.status;
    deadline = row.deadline;
    created_at = row.created_at;
    updated_at = row.updated_at;
    request_payload = row.request_payload;
    run_id = or_empty row.run_id;
    trace_id = or_empty row.trace_id;
    lease_token = or_empty row.lease_token;
    result = row.result;
    result_ref = row.result_ref;
    proposed_tasks = row.proposed_tasks;
    evidence_candidates = row.evidence_candidates;
    usage = opt_map c.dump_usage row.usage;
    errors = map c.dump_error row.errors;
  }

  -- `after != before`
  module _ (dec : Discrete Record) where
    unfoldable pub mutate :
        String → Change → Dict String Record → Dict String Record × Option Execution
    mutate id change table = elim (Dict.get id table) [
      | none ↦ (table, none)
      | some found ↦
          let row = decode found in
          let before = encode row in
          let after = encode (change row).0 in
          (ite (dec after before) table (Dict.put id after table), (change row).1)
    ]

  -- The WHERE of the SELECT in `submit`; an inserted row conflicts on the same columns, or on its
  -- own identifier.
  abbrev pub matches : ExecuteRequest → Record → Bool
  matches req r =
      r.task_id == req.task_id
      || (r.run_id == or_empty req.run_id && r.idempotency_key == req.idempotency_key)

  unfoldable pub matching : ExecuteRequest → Dict String Record → List Record
  matching req [] = []
  matching req ((id, r) ∷ table) =
      if matches req r then r ∷ matching req table else matching req table

  -- `if len(existing) != 1: raise`
  abbrev pub only : List Record → Result StoreError Execution
  only [] = raise (value_error "task_id 与幂等键指向不同执行")
  only (r ∷ []) = ok (decode r)
  only (r ∷ r' ∷ rest) = raise (value_error "task_id 与幂等键指向不同执行")

  abbrev pub has_conflict : String → List Record → Dict String Record → Bool
  has_conflict fresh [] table = Dict.member fresh table
  has_conflict fresh (r ∷ rest) table = true

  abbrev pub replayed :
      Dict String Record
      → Result StoreError Execution
      → Result StoreError (Dict String Record × Execution × Bool)
  replayed table (ok row) = ok (table, row, true)
  replayed table (raise e) = raise e

  unfoldable pub submit :
      (ExecuteRequest → Json)
      → String
      → ℕ
      → ExecuteRequest
      → Dict String Record
      → Result StoreError (Dict String Record × Execution × Bool)
  unfolding matching
  submit dump fresh now req table =
      let inserted = encode (new_execution dump fresh now req) in
      let found = matching req table in
      if has_conflict fresh found table
      then replayed table (only found)
      else ok (Dict.put fresh inserted table, decode inserted, false)
