-- ===== src/Execution/Router.antt =====
-- backend/internal_api/router.py: the endpoints of `/internal/v1/ai`, and the answers they give.
use Prim.Native.String.{◌++◌}
use paper_rag.Base.{
  ℕ, suc, String, Bool, true, false, Option, none, some, List, [], ◌∷◌, if◌then◌else◌, Result, ok,
  raise, not, ◌==◌, string_eq, option_eq, pair_eq,
}
use paper_rag.Base.Dict
use paper_rag.Base.Json.{Json}
use paper_rag.Execution.Codes.{
  ErrorCode, spec_for, invalid_payload, unsupported_task_type, internal,
}
use paper_rag.Execution.Row.{
  TaskType, plan_research, search_papers, screen_papers, parse_paper, index_paper, read_paper,
  extract_knowledge, compare_papers, explore_gaps, verify_evidence, generate_report, Status, queued,
  running, succeeded, Usage, ErrorDetail, Execution, ExecuteRequest, Readings, error, is_queued,
  is_some, is_terminal,
}
use paper_rag.Execution.Store
use paper_rag.Execution.Store.{Store, StoreError, key_error, value_error}
use paper_rag.Execution.Runner.{Handlers, Turn, registered, run, Answer}

pub record StatusBody : Type 0 where
  pub execution_id : String
  pub status : Status
  pub usage : Option Usage
  pub errors : Option (List ErrorDetail)
  pub updated_at : ℕ

pub record ResultBody : Type 0 where
  pub execution_id : String
  pub status : Status
  pub result : Option Json
  pub result_ref : Option String
  pub proposed_tasks : Option (List Json)
  pub evidence_candidates : Option (List Json)
  pub usage : Option Usage
  pub errors : Option (List ErrorDetail)

-- `invalid` is the error of a response model that does not validate: the server answers 500.
pub data Response : Type 0 where
  status_of : StatusBody → Response
  result_of : ResultBody → Response
  submitted : String → Status → Bool → Response
  refused : ℕ → ErrorDetail → Response
  pending : Status → Response
  not_found : Response
  invalid : Response

-- `rows or None`
abbrev pub or_absent : {A : Type 0} → List A → Option (List A)
or_absent [] = none
or_absent (x ∷ xs) = some (x ∷ xs)

unfoldable pub error_response : ErrorCode → String → Option String → Response
unfolding spec_for error
error_response code detail trace = refused (spec_for code).http (error code detail trace)

unfoldable pub status_response : Execution → Response
status_response row = status_of (record {
  execution_id = row.execution_id;
  status = row.status;
  usage = row.usage;
  errors = or_absent row.errors;
  updated_at = row.updated_at;
})

-- schemas.py, `ResultResponse`: exactly one of `result` and `result_ref`
unfoldable pub result_response : Execution → Response
result_response row =
    let body = result_of (record {
      execution_id = row.execution_id;
      status = row.status;
      result = row.result;
      result_ref = row.result_ref;
      proposed_tasks = or_absent row.proposed_tasks;
      evidence_candidates = or_absent row.evidence_candidates;
      usage = row.usage;
      errors = or_absent row.errors;
    }) in
    if is_some row.result
    then (if is_some row.result_ref then invalid else body)
    else (if is_some row.result_ref then body else invalid)

-- `row.errors[0] if row.errors else _error("INTERNAL", …)`
unfoldable pub first_error : List ErrorDetail → Option String → ErrorDetail
unfolding error spec_for
first_error [] trace = error internal "执行失败且未记录错误码" trace
first_error (e ∷ es) trace = e

unfoldable pub terminal_failure_response : Execution → Response
unfolding first_error error_response
terminal_failure_response row =
    let first = first_error row.errors row.trace_id in
    error_response first.code first.detail first.trace_id

-- the tests of `_response_for`, in the order of the statuses
unfoldable pub response_by : Status → Execution → Response
unfolding result_response terminal_failure_response
response_by succeeded row = result_response row
response_by queued row = pending row.status
response_by running row = pending row.status
response_by _ row = terminal_failure_response row

unfoldable pub response_for : Execution → Response
unfolding response_by
response_for row = response_by row.status row

abbrev pub found_or : (Execution → Response) → Option Execution → Response
found_or f none = not_found
found_or f (some row) = f row

-- GET /executions/{id}, GET /executions/{id}/result and POST /executions/{id}/cancel
unfoldable pub get_status : String → Readings → Store → Store × Response
unfolding status_response
get_status id now s = let (s', o) = Store.get id now s in (s', found_or status_response o)

unfoldable pub get_result : String → Readings → Store → Store × Response
unfolding response_for
get_result id now s = let (s', o) = Store.get id now s in (s', found_or response_for o)

unfoldable pub cancel : String → Readings → Store → Store × Response
unfolding status_response
cancel id now s = let (s', o) = Store.cancel id now s in (s', found_or status_response o)

-- The value of a `TaskType`.
unfoldable pub type_name : TaskType → String
type_name plan_research = "PLAN_RESEARCH"
type_name search_papers = "SEARCH_PAPERS"
type_name screen_papers = "SCREEN_PAPERS"
type_name parse_paper = "PARSE_PAPER"
type_name index_paper = "INDEX_PAPER"
type_name read_paper = "READ_PAPER"
type_name extract_knowledge = "EXTRACT_KNOWLEDGE"
type_name compare_papers = "COMPARE_PAPERS"
type_name explore_gaps = "EXPLORE_GAPS"
type_name verify_evidence = "VERIFY_EVIDENCE"
type_name generate_report = "GENERATE_REPORT"

abbrev pub unregistered : TaskType → String
unregistered type = "未注册的任务类型：" ++ type_name type

-- The store of router.py is `PostgresExecutionStore`. A request whose key and whose task match two
-- different rows is an error there; on others its `submit` does what the store in memory does, but that
-- the table writes a missing run as the empty text and so does not tell the two apart.
unfoldable pub matches_two : Store → ExecuteRequest → Bool
matches_two s req = elim (Dict.get (Store.key_of req) s.by_idempotency) [
  | none ↦ false
  | some a ↦ elim (Dict.get req.task_id s.by_task_id) [ none ↦ false | some b ↦ not (a == b) ]
]

unfoldable pub store_submit :
    (ExecuteRequest → Json)
    → String
    → ℕ
    → ExecuteRequest
    → Store
    → Result StoreError (Store × Execution × Bool)
unfolding matches_two Store.submit
store_submit dump fresh now req s =
    let row = Store.submit dump fresh now req s in
    if matches_two s req then raise (value_error "task_id 与幂等键指向不同执行") else row

module _ (dump : ExecuteRequest → Json) (validate : Option Json → Option ExecuteRequest)
    (h : Handlers) where
  -- `_run(row.execution_id, req) or row`
  abbrev pub or_row : Execution → Answer → Result StoreError (Store × Response)
  or_row row (ok (s, none)) = ok (s, response_for row)
  or_row row (ok (s, some r)) = ok (s, response_for r)
  or_row row (raise e) = raise e

  unfoldable pub after_submit :
      Turn
      → Store
      → Result StoreError (Store × Execution × Bool)
      → Option String
      → Result StoreError (Store × Response)
  unfolding response_for error_response
  after_submit t s (raise key_error) trace = raise key_error
  after_submit t s (raise (value_error m)) trace = ok (s, error_response invalid_payload m trace)
  after_submit t s (ok (s', row, replayed)) trace =
      if is_queued row.status
      then or_row row (run dump validate h false row.execution_id t s')
      else ok (s', response_for row)

  -- POST /execute
  unfoldable pub execute :
      String → ℕ → Turn → ExecuteRequest → Store → Result StoreError (Store × Response)
  unfolding after_submit error_response store_submit
  execute fresh now t req s = elim (registered h req.task_type) [
    | none ↦ ok (s, error_response unsupported_task_type (unregistered req.task_type) req.trace_id)
    | some handler ↦ after_submit t s (store_submit dump fresh now req s) req.trace_id
  ]

  abbrev pub after_enqueue :
      Store
      → Result StoreError (Store × Execution × Bool)
      → Option String
      → Result StoreError (Store × Response × List String)
  after_enqueue s (raise key_error) trace = raise key_error
  after_enqueue s (raise (value_error m)) trace = ok (s, error_response invalid_payload m trace, [])
  after_enqueue s (ok (s', row, replayed)) trace = ok (
    s',
    submitted row.execution_id row.status replayed,
    (if is_queued row.status then row.execution_id ∷ [] else []),
  )

  -- POST /executions: the answer, and the identifiers of the runs left to the background
  unfoldable pub submit :
      String → ℕ → ExecuteRequest → Store → Result StoreError (Store × Response × List String)
  unfolding error_response store_submit
  submit fresh now req s = elim (registered h req.task_type) [
    | none ↦
        ok (s, error_response unsupported_task_type (unregistered req.task_type) req.trace_id, [])
    | some handler ↦ after_enqueue s (store_submit dump fresh now req s) req.trace_id
  ]

  -- `recover_executions`: a run of each pending execution in turn, and how many had ended
  unfoldable pub recover_each : List (String × Turn) → Store → ℕ → Result StoreError (Store × ℕ)
  recover_each [] s n = ok (s, n)
  recover_each ((id, t) ∷ turns) s n = elim (run dump validate h true id t s) [
    | raise e ↦ raise e
    | ok (s', none) ↦ recover_each turns s' n
    | ok (s', some row) ↦ recover_each turns s' (if is_terminal row.status then suc n else n)
  ]
