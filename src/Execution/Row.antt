-- ===== src/Execution/Row.antt =====
-- backend/internal_api/executions.py: one execution and the changes that `_mutate` applies to it.
-- A change returns the row as it leaves it, and what it returns to the caller. A time is a number;
-- the two readings of the clock that a change may take, for its test and for its write, are
-- arguments.
use paper_rag.Base.{
  ℕ, String, Bool, true, false, not, ◌&&◌, ◌||◌, Option, none, some, List, [], ◌∷◌, leb, ◌==◌,
  string_eq, option_eq, if◌then◌else◌,
}
use paper_rag.Base.Json.{Json}
use paper_rag.Execution.Codes.{ErrorCode, spec_for, model_timeout, cancelled_code}

pub data Status : Type 0 where
  queued running succeeded failed cancelled : Status

-- schemas.py, `TaskType`
pub data TaskType : Type 0 where
  plan_research search_papers screen_papers parse_paper index_paper read_paper : TaskType
  extract_knowledge compare_papers explore_gaps verify_evidence generate_report : TaskType

-- `cost` is only copied; its unit is the smallest that a caller uses.
pub record Usage : Type 0 where
  pub calls : ℕ
  pub tokens : ℕ
  pub cost : ℕ

pub record ErrorDetail : Type 0 where
  pub code : ErrorCode
  pub retryable : Bool
  pub detail : String
  pub trace_id : Option String

pub record ExecuteRequest : Type 0 where
  pub task_id : String
  pub task_type : TaskType
  pub idempotency_key : String
  pub deadline : ℕ
  pub run_id : Option String
  pub payload : Option Json
  pub inputs : Option Json
  pub config : Option Json
  pub budget : Option Json
  pub trace_id : Option String

pub record Execution : Type 0 where
  pub execution_id : String
  pub task_id : String
  pub task_type : TaskType
  pub idempotency_key : String
  pub status : Status
  pub deadline : ℕ
  pub created_at : ℕ
  pub updated_at : ℕ
  pub request_payload : Option Json
  pub run_id : Option String
  pub trace_id : Option String
  pub lease_token : Option String
  pub result : Option Json
  pub result_ref : Option String
  pub proposed_tasks : List Json
  pub evidence_candidates : List Json
  pub usage : Option Usage
  pub errors : List ErrorDetail

-- `status in TERMINAL`
abbrev pub is_terminal : Status → Bool
is_terminal queued = false
is_terminal running = false
is_terminal _ = true

abbrev pub is_queued : Status → Bool
is_queued queued = true
is_queued _ = false

abbrev pub is_running : Status → Bool
is_running running = true
is_running _ = false

abbrev pub is_cancelled : Status → Bool
is_cancelled cancelled = true
is_cancelled _ = false

-- `a or b` on an optional text: the empty text counts as absent.
abbrev pub or_text : Option String → Option String → Option String
or_text none b = b
or_text (some s) b = if s == "" then b else some s

-- `dump` is `req.model_dump(mode="json")`, `fresh` is `str(uuid.uuid4())`.
unfoldable pub new_execution : (ExecuteRequest → Json) → String → ℕ → ExecuteRequest → Execution
new_execution dump fresh now req = record {
  execution_id = fresh;
  task_id = req.task_id;
  task_type = req.task_type;
  idempotency_key = req.idempotency_key;
  status = queued;
  deadline = req.deadline;
  created_at = now;
  updated_at = now;
  request_payload = some (dump req);
  run_id = req.run_id;
  trace_id = req.trace_id;
  lease_token = none;
  result = none;
  result_ref = none;
  proposed_tasks = [];
  evidence_candidates = [];
  usage = none;
  errors = [];
}

unfoldable pub error : ErrorCode → String → Option String → ErrorDetail
unfolding spec_for
error code detail trace =
    let spec = spec_for code in
    record { code = spec.code; retryable = spec.retryable; detail = detail; trace_id = trace }

-- The readings of the clock in one change.
pub record Readings : Type 0 where
  pub check : ℕ
  pub write : ℕ

unfoldable pub fail_locked :
    Execution → ErrorCode → String → Option Usage → Option String → ℕ → Execution
fail_locked row code detail usage trace now = record row {
  status = failed;
  updated_at = now;
  usage = usage;
  errors = error code detail (or_text trace row.trace_id) ∷ [];
}

abbrev pub no_usage : Option Usage
no_usage = some (record { calls = 0; tokens = 0; cost = 0 })

abbrev pub Change : Type 0
Change = Execution → Execution × Option Execution

-- the `read` of `get`
unfoldable pub read_change : Readings → Change
unfolding fail_locked
read_change now row =
    let late = fail_locked row model_timeout "执行已超过 deadline" no_usage none now.write in
    if not (is_terminal row.status) && leb row.deadline now.check
    then (late, some late)
    else (row, some row)

-- the `change` of `start`
unfoldable pub start_change : Option String → Bool → Readings → Change
unfolding fail_locked
start_change lease recover now row =
    let late = fail_locked row model_timeout "deadline 已到，任务未起跑" no_usage none now.write in
    let begun = record row { status = running; lease_token = lease; updated_at = now.write } in
    if not (is_queued row.status) && not (recover && is_running row.status)
    then (row, none)
    else if leb row.deadline now.check
    then (late, none)
    else (begun, some begun)

-- The arguments of `succeed`.
pub record Success : Type 0 where
  pub result : Option Json
  pub result_ref : Option String
  pub proposed_tasks : List Json
  pub evidence_candidates : List Json
  pub usage : Option Usage
  pub lease_token : Option String

-- the `change` of `succeed`
unfoldable pub succeed_change : Success → Readings → Change
unfolding fail_locked
succeed_change s now row =
    let late = fail_locked row model_timeout "结果超过 deadline，已丢弃" s.usage none now.write in
    let done = record row {
      result = s.result;
      result_ref = s.result_ref;
      proposed_tasks = s.proposed_tasks;
      evidence_candidates = s.evidence_candidates;
      usage = s.usage;
      status = succeeded;
      updated_at = now.write;
    } in
    if is_cancelled row.status
    then (row, none)
    else if is_terminal row.status
    then (row, some row)
    else if not (is_running row.status) || not (row.lease_token == s.lease_token)
    then (row, none)
    else if leb row.deadline now.check
    then (late, some late)
    else (done, some done)

-- The arguments of `fail`.
pub record Failure : Type 0 where
  pub code : ErrorCode
  pub detail : String
  pub usage : Option Usage
  pub trace_id : Option String
  pub lease_token : Option String

abbrev pub is_some {ℓ} : {A : Type ℓ} → Option A → Bool
is_some none = false
is_some (some a) = true

-- the `change` of `fail`
unfoldable pub fail_change : Failure → Readings → Change
unfolding fail_locked
fail_change f now row =
    let gone = fail_locked row f.code f.detail f.usage f.trace_id now.write in
    if is_terminal row.status
    then (row, some row)
    else if is_some row.lease_token && not (row.lease_token == f.lease_token)
    then (row, none)
    else (gone, some gone)

-- the `change` of `cancel`
unfoldable pub cancel_change : Readings → Change
cancel_change now row =
    let stopped = record row {
      status = cancelled;
      updated_at = now.write;
      errors = error cancelled_code "任务被取消；过期结果将被丢弃" row.trace_id ∷ [];
    } in
    if not (is_terminal row.status) then (stopped, some stopped) else (row, some row)
