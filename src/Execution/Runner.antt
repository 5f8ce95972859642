-- ===== src/Execution/Runner.antt =====
-- backend/internal_api/router.py, `_run` and `recover_executions`, over the store of executions, with
-- registry.py's table of handlers. What other threads do to the store between two calls of `_run` is
-- an explicit list of calls; the run lock is held by one thread at a time.
use paper_rag.Base.{
  String, Bool, true, false, Option, none, some, List, if◌then◌else◌, Result, ok, ◌>>=◌,
}
use paper_rag.Base.Json.{Json}
use paper_rag.Execution.Codes.{ErrorCode, invalid_payload, unsupported_task_type, internal}
use paper_rag.Execution.Row.{
  TaskType, parse_paper, index_paper, Usage, Execution, ExecuteRequest, Readings, Failure,
  is_terminal,
}
use paper_rag.Execution.Store
use paper_rag.Execution.Store.{Store, StoreError}
use paper_rag.Execution.Calls.{Call, perform_all}

-- registry.py: `Outcome`
pub record Outcome : Type 0 where
  pub result : Json
  pub proposed_tasks : List Json
  pub evidence_candidates : List Json
  pub usage : Usage

-- A handler returns, raises `TaskError`, or raises something else.
pub data Handled : Type 0 where
  returned : Outcome → Handled
  task_error : ErrorCode → String → Handled
  crashed : Handled

pub record Handlers : Type 0 where
  pub parse : ExecuteRequest → Handled
  pub index : ExecuteRequest → Handled

-- `REGISTRY.get(task_type)`
unfoldable pub registered : Handlers → TaskType → Option (ExecuteRequest → Handled)
registered h parse_paper = some h.parse
registered h index_paper = some h.index
registered h _ = none

-- What one run meets: the lock, its new lease, the clock at each call, and what the other threads do
-- before `start`, while the handler works, and before a last `get`.
pub record Turn : Type 0 where
  pub acquired : Bool
  pub lease : String
  pub at_get : Readings
  pub at_start : Readings
  pub at_end : Readings
  pub at_last : Readings
  pub others_before : List Call
  pub others_during : List Call
  pub others_after : List Call

abbrev pub Answer : Type 0
Answer = Result StoreError (Store × Option Execution)

module _ (dump : ExecuteRequest → Json) (validate : Option Json → Option ExecuteRequest)
    (h : Handlers) (recover : Bool) (id : String) (t : Turn) where
  -- `finished if finished is not None else store.get(execution_id)`
  unfoldable pub finish : Store × Option Execution → Answer
  finish (s, some row) = ok (s, some row)
  finish (s, none) = ok (Store.get id t.at_last (perform_all dump t.others_after s))

  abbrev pub failure : ErrorCode → String → Option String → Option String → Failure
  failure code detail trace lease = record {
    code = code;
    detail = detail;
    usage = none;
    trace_id = trace;
    lease_token = lease;
  }

  -- after the handler
  unfoldable pub run_handled : ExecuteRequest → Handled → Store → Answer
  unfolding finish
  run_handled req (task_error code detail) s =
      ok (Store.fail id (failure code detail req.trace_id (some t.lease)) t.at_end s)
  run_handled req crashed s = ok (
      Store.fail id (failure internal "内部执行失败，请按 trace_id 查询日志" req.trace_id (some t.lease))
        t.at_end s)
  run_handled req (returned o) s =
      Store.succeed id
        (record {
          result = some o.result;
          result_ref = none;
          proposed_tasks = o.proposed_tasks;
          evidence_candidates = o.evidence_candidates;
          usage = some o.usage;
          lease_token = some t.lease;
        })
        t.at_end s
      >>= finish

  -- with what the registry gave
  unfoldable pub run_spec : ExecuteRequest → Option (ExecuteRequest → Handled) → Store → Answer
  unfolding run_handled
  run_spec req none s = ok (
      Store.fail id (failure unsupported_task_type "任务类型未注册" req.trace_id (some t.lease)) t.at_end
        s)
  run_spec req (some handler) s = run_handled req (handler req) s

  -- after `start`
  unfoldable pub run_started : ExecuteRequest → Store × Option Execution → Answer
  unfolding run_spec
  run_started req (s, none) = ok (Store.get id t.at_last (perform_all dump t.others_after s))
  run_started req (s, some _) =
      run_spec req (registered h req.task_type) (perform_all dump t.others_during s)

  -- with the request that the stored payload validates to
  unfoldable pub run_valid : Execution → Option ExecuteRequest → Store → Answer
  unfolding run_started
  run_valid current none s = ok (
      Store.fail id (failure invalid_payload "执行缺少有效的恢复输入，请重新提交新任务" none current.lease_token)
        t.at_end s)
  run_valid current (some req) s =
      run_started req (Store.start id (some t.lease) recover t.at_start s)

  -- after the first `get`, on a row that has not ended
  unfoldable pub run_live : Execution → Store → Answer
  unfolding run_valid
  run_live current s =
      run_valid current (validate current.request_payload) (perform_all dump t.others_before s)

  unfoldable pub run_locked : Store × Option Execution → Answer
  unfolding run_live
  run_locked (s, none) = ok (s, none)
  run_locked (s, some current) =
      if is_terminal current.status then ok (s, some current) else run_live current s

  -- under the lock, or without it
  unfoldable pub enter : Bool → Store → Answer
  unfolding run_locked
  enter true s = run_locked (Store.get id t.at_get s)
  enter false s = ok (Store.get id t.at_get s)

  unfoldable pub run : Store → Answer
  unfolding enter
  run s = enter t.acquired s
