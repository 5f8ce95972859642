-- ===== src/Execution/Tests.antt =====
-- Concrete runs of the execution surface, and the theorems at inputs that meet their hypotheses.
use paper_rag.Base.{
  ◌<◌, String, ◌≡◌, ◌≢◌, refl, true, false, Option, none, some, [], ◌∷◌, arith, string_eq,
  option_eq, pair_eq, inl, inr, ok,
}
use text.Mathlib.TextEquality.{eq_iff}
use paper_rag.Base.Dict
use paper_rag.Base.Dict.{get-put_self}
use paper_rag.Base.Json.{Json, null}
use paper_rag.Execution.Codes.{cancelled_code, spec_for}
use paper_rag.Execution.Row.{
  queued, running, cancelled, succeeded, parse_paper, Execution, ExecuteRequest, Readings, Success,
  Failure, new_execution, error, read_change, start_change, cancel_change, succeed_change,
  fail_change, fail_locked,
}
use paper_rag.Execution.Ops.{read, succeed, fail, cancel, after, answer, run_ops}
use paper_rag.Execution.Store
use paper_rag.Execution.Store.{Store, existing}
use paper_rag.Execution.Indexed.{
  IsIndexed, IsIndexed-empty, SameIdentity, submitted-IsIndexed, mutate-IsIndexed,
}
use paper_rag.Execution.Calls.{submit_call, op_call, perform_all}
use paper_rag.Execution.Runner
use paper_rag.Execution.Runner.{Handlers, Handled, returned, crashed, Turn, registered}
use paper_rag.Execution.Router.{Response, execute, response_for}
use paper_rag.Execution.Answers.{NamesOne, execute_ends, execute_replays, response-Fits, Fits}
use paper_rag.Execution.Replay.{submit_replays, one_execution}
use paper_rag.Execution.RunEnds.{At, Terminal}
use paper_rag.Execution.RunOutcome.{Leaves, run_ends}
use paper_rag.Execution.Overtaken.{overtaken_run, run_ended}
use paper_rag.Execution.Lifecycle.{cancel_discards, lease_fences, deadline_respected}
use paper_rag.Execution.WellFormed.{IsWellFormed, after-IsWellFormed}

abbrev now0 : Readings
now0 = record { check = 5; write = 6 }

abbrev late : Readings
late = record { check = 500; write = 501 }

abbrev req : ExecuteRequest
req = record {
  task_id = "t1";
  task_type = parse_paper;
  idempotency_key = "r1:PARSE_PAPER:a.pdf";
  deadline = 100;
  run_id = some "r1";
  payload = some null;
  inputs = none;
  config = none;
  budget = none;
  trace_id = none;
}

abbrev dump : ExecuteRequest → Json
dump r = null

abbrev validate : Option Json → Option ExecuteRequest
validate p = some req

abbrev outcome : Runner.Outcome
outcome = record {
  result = null;
  proposed_tasks = [];
  evidence_candidates = [];
  usage = record { calls = 1; tokens = 2; cost = 3 };
}

abbrev handlers : Handlers
handlers = record { parse = λ r. returned outcome; index = λ r. crashed }

abbrev turn : Turn
turn = record {
  acquired = true;
  lease = "lease";
  at_get = now0;
  at_start = now0;
  at_end = now0;
  at_last = now0;
  others_before = op_call "e1" read now0 ∷ [];
  others_during = [];
  others_after = [];
}

program : Unit {0}
unfolding execute paper_rag.Execution.Router.store_submit paper_rag.Execution.Router.matches_two
    Store.submit existing new_execution Store.get Store.start Store.succeed Store.fail Store.mutate
    Dict.get Dict.put Runner.run Runner.finish registered read_change start_change succeed_change
    fail_change cancel_change perform_all response_for run_ops error spec_for fail_locked
program = tt

abbrev fresh_row : Execution
fresh_row = record {
  execution_id = "e1";
  task_id = "t1";
  task_type = parse_paper;
  idempotency_key = "r1:PARSE_PAPER:a.pdf";
  status = queued;
  deadline = 100;
  created_at = 3;
  updated_at = 3;
  request_payload = some null;
  run_id = some "r1";
  trace_id = none;
  lease_token = none;
  result = none;
  result_ref = none;
  proposed_tasks = [];
  evidence_candidates = [];
  usage = none;
  errors = [];
}

abbrev one : Store
one = record {
  rows = ("e1", fresh_row) ∷ [];
  by_idempotency = ((some "r1", "r1:PARSE_PAPER:a.pdf"), "e1") ∷ [];
  by_task_id = ("t1", "e1") ∷ [];
  active = [];
}

abbrev busy_row : Execution
busy_row = record fresh_row { status = running; lease_token = some "lease" }

abbrev gone_row : Execution
gone_row = record fresh_row {
  status = cancelled;
  updated_at = 6;
  errors =
      record {
        code = cancelled_code;
        retryable = false;
        detail = "任务被取消；过期结果将被丢弃";
        trace_id = none;
      }
      ∷ [];
}

abbrev gone : Store
gone = record one { rows = ("e1", gone_row) ∷ [] }

abbrev success : Option String → Success
success lease = record {
  result = some null;
  result_ref = none;
  proposed_tasks = [];
  evidence_candidates = [];
  usage = none;
  lease_token = lease;
}

abbrev failure : Option String → Failure
failure lease = record {
  code = cancelled_code;
  detail = "x";
  usage = none;
  trace_id = none;
  lease_token = lease;
}

-- A new request is carried out, and its result is the answer.
execute_new :
    (s : Store) × (execute dump validate handlers "e1" 3 turn req Store.empty
      ≡ ok (
        s,
        response_for (record busy_row {
          status = succeeded;
          updated_at = 6;
          result = some null;
          usage = some (record { calls = 1; tokens = 2; cost = 3 });
        }),
      ))
unfolding program
execute_new = (_, refl)

e1_ne_empty : ◌≢◌ {A = String} "e1" ""
e1_ne_empty = ground (arith, eq_iff "e1" "")

e2_ne_e1 : ◌≢◌ {A = String} "e2" "e1"
e2_ne_e1 = ground (arith, eq_iff "e2" "e1")

nothing_there : Dict.get {K = String} {V = Execution} "e1" [] ≡ none
unfolding Dict.get
nothing_there = refl

nothing_known : existing Store.empty req ≡ none
unfolding existing Dict.get
nothing_known = refl

one-IsIndexed : IsIndexed one
unfolding new_execution Dict.put
one-IsIndexed =
    submitted-IsIndexed dump "e1" 3 req Store.empty IsIndexed-empty e1_ne_empty nothing_there
      nothing_known

one_row : Dict.get "e1" one.rows ≡ some fresh_row
unfolding Dict.get
one_row = refl

execute_ends_example :
    (s : Store) × (r : Response) × (execute dump validate handlers "e1" 3 turn req Store.empty
      ≡ ok (s, r))
    × At "e1" Terminal s
execute_ends_example =
    execute_ends dump validate handlers "e1" 3 turn req Store.empty handlers.parse
      (unfold registered in refl) nothing_known refl (tt, tt) tt tt

submit_replays_example :
    (row' : Execution) × (Store.submit dump "e2" 9 req
        (perform_all dump (op_call "e1" cancel now0 ∷ []) one)
      ≡ ok (perform_all dump (op_call "e1" cancel now0 ∷ []) one, row', true))
    × SameIdentity row' fresh_row
submit_replays_example =
    submit_replays dump one "e1" fresh_row (op_call "e1" cancel now0 ∷ []) "e2" 9 req one-IsIndexed
      one_row (tt, tt) (inl refl)

gone-IsIndexed : IsIndexed gone
unfolding Dict.get Dict.put Store.mutate cancel_change error spec_for
gone-IsIndexed = mutate-IsIndexed "e1" cancel now0 one one-IsIndexed

gone_row_there : Dict.get "e1" gone.rows ≡ some gone_row
unfolding Dict.get
gone_row_there = refl

gone-NamesOne : NamesOne gone req
unfolding Dict.get
gone-NamesOne a b x y = ground (arith, x, y)

execute_replays_example :
    execute dump validate handlers "e2" 9 turn req gone ≡ ok (gone, response_for gone_row)
execute_replays_example =
    execute_replays dump validate handlers "e2" "e1" 9 turn req gone gone_row handlers.parse
      (unfold registered in refl) gone-IsIndexed gone_row_there (inl refl) gone-NamesOne refl

run_ends_example : Leaves "e1" Terminal (Runner.run dump validate handlers false "e1" turn one)
run_ends_example =
    run_ends dump validate handlers false "e1" turn (tt, tt) tt tt one refl
      (record { row = fresh_row; found = one_row; holds = inl refl })

overtaken_run_example :
    Leaves "e1"
      (λ r. r ≡ gone_row)
      (Runner.run_handled dump validate handlers false "e1" turn req (returned outcome) gone)
overtaken_run_example =
    overtaken_run "e1" gone_row refl dump validate handlers false turn tt req (returned outcome)
      gone (record { row = gone_row; found = gone_row_there; holds = refl })

run_ended_example :
    Runner.run dump validate handlers false "e1" turn gone ≡ ok (gone, some gone_row)
unfolding Dict.put
run_ended_example =
    run_ended "e1" gone_row refl dump validate handlers false turn tt gone gone_row_there

one_execution_example : (◌≡◌ {A = String} "e1" "e1") × (fresh_row ≡ fresh_row)
unfolding perform_all Store.submit existing new_execution Dict.get Dict.put
one_execution_example =
    one_execution dump (submit_call "e1" 3 req ∷ []) "e1" "e1" fresh_row fresh_row
      ((e1_ne_empty, refl), tt) refl refl (inl refl)

cancel_discards_example :
    (run_ops ((read, late) ∷ []) (after cancel now0 busy_row) ≡ after cancel now0 busy_row)
    × ((after cancel now0 busy_row).status ≡ cancelled)
    × (answer
          (succeed (success (some "lease")))
          now0
          (run_ops ((read, late) ∷ []) (after cancel now0 busy_row))
        ≡ none)
cancel_discards_example =
    cancel_discards busy_row now0 ((read, late) ∷ []) (success (some "lease")) now0 refl

lease_fences_example :
    (after (succeed (success (some "old"))) now0 busy_row ≡ busy_row)
    × (after (fail (failure none)) now0 busy_row ≡ busy_row)
lease_fences_example =
    lease_fences busy_row (success (some "old")) (failure none) now0 "lease" refl
      (λ e. ground (arith, eq_iff "old" "lease")) (λ e. cc)

deadline_respected_example : now0.check < busy_row.deadline
unfolding succeed_change
deadline_respected_example =
    deadline_respected (succeed (success (some "lease"))) now0 busy_row (λ e. cc) (inr refl)

fresh-IsWellFormed : IsWellFormed fresh_row
fresh-IsWellFormed = ground arith

after-IsWellFormed_example : IsWellFormed (after cancel now0 fresh_row)
after-IsWellFormed_example = after-IsWellFormed cancel now0 fresh_row tt fresh-IsWellFormed

gone-IsWellFormed : IsWellFormed gone_row
gone-IsWellFormed = ground arith

response-Fits_example : Fits gone_row.status (response_for gone_row)
response-Fits_example = response-Fits gone_row gone-IsWellFormed
