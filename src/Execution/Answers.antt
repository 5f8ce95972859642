-- ===== src/Execution/Answers.antt =====
-- What the endpoints answer.
use paper_rag.Base.{
  ℕ, String, ◌≡◌, refl, ap, ◌∙◌, true, false, Option, none, some, All, arith, string_eq, option_eq,
  pair_eq, inl, ok, false, inr, Option-cases, ==_iff,
}
use paper_rag.Base.Json.{Json}
use paper_rag.Base.Dict
use paper_rag.Base.Dict.{get-put_self}
use paper_rag.Execution.Codes.{spec_for}
use paper_rag.Execution.Row.{
  Status, queued, running, succeeded, failed, cancelled, Execution, ExecuteRequest, is_queued,
  new_execution, error,
}
use paper_rag.Execution.Store
use paper_rag.Execution.Store.{Store, StoreError, existing, key_of}
use paper_rag.Execution.Indexed.{IsIndexed, submitted}
use paper_rag.Execution.Calls.{submit_old, submit_new}
use paper_rag.Execution.Replay.{Names, existing_of_Names}
use paper_rag.Execution.WellFormed.{IsWellFormed, ExactlyOne}
use paper_rag.Execution.Runner
use paper_rag.Execution.Runner.{Handled, Handlers, Turn, Answer, registered}
use paper_rag.Execution.RunEnds.{At, Terminal, IsOther}
use paper_rag.Execution.RunOutcome.{MayStart, run_ends}
use paper_rag.Execution.Router
use paper_rag.Execution.Router.{
  Response, result_of, refused, pending, response_for, after_submit, or_row, matches_two,
  store_submit,
}

-- The answer that the contract wants in each status: a result with exactly one of its two forms; the
-- status of an execution that is under way; the HTTP code and the retry flag that the table of codes
-- has for the error.
abbrev pub Fits : Status → Response → Type 0
Fits succeeded (result_of b) = ExactlyOne b.result b.result_ref
Fits queued (pending s) = s ≡ queued
Fits running (pending s) = s ≡ running
Fits failed (refused http e) =
    (http ≡ (spec_for e.code).http) × (e.retryable ≡ (spec_for e.code).retryable)
Fits cancelled (refused http e) = (http ≡ 409) × (e.retryable ≡ false)
Fits _ _ = ⊥

-- A well-formed execution is answered as its status wants; in particular the answer's own model
-- never fails to validate.
pub response-Fits : (row : Execution) → IsWellFormed row → Fits row.status (response_for row)
unfolding response_for spec_for error
response-Fits row h = ground arith

-- The key and the task of a request do not name two different executions.
abbrev pub NamesOne : Store → ExecuteRequest → Type 0
NamesOne s req =
    (a b : String)
    → Dict.get (key_of req) s.by_idempotency ≡ some a
    → Dict.get req.task_id s.by_task_id ≡ some b
    → a ≡ b

names_one : (s : Store) (req : ExecuteRequest) → NamesOne s req → matches_two s req ≡ false
unfolding matches_two
names_one s req one = elim (Option-cases (Dict.get (key_of req) s.by_idempotency)) [
  | inl e ↦ rw (e, matches_two) refl
  | inr (a, e) ↦ elim (Option-cases (Dict.get req.task_id s.by_task_id)) [
    | inl f ↦ rw (e, matches_two) (rw f refl)
    | inr (b, f) ↦ rw (e, matches_two) (rw f (ground (arith, one a b e f, ==_iff a b)))
  ]
]

names_none : (s : Store) (req : ExecuteRequest) → existing s req ≡ none → NamesOne s req
unfolding existing
names_none s req e a b x y = absurd (ground (arith, e, x, y))

module _ (dump : ExecuteRequest → Json) (validate : Option Json → Option ExecuteRequest)
    (h : Handlers) where
  execute_known :
      (fresh : String) (now : ℕ) (t : Turn) (req : ExecuteRequest) (s : Store)
      (handler : ExecuteRequest → Handled)
      → registered h req.task_type ≡ some handler
      → Router.execute dump validate h fresh now t req s
        ≡ after_submit dump validate h t s (store_submit dump fresh now req s) req.trace_id
  unfolding Router.execute
  execute_known fresh now t req s handler e = rw (e, Router.execute)

  submit_alone :
      (fresh : String) (now : ℕ) (req : ExecuteRequest) (s : Store)
      → matches_two s req ≡ false
      → store_submit dump fresh now req s ≡ Store.submit dump fresh now req s
  unfolding store_submit
  submit_alone fresh now req s e = rw e refl

  after_ended :
      (t : Turn) (s : Store) (row : Execution) (trace : Option String)
      → Terminal row
      → after_submit dump validate h t s (ok (s, row, true)) trace ≡ ok (s, response_for row)
  unfolding after_submit
  after_ended t s row trace e = let q : is_queued row.status ≡ false = ground arith in rw q

  -- A request of a registered type names an execution that has ended, and its key and its task do not
  -- name two different executions. Then `execute` answers with that execution's outcome and changes
  -- nothing, whatever the handlers are: the work is not done twice.
  pub execute_replays :
      (fresh id : String) (now : ℕ) (t : Turn) (req : ExecuteRequest) (s : Store) (row : Execution)
      (handler : ExecuteRequest → Handled)
      → registered h req.task_type ≡ some handler
      → IsIndexed s
      → Dict.get id s.rows ≡ some row
      → Names s req row
      → NamesOne s req
      → Terminal row
      → Router.execute dump validate h fresh now t req s ≡ ok (s, response_for row)
  execute_replays fresh id now t req s row handler known i found names one ended =
      execute_known fresh now t req s handler known
      ∙ ap (λ r. after_submit dump validate h t s r req.trace_id)
          (submit_alone fresh now req s (names_one s req one)
            ∙ submit_old dump fresh now req s id row (existing_of_Names s req id row i found names)
                found)
      ∙ after_ended t s row req.trace_id ended

  or_row_ok :
      (row : Execution) (s : Store) (reply : Option Execution)
      → (r : Response) × (or_row dump validate h row (ok (s, reply)) ≡ ok (s, r))
  or_row_ok row s none = (response_for row, refl)
  or_row_ok row s (some r) = (response_for r, refl)

  after_new :
      (t : Turn) (s s' : Store) (row : Execution) (trace : Option String)
      → row.status ≡ queued
      → after_submit dump validate h t s (ok (s', row, false)) trace
        ≡ or_row dump validate h row (Runner.run dump validate h false row.execution_id t s')
  unfolding after_submit
  after_new t s s' row trace e = let q : is_queued row.status ≡ true = ground arith in rw q

  -- A request of a registered type that names no execution, when the lock of the new one is free:
  -- `execute` answers, and the execution that it has made has ended by then, while other threads
  -- submit, read, cancel and run others.
  pub execute_ends :
      (fresh : String) (now : ℕ) (t : Turn) (req : ExecuteRequest) (s : Store)
      (handler : ExecuteRequest → Handled)
      → registered h req.task_type ≡ some handler
      → existing s req ≡ none
      → t.acquired ≡ true
      → All (IsOther fresh) t.others_before
      → All (IsOther fresh) t.others_during
      → All (IsOther fresh) t.others_after
      → (s' : Store) × (r : Response) × (Router.execute dump validate h fresh now t req s
          ≡ ok (s', r))
        × At fresh Terminal s'
  execute_ends fresh now t req s handler known new lock b d a =
      let row = new_execution dump fresh now req in
      let s1 = submitted dump fresh now req s in
      let there : At fresh (MayStart false) s1 = record {
        row = row;
        found = get-put_self fresh row s.rows;
        holds = inl (unfold new_execution in refl);
      } in
      let end = run_ends dump validate h false fresh t b d a s1 lock there in
      let returned : Runner.run dump validate h false row.execution_id t s1
          ≡ ok (end.state, end.reply) =
        unfold new_execution in end.returns in
      let (r, answered) = or_row_ok row end.state end.reply in
      (
        end.state,
        r,
        execute_known fresh now t req s handler known
            ∙ ap (λ x. after_submit dump validate h t s x req.trace_id)
                (submit_alone fresh now req s (names_one s req (names_none s req new))
                  ∙ submit_new dump fresh now req s new)
            ∙ after_new t s s1 row req.trace_id (unfold new_execution in refl)
            ∙ ap (or_row dump validate h row) returned
            ∙ answered,
        end.row,
      )
