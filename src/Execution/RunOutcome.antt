-- ===== src/Execution/RunOutcome.antt =====
-- backend/internal_api/router.py: the outcomes of `_run`.
use paper_rag.Base.{
  String, ◌≡◌, refl, sym, subst, ap, ◌∙◌, Bool, true, Option, none, some, List, All, arith, ==_iff,
  string_eq, option_eq, Bool-cases, inl, inr, ◌⊎◌, ok,
}
use paper_rag.Base.Dict
use paper_rag.Base.Dict.{get-put_self}
use paper_rag.Base.Json.{Json}
use paper_rag.Execution.Row.{
  queued, running, Execution, ExecuteRequest, Readings, Success, Failure, is_terminal, read_change,
  start_change, succeed_change, fail_change,
}
use paper_rag.Execution.Ops.{read, start, succeed, fail, after, answer, change_of}
use paper_rag.Execution.Store
use paper_rag.Execution.Store.{Store, StoreError, mutate}
use paper_rag.Execution.Indexed.{mutate_found, with_row}
use paper_rag.Execution.Calls.{Call, perform_all}
use paper_rag.Execution.Runner
use paper_rag.Execution.Runner.{
  Answer, Handled, returned, task_error, crashed, Handlers, Outcome, Turn, registered,
}
use paper_rag.Execution.RunEnds.{
  At, Terminal, Calm, IsOther, mutate-At, mutate_none-At, perform_all-Calm,
}

-- The call returns, and the row under the identifier has the property.
pub record Leaves (id : String) (P : Execution → Type 0) (r : Answer) : Type 0 where
  pub state : Store
  pub reply : Option Execution
  pub returns : r ≡ ok (state, reply)
  pub row : At id P state

-- A row that runs under the lease, or has ended.
abbrev RunsUnder : String → Execution → Type 0
RunsUnder lease row = ((row.status ≡ running) × (row.lease_token ≡ some lease)) ⊎ Terminal row

Terminal-read : (now : Readings) (row : Execution) → Terminal row → Terminal (after read now row)
unfolding read_change
Terminal-read now row h = ground arith

fail_ends :
    (f : Failure) (now : Readings) (row : Execution)
    → (row.lease_token ≡ f.lease_token) ⊎ Terminal row
    → Terminal (after (fail f) now row)
unfolding fail_change
fail_ends f now row h = ground (arith, ==_iff row.lease_token f.lease_token)

succeed_ends :
    (r : Success) (lease : String) (now : Readings) (row : Execution)
    → r.lease_token ≡ some lease
    → RunsUnder lease row
    → Terminal (after (succeed r) now row)
unfolding succeed_change
succeed_ends r lease now row e h = ground (arith, ==_iff row.lease_token r.lease_token)

-- A row that may start comes to run under the lease, or ends.
abbrev pub MayStart : Bool → Execution → Type 0
MayStart recover row =
    (row.status ≡ queued) ⊎ ((recover ≡ true) × (row.status ≡ running)) ⊎ Terminal row

start_runs :
    (lease : String) (recover : Bool) (now : Readings) (row : Execution)
    → MayStart recover row
    → RunsUnder lease (after (start (some lease) recover) now row)
unfolding start_change
start_runs lease recover now row h = ground arith

start-none :
    (lease : String) (recover : Bool) (now : Readings) (row : Execution)
    → MayStart recover row
    → answer (start (some lease) recover) now row ≡ none
    → Terminal (after (start (some lease) recover) now row)
unfolding start_change
start-none lease recover now row h e = ground arith

read_keeps_start :
    (recover : Bool) (now : Readings) (row : Execution)
    → MayStart recover row
    → MayStart recover (after read now row)
unfolding read_change
read_keeps_start recover now row h = ground arith

read_answer : (now : Readings) (row : Execution) → answer read now row ≡ some (after read now row)
unfolding read_change
read_answer now row = ground arith

pub get_found :
    (id : String) (now : Readings) (s : Store) (row : Execution)
    → Dict.get id s.rows ≡ some row
    → Store.get id now s ≡ (with_row s id (after read now row), some (after read now row))
unfolding Store.get
get_found id now s row found =
    mutate_found id (change_of read now) s row found
    ∙ ap (λ (o : Option Execution). (with_row s id (after read now row), o)) (read_answer now row)

others-At :
    (id : String) (P : Execution → Type 0) (dump : ExecuteRequest → Json) (cs : List Call)
    (s : Store)
    → ((row : Execution) → Terminal row → P row)
    → All (IsOther id) cs
    → At id P s
    → At id P (perform_all dump cs s)
others-At id P dump cs s f o a =
    let start : At id (Calm a.row) s = record { row = a.row; found = a.found; holds = inl refl } in
    let b = perform_all-Calm id a.row dump cs s o start in
    record {
      row = b.row;
      found = b.found;
      holds = elim b.holds [ inl e ↦ subst P (sym e) a.holds | inr t ↦ f b.row t ];
    }

At-map :
    (id : String) (P Q : Execution → Type 0) (s : Store)
    → ((row : Execution) → P row → Q row)
    → At id P s
    → At id Q s
At-map id P Q s f a = record { row = a.row; found = a.found; holds = f a.row a.holds }

pub leaves :
    (id : String) (P : Execution → Type 0) (p : Store × Option Execution)
    → At id P p.0
    → Leaves id P (ok p)
leaves id P p a = record { state = p.0; reply = p.1; returns = refl; row = a }

module _ (dump : ExecuteRequest → Json) (validate : Option Json → Option ExecuteRequest)
    (h : Handlers) (recover : Bool) (id : String) (t : Turn)
    (before : All (IsOther id) t.others_before) (during : All (IsOther id) t.others_during)
    (after_run : All (IsOther id) t.others_after) where
  last_get-Leaves :
      (s : Store)
      → At id Terminal s
      → Leaves id Terminal (ok (Store.get id t.at_last (perform_all dump t.others_after s)))
  unfolding Store.get
  last_get-Leaves s a = leaves id Terminal _ (
      mutate-At id (change_of read t.at_last) _ (Terminal-read t.at_last)
        (others-At id Terminal dump t.others_after s (λ r x. x) after_run a))

  finish-Leaves :
      (p : Store × Option Execution)
      → At id Terminal p.0
      → Leaves id Terminal (Runner.finish dump validate h recover id t p)
  unfolding Runner.finish
  finish-Leaves (s, none) a = last_get-Leaves s a
  finish-Leaves (s, some row) a = leaves id Terminal (s, some row) a

  failed-Leaves :
      (f : Failure) (s : Store)
      → f.lease_token ≡ some t.lease
      → At id (RunsUnder t.lease) s
      → Leaves id Terminal (ok (Store.fail id f t.at_end s))
  unfolding Store.fail
  failed-Leaves f s e a = leaves id Terminal _ (
      mutate-At id (change_of (fail f) t.at_end) s
        (λ r x. fail_ends f t.at_end r (ground (arith, x, e))) a)

  run_handled-Leaves :
      (req : ExecuteRequest) (r : Handled) (s : Store)
      → At id (RunsUnder t.lease) s
      → Leaves id Terminal (Runner.run_handled dump validate h recover id t req r s)
  unfolding Runner.run_handled
  run_handled-Leaves req (task_error code detail) s a = failed-Leaves _ s refl a
  run_handled-Leaves req crashed s a = failed-Leaves _ s refl a
  run_handled-Leaves req (returned o) s a =
      unfold Store.succeed in
      finish-Leaves (mutate id (change_of (succeed (success o)) t.at_end) s) (
        mutate-At id (change_of (succeed (success o)) t.at_end) s
          (λ r x. succeed_ends (success o) t.lease t.at_end r refl x) a)
    where
      success : Outcome → Success
      success out = record {
        result = some out.result;
        result_ref = none;
        proposed_tasks = out.proposed_tasks;
        evidence_candidates = out.evidence_candidates;
        usage = some out.usage;
        lease_token = some t.lease;
      }

  run_spec-Leaves :
      (req : ExecuteRequest) (spec : Option (ExecuteRequest → Handled)) (s : Store)
      → At id (RunsUnder t.lease) s
      → Leaves id Terminal (Runner.run_spec dump validate h recover id t req spec s)
  unfolding Runner.run_spec
  run_spec-Leaves req none s a = failed-Leaves _ s refl a
  run_spec-Leaves req (some handler) s a = run_handled-Leaves req (handler req) s a

  run_started-Leaves :
      (req : ExecuteRequest) (p : Store × Option Execution)
      → At id (RunsUnder t.lease) p.0
      → (p.1 ≡ none → At id Terminal p.0)
      → Leaves id Terminal (Runner.run_started dump validate h recover id t req p)
  unfolding Runner.run_started
  run_started-Leaves req (s, none) a b = last_get-Leaves s (b refl)
  run_started-Leaves req (s, some row) a b =
      run_spec-Leaves req (registered h req.task_type) (perform_all dump t.others_during s)
        (others-At id (RunsUnder t.lease) dump t.others_during s (λ r x. inr x) during a)

  run_valid-Leaves :
      (current : Execution) (req : Option ExecuteRequest) (s : Store)
      → MayStart recover current
      → At id (Calm current) s
      → Leaves id Terminal (Runner.run_valid dump validate h recover id t current req s)
  unfolding Runner.run_valid Store.fail Store.start
  run_valid-Leaves current none s m a = leaves id Terminal _ (
      mutate-At id (change_of (fail _) t.at_end) s (λ r x. fail_ends _ t.at_end r (ground arith)) a)
  run_valid-Leaves current (some req) s m a =
      let may : At id (MayStart recover) s =
        At-map id (Calm current) (MayStart recover) s (λ r x. ground arith) a in
      run_started-Leaves req _
        (mutate-At id (change_of (start (some t.lease) recover) t.at_start) s
          (start_runs t.lease recover t.at_start) may)
        (mutate_none-At id (change_of (start (some t.lease) recover) t.at_start) s
          (start-none t.lease recover t.at_start) may)

  run_live-Leaves :
      (current : Execution) (s : Store)
      → MayStart recover current
      → At id (λ r. r ≡ current) s
      → Leaves id Terminal (Runner.run_live dump validate h recover id t current s)
  unfolding Runner.run_live
  run_live-Leaves current s m a = run_valid-Leaves current (validate current.request_payload) _ m (
      perform_all-Calm id current dump t.others_before s before
        (At-map id (λ r. r ≡ current) (Calm current) s (λ r e. inl e) a))

  run_locked-Leaves :
      (current : Execution) (s : Store)
      → MayStart recover current
      → At id (λ r. r ≡ current) s
      → Leaves id Terminal (Runner.run_locked dump validate h recover id t (s, some current))
  unfolding Runner.run_locked
  run_locked-Leaves current s m a = elim (Bool-cases (is_terminal current.status)) [
    | inl ended ↦ rw ended (
        leaves id Terminal (s, some current)
          (At-map id (λ r. r ≡ current) Terminal s (λ r e. ground arith) a))
    | inr live ↦ rw live (run_live-Leaves current s m a)
  ]

  -- The run lock is free and the execution is queued, or runs and is to be recovered, or has ended.
  -- Meanwhile other threads may submit, read and cancel, and run other executions. Then `_run`
  -- returns, and leaves the execution ended, whatever the handler does, the payload and the task
  -- type are.
  pub run_ends :
      (s : Store)
      → t.acquired ≡ true
      → At id (MayStart recover) s
      → Leaves id Terminal (Runner.run dump validate h recover id t s)
  unfolding Runner.run
  run_ends s lock a =
      let row = after read t.at_get a.row in
      let got = get_found id t.at_get s a.row a.found in
      subst (λ b. Leaves id Terminal (Runner.enter dump validate h recover id t b s)) (sym lock)
        (rw got (
          run_locked-Leaves row (with_row s id row)
            (read_keeps_start recover t.at_get a.row a.holds)
            (record { row = row; found = get-put_self id row s.rows; holds = refl })))
