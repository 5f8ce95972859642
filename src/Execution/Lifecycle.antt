-- ===== src/Execution/Lifecycle.antt =====
-- The states of an execution: which status follows which, what is final, deadlines and leases.
use paper_rag.Base.{
  ◌≤◌, ◌<◌, String, ◌≡◌, ◌≢◌, refl, ◌⊎◌, true, false, none, some, List, [], ◌∷◌, arith, ==_iff,
  string_eq, option_eq,
}
use paper_rag.Execution.Row.{
  Status, queued, running, succeeded, failed, cancelled, Execution, Readings, Success, Failure,
  is_terminal, read_change, start_change, succeed_change, fail_change, cancel_change, fail_locked,
}
use paper_rag.Execution.Ops.{Op, read, start, succeed, fail, cancel, after, answer, run_ops}

pub data Follows : Status → Status → Type 0 where
  stay : {s : Status} → Follows s s
  begin : Follows queued running
  expire_queued : Follows queued failed
  cancel_queued : Follows queued cancelled
  finish : Follows running succeeded
  break : Follows running failed
  cancel_running : Follows running cancelled

ruleset edges = (stay, begin, expire_queued, cancel_queued, finish, break, cancel_running)

-- Every change of a row follows an edge of the diagram.
pub after-Follows :
    (op : Op) (now : Readings) (row : Execution) → Follows row.status (after op now row).status
unfolding read_change start_change succeed_change fail_change cancel_change
after-Follows read now row = grind (arith, edges)
after-Follows (start lease recover) now row = grind (arith, edges)
after-Follows (succeed s) now row = grind (arith, edges)
after-Follows (fail f) now row = grind (arith, edges)
after-Follows cancel now row = grind (arith, edges)

-- A change leaves a terminal row as it is, whole.
pub after_terminal :
    (op : Op) (now : Readings) (row : Execution)
    → is_terminal row.status ≡ true
    → after op now row ≡ row
unfolding read_change start_change succeed_change fail_change cancel_change
after_terminal read now row h = ground arith
after_terminal (start lease recover) now row h = ground arith
after_terminal (succeed s) now row h = ground arith
after_terminal (fail f) now row h = ground arith
after_terminal cancel now row h = ground arith

-- Once a row is terminal, no sequence of changes alters it.
pub run_ops_terminal :
    (ops : List (Op × Readings)) (row : Execution)
    → is_terminal row.status ≡ true
    → run_ops ops row ≡ row
unfolding run_ops
run_ops_terminal [] row h = refl
run_ops_terminal ((op, now) ∷ ops) row h =
    rw (after_terminal op now row h) (run_ops_terminal ops row h)

-- After a cancellation of a row that had not ended, whatever follows, the row stays cancelled and
-- unchanged, and a result that arrives is answered with nothing.
pub cancel_discards :
    (row : Execution) (at_cancel : Readings) (ops : List (Op × Readings)) (s : Success)
    (now : Readings)
    → is_terminal row.status ≡ false
    → (run_ops ops (after cancel at_cancel row) ≡ after cancel at_cancel row)
      × ((after cancel at_cancel row).status ≡ cancelled)
      × (answer (succeed s) now (run_ops ops (after cancel at_cancel row)) ≡ none)
unfolding cancel_change succeed_change
cancel_discards row at_cancel ops s now h =
    let stopped = after cancel at_cancel row in
    let is_cancelled : stopped.status ≡ cancelled = ground arith in
    let kept = run_ops_terminal ops stopped (ground arith) in
    (kept, is_cancelled, rw kept (ground arith))

-- A result or a failure under another lease than the row's changes nothing. The holder of a lease
-- that a recovery has replaced is shut out.
pub lease_fences :
    (row : Execution) (s : Success) (f : Failure) (now : Readings) (lease : String)
    → row.lease_token ≡ some lease
    → s.lease_token ≢ some lease
    → f.lease_token ≢ some lease
    → (after (succeed s) now row ≡ row) × (after (fail f) now row ≡ row)
unfolding succeed_change fail_change
lease_fences row s f now lease e hs hf = (
  ground (arith, ==_iff row.lease_token s.lease_token),
  ground (arith, ==_iff row.lease_token f.lease_token),
)

-- A change moves a row to `running` or to `succeeded` only while its deadline lies ahead.
pub deadline_respected :
    (op : Op) (now : Readings) (row : Execution)
    → row.status ≢ (after op now row).status
    → ((after op now row).status ≡ running) ⊎ ((after op now row).status ≡ succeeded)
    → now.check < row.deadline
unfolding read_change start_change succeed_change fail_change cancel_change
deadline_respected read now row = ground arith
deadline_respected (start lease recover) now row = ground arith
deadline_respected (succeed s) now row = ground arith
deadline_respected (fail f) now row = ground arith
deadline_respected cancel now row = ground arith

-- Past the deadline a read ends the row: what `get` returns is terminal.
pub read_expires :
    (now : Readings) (row : Execution)
    → row.deadline ≤ now.check
    → is_terminal (after read now row).status ≡ true
unfolding read_change fail_locked
read_expires now row h = ground arith
