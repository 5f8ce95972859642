-- ===== src/Execution/Ops.antt =====
-- The changes of executions.py as one type, and a sequence of them: what any number of callers do to
-- one row, in the order in which the store's lock lets them.
use paper_rag.Base.{String, Bool, Option, List, [], ◌∷◌}
use paper_rag.Execution.Row.{
  Execution, Readings, Change, Success, Failure, read_change, start_change, succeed_change,
  fail_change, cancel_change,
}

pub data Op : Type 0 where
  read : Op
  start : Option String → Bool → Op
  succeed : Success → Op
  fail : Failure → Op
  cancel : Op

abbrev pub change_of : Op → Readings → Change
change_of read = read_change
change_of (start lease recover) = start_change lease recover
change_of (succeed s) = succeed_change s
change_of (fail f) = fail_change f
change_of cancel = cancel_change

abbrev pub after : Op → Readings → Execution → Execution
after op now row = (change_of op now row).0

abbrev pub answer : Op → Readings → Execution → Option Execution
answer op now row = (change_of op now row).1

unfoldable pub run_ops : List (Op × Readings) → Execution → Execution
run_ops [] row = row
run_ops ((op, now) ∷ ops) row = run_ops ops (after op now row)
