-- ===== src/Execution/Overtaken.antt =====
-- backend/internal_api/router.py: runs whose execution another caller has ended.
use paper_rag.Base.{
  String, ◌≡◌, ◌≢◌, sym, ap, ◌∙◌, subst, Bool, true, false, Option, none, some, List, [], ◌∷◌, All,
  ok, string_eq,
}
use paper_rag.Base.Json.{Json}
use paper_rag.Base.Dict
use paper_rag.Execution.Row.{Execution, ExecuteRequest, Readings}
use paper_rag.Execution.Ops.{Op, read, succeed, fail, after, change_of}
use paper_rag.Execution.Store
use paper_rag.Execution.Store.{Store, mutate}
use paper_rag.Execution.Indexed.{with_row}
use paper_rag.Execution.Calls.{Call, submit_call, op_call, perform, perform_all}
use paper_rag.Execution.Lifecycle.{after_terminal}
use paper_rag.Execution.Runner
use paper_rag.Execution.Runner.{Handled, returned, task_error, crashed, Handlers, Outcome, Turn}
use paper_rag.Execution.RunEnds.{At, Terminal, mutate-At, mutate_any-At, submit-At}
use paper_rag.Execution.RunOutcome.{Leaves, leaves, get_found}

-- A submission draws an identifier of its own.
abbrev pub IsElsewhere : String → Call → Type 0
IsElsewhere id (submit_call fresh now req) = fresh ≢ id
IsElsewhere id (op_call j op now) = Unit

module _ (id : String) (row : Execution) (ended : Terminal row) where
  keeps_row : (op : Op) (now : Readings) (r : Execution) → r ≡ row → after op now r ≡ row
  keeps_row op now r e = subst (λ x. after op now x ≡ row) (sym e) (after_terminal op now row ended)

  perform-kept :
      (dump : ExecuteRequest → Json) (c : Call) (s : Store)
      → IsElsewhere id c
      → At id (λ r. r ≡ row) s
      → At id (λ r. r ≡ row) (perform dump c s)
  perform-kept dump (submit_call fresh now req) s o a = submit-At id dump fresh now req s o a
  perform-kept dump (op_call j op now) s o a =
      mutate_any-At id j (change_of op now) s (keeps_row op now) a

  -- Any calls by any threads leave an ended execution in the store, as it is.
  pub perform_all-kept :
      (dump : ExecuteRequest → Json) (cs : List Call) (s : Store)
      → All (IsElsewhere id) cs
      → At id (λ r. r ≡ row) s
      → At id (λ r. r ≡ row) (perform_all dump cs s)
  unfolding perform_all
  perform_all-kept dump [] s o a = a
  perform_all-kept dump (c ∷ cs) s o a =
      perform_all-kept dump cs (perform dump c s) o.1 (perform-kept dump c s o.0 a)

  module _ (dump : ExecuteRequest → Json) (validate : Option Json → Option ExecuteRequest)
      (h : Handlers) (recover : Bool) (t : Turn) (away : All (IsElsewhere id) t.others_after) where
    kept_change :
        (op : Op) (now : Readings) (s : Store)
        → At id (λ r. r ≡ row) s
        → At id (λ r. r ≡ row) (mutate id (change_of op now) s).0
    kept_change op now s a = mutate-At id (change_of op now) s (keeps_row op now) a

    finish-kept :
        (p : Store × Option Execution)
        → At id (λ r. r ≡ row) p.0
        → Leaves id (λ r. r ≡ row) (Runner.finish dump validate h recover id t p)
    unfolding Runner.finish Store.get
    finish-kept (s, none) a =
        leaves id _ _ (kept_change read t.at_last _ (perform_all-kept dump t.others_after s away a))
    finish-kept (s, some r) a = leaves id _ (s, some r) a

    -- While the handler worked, the execution ended: it was cancelled, or expired. Whatever the
    -- handler then gives, a result, an error or a crash, the call returns and the execution stays
    -- as it was.
    pub overtaken_run :
        (req : ExecuteRequest) (o : Handled) (s : Store)
        → At id (λ r. r ≡ row) s
        → Leaves id (λ r. r ≡ row) (Runner.run_handled dump validate h recover id t req o s)
    unfolding Runner.run_handled Store.fail Store.succeed
    overtaken_run req (task_error code detail) s a =
        leaves id _ _ (kept_change (fail _) t.at_end s a)
    overtaken_run req crashed s a = leaves id _ _ (kept_change (fail _) t.at_end s a)
    overtaken_run req (returned out) s a = finish-kept _ (kept_change (succeed _) t.at_end s a)

    -- A run of an execution that has ended gives back the execution as it is, and does not depend
    -- on the handlers, on the lock or on what it would meet: nothing is executed again.
    pub run_ended :
        (s : Store)
        → Dict.get id s.rows ≡ some row
        → Runner.run dump validate h recover id t s ≡ ok (with_row s id row, some row)
    unfolding Runner.run Runner.run_locked
    run_ended s found = go t.acquired
      where
        got : Store.get id t.at_get s ≡ (with_row s id row, some row)
        got =
            get_found id t.at_get s row found
            ∙ ap (λ (r : Execution). (with_row s id r, some r))
                (after_terminal read t.at_get row ended)

        go :
            (b : Bool)
            → Runner.enter dump validate h recover id t b s ≡ ok (with_row s id row, some row)
        go true = rw got (rw ended)
        go false = rw got
