-- ===== src/Execution/WellFormed.antt =====
-- What a stored execution looks like in each status.
use paper_rag.Base.{
  ℕ, String, ◌≡◌, ◌⊎◌, false, Option, none, some, List, [], ◌∷◌, arith, option_eq, string_eq,
}
use paper_rag.Base.Json.{Json}
use paper_rag.Execution.Codes.{spec_for, cancelled_code}
use paper_rag.Execution.Row.{
  queued, running, succeeded, failed, cancelled, Execution, ErrorDetail, ExecuteRequest, Readings,
  read_change, start_change, succeed_change, fail_change, cancel_change, fail_locked, error,
  new_execution,
}
use paper_rag.Execution.Ops.{Op, read, start, succeed, fail, cancel, after}

-- The error of a row is entered in the table of codes with the `retryable` that the row states.
abbrev pub HasTableError : List ErrorDetail → Type 0
HasTableError [] = ⊥
HasTableError (e ∷ []) = e.retryable ≡ (spec_for e.code).retryable
HasTableError (e ∷ f ∷ r) = ⊥

abbrev pub HasCancelError : List ErrorDetail → Type 0
HasCancelError [] = ⊥
HasCancelError (e ∷ []) = (e.code ≡ cancelled_code) × (e.retryable ≡ false)
HasCancelError (e ∷ f ∷ r) = ⊥

abbrev pub ExactlyOne {ℓ κ} : {A : Type ℓ} {B : Type κ} → Option A → Option B → Type 0
ExactlyOne none none = ⊥
ExactlyOne none (some b) = Unit
ExactlyOne (some a) none = Unit
ExactlyOne (some a) (some b) = ⊥

pub record IsWellFormed (row : Execution) : Type 0 where
  pub one_result : row.status ≡ succeeded → ExactlyOne row.result row.result_ref
  pub no_early_result : (row.status ≡ succeeded) ⊎ ((row.result ≡ none) × (row.result_ref ≡ none))
  pub failed_error : row.status ≡ failed → HasTableError row.errors
  pub cancelled_error : row.status ≡ cancelled → HasCancelError row.errors
  pub live_no_error : (row.status ≡ queued) ⊎ (row.status ≡ running) → row.errors ≡ []
  pub succeeded_no_error : row.status ≡ succeeded → row.errors ≡ []
  pub queued_no_lease : row.status ≡ queued → row.lease_token ≡ none

-- What the guard of `succeed` lets through.
abbrev pub IsValidOp : Op → Type 0
IsValidOp (succeed s) = ExactlyOne s.result s.result_ref
IsValidOp _ = Unit

pub new_execution-IsWellFormed :
    (dump : ExecuteRequest → Json) (fresh : String) (now : ℕ) (req : ExecuteRequest)
    → IsWellFormed (new_execution dump fresh now req)
unfolding new_execution
new_execution-IsWellFormed dump fresh now req = ground arith

-- Every change keeps a row well formed.
pub after-IsWellFormed :
    (op : Op) (now : Readings) (row : Execution)
    → IsValidOp op
    → IsWellFormed row
    → IsWellFormed (after op now row)
unfolding read_change start_change succeed_change fail_change cancel_change fail_locked error
    spec_for
after-IsWellFormed read now row v h = ground arith
after-IsWellFormed (start lease recover) now row v h = ground arith
after-IsWellFormed (succeed s) now row v h = ground arith
after-IsWellFormed (fail f) now row v h = ground arith
after-IsWellFormed cancel now row v h = ground arith
