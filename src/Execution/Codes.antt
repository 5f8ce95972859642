-- ===== src/Execution/Codes.antt =====
-- backend/internal_api/codes.py: the table of internal error codes.
use paper_rag.Base.{ℕ, Bool, true, false}

pub data ErrorCode : Type 0 where
  invalid_payload unsupported_task_type budget_exceeded model_timeout : ErrorCode
  model_rate_limit parse_failed index_unavailable cancelled_code internal : ErrorCode

pub record ErrorSpec : Type 0 where
  pub code : ErrorCode
  pub retryable : Bool
  pub http : ℕ

unfoldable pub spec_for : ErrorCode → ErrorSpec
spec_for invalid_payload = record { code = invalid_payload; retryable = false; http = 400 }
spec_for unsupported_task_type = record {
  code = unsupported_task_type;
  retryable = false;
  http = 400;
}
spec_for budget_exceeded = record { code = budget_exceeded; retryable = false; http = 422 }
spec_for model_timeout = record { code = model_timeout; retryable = true; http = 504 }
spec_for model_rate_limit = record { code = model_rate_limit; retryable = true; http = 429 }
spec_for parse_failed = record { code = parse_failed; retryable = false; http = 422 }
spec_for index_unavailable = record { code = index_unavailable; retryable = true; http = 503 }
spec_for cancelled_code = record { code = cancelled_code; retryable = false; http = 409 }
spec_for internal = record { code = internal; retryable = true; http = 500 }
