-- ===== src/Execution/CodecTests.antt =====
-- A codec that meets its laws, and the refinement of the stores at concrete rows.
use paper_rag.Base.{
  ℕ, zero, suc, String, ◌≡◌, refl, false, Option, none, some, [], ◌∷◌, arith, string_eq, ◌==◌,
  subst, Bool-cases, inl, inr,
}
use paper_rag.Base.Dict
use paper_rag.Base.Dict.{Dict}
use paper_rag.Base.Json.{Json, null, boolean, number, text, array, nil, cons}
use paper_rag.Execution.Codes.{
  ErrorCode, invalid_payload, unsupported_task_type, budget_exceeded, model_timeout,
  model_rate_limit, parse_failed, index_unavailable, cancelled_code, internal,
}
use paper_rag.Execution.Row.{parse_paper, queued, Usage, ErrorDetail, Execution, Readings}
use paper_rag.Execution.Ops.{cancel, change_of}
use paper_rag.Execution.Store
use paper_rag.Execution.Store.{Store}
use paper_rag.Execution.Postgres
use paper_rag.Execution.Postgres.{Record, Codec, decode, encode}
use paper_rag.Execution.Refinement.{
  IsStorable, Record-discrete, Represents, decode-encode, mutate-Represents,
}

code_number : ErrorCode → ℕ
code_number invalid_payload = 0
code_number unsupported_task_type = 1
code_number budget_exceeded = 2
code_number model_timeout = 3
code_number model_rate_limit = 4
code_number parse_failed = 5
code_number index_unavailable = 6
code_number cancelled_code = 7
code_number internal = 8

number_code : ℕ → ErrorCode
number_code zero = invalid_payload
number_code (suc zero) = unsupported_task_type
number_code (suc (suc zero)) = budget_exceeded
number_code (suc (suc (suc zero))) = model_timeout
number_code (suc (suc (suc (suc zero)))) = model_rate_limit
number_code (suc (suc (suc (suc (suc zero))))) = parse_failed
number_code (suc (suc (suc (suc (suc (suc zero)))))) = index_unavailable
number_code (suc (suc (suc (suc (suc (suc (suc zero))))))) = cancelled_code
number_code (suc (suc (suc (suc (suc (suc (suc (suc n)))))))) = internal

number-code : (c : ErrorCode) → number_code (code_number c) ≡ c
unfolding number_code code_number
number-code invalid_payload = refl
number-code _ = refl

dump_usage : Usage → Json
dump_usage u = array (cons (number u.calls) (cons (number u.tokens) (cons (number u.cost) nil)))

load_usage : Json → Usage
load_usage (array (cons (number a) (cons (number b) (cons (number c) nil)))) = record {
  calls = a;
  tokens = b;
  cost = c;
}
load_usage _ = record { calls = 0; tokens = 0; cost = 0 }

trace_json : Option String → Json
trace_json none = null
trace_json (some t) = text t

json_trace : Json → Option String
json_trace (text t) = some t
json_trace _ = none

json-trace : (o : Option String) → json_trace (trace_json o) ≡ o
unfolding json_trace trace_json
json-trace none = refl
json-trace (some t) = refl

dump_error : ErrorDetail → Json
dump_error e = array (
    cons (number (code_number e.code))
      (cons (boolean e.retryable) (cons (text e.detail) (cons (trace_json e.trace_id) nil))))

load_error : Json → ErrorDetail
load_error (array (cons (number c) (cons (boolean b) (cons (text d) (cons t nil))))) = record {
  code = number_code c;
  retryable = b;
  detail = d;
  trace_id = json_trace t;
}
load_error _ = record { code = internal; retryable = false; detail = ""; trace_id = none }

load-dump_usage : (u : Usage) → load_usage (dump_usage u) ≡ u
unfolding load_usage dump_usage
load-dump_usage u = refl

load-dump_error : (e : ErrorDetail) → load_error (dump_error e) ≡ e
unfolding load_error dump_error
load-dump_error e = cc (number-code e.code, json-trace e.trace_id)

abbrev codec : Codec
codec = record {
  dump_usage = dump_usage;
  load_usage = load_usage;
  dump_error = dump_error;
  load_error = load_error;
  load-dump_usage = load-dump_usage;
  load-dump_error = load-dump_error;
}

abbrev row : Execution
row = record {
  execution_id = "e1";
  task_id = "t1";
  task_type = parse_paper;
  idempotency_key = "k";
  status = queued;
  deadline = 100;
  created_at = 3;
  updated_at = 3;
  request_payload = none;
  run_id = none;
  trace_id = none;
  lease_token = none;
  result = none;
  result_ref = none;
  proposed_tasks = [];
  evidence_candidates = [];
  usage = none;
  errors = [];
}

row-IsStorable : IsStorable row
row-IsStorable = record { run_id = λ e. cc; trace_id = λ e. cc; lease_token = λ e. cc }

decode-encode_example : decode codec (encode codec row) ≡ row
decode-encode_example = decode-encode codec row row-IsStorable

abbrev now0 : Readings
now0 = record { check = 5; write = 6 }

abbrev one : Store
one = record { rows = ("e1", row) ∷ []; by_idempotency = []; by_task_id = []; active = [] }

abbrev table : Dict String Record
table = ("e1", encode codec row) ∷ []

one-Represents : Represents codec table one
unfolding Dict.get
one-Represents = record {
  reads = λ id. elim (Bool-cases ("e1" == id)) [ inl e ↦ rw e | inr e ↦ rw e ];
  storable = λ id r p. elim (Bool-cases ("e1" == id)) [
    | inl e ↦ let q : row ≡ r = ground arith in subst IsStorable q row-IsStorable
    | inr e ↦ absurd (ground arith)
  ];
}

mutate-Represents_example :
    Represents codec
      (Postgres.mutate codec Record-discrete "e1" (change_of cancel now0) table).0
      (Store.mutate "e1" (change_of cancel now0) one).0
    × ((Postgres.mutate codec Record-discrete "e1" (change_of cancel now0) table).1
        ≡ (Store.mutate "e1" (change_of cancel now0) one).1)
mutate-Represents_example =
    mutate-Represents codec Record-discrete "e1" cancel now0 table one tt one-Represents
