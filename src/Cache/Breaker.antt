-- ===== src/Cache/Breaker.antt =====
-- backend/services/cache.py: `RedisCache`, its circuit breaker and the operations behind it. What the
-- server does with a command is a parameter: its answer, or an exception.
use paper_rag.Base.{
  ℕ, suc, ◌+◌, ltb, leb, Bool, true, false, Option, none, some, List, [], ◌∷◌, if◌then◌else◌,
}

-- `CIRCUIT_THRESHOLD` and `CIRCUIT_TIMEOUT`, the latter in the clock's seconds
abbrev pub circuit_threshold : ℕ
circuit_threshold = 5

abbrev pub circuit_timeout : ℕ
circuit_timeout = 60

pub record Breaker : Type 0 where
  pub failure_count : ℕ
  pub circuit_open_until : ℕ

unfoldable pub is_circuit_open : ℕ → Breaker → Bool × Breaker
is_circuit_open now b =
    if leb circuit_threshold b.failure_count
    then (if ltb now b.circuit_open_until
        then (true, b)
        else (false, record b { failure_count = 0 }))
    else (false, b)

unfoldable pub on_failure : ℕ → Breaker → Breaker
on_failure now b =
    let count = suc b.failure_count in
    if leb circuit_threshold count
    then record { failure_count = count; circuit_open_until = now + circuit_timeout }
    else record b { failure_count = count }

unfoldable pub on_success : Breaker → Breaker
on_success b = record b { failure_count = 0 }

-- What the server and the JSON decoder do: the command raises; there is no value; the value does not
-- decode; the value decodes.
pub data Reply (J : Type 0) : Type 0 where
  failed : Reply J
  missing : Reply J
  undecodable : Reply J
  value : J → Reply J

-- An operation: whether it sent a command, its answer, and the breaker afterwards.
pub record Outcome (J : Type 0) : Type 0 where
  pub sent : Bool
  pub answer : Option J
  pub breaker : Breaker

module _ {J : Type 0} where
  -- A value that does not decode counts as a failure after the success of the command.
  abbrev pub received : ℕ → Reply J → Breaker → Option J × Breaker
  received now failed b = (none, on_failure now b)
  received now missing b = (none, on_success b)
  received now undecodable b = (none, on_failure now (on_success b))
  received now (value v) b = (some v, on_success b)

  unfoldable pub get_json : ℕ → Reply J → Breaker → Outcome J
  unfolding is_circuit_open on_failure on_success
  get_json now reply b =
      let state = is_circuit_open now b in
      let after = received now reply state.1 in
      if state.0
      then record { sent = false; answer = none; breaker = state.1 }
      else record { sent = true; answer = after.0; breaker = after.1 }

-- `set_json`, `delete` and `delete_pattern`: a command that succeeds or raises.
abbrev pub acknowledged : ℕ → Bool → Breaker → Breaker
acknowledged now true b = on_success b
acknowledged now false b = on_failure now b

unfoldable pub command : ℕ → Bool → Breaker → Bool × Breaker
unfolding is_circuit_open on_failure on_success
command now done b =
    let state = is_circuit_open now b in
    if state.0 then (false, state.1) else (true, acknowledged now done state.1)

-- The breaker after commands that raised, at these times.
unfoldable pub after_failures : List ℕ → Breaker → Breaker
unfolding command
after_failures [] b = b
after_failures (now ∷ times) b = after_failures times (command now false b).1

-- The value that a read gets from a server that answers.
abbrev pub value_of : {J : Type 0} → Reply J → Option J
value_of failed = none
value_of missing = none
value_of undecodable = none
value_of (value v) = some v
