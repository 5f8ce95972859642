-- ===== src/Jobs/Redis.antt =====
-- backend/services/upload_jobs.py: `RedisJobManager._mutate`, an optimistic transaction. The server
-- is the jobs that it holds. What other clients do to the watched key between WATCH and EXEC is given
-- for each round: nothing, or a write of the key (a job, or its removal), which makes EXEC fail.
use paper_rag.Base.{
  ℕ, zero, suc, String, Option, none, some, List, [], ◌∷◌, string_eq, if◌then◌else◌, Result, ok,
  raise,
}
use paper_rag.Base.Dict
use paper_rag.Jobs.Job.{Job, JobError, runtime_error, Change, is_terminal}
use paper_rag.Jobs.Manager.{Jobs, stamped}

-- The value that a client leaves under the key.
abbrev pub Write : Type 0
Write = Option Job

abbrev pub apply_write : String → Write → Jobs → Jobs
apply_write id none jobs = Dict.remove id jobs
apply_write id (some job) jobs = Dict.put id job jobs

abbrev pub Round : Type 0
Round = Option Write

abbrev pub first_round : List Round → Round
first_round [] = none
first_round (r ∷ rounds) = r

abbrev pub later_rounds : List Round → List Round
later_rounds [] = []
later_rounds (r ∷ rounds) = rounds

abbrev pub Reply : Type 0
Reply = Jobs × Result JobError (Option Job)

-- The loop of `_mutate` with the rounds that are left; `now` is the clock.
unfoldable pub mutate_rounds : ℕ → String → Change → ℕ → List Round → Jobs → Reply
mutate_rounds zero id change now rounds jobs = (jobs, raise (runtime_error "任务状态并发冲突，请重试"))
mutate_rounds (suc n) id change now rounds jobs = elim (Dict.get id jobs) [
  | none ↦ (jobs, ok none)
  | some job ↦
      let next = λ (js : Jobs). mutate_rounds n id change now (later_rounds rounds) js in
      if is_terminal job.status then (jobs, ok (some job)) else elim (stamped now (change job)) [
        | raise e ↦ (jobs, raise e)
        | ok job' ↦ elim (first_round rounds) [
          | none ↦ (Dict.put id job' jobs, ok (some job'))
          | some w ↦ next (apply_write id w jobs)
        ]
      ]
]

unfoldable pub mutate : String → Change → ℕ → List Round → Jobs → Reply
unfolding mutate_rounds
mutate = mutate_rounds 8
