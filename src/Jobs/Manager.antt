-- ===== src/Jobs/Manager.antt =====
-- backend/services/upload_jobs.py: `UploadJobManager`, jobs in memory under a lock.
use paper_rag.Base.{
  ℕ, String, Option, none, some, List, string_eq, if◌then◌else◌, Result, ok, raise, ◌>>=◌, map,
}
use paper_rag.Base.Dict
use paper_rag.Base.Dict.{Dict}
use paper_rag.Base.Json.{Json}
use paper_rag.Jobs.Job.{Job, JobError, Template, Change, new_job, is_terminal}

abbrev pub Jobs : Type 0
Jobs = Dict String Job

unfoldable pub insert : Job → Jobs → Jobs
insert job jobs = Dict.put job.job_id job jobs

unfoldable pub create_job :
    String
    → ℕ
    → String
    → Template
    → String
    → String
    → String
    → Option Json
    → Jobs
    → Result JobError (Jobs × Job)
unfolding new_job insert
create_job fresh now filename steps current message completion context jobs = do
  job ← new_job fresh now filename steps current message completion context
  ok (insert job jobs, job)

unfoldable pub get_job : String → Jobs → Option Job
get_job id jobs = Dict.get id jobs

-- The change works on a copy; what it returns is stored with the time of the update.
abbrev pub stamped : ℕ → Result JobError Job → Result JobError Job
stamped now (ok job) = ok (record job { updated_at = now })
stamped now (raise e) = raise e

abbrev pub stored : String → Jobs → Result JobError Job → Result JobError (Jobs × Option Job)
stored id jobs (ok job) = ok (Dict.put id job jobs, some job)
stored id jobs (raise e) = raise e

-- `_mutate`. An exception leaves the jobs as they were.
unfoldable pub mutate : String → Change → ℕ → Jobs → Result JobError (Jobs × Option Job)
mutate id change now jobs = elim (Dict.get id jobs) [
  | none ↦ ok (jobs, none)
  | some job ↦
      if is_terminal job.status
      then ok (jobs, some job)
      else stored id jobs (stamped now (change job))
]

unfoldable pub list_jobs : Jobs → List Job
list_jobs = map (λ e. e.1)
