-- ===== src/Jobs/Tests.antt =====
-- Runs of the job managers on a job of two steps.
use paper_rag.Base.{◌≡◌, refl, none, some, List, [], ◌∷◌, string_eq, ok, raise}
use paper_rag.Base.Dict
use paper_rag.Jobs.Job.{
  Job, Step, Template, pending, running, completed, failed, Update, completion, value_error,
  is_terminal,
}
use paper_rag.Jobs.Invariant.{JobOp, update, change_of}
use paper_rag.Jobs.Manager.{Jobs, mutate, create_job}
use paper_rag.Jobs.Redis
use paper_rag.Jobs.Redis.{Round}
use paper_rag.Jobs.Linear.{Settles, mutate-Settles}
use paper_rag.Jobs.Stored.{AllValid, mutate-AllValid, create_job-AllValid, ended_stays}

abbrev two_steps : Template
two_steps = ("parse", "P") ∷ ("store", "S") ∷ []

abbrev first_job : Job
first_job = record {
  job_id = "j";
  filename = "a.pdf";
  status = pending;
  current_step = "parse";
  completion_step = "store";
  message = "";
  context = none;
  total_chunks = 0;
  processed_chunks = 0;
  error = none;
  created_at = 1;
  updated_at = 1;
  steps =
      (record { key = "parse"; label = "P"; percent = 0; status = pending; message = "" })
      ∷ (record { key = "store"; label = "S"; percent = 0; status = pending; message = "" })
      ∷ [];
}

abbrev parsed_job : Job
parsed_job = record {
  job_id = "j";
  filename = "a.pdf";
  status = running;
  current_step = "parse";
  completion_step = "store";
  message = "done";
  context = none;
  total_chunks = 0;
  processed_chunks = 0;
  error = none;
  created_at = 1;
  updated_at = 5;
  steps =
      (record { key = "parse"; label = "P"; percent = 100; status = completed; message = "done" })
      ∷ (record { key = "store"; label = "S"; percent = 0; status = pending; message = "" })
      ∷ [];
}

abbrev failed_job : Job
failed_job = record {
  job_id = "j";
  filename = "a.pdf";
  status = failed;
  current_step = "parse";
  completion_step = "store";
  message = "bad";
  context = none;
  total_chunks = 0;
  processed_chunks = 0;
  error = some "bad";
  created_at = 1;
  updated_at = 1;
  steps =
      (record { key = "parse"; label = "P"; percent = 0; status = failed; message = "bad" })
      ∷ (record { key = "store"; label = "S"; percent = 0; status = pending; message = "" })
      ∷ [];
}

abbrev one_job : Jobs
one_job = ("j", first_job) ∷ []

abbrev one_parsed : Jobs
one_parsed = ("j", parsed_job) ∷ []

abbrev one_failed : Jobs
one_failed = ("j", failed_job) ∷ []

abbrev complete_parse : JobOp
complete_parse = update "parse" (completion "done")

no_jobs-AllValid : AllValid []
unfolding Dict.get
no_jobs-AllValid id job e = cc

create_job-run :
    create_job "j" 1 "a.pdf" two_steps "parse" "" "store" none [] ≡ ok (one_job, first_job)
unfolding create_job Dict.put
create_job-run = refl

one_job-AllValid : AllValid one_job
one_job-AllValid =
    create_job-AllValid "j" "a.pdf" "parse" "" "store" 1 two_steps none [] one_job first_job
      no_jobs-AllValid create_job-run

parse_run : mutate "j" (change_of complete_parse) 5 one_job ≡ ok (one_parsed, some parsed_job)
unfolding mutate Dict.get paper_rag.Jobs.Job.update_step Dict.put paper_rag.Jobs.Job.replace_step
parse_run = refl

mutate-AllValid_example : AllValid one_parsed
mutate-AllValid_example =
    mutate-AllValid "j" complete_parse 5 one_job one_parsed (some parsed_job) one_job-AllValid
      parse_run

-- A failed job answers a later update, and keeps its error.
late_run : mutate "j" (change_of complete_parse) 9 one_failed ≡ ok (one_failed, some failed_job)
unfolding mutate Dict.get
late_run = refl

found_failed : Dict.get "j" one_failed ≡ some failed_job
unfolding Dict.get
found_failed = refl

ended_stays_example : Dict.get "j" one_failed ≡ some failed_job
ended_stays_example =
    ended_stays "j" "j" complete_parse 9 failed_job one_failed one_failed (some failed_job)
      found_failed refl late_run

-- Another client fails the job during the first round.
abbrev overtaken : List Round
overtaken = some (some failed_job) ∷ none ∷ []

mutate-Settles_example :
    Settles "j"
      (change_of complete_parse)
      5
      8
      overtaken
      one_job
      (Redis.mutate "j" (change_of complete_parse) 5 overtaken one_job)
mutate-Settles_example = mutate-Settles "j" (change_of complete_parse) 5 overtaken one_job

overtaken_run :
    Redis.mutate "j" (change_of complete_parse) 5 overtaken one_job
    ≡ (one_failed, ok (some failed_job))
unfolding Redis.mutate Dict.get paper_rag.Jobs.Job.update_step Dict.put
overtaken_run = refl

-- A last step that no list names is refused.
refused_run :
    create_job "j" 1 "a.pdf" two_steps "parse" "" "index" none []
    ≡ raise (value_error "任务步骤必须唯一，初始/完成步骤必须存在")
unfolding create_job
refused_run = refl
