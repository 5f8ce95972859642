-- ===== src/Jobs/Stored.antt =====
-- backend/services/upload_jobs.py: the methods of the manager on all the jobs that it holds.
use paper_rag.Base.{
  ℕ, String, ◌≡◌, refl, ap, ◌∙◌, sym, true, false, ◌&&◌, Option, none, some, [], ◌∷◌, map, arith,
  ◌==◌, ==_iff, string_eq, ok, Option-cases, Bool-cases, inl, inr, All, subst, Result-cases,
}
use paper_rag.Base.Dict
use paper_rag.Base.Dict.{get-put, get-put_ne, get-put_self}
use paper_rag.Base.Json.{Json}
use paper_rag.Jobs.Job.{pending, Job, Template, is_terminal, new_job, has_key, distinct, step_of}
use paper_rag.Jobs.Invariant.{IsValid, InRange, JobOp, change_of, has_step, change_of-IsValid}
use paper_rag.Jobs.Manager.{Jobs, mutate, create_job, insert}

-- Every job of the store is well-formed.
abbrev pub AllValid : Jobs → Type 0
AllValid jobs = (id : String) (job : Job) → Dict.get id jobs ≡ some job → IsValid job

get-put_at :
    (j id : String) (job : Job) (jobs : Jobs)
    → (id == j) ≡ true
    → Dict.get j (Dict.put id job jobs) ≡ some job
get-put_at j id job jobs same = get-put id j job jobs ∙ rw same refl

get-put_apart :
    (j id : String) (job : Job) (jobs : Jobs)
    → (id == j) ≡ false
    → Dict.get j (Dict.put id job jobs) ≡ Dict.get j jobs
get-put_apart j id job jobs apart = get-put id j job jobs ∙ rw apart refl

some-inj : {x y : Job} → some x ≡ some y → x ≡ y
some-inj e = cc

AllValid-put :
    (id : String) (job : Job) (jobs : Jobs)
    → AllValid jobs
    → IsValid job
    → AllValid (Dict.put id job jobs)
AllValid-put id job jobs all v j other e = elim (Bool-cases (id == j)) [
  | inl same ↦
      let q : job ≡ other = (some-inj (sym (get-put_at j id job jobs same) ∙ e)) in
      subst IsValid q v
  | inr apart ↦ all j other (sym (get-put_apart j id job jobs apart) ∙ e)
]

stamped-IsValid : (now : ℕ) (job : Job) → IsValid job → IsValid (record job { updated_at = now })
stamped-IsValid now job v = record {
  current_known = v.current_known;
  completion_known = v.completion_known;
  percents = v.percents;
  completed_all = v.completed_all;
  failed_error = v.failed_error;
  other_error = v.other_error;
}

-- A method of the manager on well-formed jobs leaves well-formed jobs: of a job that is completed
-- all steps are completed, a job has an error exactly when it has failed, its current step and its
-- last step are among its steps, and no percentage is above 100.
pub mutate-AllValid :
    (id : String) (op : JobOp) (now : ℕ) (jobs jobs' : Jobs) (answer : Option Job)
    → AllValid jobs
    → mutate id (change_of op) now jobs ≡ ok (jobs', answer)
    → AllValid jobs'
unfolding mutate
mutate-AllValid id op now jobs jobs' answer all e = elim (Option-cases (Dict.get id jobs)) [
  | inl missing ↦ let q : jobs ≡ jobs' = ground arith in subst AllValid q all
  | inr (job, found) ↦ elim (Bool-cases (is_terminal job.status)) [
    | inl ended ↦ let q : jobs ≡ jobs' = ground arith in subst AllValid q all
    | inr live ↦ elim (Result-cases (change_of op job)) [
      | inr (x, bad) ↦ ground arith
      | inl (job', good) ↦
          let new : Job = record job' { updated_at = now } in
          let v : IsValid new =
            stamped-IsValid now job' (change_of-IsValid job live (all id job found) op job' good) in
          let q : Dict.put id new jobs ≡ jobs' = ground arith in
          subst AllValid q (AllValid-put id new jobs all v)
    ]
  ]
]

has_step-map : (k : String) (steps : Template) → has_step k (map step_of steps) ≡ has_key k steps
unfolding has_step has_key
has_step-map k [] = refl
has_step-map k ((j, label) ∷ rest) = ground (arith, has_step-map k rest)

All-step_of : (steps : Template) → All InRange (map step_of steps)
All-step_of [] = tt
All-step_of ((k, label) ∷ rest) = (omega arith, All-step_of rest)

pub new_job-IsValid :
    (fresh filename current message completion : String) (now : ℕ) (steps : Template)
    (context : Option Json) (job : Job)
    → new_job fresh now filename steps current message completion context ≡ ok job
    → IsValid job
unfolding new_job
new_job-IsValid fresh filename current message completion now steps context job e =
    elim (Bool-cases (distinct steps && (has_key current steps && has_key completion steps))) [
      | inr bad ↦ ground arith
      | inl good ↦
          let new : Job = record {
            job_id = fresh;
            filename = filename;
            status = pending;
            current_step = current;
            completion_step = completion;
            message = message;
            context = context;
            total_chunks = 0;
            processed_chunks = 0;
            error = none;
            created_at = now;
            updated_at = now;
            steps = map step_of steps;
          } in
          let v : IsValid new = record {
            current_known = has_step-map current steps ∙ ground arith;
            completion_known = has_step-map completion steps ∙ ground arith;
            percents = All-step_of steps;
            completed_all = λ q. cc;
            failed_error = λ q. cc;
            other_error = inr refl;
          } in
          let q : new ≡ job = ground arith in subst IsValid q v
    ]

-- A new job is well-formed, and so are the others after it is stored.
pub create_job-AllValid :
    (fresh filename current message completion : String) (now : ℕ) (steps : Template)
    (context : Option Json) (jobs jobs' : Jobs) (job : Job)
    → AllValid jobs
    → create_job fresh now filename steps current message completion context jobs ≡ ok (jobs', job)
    → AllValid jobs'
unfolding create_job insert
create_job-AllValid fresh filename current message completion now steps context jobs jobs' job all
      e =
    elim (Result-cases (new_job fresh now filename steps current message completion context)) [
      | inr (x, bad) ↦ cc
      | inl (new, good) ↦
          let v =
            new_job-IsValid fresh filename current message completion now steps context new good in
          let q : Dict.put new.job_id new jobs ≡ jobs' = ground arith in
          subst AllValid q (AllValid-put new.job_id new jobs all v)
    ]

-- A job that has completed or failed stays stored as it is, whatever a method does to it or to
-- another job.
pub ended_stays :
    (id other : String) (op : JobOp) (now : ℕ) (job : Job) (jobs jobs' : Jobs) (answer : Option Job)
    → Dict.get id jobs ≡ some job
    → is_terminal job.status ≡ true
    → mutate other (change_of op) now jobs ≡ ok (jobs', answer)
    → Dict.get id jobs' ≡ some job
unfolding mutate
ended_stays id other op now job jobs jobs' answer found ended e =
    elim (Option-cases (Dict.get other jobs)) [
      | inl missing ↦ ground arith
      | inr (old, there) ↦ elim (Bool-cases (is_terminal old.status)) [
        | inl done ↦ ground arith
        | inr live ↦ elim (Result-cases (change_of op old)) [
          | inr (x, bad) ↦ ground arith
          | inl (job', good) ↦
              let new : Job = record job' { updated_at = now } in
              let q : Dict.put other new jobs ≡ jobs' = ground arith in
              let apart : (other == id) ≡ false = elim (Bool-cases (other == id)) [
                | inr differ ↦ differ
                | inl same ↦ let r : other ≡ id = (==_iff other id).0 same in ground arith
              ] in
              ap (Dict.get id) (sym q) ∙ get-put_apart id other new jobs apart ∙ found
        ]
      ]
    ]
