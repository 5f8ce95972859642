-- ===== src/Jobs/Invariant.antt =====
-- backend/services/upload_jobs.py: when a job is well-formed, and the changes on such a job.
use paper_rag.Base.{
  ℕ, ◌≤◌, String, ◌≡◌, ◌≢◌, refl, ◌∙◌, Bool, true, false, Option, none, some, List, [], ◌∷◌, arith,
  ◌==◌, ==_iff, string_eq, if◌then◌else◌, ok, Result-cases, Bool-cases, inl, inr, ◌⊎◌, All, subst,
}
use paper_rag.Base.Int.{ℤ, pos, negsuc}
use paper_rag.Base.Json.{Json}
use paper_rag.Jobs.Job.{
  Status, pending, running, completed, failed, Step, Job, Change, Update, is_terminal, is_completed,
  is_failed, all_completed, find_step, replace_step, clamp, count_or, set_context, update_step,
  update_found, written, failed_at, completed_with, complete_job, fail_job,
}

unfoldable pub has_step : String → List Step → Bool
has_step k [] = false
has_step k (s ∷ rest) = if s.key == k then true else has_step k rest

abbrev pub InRange : Step → Type 0
InRange s = s.percent ≤ 100

pub record IsValid (job : Job) : Type 0 where
  pub current_known : has_step job.current_step job.steps ≡ true
  pub completion_known : has_step job.completion_step job.steps ≡ true
  pub percents : All InRange job.steps
  pub completed_all : job.status ≡ completed → all_completed job.steps ≡ true
  pub failed_error : job.status ≡ failed → job.error ≢ none
  pub other_error : (job.status ≡ failed) ⊎ (job.error ≡ none)

-- The methods, as one type.
pub data JobOp : Type 0 where
  set : Json → JobOp
  update : String → Update → JobOp
  complete : String → JobOp
  fail : String → String → JobOp

abbrev pub change_of : JobOp → Change
change_of (set context) = set_context context
change_of (update k u) = update_step k u
change_of (complete message) = complete_job message
change_of (fail k error) = fail_job k error

has_step-replace_step :
    (j k : String) (new : Step) (steps : List Step)
    → new.key ≡ k
    → has_step j (replace_step k new steps) ≡ has_step j steps
unfolding has_step replace_step
has_step-replace_step j k new [] e = refl
has_step-replace_step j k new (s ∷ rest) e =
    ground (arith, ==_iff s.key k, has_step-replace_step j k new rest e)

All-replace_step :
    (k : String) (new : Step) (steps : List Step)
    → InRange new
    → All InRange steps
    → All InRange (replace_step k new steps)
unfolding replace_step
All-replace_step k new [] h a = tt
All-replace_step k new (s ∷ rest) h a = elim (Bool-cases (s.key == k)) [
  | inl e ↦ rw e (h, a.1)
  | inr e ↦ rw e (a.0, All-replace_step k new rest h a.1)
]

-- What `_find_step` finds.
find_step_lem :
    (k : String) (steps : List Step) (step : Step)
    → find_step k steps ≡ ok step
    → All InRange steps
    → (step.key ≡ k) × (has_step k steps ≡ true) × InRange step
unfolding find_step has_step
find_step_lem k [] step e a = cc
find_step_lem k (s ∷ rest) step e a = elim (Bool-cases (s.key == k)) [
  | inl same ↦
      let q : s ≡ step = ground arith in
      ((==_iff step.key k).0 (ground arith), ground arith, subst InRange q a.0)
  | inr other ↦ let r = find_step_lem k rest step (ground arith) a.1 in (r.0, ground arith, r.2)
]

clamp-le : (z : ℤ) → clamp z ≤ 100
clamp-le (pos n) = omega arith
clamp-le (negsuc n) = omega arith

-- A step of the job, and the step that takes its place.
record IsStep (k : String) (step new : Step) (job : Job) : Type 0 where
  named : new.key ≡ k
  known : has_step k job.steps ≡ true
  ranged : InRange new

module _ (k : String) (step new : Step) (job : Job) (live : is_terminal job.status ≡ false)
    (v : IsValid job) (s : IsStep k step new job) where
  current_kept :
      (j : String) → has_step j job.steps ≡ true → has_step j (replace_step k new job.steps) ≡ true
  current_kept j h = has_step-replace_step j k new job.steps s.named ∙ h

  replaced-percents : All InRange (replace_step k new job.steps)
  replaced-percents = All-replace_step k new job.steps s.ranged v.percents

-- The status and the error that an update leaves.
abbrev status_after : Bool → Status
status_after b = if b then failed else running

abbrev error_after : Bool → String → Option String → Option String
error_after b message old = if b then some message else old

not_completed : {A : Type 0} → (b : Bool) → status_after b ≡ completed → A
not_completed true e = cc
not_completed false e = cc

failed_error_after :
    (b : Bool) (message : String) (old : Option String)
    → status_after b ≡ failed
    → error_after b message old ≢ none
failed_error_after true message old e q = cc
failed_error_after false message old e q = cc

other_error_after :
    (b : Bool) (message : String) (old : Option String)
    → old ≡ none
    → (status_after b ≡ failed) ⊎ (error_after b message old ≡ none)
other_error_after true message old h = inl refl
other_error_after false message old h = inr h

no_error :
    (s : Status) (o : Option String) → is_terminal s ≡ false → (s ≡ failed) ⊎ (o ≡ none) → o ≡ none
no_error s o live (inr e) = e
no_error pending o live (inl e) = cc
no_error running o live (inl e) = cc
no_error completed o live (inl e) = cc
no_error failed o live (inl e) = cc

not_ended : {A : Type 0} → (s : Status) → is_terminal s ≡ false → s ≡ completed → A
not_ended pending live e = cc
not_ended running live e = cc
not_ended completed live e = cc
not_ended failed live e = cc

written-IsValid :
    (k : String) (u : Update) (step : Step) (total processed : ℕ) (job : Job)
    → is_terminal job.status ≡ false
    → IsValid job
    → step.key ≡ k
    → has_step k job.steps ≡ true
    → IsValid (written k u step total processed job)
written-IsValid k u step total processed job live v named known =
    let new : Step = record step {
      percent = clamp u.percent;
      status = u.status;
      message = u.message;
    } in
    let s : IsStep k step new job = record {
      named = named;
      known = known;
      ranged = clamp-le u.percent;
    } in
    record {
      current_known = current_kept k step new job live v s k known;
      completion_known =
          current_kept k step new job live v s job.completion_step v.completion_known;
      percents = replaced-percents k step new job live v s;
      completed_all = not_completed (is_failed u.status);
      failed_error = failed_error_after (is_failed u.status) u.message job.error;
      other_error =
          other_error_after (is_failed u.status) u.message job.error
            (no_error job.status job.error live v.other_error);
    }

module _ (job : Job) (live : is_terminal job.status ≡ false) (v : IsValid job) where
  update_found-IsValid :
      (k : String) (u : Update) (step : Step) (job' : Job)
      → update_found k u step job ≡ ok job'
      → step.key ≡ k
      → has_step k job.steps ≡ true
      → IsValid job'
  unfolding update_found
  update_found-IsValid k u step job' e named known =
      elim (Result-cases (count_or job.total_chunks u.total_chunks)) [
        | inr (x, bad) ↦ cc
        | inl (total, t) ↦ elim (Result-cases (count_or job.processed_chunks u.processed_chunks)) [
          | inr (x, bad) ↦ cc
          | inl (processed, p) ↦
              let q : written k u step total processed job ≡ job' = cc in
              subst IsValid q (written-IsValid k u step total processed job live v named known)
        ]
      ]

  update_step-IsValid :
      (k : String) (u : Update) (job' : Job) → update_step k u job ≡ ok job' → IsValid job'
  unfolding update_step
  update_step-IsValid k u job' e = elim (Result-cases (find_step k job.steps)) [
    | inr (x, bad) ↦ cc
    | inl (step, found) ↦
        let f = find_step_lem k job.steps step found v.percents in
        elim (Bool-cases (is_completed step.status)) [
          | inl done ↦ let q : job ≡ job' = ground arith in subst IsValid q v
          | inr todo ↦ update_found-IsValid k u step job' (ground arith) f.0 f.1
        ]
  ]

  fail_job-IsValid : (k error : String) (job' : Job) → fail_job k error job ≡ ok job' → IsValid job'
  unfolding fail_job
  fail_job-IsValid k error job' e = elim (Result-cases (find_step k job.steps)) [
    | inr (x, bad) ↦ cc
    | inl (step, found) ↦
        let f = find_step_lem k job.steps step found v.percents in
        let new : Step = record step { status = failed; message = error } in
        let s : IsStep k step new job = record { named = f.0; known = f.1; ranged = f.2 } in
        let w : IsValid (failed_at k error new job) = record {
          current_known = current_kept k step new job live v s k f.1;
          completion_known =
              current_kept k step new job live v s job.completion_step v.completion_known;
          percents = replaced-percents k step new job live v s;
          completed_all = λ q. cc;
          failed_error = λ q r. cc;
          other_error = inl refl;
        } in
        let q : failed_at k error new job ≡ job' = cc in subst IsValid q w
  ]

  complete_job-IsValid :
      (message : String) (job' : Job) → complete_job message job ≡ ok job' → IsValid job'
  unfolding complete_job
  complete_job-IsValid message job' e = elim (Bool-cases (all_completed job.steps)) [
    | inr some_left ↦ ground arith
    | inl all_done ↦
        let w : IsValid (completed_with message job) = record {
          current_known = v.completion_known;
          completion_known = v.completion_known;
          percents = v.percents;
          completed_all = λ q. all_done;
          failed_error = λ q r. cc;
          other_error = inr refl;
        } in
        let q : completed_with message job ≡ job' = ground arith in subst IsValid q w
  ]

  set_context-IsValid :
      (context : Json) (job' : Job) → set_context context job ≡ ok job' → IsValid job'
  unfolding set_context
  set_context-IsValid context job' e =
      let w : IsValid (record job { context = some context }) = record {
        current_known = v.current_known;
        completion_known = v.completion_known;
        percents = v.percents;
        completed_all = v.completed_all;
        failed_error = v.failed_error;
        other_error = v.other_error;
      } in
      let q : record job { context = some context } ≡ job' = cc in subst IsValid q w

  pub change_of-IsValid : (op : JobOp) (job' : Job) → change_of op job ≡ ok job' → IsValid job'
  change_of-IsValid (set context) job' e = set_context-IsValid context job' e
  change_of-IsValid (update k u) job' e = update_step-IsValid k u job' e
  change_of-IsValid (complete message) job' e = complete_job-IsValid message job' e
  change_of-IsValid (fail k error) job' e = fail_job-IsValid k error job' e
