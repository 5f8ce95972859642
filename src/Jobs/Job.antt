-- ===== src/Jobs/Job.antt =====
-- backend/services/upload_jobs.py: a job, its steps, and the changes that the methods of
-- `UploadJobManager` apply to a copy of it. A change that raises leaves the stored job as it was.
use Prim.Native.String.{◌++◌}
use paper_rag.Base.{
  ℕ, String, Bool, true, false, ◌&&◌, Option, none, some, List, [], ◌∷◌, map, min, ◌==◌, string_eq,
  if◌then◌else◌, Result, ok, raise, ◌>>=◌, all,
}
use paper_rag.Base.Int.{ℤ, pos, negsuc}
use paper_rag.Base.Json.{Json}

pub data Status : Type 0 where
  pending running completed failed : Status

pub data JobError : Type 0 where
  value_error : String → JobError
  runtime_error : String → JobError

pub record Step : Type 0 where
  pub key : String
  pub label : String
  pub percent : ℕ
  pub status : Status
  pub message : String

pub record Job : Type 0 where
  pub job_id : String
  pub filename : String
  pub status : Status
  pub current_step : String
  pub completion_step : String
  pub message : String
  pub context : Option Json
  pub total_chunks : ℕ
  pub processed_chunks : ℕ
  pub error : Option String
  pub created_at : ℕ
  pub updated_at : ℕ
  pub steps : List Step

-- `status in TERMINAL`
abbrev pub is_terminal : Status → Bool
is_terminal completed = true
is_terminal failed = true
is_terminal _ = false

abbrev pub is_completed : Status → Bool
is_completed completed = true
is_completed _ = false

abbrev pub is_failed : Status → Bool
is_failed failed = true
is_failed _ = false

abbrev pub Template : Type 0
Template = List (String × String)

abbrev pub default_steps : Template
default_steps =
    ("upload", "文档上传")
    ∷ ("cleanup", "清理旧版本")
    ∷ ("parse", "解析与分块")
    ∷ ("parent_store", "父级分块入库")
    ∷ ("vector_store", "向量化入库")
    ∷ []

abbrev pub delete_steps : Template
delete_steps =
    ("prepare", "准备删除")
    ∷ ("bm25", "同步 BM25 统计")
    ∷ ("milvus", "删除向量数据")
    ∷ ("parent_store", "删除父级分块")
    ∷ []

abbrev pub ingest_steps : Template
ingest_steps =
    ("scan", "扫描文件变更")
    ∷ ("parse", "解析与学术清洗")
    ∷ ("parent_store", "父级分块入库")
    ∷ ("vector_store", "向量化入库")
    ∷ ("bm25", "重建 BM25 索引")
    ∷ []

-- `key in keys`
unfoldable pub has_key : String → Template → Bool
has_key k [] = false
has_key k ((j, label) ∷ rest) = if j == k then true else has_key k rest

-- `len(set(keys)) == len(keys)`
unfoldable pub distinct : Template → Bool
unfolding has_key
distinct [] = true
distinct ((k, label) ∷ rest) = if has_key k rest then false else distinct rest

abbrev pub step_of : String × String → Step
step_of (k, label) = record { key = k; label = label; percent = 0; status = pending; message = "" }

-- `create_job`, with the identifier that `uuid4().hex` gives; the caller stores the job.
unfoldable pub new_job :
    String → ℕ → String → Template → String → String → String → Option Json → Result JobError Job
unfolding has_key distinct
new_job fresh now filename steps current message completion context =
    if distinct steps && (has_key current steps && has_key completion steps)
    then ok (record {
      job_id = fresh;
      filename = filename;
      status = pending;
      current_step = current;
      completion_step = completion;
      message = message;
      context = context;
      total_chunks = 0;
      processed_chunks = 0;
      error = none;
      created_at = now;
      updated_at = now;
      steps = map step_of steps;
    })
    else raise (value_error "任务步骤必须唯一，初始/完成步骤必须存在")

abbrev pub Change : Type 0
Change = Job → Result JobError Job

-- `_find_step`: the first step with the key
unfoldable pub find_step : String → List Step → Result JobError Step
find_step k [] = raise (value_error ("任务步骤不存在: " ++ k))
find_step k (s ∷ rest) = if s.key == k then ok s else find_step k rest

-- What `step.update(…)` does to the list that holds the step.
unfoldable pub replace_step : String → Step → List Step → List Step
replace_step k new [] = []
replace_step k new (s ∷ rest) = if s.key == k then new ∷ rest else s ∷ replace_step k new rest

-- `max(0, min(100, int(percent)))`
abbrev pub clamp : ℤ → ℕ
clamp (pos n) = min 100 n
clamp (negsuc n) = 0

-- one turn of the loop over `total_chunks` and `processed_chunks`
abbrev pub count_or : ℕ → Option ℤ → Result JobError ℕ
count_or old none = ok old
count_or old (some (pos n)) = ok n
count_or old (some (negsuc n)) = raise (value_error "分块数量不得为负数")

unfoldable pub set_context : Json → Change
set_context context job = ok (record job { context = some context })

-- The arguments of `update_step`.
pub record Update : Type 0 where
  pub percent : ℤ
  pub status : Status
  pub message : String
  pub total_chunks : Option ℤ
  pub processed_chunks : Option ℤ

-- The job with the step updated, and with these counts.
abbrev pub written : String → Update → Step → ℕ → ℕ → Job → Job
written k u step total processed job = record job {
  steps =
      replace_step k
        (record step { percent = clamp u.percent; status = u.status; message = u.message })
        job.steps;
  status = if is_failed u.status then failed else running;
  current_step = k;
  message = u.message;
  error = if is_failed u.status then some u.message else job.error;
  total_chunks = total;
  processed_chunks = processed;
}

unfoldable pub update_found : String → Update → Step → Change
update_found k u step job = do
  total ← count_or job.total_chunks u.total_chunks
  processed ← count_or job.processed_chunks u.processed_chunks
  ok (written k u step total processed job)

unfoldable pub update_step : String → Update → Change
unfolding find_step update_found
update_step k u job = do
  step ← find_step k job.steps
  if is_completed step.status then ok job else update_found k u step job

abbrev pub completion : String → Update
completion message = record {
  percent = pos 100;
  status = completed;
  message = message;
  total_chunks = none;
  processed_chunks = none;
}

unfoldable pub complete_step : String → String → Change
unfolding update_step
complete_step k message = update_step k (completion message)

abbrev pub all_completed : List Step → Bool
all_completed = all (λ s. is_completed s.status)

abbrev pub completed_with : String → Job → Job
completed_with message job = record job {
  status = completed;
  current_step = job.completion_step;
  message = message;
  error = none;
}

unfoldable pub complete_job : String → Change
complete_job message job =
    if all_completed job.steps
    then ok (completed_with message job)
    else raise (value_error "任务尚有未完成步骤，不能标记成功")

abbrev pub failed_at : String → String → Step → Job → Job
failed_at k error new job = record job {
  steps = replace_step k new job.steps;
  status = failed;
  current_step = k;
  message = error;
  error = some error;
}

unfoldable pub fail_job : String → String → Change
unfolding find_step replace_step
fail_job k error job = do
  step ← find_step k job.steps
  ok (failed_at k error (record step { status = failed; message = error }) job)
