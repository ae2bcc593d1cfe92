-- ===== src/Storage/Reads.antt =====
-- libs/db/impl/pg_task_storage.cpp: what the interfaces of the server read of the jobs.
use Prim.Native.String.{String}
use vm_scheduler.Prelude.{ℕ, Option, none, some, List, [], ◌∷◌, ◌++◌, map, ◌==◌}
use vm_scheduler.Common.Slot.{SlotCapacity}
use vm_scheduler.Common.Result.{job_not_found}
use vm_scheduler.Storage.Rows.{JobRow, TaskRow, Db, select_where}
use vm_scheduler.Storage.Transaction.{
  Txn, ◌>>=◌, ◌>>◌, gives, fails, exec, try_pg, open_transaction,
}
use vm_scheduler.Storage.Jobs.{JobState, this_job}

-- `COALESCE(…, '')`.
abbrev pub coalesce : Option String → String
coalesce none = ""
coalesce (some text) = text

abbrev pub job_state : JobRow → JobState
job_state job = record { status = job.status; result_url = some (coalesce job.result_url) }

abbrev pub states_of_task : ℕ → Db → List JobState
states_of_task task_id db = map job_state (select_where (λ job. job.task_id == task_id) db.jobs)

unfoldable pub get_job_states : ℕ → Txn (List JobState)
get_job_states task_id =
    try_pg (open_transaction >> exec (λ now db. (states_of_task task_id db, db)))

pub record JobToLaunch : Type 0 where
  pub id : ℕ
  pub capacity_limits : SlotCapacity
  pub task_settings : String
  pub image_version : String
  pub job_options : String

abbrev pub launched : JobRow → TaskRow → JobToLaunch
launched job task = record {
  id = job.id;
  capacity_limits = record { cpu = job.cpu; ram = job.ram };
  task_settings = task.settings;
  image_version = task.image_version;
  job_options = job.options;
}

-- `jobs JOIN tasks ON jobs.task_id = tasks.id`.
unfoldable pub joined : List TaskRow → List JobRow → List JobToLaunch
joined tasks [] = []
joined tasks (job ∷ jobs) =
    map (launched job) (select_where (λ task. job.task_id == task.id) tasks) ++ joined tasks jobs

abbrev pub jobs_to_launch : ℕ → ℕ → Db → List JobToLaunch
jobs_to_launch vm_id job_id db = joined db.tasks (select_where (this_job vm_id job_id) db.jobs)

abbrev pub first_to_launch : List JobToLaunch → Txn JobToLaunch
first_to_launch [] = fails job_not_found
first_to_launch (job ∷ rest) = gives job

unfoldable pub get_job_to_launch : ℕ → ℕ → Txn JobToLaunch
get_job_to_launch vm_id job_id = do
  jobs ← try_pg (open_transaction >> exec (λ now db. (jobs_to_launch vm_id job_id db, db)))
  first_to_launch jobs
