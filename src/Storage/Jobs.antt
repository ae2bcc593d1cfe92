-- ===== src/Storage/Jobs.antt =====
-- libs/db/impl/pg_task_storage.cpp: tasks and jobs, from their creation to their end.
pub mod Cancel
pub mod Add
pub mod Update
use Prim.Native.String.{String}
use vm_scheduler.Prelude.{
  ℕ, suc, ◌+◌, Bool, false, not, ◌&&◌, Option, none, some, List, [], ◌∷◌, ◌++◌, map, elem, length,
  sum_of, ◌==◌, ltb, leb, if◌then◌else◌,
}
use vm_scheduler.Common.Slot.{SlotCapacity}
use vm_scheduler.Common.Result.{job_not_found, pg_exception}
use vm_scheduler.State.Job
use vm_scheduler.State.Job.{
  JobStatus, queued, cancelling, cancelled, final_job_statuses, QueuedJobInfo,
}
use vm_scheduler.State.Vm
use vm_scheduler.State.Vm.{active_vm_statuses, ActiveVm}
use vm_scheduler.State.Plan.{State}
use vm_scheduler.Storage.Rows.{VmRow, JobRow, TaskRow, Db, seconds, update_where, select_where}
use vm_scheduler.Storage.Transaction.{
  Txn, ◌>>=◌, ◌>>◌, gives, fails, exec, execute, query, try_pg, open_transaction, commit,
}

pub record TaskParameters : Type 0 where
  pub job_count : ℕ
  pub client_id : String
  pub settings : String
  pub image_version : String
  pub required_capacity : SlotCapacity
  pub estimation : ℕ
  pub job_options : List String

abbrev pub new_task : TaskParameters → ℕ → TaskRow
new_task p id = record {
  id = id;
  job_count = p.job_count;
  settings = p.settings;
  image_version = p.image_version;
  client_id = p.client_id;
}

abbrev pub new_job : TaskParameters → ℕ → ℕ → ℕ → String → JobRow
new_job p task_id now id options = record {
  id = id;
  status = queued;
  task_id = task_id;
  cpu = p.required_capacity.cpu;
  ram = p.required_capacity.ram;
  estimation = seconds p.estimation;
  options = options;
  result_url = none;
  created = now;
  started = none;
  finished = none;
  vm_id = none;
  restart_count = 0;
}

unfoldable pub new_jobs : TaskParameters → ℕ → ℕ → ℕ → List String → List JobRow
new_jobs p task_id now id [] = []
new_jobs p task_id now id (options ∷ rest) =
    new_job p task_id now id options ∷ new_jobs p task_id now (suc id) rest

abbrev pub insert_jobs : TaskParameters → ℕ → ℕ → Db → List ℕ × Db
insert_jobs p task_id now db =
    let added = new_jobs p task_id now db.next_job_id p.job_options in
    (
      map (λ job. job.id) added,
      record db { jobs = db.jobs ++ added; next_job_id = db.next_job_id + length p.job_options },
    )

-- No options make `VALUES` with no rows, which is no SQL.
abbrev pub insert_some : TaskParameters → ℕ → List String → Txn (List ℕ)
insert_some p task_id [] = fails pg_exception
insert_some p task_id (options ∷ rest) = exec (insert_jobs p task_id)

unfoldable pub add_task : TaskParameters → Txn (ℕ × List ℕ)
add_task p = try_pg (do
  open_transaction
  task_id ← exec (λ now db. (
    db.next_task_id,
    record db {
      tasks = db.tasks ++ new_task p db.next_task_id ∷ [];
      next_task_id = suc db.next_task_id;
    },
  ))
  job_ids ← insert_some p task_id p.job_options
  commit
  gives (task_id, job_ids))

-- `LEAST`.
abbrev pub least : ℕ → ℕ → ℕ
least a b = if leb a b then a else b

abbrev pub on_vm : ℕ → JobRow → Bool
on_vm v job = elim job.vm_id [ none ↦ false | some w ↦ w == v ]

-- The amounts of the jobs with the ids that name the VM, and whether there is such a job.
abbrev pub freed : (JobRow → ℕ) → List ℕ → ℕ → List JobRow → ℕ
freed amount ids v jobs = sum_of amount (select_where (λ job. elem job.id ids && on_vm v job) jobs)

abbrev pub release : List ℕ → List JobRow → VmRow → VmRow
release ids jobs vm = record vm {
  cpu_idle = least (vm.cpu_idle + freed (λ job. job.cpu) ids vm.id jobs) vm.cpu;
  ram_idle = least (vm.ram_idle + freed (λ job. job.ram) ids vm.id jobs) vm.ram;
}

abbrev pub some_job : List ℕ → List JobRow → VmRow → Bool
some_job ids jobs vm =
    not (length (select_where (λ job. elem job.id ids && on_vm vm.id job) jobs) == 0)

abbrev pub released : List ℕ → Db → Db
released ids db = record db {
  vms = update_where (some_job ids db.jobs) (release ids db.jobs) db.vms;
}

unfoldable pub release_vm_resources : List ℕ → Txn (Unit {0})
release_vm_resources [] = gives tt
release_vm_resources (id ∷ ids) = exec (λ now db. (tt, released (id ∷ ids) db))

abbrev pub cancel : JobRow → JobRow
cancel job = record job {
  status = if Job.same_status job.status queued then cancelled else cancelling;
}

abbrev pub cancelled_jobs : (JobRow → Bool) → Db → List JobRow × Db
cancelled_jobs condition db = (
  map cancel (select_where condition db.jobs),
  record db { jobs = update_where condition cancel db.jobs },
)

abbrev pub cancelled_ids : List JobRow → List ℕ
cancelled_ids jobs =
    map (λ job. job.id) (select_where (λ job. Job.same_status job.status cancelled) jobs)

unfoldable pub cancel_jobs : (ℕ → JobRow → Bool) → Txn (Unit {0})
cancel_jobs condition = try_pg (do
  open_transaction
  jobs ← exec (λ now db. cancelled_jobs (condition now) db)
  release_vm_resources (cancelled_ids jobs)
  commit)

abbrev pub unfinished : JobRow → Bool
unfinished job = not (Job.contains_status job.status final_job_statuses)

abbrev pub cancel_task : ℕ → Txn (Unit {0})
cancel_task task_id = cancel_jobs (λ now job. job.task_id == task_id && unfinished job)

abbrev pub cancel_timed_out_jobs : Txn (Unit {0})
cancel_timed_out_jobs =
    cancel_jobs (λ now job. ltb (job.created + job.estimation) now && unfinished job)

pub record JobState : Type 0 where
  pub status : JobStatus
  pub result_url : Option String

abbrev pub this_job : ℕ → ℕ → JobRow → Bool
this_job vm_id job_id job = on_vm vm_id job && job.id == job_id

abbrev pub is_final : JobStatus → Bool
is_final status = Job.contains_status status final_job_statuses

abbrev pub report : JobState → ℕ → JobRow → JobRow
report state now job = record job {
  result_url = state.result_url;
  status = state.status;
  started =
      if is_final state.status
      then job.started
      else elim job.started [ none ↦ some now | some t ↦ some t ];
  finished = if is_final state.status then some now else job.finished;
}

abbrev pub reported : ℕ → ℕ → JobState → ℕ → Db → Db
reported vm_id job_id state now db = record db {
  jobs =
      update_where (λ job. this_job vm_id job_id job && unfinished job) (report state now) db.jobs;
}

abbrev pub statuses_of_job : ℕ → ℕ → Db → List JobStatus
statuses_of_job vm_id job_id db =
    map (λ job. job.status) (select_where (this_job vm_id job_id) db.jobs)

abbrev pub ignores : JobStatus → JobState → Bool
ignores status state =
    Job.same_status status cancelling && not (Job.same_status state.status cancelled)

-- The end of the handler, once the status of the job is known.
abbrev pub save_report : ℕ → ℕ → JobState → Txn (Unit {0})
save_report vm_id job_id state = do
  execute (reported vm_id job_id state)
  release_vm_resources (if is_final state.status then job_id ∷ [] else [])
  commit

-- A report about a job being cancelled is dropped, unless it says that it is.
abbrev pub answer_report : ℕ → ℕ → JobState → List JobStatus → Txn (Unit {0})
answer_report vm_id job_id state [] = fails job_not_found
answer_report vm_id job_id state (status ∷ rest) =
    if ignores status state then gives tt else try_pg (save_report vm_id job_id state)

-- `SELECT … FOR UPDATE`.
abbrev pub lock_status : ℕ → ℕ → Txn (List JobStatus)
lock_status vm_id job_id =
    open_transaction >> exec (λ now db. (statuses_of_job vm_id job_id db, db))

unfoldable pub update_job_state : ℕ → ℕ → JobState → Txn (Unit {0})
update_job_state vm_id job_id state = do
  statuses ← try_pg (lock_status vm_id job_id)
  answer_report vm_id job_id state statuses

-- The state that a scheduling pass reads.
abbrev pub queued_job : JobRow → QueuedJobInfo
queued_job job = record { id = job.id; required_capacity = record { cpu = job.cpu; ram = job.ram } }

abbrev pub active_vm : VmRow → ActiveVm
active_vm vm = record {
  id = vm.id;
  total_capacity = record { cpu = vm.cpu; ram = vm.ram };
  idle_capacity = record { cpu = vm.cpu_idle; ram = vm.ram_idle };
}

abbrev pub get_queued_jobs : Txn (List QueuedJobInfo)
get_queued_jobs =
    query λ now db.
      (map queued_job (select_where (λ job. Job.same_status job.status queued) db.jobs), db)

abbrev pub get_active_vms : Txn (List ActiveVm)
get_active_vms = query λ now db. (
  map active_vm (select_where (λ vm. Vm.contains_status vm.status active_vm_statuses) db.vms),
  db,
)

unfoldable pub get_current_state : Txn State
get_current_state = do
  try_pg open_transaction
  queued_jobs ← get_queued_jobs
  vms ← get_active_vms
  gives (record { queued_jobs = queued_jobs; vms = vms })
