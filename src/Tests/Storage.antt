-- ===== src/Tests/Storage.antt =====
-- libs/db at a small database: a queued, a running and a completed job, one VM, one plan.
use vm_scheduler.Prelude.{
  ℕ, ◌⊎◌, ◌≡◌, refl, true, false, Option, none, some, [], ◌∷◌, get_elem?, arith,
}
use vm_scheduler.Common.Result.{pg_exception, in_doubt, success, failure}
use vm_scheduler.Std.Map.{lookup, has_key, emplace}
use vm_scheduler.State.Job
use vm_scheduler.State.Job.{JobStatus, final_job_statuses}
use vm_scheduler.State.Vm
use vm_scheduler.State.Plan.{desired, StateChange}
use vm_scheduler.Storage.Rows.{
  VmRow, JobRow, PlanRow, Db, update_where, select_where, set_vm_status,
}
use vm_scheduler.Storage.Transaction.{Session, Run, ended, crashed}
use vm_scheduler.Storage.Plan.{
  max_of, acquire_lock, is_scheduling_relevant, refresh_plan_activity_ts, new_plan,
  start_scheduling,
}
use vm_scheduler.Storage.Plan.Start.{Starts, start_scheduling-Starts}
use vm_scheduler.Storage.Commit.{
  get_job_statuses_with_lock, get_vm_statuses_with_lock, some_final, some_inactive, check_conflicts,
  terminate_vms, take_capacity, update_vm_capacities, allocate_new_vms, targets, schedule_job,
  apply_job_vm_assignments, commit_plan_change,
}
use vm_scheduler.Storage.Commit.Atomic.{commit_plan_change-atomic}
use vm_scheduler.Storage.Commit.Committed.{Committed, commit_plan_change-Committed}
use vm_scheduler.Storage.Commit.Jobs.{commit_plan_change-jobs}
use vm_scheduler.Storage.Jobs.{JobState, cancel_jobs, cancel_task, release_vm_resources}
use vm_scheduler.Storage.Jobs.Cancel.{cancel_task-jobs}
use vm_scheduler.Storage.Operation
use vm_scheduler.Storage.Operation.{perform}
use vm_scheduler.Storage.Operation.Finished.{Stores, AllBounded, perform-final, perform-AllBounded}

abbrev pub job_row : ℕ → JobStatus → Option ℕ → JobRow
job_row id status vm_id = record {
  id = id;
  status = status;
  task_id = 1;
  cpu = 2;
  ram = 4;
  estimation = 1000;
  options = "{}";
  result_url = none;
  created = 0;
  started = none;
  finished = none;
  vm_id = vm_id;
  restart_count = 0;
}

abbrev pub vm_row : VmRow
vm_row = record {
  id = 1;
  status = Vm.agent_started;
  cpu = 4;
  ram = 8;
  cpu_idle = 2;
  ram_idle = 4;
  cloud_vm_id = some "i-1";
  cloud_vm_type = some "c5.xlarge";
  last_status_update = 0;
  agent_activity = some 5;
  restart_count = 0;
}

abbrev plan_row : PlanRow
plan_row = record { id = 7; created = 10; updated = 10; backend_id = "backend" }

abbrev pub db : Db
db = record {
  vms = vm_row ∷ [];
  jobs =
      job_row 1 Job.queued none
      ∷ job_row 2 Job.running (some 1)
      ∷ job_row 3 Job.completed (some 1)
      ∷ [];
  tasks = [];
  plans = plan_row ∷ [];
  locks = 5 ∷ [];
  next_vm_id = 2;
  next_job_id = 4;
  next_task_id = 2;
  next_plan_id = 8;
}

abbrev pub session : Session
session = record { stored = db; seen = db; now = 9000000; thrown = [] }

-- A new VM for the queued job.
abbrev change : StateChange
change = record {
  job_to_vm = (1, desired 0) ∷ [];
  desired_slot_map =
      (0, record { total = record { cpu = 4; ram = 8 }; idle = record { cpu = 2; ram = 4 } }) ∷ [];
  updated_idle_capacities = (1, record { cpu = 2; ram = 4 }) ∷ [];
  vms_to_terminate = [];
}

abbrev pub end_of {ℓ} : {A : Type ℓ} → Run A → Session
end_of (ended r t) = t
end_of crashed = session

abbrev after : Session
after = end_of (commit_plan_change change 7 session)

committed : commit_plan_change change 7 session ≡ ended (success tt) after
unfolding commit_plan_change acquire_lock is_scheduling_relevant max_of select_where check_conflicts
    get_job_statuses_with_lock get_vm_statuses_with_lock some_final some_inactive terminate_vms
    update_where set_vm_status update_vm_capacities take_capacity lookup allocate_new_vms emplace
    apply_job_vm_assignments targets schedule_job refresh_plan_activity_ts
committed = refl

commit_plan_change-Committed_example : Committed change 7 session after
commit_plan_change-Committed_example = commit_plan_change-Committed change 7 session after committed

commit_plan_change-jobs_example :
    (Job.contains_status Job.queued final_job_statuses ≡ true
      → get_elem? after.stored.jobs 0 ≡ some (job_row 1 Job.queued none))
    × (has_key 1 change.job_to_vm ≡ false
        → get_elem? after.stored.jobs 0 ≡ some (job_row 1 Job.queued none))
    × (has_key 1 change.job_to_vm ≡ true
        → (id : ℕ) × (get_elem? after.stored.jobs 0 ≡ some (job_row 1 Job.scheduled (some id))))
commit_plan_change-jobs_example =
    commit_plan_change-jobs change 7 session after 0 (job_row 1 Job.queued none) committed refl

-- The commit throws, but has been made all the same.
abbrev doubtful : Session
doubtful = record session {
  thrown = none ∷ none ∷ none ∷ none ∷ none ∷ none ∷ none ∷ none ∷ none ∷ some in_doubt ∷ [];
}

abbrev after_doubt : Session
after_doubt = end_of (commit_plan_change change 7 doubtful)

doubted : commit_plan_change change 7 doubtful ≡ ended (failure pg_exception) after_doubt
unfolding commit_plan_change acquire_lock is_scheduling_relevant max_of select_where check_conflicts
    get_job_statuses_with_lock get_vm_statuses_with_lock some_final some_inactive terminate_vms
    update_where set_vm_status update_vm_capacities take_capacity lookup allocate_new_vms emplace
    apply_job_vm_assignments targets schedule_job refresh_plan_activity_ts
doubted = refl

doubted_jobs : get_elem? after_doubt.stored.jobs 0 ≡ some (job_row 1 Job.scheduled (some 2))
unfolding commit_plan_change acquire_lock is_scheduling_relevant max_of select_where check_conflicts
    get_job_statuses_with_lock get_vm_statuses_with_lock some_final some_inactive terminate_vms
    update_where set_vm_status update_vm_capacities take_capacity lookup allocate_new_vms emplace
    apply_job_vm_assignments targets schedule_job refresh_plan_activity_ts
doubted_jobs = refl

commit_plan_change-atomic_example :
    (after_doubt.stored ≡ doubtful.stored) ⊎ Committed change 7 doubtful after_doubt
commit_plan_change-atomic_example =
    commit_plan_change-atomic change 7 doubtful after_doubt pg_exception doubted

abbrev report : JobState
report = record { status = Job.error; result_url = some "s3://results" }

perform-final_example :
    Stores
      (λ db. get_elem? db.jobs 2 ≡ some (job_row 3 Job.completed (some 1)))
      (perform (Operation.update_job_state 1 3 report) session)
perform-final_example =
    perform-final 2 (job_row 3 Job.completed (some 1)) refl (Operation.update_job_state 1 3 report)
      session refl

perform-AllBounded_example :
    Stores AllBounded (perform (Operation.update_job_state 1 2 report) session)
perform-AllBounded_example =
    perform-AllBounded (Operation.update_job_state 1 2 report) session (ground arith)

start_scheduling-Starts_example :
    Starts 8
      (plan_row ∷ new_plan 9000000 "other" db ∷ [])
      (start_scheduling "other" 2 (some 3) session)
unfolding max_of
start_scheduling-Starts_example =
    start_scheduling-Starts "other" 2 (some 3) db db 9000000 (omega arith)

abbrev after_cancel : Session
after_cancel = end_of (cancel_task 1 session)

cancel_done : cancel_task 1 session ≡ ended (success tt) after_cancel
unfolding cancel_jobs update_where select_where release_vm_resources
cancel_done = refl

cancel_task-jobs_example :
    get_elem? after_cancel.stored.jobs 1 ≡ some (job_row 2 Job.cancelling (some 1))
cancel_task-jobs_example =
    cancel_task-jobs 1 1 (job_row 2 Job.running (some 1)) session after_cancel cancel_done refl
