-- ===== src/Tests/Server.antt =====
-- libs/server at the small database.
use mathlib.Core.Option.{some-injective}
use vm_scheduler.Prelude.{
  ℕ, zero, suc, ap, sym, ◌≡◌, ◌≢◌, ◌⊎◌, refl, none, some, [], ◌∷◌, get_elem?, arith,
}
use vm_scheduler.Common.Result.{
  success, failure, pg_exception, runtime_exception, error_ref_or_throw,
}
use vm_scheduler.State.Job
use vm_scheduler.Server.Messages.{Task, ExecutionJobState, job_queued, job_completed, task_queued}
use vm_scheduler.Server.Helpers.{replies_with, invalid_argument, job_status_to_proto}
use vm_scheduler.Server.Conversions.{
  ParseJson, parameters_of, proto_task_state_from_job_states,
  proto_task_execution_result_from_job_states, task_parameters_from_proto, validate_options,
  proto_statuses, job_states_to_task_status, some_status,
}
use vm_scheduler.Server.PublicApi.{add_task, get_task_state}
use vm_scheduler.Server.PublicApi.AddTask
use vm_scheduler.Server.PublicApi.AddTask.{IsValid, add_task-Follows}
use vm_scheduler.Server.PublicApi.NewTask.{IsNew, get_task_state-add_task}
use vm_scheduler.Server.PublicApi.TaskStatus.{Reports, task_messages-Reports}
use vm_scheduler.Server.AgentApi.{
  update_job_state, proto_execution_job_state_to_job_state, proto_job_status_to_job_status,
}
use vm_scheduler.Server.AgentApi.Report
use vm_scheduler.Server.AgentApi.Report.{update_job_state-Follows}
use vm_scheduler.Server.AgentApi.Moves.{Moved, update_job_state-moves}
use vm_scheduler.Storage.Rows.{JobRow, select_where, update_where}
use vm_scheduler.Storage.Transaction.{Session, ended}
use vm_scheduler.Storage.Jobs
use vm_scheduler.Storage.Jobs.{new_jobs, release_vm_resources}
use vm_scheduler.Storage.Jobs.Update.{HasUniqueIds}
use vm_scheduler.Storage.Reads.{get_job_states, job_state}
use vm_scheduler.Tests.Storage.{job_row, db, session, end_of}

-- A parser that takes every text.
abbrev parse : ParseJson
parse text = none

abbrev task : Task
task = record {
  cpu_cores = 2;
  memory_mb = 4;
  execution_s = 60;
  settings = "{}";
  job_count = 2;
  image_version = "v1";
  client_id = "client";
  job_options = "{}" ∷ "[]" ∷ [];
}

abbrev failing : Session
failing = record session { thrown = some pg_exception ∷ [] }

add_task-Follows_example :
    (IsValid parse task
      × AddTask.Follows (Jobs.add_task (parameters_of task) failing) (add_task parse task failing))
    ⊎ ((¬ IsValid parse task)
        × (add_task parse task failing ≡ ended (success (replies_with invalid_argument)) failing))
add_task-Follows_example = add_task-Follows parse task failing

-- The storage fails, and so does the handler.
add_task_throws : add_task parse task failing ≡ ended (failure runtime_exception) session
unfolding add_task task_parameters_from_proto validate_options Jobs.add_task error_ref_or_throw
add_task_throws = refl

-- The state after the addition, and the reply.
abbrev added : Session
added = end_of (add_task parse task session)

get_task_state-add_task_example :
    IsNew 2 (record { status = task_queued; job_states = job_queued ∷ job_queued ∷ [] })
unfolding add_task task_parameters_from_proto validate_options Jobs.add_task new_jobs get_task_state
    get_job_states select_where proto_task_state_from_job_states proto_statuses
    job_states_to_task_status some_status job_status_to_proto
get_task_state-add_task_example =
    get_task_state-add_task parse task session added added 2
      (record { status = task_queued; job_states = job_queued ∷ job_queued ∷ [] })
      (refl, (refl, (refl, tt))) refl refl

task_messages-Reports_example :
    Reports
      (job_row 3 Job.completed (some 1) ∷ [])
      (proto_task_state_from_job_states (job_state (job_row 3 Job.completed (some 1)) ∷ [])).status
    × Reports
        (job_row 3 Job.completed (some 1) ∷ [])
        (proto_task_execution_result_from_job_states
          (job_state (job_row 3 Job.completed (some 1)) ∷ [])).status
task_messages-Reports_example = task_messages-Reports (job_row 3 Job.completed (some 1) ∷ [])

-- The agent of VM 1 reports that job 2 has completed.
abbrev request : ExecutionJobState
request = record { vm_id = 1; job_id = 2; status = job_completed; result_url = some "url" }

update_job_state-Follows_example :
    (job_completed ≡ job_queued
      → update_job_state request session ≡ ended (success (replies_with invalid_argument)) session)
    × (job_completed ≢ job_queued
        → Report.Follows
            (Jobs.update_job_state 1 2 (proto_execution_job_state_to_job_state request) session)
            (update_job_state request session))
update_job_state-Follows_example = update_job_state-Follows request session

id_at : (i : ℕ) (job : JobRow) → get_elem? db.jobs i ≡ some job → job.id ≡ suc i
id_at zero job e = ap (λ (job : JobRow). job.id) (sym (some-injective _ job e))
id_at (suc zero) job e = ap (λ (job : JobRow). job.id) (sym (some-injective _ job e))
id_at (suc (suc zero)) job e = ap (λ (job : JobRow). job.id) (sym (some-injective _ job e))
id_at (suc (suc (suc i))) job e = cc

ids : HasUniqueIds db.jobs
ids i k a b ha hb e = omega (arith, id_at i a ha, id_at k b hb)

abbrev completed_job : JobRow
completed_job = record (job_row 2 Job.completed (some 1)) {
  result_url = some "url";
  finished = some 9000000;
}

update_job_state-moves_example :
    (after : JobRow) × (get_elem? (end_of (update_job_state request session)).stored.jobs 1
      ≡ some after)
    × ((after ≡ job_row 2 Job.running (some 1)) ⊎ Moved 1 2 (job_row 2 Job.running (some 1)) after)
unfolding update_job_state proto_job_status_to_job_status Jobs.update_job_state update_where
    select_where release_vm_resources
update_job_state-moves_example =
    update_job_state-moves request session (end_of (update_job_state request session)) ids refl 1
      (job_row 2 Job.running (some 1)) refl
