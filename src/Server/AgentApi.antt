-- ===== src/Server/AgentApi.antt =====
-- libs/server/impl/agent_api_service.cpp: the handlers of the agents' interface.
pub mod Report
pub mod Moves
use vm_scheduler.Prelude.{ℕ, Bool, some, List, [], ◌∷◌, map, if◌then◌else◌}
use vm_scheduler.Common.Result.{
  Result, success, failure, holds_error_type, job_not_found, job_cancelled,
}
use vm_scheduler.State.Job
use vm_scheduler.State.Job.{JobStatus, queued, running, completed, cancelled, error}
use vm_scheduler.Server.Messages
use vm_scheduler.Server.Messages.{
  ProtoJobStatus, job_queued, job_running, job_completed, job_cancelled, job_failed, AssignedJob,
  ExecutionJobState,
}
use vm_scheduler.Server.Helpers.{
  Reply, not_found, invalid_argument, call_cancelled, replies_with, replies_ok,
  grpc_internal_error_status, attempt, job_status_to_proto,
}
use vm_scheduler.Storage.Agents
use vm_scheduler.Storage.Jobs
use vm_scheduler.Storage.Jobs.{JobState}
use vm_scheduler.Storage.Reads
use vm_scheduler.Storage.Reads.{coalesce}
use vm_scheduler.Storage.Transaction.{Txn, ◌>>=◌, gives}

abbrev pub assigned_jobs : List (ℕ × JobStatus) → List AssignedJob
assigned_jobs jobs = map (λ job. record { id = job.0; status = job_status_to_proto job.1 }) jobs

abbrev pub set_job_to_launch : Reads.JobToLaunch → Messages.JobToLaunch
set_job_to_launch job = record {
  id = job.id;
  image_version = job.image_version;
  job_limits = job.capacity_limits;
  task_settings = job.task_settings;
  job_options = job.job_options;
}

unfoldable pub proto_job_status_to_job_status : ProtoJobStatus → JobStatus
proto_job_status_to_job_status job_queued = queued
proto_job_status_to_job_status job_running = running
proto_job_status_to_job_status job_completed = completed
proto_job_status_to_job_status job_cancelled = cancelled
proto_job_status_to_job_status job_failed = error

abbrev pub proto_execution_job_state_to_job_state : ExecutionJobState → JobState
proto_execution_job_state_to_job_state state = record {
  status = proto_job_status_to_job_status state.status;
  result_url = some (coalesce state.result_url);
}

abbrev pub allowed_agent_update_job_statuses : List JobStatus
allowed_agent_update_job_statuses = running ∷ completed ∷ cancelled ∷ error ∷ []

abbrev pub answer_assigned : Result (List (ℕ × JobStatus)) → Reply (List AssignedJob)
answer_assigned (failure e) = grpc_internal_error_status e
answer_assigned (success jobs) = replies_ok (assigned_jobs jobs)

unfoldable pub get_assigned_jobs : ℕ → Txn (Reply (List AssignedJob))
get_assigned_jobs vm_id = do
  jobs ← attempt (Agents.get_assigned_jobs vm_id)
  gives (answer_assigned jobs)

abbrev pub answer_launch : Result Reads.JobToLaunch → Reply Messages.JobToLaunch
answer_launch (success job) = replies_ok (set_job_to_launch job)
answer_launch (failure e) =
    if holds_error_type {A = Reads.JobToLaunch} job_not_found (failure e)
    then replies_with not_found
    else grpc_internal_error_status e

unfoldable pub get_job_to_launch : ℕ → ℕ → Txn (Reply Messages.JobToLaunch)
get_job_to_launch vm_id job_id = do
  job ← attempt (Reads.get_job_to_launch vm_id job_id)
  gives (answer_launch job)

abbrev pub answer_updated : Result (Unit {0}) → Reply (Unit {0})
answer_updated (success _) = replies_ok tt
answer_updated (failure e) =
    if holds_error_type {A = Unit {0}} job_not_found (failure e)
    then replies_with not_found
    else if holds_error_type {A = Unit {0}} job_cancelled (failure e)
    then replies_with call_cancelled
    else grpc_internal_error_status e

abbrev pub is_allowed : JobState → Bool
is_allowed state = Job.contains_status state.status allowed_agent_update_job_statuses

abbrev pub save_state : ℕ → ℕ → JobState → Txn (Reply (Unit {0}))
save_state vm_id job_id state = do
  result ← attempt (Jobs.update_job_state vm_id job_id state)
  gives (answer_updated result)

unfoldable pub update_job_state : ExecutionJobState → Txn (Reply (Unit {0}))
update_job_state request =
    let state = proto_execution_job_state_to_job_state request in
    if is_allowed state
    then save_state request.vm_id request.job_id state
    else gives (replies_with invalid_argument)
