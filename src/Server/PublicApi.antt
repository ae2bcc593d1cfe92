-- ===== src/Server/PublicApi.antt =====
-- libs/server/impl/public_api_service.cpp: the handlers of the clients' interface.
pub mod AddTask
pub mod NewTask
pub mod TaskStatus
use vm_scheduler.Prelude.{ℕ, List, [], ◌∷◌}
use vm_scheduler.Common.Result.{Result, success, failure, error_ref_or_throw}
use vm_scheduler.Server.Messages.{Task, TaskState, TaskExecutionResult}
use vm_scheduler.Server.Helpers.{
  Reply, not_found, invalid_argument, replies_with, replies_ok, grpc_internal_error_status, attempt,
  throws,
}
use vm_scheduler.Server.Conversions.{
  ParseJson, task_parameters_from_proto, proto_task_state_from_job_states,
  proto_task_execution_result_from_job_states,
}
use vm_scheduler.Storage.Jobs
use vm_scheduler.Storage.Jobs.{TaskParameters, JobState}
use vm_scheduler.Storage.Reads.{get_job_states}
use vm_scheduler.Storage.Transaction.{Txn, ◌>>=◌, gives}

-- Where the storage fails, the error is asked of the parameters, which hold none.
abbrev pub answer_added : TaskParameters → Result (ℕ × List ℕ) → Txn (Reply ℕ)
answer_added parameters (success (task_id, job_ids)) = gives (replies_ok task_id)
answer_added parameters (failure e) = do
  error ← throws (error_ref_or_throw (success parameters))
  gives (grpc_internal_error_status error)

abbrev pub add_with : Result TaskParameters → Txn (Reply ℕ)
add_with (failure e) = gives (replies_with invalid_argument)
add_with (success parameters) = do
  result ← attempt (Jobs.add_task parameters)
  answer_added parameters result

unfoldable pub add_task : ParseJson → Task → Txn (Reply ℕ)
add_task parse task = add_with (task_parameters_from_proto parse task)

-- No jobs are no task.
abbrev pub answer_states {ℓ} : {A : Type ℓ} → (List JobState → A) → Result (List JobState) → Reply A
answer_states f (failure e) = grpc_internal_error_status e
answer_states f (success []) = replies_with not_found
answer_states f (success (state ∷ states)) = replies_ok (f (state ∷ states))

unfoldable pub get_task_state : ℕ → Txn (Reply TaskState)
get_task_state task_id = do
  states ← attempt (get_job_states task_id)
  gives (answer_states proto_task_state_from_job_states states)

unfoldable pub get_task_result : ℕ → Txn (Reply TaskExecutionResult)
get_task_result task_id = do
  states ← attempt (get_job_states task_id)
  gives (answer_states proto_task_execution_result_from_job_states states)

abbrev pub answer_cancelled : Result (Unit {0}) → Reply (Unit {0})
answer_cancelled (failure e) = grpc_internal_error_status e
answer_cancelled (success _) = replies_ok tt

unfoldable pub cancel_running_jobs : ℕ → Txn (Reply (Unit {0}))
cancel_running_jobs task_id = do
  result ← attempt (Jobs.cancel_task task_id)
  gives (answer_cancelled result)

unfoldable pub health_check : Txn (Reply (Unit {0}))
health_check = gives (replies_ok tt)
