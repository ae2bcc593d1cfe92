-- ===== src/Server/Conversions.antt =====
-- libs/server/impl/public_api_service.cpp: a task's parameters from the client's message, and the
-- messages about a task's jobs.
use Prim.Native.String.{String}
use vm_scheduler.Prelude.{
  ℕ, Bool, false, Option, none, some, List, [], ◌∷◌, map, ◌||◌, ◌==◌, length, if◌then◌else◌,
}
use vm_scheduler.Common.Result.{Result, success, failure, input_validation, ◌>>◌}
use vm_scheduler.Server.Messages.{
  ProtoJobStatus, job_running, job_queued, same_proto_status, ProtoTaskStatus, task_running,
  task_queued, task_completed, Task, JobExecutionResult, TaskState, TaskExecutionResult,
}
use vm_scheduler.Server.Helpers.{job_status_to_proto}
use vm_scheduler.Storage.Jobs.{TaskParameters, JobState}

-- `rapidjson::Document::Parse`: the position of the error, if there is one.
abbrev pub ParseJson : Type 0
ParseJson = String → Option ℕ

abbrev pub parameters_of : Task → TaskParameters
parameters_of task = record {
  required_capacity = record { cpu = task.cpu_cores; ram = task.memory_mb };
  estimation = task.execution_s;
  job_count = task.job_count;
  settings = task.settings;
  image_version = task.image_version;
  client_id = task.client_id;
  job_options = task.job_options;
}

module _ (parse : ParseJson) where
  abbrev pub validated : Option ℕ → Result (Unit {0})
  validated none = success tt
  validated (some position) = failure input_validation

  abbrev pub validate_json : String → Result (Unit {0})
  validate_json text = validated (parse text)

  -- The loop over the options, which ends at the first that is no JSON.
  unfoldable pub validate_options : List String → Result (Unit {0})
  validate_options [] = success tt
  validate_options (options ∷ rest) = validate_json options >> validate_options rest

  abbrev pub validate_proto_task_parameters : Task → Result (Unit {0})
  validate_proto_task_parameters task =
      if length task.job_options == task.job_count
      then validate_json task.settings >> validate_options task.job_options
      else failure input_validation

  unfoldable pub task_parameters_from_proto : Task → Result TaskParameters
  task_parameters_from_proto task =
      validate_proto_task_parameters task >> success (parameters_of task)

-- `std::find_if` with a status.
unfoldable pub some_status : ProtoJobStatus → List ProtoJobStatus → Bool
some_status status [] = false
some_status status (s ∷ statuses) = same_proto_status s status || some_status status statuses

unfoldable pub job_states_to_task_status : List ProtoJobStatus → ProtoTaskStatus
job_states_to_task_status statuses =
    if some_status job_running statuses
    then task_running
    else if some_status job_queued statuses
    then task_queued
    else task_completed

unfoldable pub proto_statuses : List JobState → List ProtoJobStatus
proto_statuses states = map (λ state. job_status_to_proto state.status) states

unfoldable pub proto_task_state_from_job_states : List JobState → TaskState
proto_task_state_from_job_states states = record {
  status = job_states_to_task_status (proto_statuses states);
  job_states = proto_statuses states;
}

abbrev pub job_result : JobState → JobExecutionResult
job_result state = record {
  status = job_status_to_proto state.status;
  result_url = state.result_url;
}

unfoldable pub proto_task_execution_result_from_job_states : List JobState → TaskExecutionResult
proto_task_execution_result_from_job_states states =
    let results = map job_result states in
    record {
      status = job_states_to_task_status (map (λ result. result.status) results);
      job_results = results;
    }
