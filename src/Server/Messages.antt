-- ===== src/Server/Messages.antt =====
-- proto/structures: the messages. Enumerations are closed and required fields are there, as the
-- generated parser of proto2 has it; an optional field that is left out reads as the empty text.
use Prim.Native.String.{String}
use vm_scheduler.Prelude.{ℕ, Bool, Option, List, ◌==◌}
use vm_scheduler.Common.Slot.{SlotCapacity}

pub data ProtoJobStatus : Type 0 where
  job_queued job_running job_completed job_cancelled job_failed : ProtoJobStatus

pub data ProtoTaskStatus : Type 0 where
  task_queued task_running task_completed : ProtoTaskStatus

-- The enumerators' numbers.
abbrev proto_number : ProtoJobStatus → ℕ
proto_number job_queued = 1
proto_number job_running = 2
proto_number job_completed = 3
proto_number job_cancelled = 4
proto_number job_failed = 5

abbrev pub same_proto_status : ProtoJobStatus → ProtoJobStatus → Bool
same_proto_status a b = proto_number a == proto_number b

pub record Task : Type 0 where
  pub cpu_cores : ℕ
  pub memory_mb : ℕ
  pub execution_s : ℕ
  pub settings : String
  pub job_count : ℕ
  pub image_version : String
  pub client_id : String
  pub job_options : List String

pub record JobExecutionResult : Type 0 where
  pub status : ProtoJobStatus
  pub result_url : Option String

pub record TaskState : Type 0 where
  pub status : ProtoTaskStatus
  pub job_states : List ProtoJobStatus

pub record TaskExecutionResult : Type 0 where
  pub status : ProtoTaskStatus
  pub job_results : List JobExecutionResult

pub record AssignedJob : Type 0 where
  pub id : ℕ
  pub status : ProtoJobStatus

pub record JobToLaunch : Type 0 where
  pub id : ℕ
  pub image_version : String
  pub job_limits : SlotCapacity
  pub task_settings : String
  pub job_options : String

pub record ExecutionJobState : Type 0 where
  pub vm_id : ℕ
  pub job_id : ℕ
  pub status : ProtoJobStatus
  pub result_url : Option String
