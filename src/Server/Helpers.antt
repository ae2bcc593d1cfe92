-- ===== src/Server/Helpers.antt =====
-- libs/server/impl/helpers.cpp, and what a handler is: a call that works on the storage and replies
-- with a status of gRPC. An exception that leaves a handler is a failure of the run, not a reply.
use vm_scheduler.Prelude.{Option, none, some}
use vm_scheduler.Common.Result.{Exception, Result, success, failure}
use vm_scheduler.State.Job.{
  JobStatus, queued, scheduled, running, completed, cancelling, cancelled, error, internal_error,
}
use vm_scheduler.Server.Messages.{
  ProtoJobStatus, job_queued, job_running, job_completed, job_cancelled, job_failed,
}
use vm_scheduler.Storage.Transaction.{Run, ended, crashed, Txn, gives, fails}

-- The codes that the handlers use; the texts of the errors are left out.
pub data StatusCode : Type 0 where
  ok invalid_argument not_found call_cancelled internal : StatusCode

pub record Reply {ℓ} (A : Type ℓ) : Type ℓ where
  pub code : StatusCode
  pub response : Option A

module _ {ℓ} {A : Type ℓ} where
  abbrev pub replies_with : StatusCode → Reply A
  replies_with code = record { code = code; response = none }

  abbrev pub replies_ok : A → Reply A
  replies_ok response = record { code = ok; response = some response }

  -- The exception is written to the log, and the client gets the id of an incident.
  abbrev pub grpc_internal_error_status : Exception → Reply A
  grpc_internal_error_status e = replies_with internal

  -- A `noexcept` function of the storage hands its result over, whichever it is.
  abbrev pub handed_over : Run A → Run (Result A)
  handed_over (ended r s) = ended (success r) s
  handed_over crashed = crashed

  abbrev pub attempt : Txn A → Txn (Result A)
  attempt m s = handed_over (m s)

  -- A result whose error is thrown.
  abbrev pub throws : Result A → Txn A
  throws (success a) = gives a
  throws (failure e) = fails e

unfoldable pub job_status_to_proto : JobStatus → ProtoJobStatus
job_status_to_proto queued = job_queued
job_status_to_proto scheduled = job_queued
job_status_to_proto running = job_running
job_status_to_proto completed = job_completed
job_status_to_proto cancelling = job_cancelled
job_status_to_proto cancelled = job_cancelled
job_status_to_proto error = job_failed
job_status_to_proto internal_error = job_failed
