-- ===== src/State/Job.antt =====
-- libs/state/include/task.h and libs/state/impl/task.cpp: job statuses, their names and their sets.
use Prim.Native.String.{String}
use vm_scheduler.Prelude.{ℕ, Bool, false, ◌||◌, Option, List, [], ◌∷◌, ◌==◌}
use vm_scheduler.Std.Names.{at_name}
use vm_scheduler.Common.Slot.{SlotCapacity}

pub data JobStatus : Type 0 where
  queued scheduled running completed cancelling cancelled error internal_error : JobStatus

unfoldable pub to_string : JobStatus → String
to_string queued = "queued"
to_string scheduled = "scheduled"
to_string running = "running"
to_string completed = "completed"
to_string cancelling = "cancelling"
to_string cancelled = "cancelled"
to_string error = "error"
to_string internal_error = "internal_error"

abbrev pub status_names : List (String × JobStatus)
status_names =
    ("queued", queued)
    ∷ ("scheduled", scheduled)
    ∷ ("running", running)
    ∷ ("completed", completed)
    ∷ ("cancelling", cancelling)
    ∷ ("cancelled", cancelled)
    ∷ ("error", error)
    ∷ ("internal_error", internal_error)
    ∷ []

unfoldable pub job_status_from_string : String → Option JobStatus
unfolding at_name
job_status_from_string s = at_name s status_names

-- The enumerators' numbers, by which C++ compares them.
abbrev pub number : JobStatus → ℕ
number queued = 0
number scheduled = 1
number running = 2
number completed = 3
number cancelling = 4
number cancelled = 5
number error = 6
number internal_error = 7

abbrev pub same_status : JobStatus → JobStatus → Bool
same_status a b = number a == number b

abbrev pub contains_status : JobStatus → List JobStatus → Bool
contains_status s [] = false
contains_status s (t ∷ ts) = same_status s t || contains_status s ts

-- `Cancelling` is in the set: "not actually final", says the source.
abbrev pub final_job_statuses : List JobStatus
final_job_statuses = completed ∷ cancelling ∷ cancelled ∷ error ∷ internal_error ∷ []

abbrev pub assigned_job_statuses : List JobStatus
assigned_job_statuses = scheduled ∷ running ∷ cancelling ∷ []

pub record QueuedJobInfo : Type 0 where
  pub id : ℕ
  pub required_capacity : SlotCapacity
