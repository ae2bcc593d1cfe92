-- ===== src/State/Names.antt =====
-- The texts of the statuses, which the database stores, are read back as the statuses.
use Prim.Native.String.{String}
use vm_scheduler.Prelude.{◌≡◌, ◌↔◌, refl, some}
use vm_scheduler.Std.Names.{at_name-eq-some}
use vm_scheduler.State.Job
use vm_scheduler.State.Job.{
  JobStatus, queued, scheduled, running, completed, cancelling, cancelled, error, internal_error,
  job_status_from_string,
}
use vm_scheduler.State.Vm
use vm_scheduler.State.Vm.{
  VmStatus, pending_allocation, allocating, allocated, agent_started, pending_termination,
  terminating, terminated, vm_status_from_string,
}

job_status_from_string-to_string :
    (status : JobStatus) → job_status_from_string (Job.to_string status) ≡ some status
unfolding job_status_from_string Job.to_string
job_status_from_string-to_string queued = refl
job_status_from_string-to_string _ = refl

vm_status_from_string-to_string :
    (status : VmStatus) → vm_status_from_string (Vm.to_string status) ≡ some status
unfolding vm_status_from_string Vm.to_string
vm_status_from_string-to_string pending_allocation = refl
vm_status_from_string-to_string _ = refl

-- A text is read as a job status exactly when it is the name of that status.
job_status_from_string_iff :
    (s : String) (status : JobStatus)
    → (job_status_from_string s ≡ some status) ↔ (s ≡ Job.to_string status)
unfolding job_status_from_string Job.to_string
job_status_from_string_iff s status = (
  at_name-eq-some Job.to_string s status Job.status_names
      (refl, (refl, (refl, (refl, (refl, (refl, (refl, (refl, tt)))))))),
  λ e. rw e (job_status_from_string-to_string status),
)

-- A text is read as a VM status exactly when it is the name of that status.
vm_status_from_string_iff :
    (s : String) (status : VmStatus)
    → (vm_status_from_string s ≡ some status) ↔ (s ≡ Vm.to_string status)
unfolding vm_status_from_string Vm.to_string
vm_status_from_string_iff s status = (
  at_name-eq-some Vm.to_string s status Vm.status_names
      (refl, (refl, (refl, (refl, (refl, (refl, (refl, tt))))))),
  λ e. rw e (vm_status_from_string-to_string status),
)
