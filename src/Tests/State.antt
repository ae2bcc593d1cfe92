-- ===== src/Tests/State.antt =====
-- libs/state: the names of statuses.
use vm_scheduler.Prelude.{◌≡◌, refl, some, none}
use vm_scheduler.State.Job
use vm_scheduler.State.Vm

running_test : Job.job_status_from_string "running" ≡ some Job.running
unfolding Job.job_status_from_string
running_test = refl

unknown_test : Vm.vm_status_from_string "lost" ≡ none
unfolding Vm.vm_status_from_string
unknown_test = refl
