-- ===== src/Services/FailureDetector.antt =====
-- libs/failure_detector/impl/failure_detector.cpp: what is stale is restarted or given up.
use vm_scheduler.Prelude.{ℕ, List}
use vm_scheduler.State.Vm.{AllocatedVmInfo}
use vm_scheduler.Storage.Transaction.{Txn, ◌>>=◌, ◌>>◌, gives}
use vm_scheduler.Storage.Vms.{
  restart_stale_allocating_vms, terminate_stale_allocating_vms, terminate_vms_with_inactive_agents,
  terminate_vms_without_agents,
}
use vm_scheduler.Storage.Jobs.{cancel_timed_out_jobs}
use vm_scheduler.Services.Allocator.{CloudClient, logged, terminate_untracked_vms}

pub record FailureDetectorConfig : Type 0 where
  pub allocation_time_limit : ℕ
  pub agent_inactivity_time_limit : ℕ
  pub agent_startup_time_limit : ℕ
  pub termination_time_limit : ℕ
  pub vm_restart_attempt_count : ℕ
  pub job_restart_attempt_count : ℕ

module _ (config : FailureDetectorConfig) where
  unfoldable pub handle_stale_allocating_vms : Txn (Unit {0})
  handle_stale_allocating_vms =
      logged
        (restart_stale_allocating_vms config.allocation_time_limit config.vm_restart_attempt_count)
      >> logged (
          terminate_stale_allocating_vms config.allocation_time_limit
            config.vm_restart_attempt_count config.job_restart_attempt_count)

  abbrev pub handle_inactive_agents : Txn (Unit {0})
  handle_inactive_agents = logged (
      terminate_vms_with_inactive_agents config.agent_inactivity_time_limit
        config.job_restart_attempt_count)

  abbrev pub handle_vms_without_agents : Txn (Unit {0})
  handle_vms_without_agents = logged (
      terminate_vms_without_agents config.agent_startup_time_limit config.job_restart_attempt_count)

  -- One iteration; its answer is what the cloud is asked to terminate.
  unfoldable pub monitor : CloudClient → Txn (List AllocatedVmInfo)
  monitor cloud = do
    handle_stale_allocating_vms
    handle_inactive_agents
    handle_vms_without_agents
    terminated ← terminate_untracked_vms cloud
    logged cancel_timed_out_jobs
    gives terminated
