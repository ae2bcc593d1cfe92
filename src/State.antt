-- ===== src/State.antt =====
-- libs/state: the statuses of jobs and VMs, and the plan that a scheduling pass computes.
pub mod Job
pub mod Vm
pub mod Plan
pub mod Names
