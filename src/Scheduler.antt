-- ===== src/Scheduler.antt =====
-- libs/scheduler: the ordering of jobs, their placement on VMs that run, the choice of new VMs.
pub mod Config
pub mod OrderedJobs
pub mod Strategies
pub mod JobAllocator
pub mod SlotSelector
pub mod SimpleVmAssigner
pub mod ComplexVmAssigner
pub mod VmAssigner
