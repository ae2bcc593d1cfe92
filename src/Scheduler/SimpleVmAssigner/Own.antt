-- ===== src/Scheduler/SimpleVmAssigner/Own.antt =====
-- libs/scheduler/impl/simple_vm_assigner.cpp: every job has a new VM to itself.
use vm_scheduler.State.Plan.{State}
