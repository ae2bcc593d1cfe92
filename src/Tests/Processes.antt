-- ===== src/Tests/Processes.antt =====
-- libs/concurrency and libs/task_registry: a thread that was woken and stopped, and the modes of one
-- configuration.
use vm_scheduler.Prelude.{◌≡◌, refl, [], ◌∷◌, arith, inr, List, none, some, true, false}
use vm_scheduler.Common.Result.{success}
use vm_scheduler.Scheduler.Config.{simple}
use vm_scheduler.Services.Scheduler.{SchedulerConfig, create_scheduler, is_sorted}
use vm_scheduler.Aws.Config.{Environment}
use vm_scheduler.Common.Slot.{SlotCapacity}
use vm_scheduler.Zookeeper.DistLock.{new_lock}
use vm_scheduler.TaskRegistry.{
  Config, scheduler_service, core_scheduler, full_scheduler, calls_allocate, calls_terminate,
  calls_monitor, calls_schedule, scheduler_mode_from_string, create_task_registry, create_zk_config,
  made_lock,
}
use vm_scheduler.TaskRegistry.Modes.{DividedAll, in_mode, create_task_registry-DividedAll}
use vm_scheduler.Concurrency.{
  Start, reads, new_thread, in_payload, begins, returns, awakes, passes, Reach, start, next,
}
use vm_scheduler.Concurrency.Spaced.{Spaced, Reach-Spaced}

-- The clock is read at 0 and the payload begins at 4; then it is read and the payload begins at 5.
abbrev twice : List Start
twice = record { read = 5; begun = 5 } ∷ record { read = 0; begun = 4 } ∷ []

reached : Reach 5 0 (record (new_thread 5 0) { position = in_payload 5; starts = twice; now = 5 })
reached =
    next
      (next
        (next
          (next
            (next
              (next (next (next start (reads refl refl)) (passes 4 (omega arith))) (begins 0 refl))
              (returns 0 refl))
            (passes 5 (omega arith)))
          (awakes 0 refl (inr (omega arith))))
        (reads refl refl))
      (begins 5 refl)

Reach-Spaced_example : Spaced 5 twice
Reach-Spaced_example = Reach-Spaced 5 0 _ reached

abbrev scheduler_config : SchedulerConfig
scheduler_config = record {
  scheduling_interval = 60;
  vm_assigner_type = simple;
  complex_vm_assigner_config = none;
}

abbrev slots : List SlotCapacity
slots = record { cpu = 2; ram = 8 } ∷ record { cpu = 4; ram = 16 } ∷ []

-- Every variable is there.
abbrev env : Environment
env = record { text = λ name. some "localhost"; number = λ name. some 5 }

abbrev config : Config
config = record {
  allocation_interval = 60;
  schedule_interval = 30;
  detect_failures_interval = 300;
  mode = full_scheduler;
  use_zk_dist_lock = true;
}

mode_test : scheduler_mode_from_string "core" ≡ success core_scheduler
unfolding scheduler_mode_from_string
mode_test = refl

full_test :
    create_task_registry env (λ address. true) config scheduler_config slots true
    ≡ success (record {
      scheduler = record { id = "1234"; config = scheduler_config; possible_slots = slots };
      dist_lock = some new_lock;
      threads =
          record { payload = calls_allocate; interval = 60 }
          ∷ record { payload = calls_terminate; interval = 60 }
          ∷ record { payload = calls_monitor; interval = 300 }
          ∷ record { payload = calls_schedule; interval = 30 }
          ∷ [];
    })
unfolding create_task_registry create_zk_config create_scheduler is_sorted
full_test = refl

create_task_registry-DividedAll_example :
    DividedAll true
      (made_lock env (λ address. false))
      (create_task_registry env
        (λ address. false)
        (in_mode scheduler_service config)
        scheduler_config
        slots
        true)
      (create_task_registry env
        (λ address. false)
        (in_mode core_scheduler config)
        scheduler_config
        slots
        true)
      (create_task_registry env
        (λ address. false)
        (in_mode full_scheduler config)
        scheduler_config
        slots
        true)
create_task_registry-DividedAll_example =
    create_task_registry-DividedAll env (λ address. false) config scheduler_config slots true
