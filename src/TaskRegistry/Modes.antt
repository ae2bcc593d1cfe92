-- ===== src/TaskRegistry/Modes.antt =====
-- libs/task_registry/impl/task_registry.cpp: a service and a core together do what a full process does.
use Prim.Native.String.{String}
use vm_scheduler.Aws.Config.{Environment}
use vm_scheduler.Zookeeper.DistLock.{DistributedLock}
use vm_scheduler.Prelude.{◌&&◌, ◌≡◌, refl, Bool, true, false, none, List, ◌++◌}
use vm_scheduler.Common.Slot.{SlotCapacity}
use vm_scheduler.Common.Result.{Result, success, failure}
use vm_scheduler.Services.Scheduler.{Scheduler, SchedulerConfig, create_scheduler}
use vm_scheduler.TaskRegistry.{
  SchedulerMode, scheduler_service, core_scheduler, full_scheduler, Config, TaskRegistry,
  create_task_registry, registry_with, create_dist_lock, made_lock, runs_core,
}

-- The three registries that one configuration gives in the three modes.
pub record Divided (service core full : TaskRegistry) : Type 0 where
  pub threads : full.threads ≡ service.threads ++ core.threads
  pub service_lock : service.dist_lock ≡ none
  pub same_lock : full.dist_lock ≡ core.dist_lock

-- The results of the constructor in the three modes: all are registries, or only the service is one,
-- as the lock that the others need fails them, or none is.
abbrev pub DividedAll :
    Bool
    → Result DistributedLock
    → Result TaskRegistry
    → Result TaskRegistry
    → Result TaskRegistry
    → Type 0
DividedAll needs lock (success service) (success core) (success full) = Divided service core full
DividedAll needs lock (success service) (failure b) (failure c) =
    (needs ≡ true) × (lock ≡ failure b) × (b ≡ c)
DividedAll needs lock (failure a) (failure b) (failure c) = b ≡ c
DividedAll needs lock _ _ _ = ⊥

abbrev pub in_mode : SchedulerMode → Config → Config
in_mode mode config = record config { mode = mode }

abbrev in_mode_with :
    SchedulerMode
    → Config
    → Bool
    → Result DistributedLock
    → Result Scheduler
    → Bool
    → Result TaskRegistry
in_mode_with mode config needs lock made starts =
    registry_with (in_mode mode config) (create_dist_lock lock (needs && runs_core mode)) made
      starts

registry_with-DividedAll :
    (config : Config) (needs : Bool) (lock : Result DistributedLock) (made : Result Scheduler)
    (starts : Bool)
    → DividedAll needs lock
        (in_mode_with scheduler_service config needs lock made starts)
        (in_mode_with core_scheduler config needs lock made starts)
        (in_mode_with full_scheduler config needs lock made starts)
registry_with-DividedAll config true (failure e) (success scheduler) true = (refl, refl, refl)
registry_with-DividedAll config true (failure e) (success scheduler) false = refl
registry_with-DividedAll config true (failure e) (failure e') starts = refl
registry_with-DividedAll config true (success lock) (failure e') starts = refl
registry_with-DividedAll config true (success lock) (success scheduler) false = refl
registry_with-DividedAll config true (success lock) (success scheduler) true = record {
  threads = refl;
  service_lock = refl;
  same_lock = refl;
}
registry_with-DividedAll config false lock (failure e') starts = refl
registry_with-DividedAll config false lock (success scheduler) false = refl
registry_with-DividedAll config false lock (success scheduler) true = record {
  threads = refl;
  service_lock = refl;
  same_lock = refl;
}

-- Of one configuration in the three modes, the constructor of the full process throws exactly if
-- that of the core does; that of the service does not throw where these do not, and where it alone
-- does not, the lock is asked for and cannot be made. If none throws, a full process runs the
-- threads of a service and of a core, a service has no lock, and a core has the lock of a full one.
pub create_task_registry-DividedAll :
    (env : Environment) (connects : String → Bool) (config : Config)
    (scheduler_config : SchedulerConfig) (slots : List SlotCapacity) (starts : Bool)
    → DividedAll config.use_zk_dist_lock
        (made_lock env connects)
        (create_task_registry env connects
          (in_mode scheduler_service config)
          scheduler_config
          slots
          starts)
        (create_task_registry env connects
          (in_mode core_scheduler config)
          scheduler_config
          slots
          starts)
        (create_task_registry env connects
          (in_mode full_scheduler config)
          scheduler_config
          slots
          starts)
unfolding create_task_registry
create_task_registry-DividedAll env connects config scheduler_config slots starts =
    registry_with-DividedAll config config.use_zk_dist_lock (made_lock env connects)
      (create_scheduler "1234" scheduler_config slots) starts
