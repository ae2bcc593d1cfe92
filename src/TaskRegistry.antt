-- ===== src/TaskRegistry.antt =====
-- libs/task_registry/impl and libs/server/impl/grpc_server.cpp: the modes, and what a process of each
-- mode runs.
pub mod Modes
use Prim.Native.String.{String}
use vm_scheduler.Prelude.{
  ℕ, Bool, true, false, not, ◌&&◌, ◌==◌, Option, none, some, List, [], ◌∷◌, ◌++◌, if◌then◌else◌,
}
use vm_scheduler.Std.Names.{at_name}
use vm_scheduler.Common.Slot.{SlotCapacity}
use vm_scheduler.Common.Result.{Result, success, failure, runtime_exception, ◌>>=◌}
use vm_scheduler.Aws.Config.{
  Environment, get_from_env_or_default, get_from_env_or_throw, get_number_from_env_or_default,
}
use vm_scheduler.Services.Scheduler.{SchedulerConfig, Scheduler, create_scheduler}
use vm_scheduler.Zookeeper.DistLock.{DistributedLock, new_lock}

pub data SchedulerMode : Type 0 where
  scheduler_service core_scheduler full_scheduler : SchedulerMode

abbrev pub mode_names : List (String × SchedulerMode)
mode_names =
    ("service", scheduler_service) ∷ ("core", core_scheduler) ∷ ("full", full_scheduler) ∷ []

-- The class is `std::out_of_range` there; nobody asks for it.
abbrev mode_or_throw : Option SchedulerMode → Result SchedulerMode
mode_or_throw none = failure runtime_exception
mode_or_throw (some mode) = success mode

unfoldable pub scheduler_mode_from_string : String → Result SchedulerMode
unfolding at_name
scheduler_mode_from_string value = mode_or_throw (at_name value mode_names)

pub record Config : Type 0 where
  pub allocation_interval : ℕ
  pub schedule_interval : ℕ
  pub detect_failures_interval : ℕ
  pub mode : SchedulerMode
  pub use_zk_dist_lock : Bool

unfoldable pub create_config : Environment → Result Config
create_config env = do
  mode ← scheduler_mode_from_string (get_from_env_or_default env "VMS_MODE" "full")
  success (record {
    allocation_interval = get_number_from_env_or_default env "VMS_ALLOCATION_INTERVAL_S" 60;
    schedule_interval = get_number_from_env_or_default env "VMS_SCHEDULE_INTERVAL_S" 60;
    detect_failures_interval =
        get_number_from_env_or_default env "VMS_DETECT_FAILURES_INTERVAL_S" 300;
    mode = mode;
    use_zk_dist_lock = not (get_number_from_env_or_default env "VMS_USE_ZK_DIST_LOCK" 0 == 0);
  })

-- What the lambdas of the constructor call.
pub data Payload : Type 0 where
  calls_allocate calls_terminate calls_monitor calls_schedule : Payload

-- A background thread, by its payload and its interval.
pub record Repeated : Type 0 where
  pub payload : Payload
  pub interval : ℕ

pub record TaskRegistry : Type 0 where
  pub scheduler : Scheduler
  pub dist_lock : Option DistributedLock
  pub threads : List Repeated

-- The two tests of the mode.
abbrev pub runs_service : SchedulerMode → Bool
runs_service core_scheduler = false
runs_service _ = true

abbrev pub runs_core : SchedulerMode → Bool
runs_core scheduler_service = false
runs_core _ = true

pub record ZkConfig : Type 0 where
  pub address : String
  pub lock_path : String
  pub lock_name : String

unfoldable pub create_zk_config : Environment → Result ZkConfig
create_zk_config env = do
  address ← get_from_env_or_throw env "VMS_ZK_ADDRESS"
  success (record {
    address = address;
    lock_path = get_from_env_or_default env "VMS_ZK_LOCK_PATH" "/vms-prod-";
    lock_name = get_from_env_or_default env "VMS_ZK_LOCK_NAME" "";
  })

-- The constructor of the lock; whether a client connects to an address is ZooKeeper's answer. The
-- class of its exception is another one there; nobody asks for it.
abbrev pub connected : (String → Bool) → ZkConfig → Result DistributedLock
connected connects config =
    if connects config.address then success new_lock else failure runtime_exception

abbrev pub made_lock : Environment → (String → Bool) → Result DistributedLock
made_lock env connects = do config ← create_zk_config env; connected connects config

abbrev pub some_lock : Result DistributedLock → Result (Option DistributedLock)
some_lock made = do lock ← made; success (some lock)

abbrev pub create_dist_lock : Result DistributedLock → Bool → Result (Option DistributedLock)
create_dist_lock made create = if create then some_lock made else success none

-- Whether gRPC builds and starts the server is its answer.
abbrev pub create_grpc_server : Bool → Result (Unit {0})
create_grpc_server starts = if starts then success tt else failure runtime_exception

abbrev pub threads_of : Config → List Repeated
threads_of config =
    (if runs_service config.mode
      then record { payload = calls_allocate; interval = config.allocation_interval }
        ∷ record { payload = calls_terminate; interval = config.allocation_interval }
        ∷ record { payload = calls_monitor; interval = config.detect_failures_interval }
        ∷ []
      else [])
    ++ (if runs_core config.mode
        then record { payload = calls_schedule; interval = config.schedule_interval } ∷ []
        else [])

-- The lock is an argument of the scheduler, and the members behind the scheduler follow it.
abbrev pub registry_with :
    Config → Result (Option DistributedLock) → Result Scheduler → Bool → Result TaskRegistry
registry_with config lock made server_starts = do
  dist_lock ← lock
  scheduler ← made
  server ← create_grpc_server server_starts
  success (record { scheduler = scheduler; dist_lock = dist_lock; threads = threads_of config })

-- The configurations of the scheduler, of the allocator and of the failure detector, which the source
-- reads in any mode, are left out; the lock's is read if there is to be a lock.
unfoldable pub create_task_registry :
    Environment
    → (String → Bool)
    → Config
    → SchedulerConfig
    → List SlotCapacity
    → Bool
    → Result TaskRegistry
create_task_registry env connects config scheduler_config possible_slots server_starts =
    registry_with config
      (create_dist_lock (made_lock env connects) (config.use_zk_dist_lock && runs_core config.mode))
      (create_scheduler "1234" scheduler_config possible_slots) server_starts
