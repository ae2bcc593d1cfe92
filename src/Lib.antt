-- ===== src/Lib.antt =====
-- A model of vm-scheduler: a service that queues the jobs of tasks, places them on virtual
-- machines, and allocates and terminates the machines in a cloud.
--
-- A pass of the scheduler reads the queued jobs and the active VMs from the task storage, lets a VM
-- assigner compute a change, and commits the change to the storage. The allocator and the failure
-- detector then move the VMs, and the agents on the VMs the jobs, through their statuses, by the
-- storage's operations as well.
--
-- - Common, Std: resource amounts and results (libs/common), and the parts of the C++ standard
--   library that the sources call: `lower_bound`, `sort` and ordered insertion, maps, and the
--   outcome of a call that may have undefined behaviour or not end.
-- - State: the statuses, their names and the data of a plan (libs/state).
-- - Scheduler: the assigners (libs/scheduler/impl). OrderedJobs is ordered_jobs.cpp; Strategies
--   and JobAllocator are job_allocator.cpp, one constructor for each class; SlotSelector is
--   vm_slot_selector.cpp; SimpleVmAssigner, ComplexVmAssigner and VmAssigner are the files of
--   those names and create_vm_assigner.cpp.
-- - Storage: libs/db/impl/pg_task_storage.cpp. Rows has the tables, Transaction what a transaction
--   of PostgreSQL promises, Plan `startScheduling` and the table of plans, Commit
--   `commitPlanChange`, Vms and Agents the operations of the allocator, the failure
--   detector and the agents, Jobs and Reads those of the APIs, and Operation those that write, as
--   one type, but for the first two.
-- - Services: libs/allocator/impl/allocator.cpp, with the answers of the cloud as a parameter, and
--   libs/failure_detector/impl/failure_detector.cpp; Scheduler is libs/scheduler/impl/scheduler.cpp.
-- - Server: the handlers of libs/server/impl, public_api_service.cpp in PublicApi and
--   agent_api_service.cpp in AgentApi; Messages are the messages of proto/structures, Conversions
--   and Helpers what the handlers share. The parser of JSON is an argument.
-- - Zookeeper: libs/zookeeper/impl/dist_lock.cpp. DistLock has the fields of the lock and what each
--   call does with them, Names the names of the nodes, and Election several instances of the lock on
--   one ZooKeeper, whose names for the nodes are an argument.
-- - Aws: libs/aws/allocator/impl. Paging is the loop over pages, InstanceTypes and Instances the
--   types and the VMs, Config the configuration, and CloudClient the calls of EC2, which is an
--   argument with a state of its own.
-- - Postgres: libs/postgres/impl. Pool is the pool, its handles and the threads that use them, as a
--   step relation; Config what the environment asks for.
-- - Concurrency: libs/concurrency/impl/background_thread.cpp, as a step relation.
-- - TaskRegistry: libs/task_registry/impl, the modes and what a process of each mode starts, with
--   libs/server/impl/grpc_server.cpp.
-- - Tests: the theorems at concrete inputs.
--
-- A function is named after its C++ function. Loops over containers are recursion on lists. Fuel
-- is used where a loop or a recursion need not end: `merge` gets as much as there are entries in
-- the index, of which each level takes one away, and is shown to return; the loops of `NextFit` get
-- any amount. The loops over the pages of EC2 get any amount,
-- and need as much as there are pages; the loop of base64 gets the length of the text and one more,
-- and returns. A map is an association list, walked in the
-- order of its entries; where several elements of a multimap have a key the oldest is taken.
--
-- A database is a record of tables. A session holds the stored tables, those that the open
-- transaction sees, the clock, and for each call of the library to come whether it throws; a commit
-- that throws may have been made all the same. What
-- other sessions do in the middle of a transaction, the logs of statuses, overflow of the
-- `integer` columns and the text of messages are left out.
--
-- A handler replies, or an exception leaves it. A reply is its code and its message; the texts of
-- errors are left out. In the election the watches are left out: they only tell an instance when to
-- check again, and here it may check at any time, on any list of children that it was ever given.
--
-- Not modelled: the start of the program, the formatting of SQL, and all services of a process as one
-- system. The AWS SDK, ZooKeeper, gRPC, rapidjson and libpqxx are
-- arguments or what a transaction promises; logging and the clock are left out.
pub mod Prelude
pub mod Std
pub mod Common
pub mod State
pub mod Scheduler
pub mod Storage
pub mod Server
pub mod Zookeeper
pub mod Aws
pub mod Postgres
pub mod Concurrency
pub mod TaskRegistry
pub mod Services
pub mod Tests
