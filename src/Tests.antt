-- ===== src/Tests.antt =====
-- The theorems at concrete inputs.
mod State
mod Scheduler
mod Storage
mod Services
mod Server
mod Zookeeper
mod Common
mod Aws
mod Postgres
mod Processes
