-- ===== src/Storage.antt =====
-- libs/db: the task storage, with its tables, transactions and operations.
pub mod Rows
pub mod Transaction
pub mod Plan
pub mod Commit
pub mod Vms
pub mod Agents
pub mod Jobs
pub mod Operation
pub mod Reads
