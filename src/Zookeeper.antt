-- ===== src/Zookeeper.antt =====
-- libs/zookeeper: the distributed lock, and an election among several of its users.
pub mod Names
pub mod DistLock
pub mod Election
