-- ===== src/Postgres.antt =====
-- libs/postgres: the pool of connections and its transactions.
pub mod Pool
mod Config
