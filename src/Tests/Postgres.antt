-- ===== src/Tests/Postgres.antt =====
-- libs/postgres: a pool of one connection.
use vm_scheduler.Prelude.{refl, some, true, [], ◌∷◌}
use vm_scheduler.Postgres.Pool.{
  PgPool, Txn, TransactionHandle, connection, emplace_all, World, takes, waits, begins, gives_back,
  notifies, resumes, Reach, start, later,
}
use vm_scheduler.Postgres.Pool.Conserved.{Conserved, Reach-Conserved}

abbrev empty : PgPool
empty = record { connection_pool = [] }

abbrev txn : Txn
txn = record { on = 0; is_writable = true }

abbrev handle : TransactionHandle
handle = record { txn = some txn; connection_handle = record { connection = some 0 } }

-- The first thread has a transaction and a second one waits; the handle of the first thread has given
-- its connection back and its transaction has not ended; the second thread is woken and begins another
-- one on the same connection.
abbrev overlapping : World
overlapping = record {
  pool = empty;
  live = handle ∷ [];
  ending = txn ∷ [];
  waiting = 0;
  woken = 0;
  notifying = 0;
}

reached : Reach 1 overlapping
unfolding connection emplace_all
reached =
    later
      (later
        (later
          (later
            (later (later (later start (takes 0 empty refl)) (begins [] [] true 0 refl))
              (waits refl))
            (gives_back [] [] handle refl))
          (notifies 0 refl))
        (resumes 0 0 empty refl refl))
      (begins [] [] true 0 refl)

Reach-Conserved_example : Conserved 1 overlapping
Reach-Conserved_example = Reach-Conserved 1 overlapping reached
