-- ===== src/Postgres/Pool.antt =====
-- libs/postgres/impl/pg_pool.cpp, connection.cpp and txn.cpp: the pool of connections, the handles
-- that lend them, and what threads do with them. A connection is known by its number.
mod Held
pub mod Conserved
use vm_scheduler.Prelude.{ℕ, zero, suc, ◌≡◌, Bool, Option, none, some, List, [], ◌∷◌, ◌++◌}

-- `connectionPool_`, a queue whose front is the head.
pub record PgPool : Type 0 where
  pub connection_pool : List ℕ

-- The loop of the constructor, which has made `i` connections and has `count` to make; its `int`
-- counts any size of a pool that there is.
unfoldable pub emplace_all : ℕ → ℕ → List ℕ → List ℕ
emplace_all zero i queue = queue
emplace_all (suc count) i queue = emplace_all count (suc i) (queue ++ i ∷ [])

abbrev pub new_pool : ℕ → PgPool
new_pool pool_size = record { connection_pool = emplace_all pool_size 0 [] }

-- `connection()`, under the mutex: nothing while the pool is empty, where the thread waits.
unfoldable pub connection : PgPool → Option (ℕ × PgPool)
connection pool = elim pool.connection_pool [
  | [] ↦ none
  | front ∷ rest ↦ some (front, record pool { connection_pool = rest })
]

abbrev pub free_connection : ℕ → PgPool → PgPool
free_connection connection pool = record pool {
  connection_pool = pool.connection_pool ++ connection ∷ [];
}

-- `connection_` of a handle, which is null once the handle was moved from.
pub record ConnectionHandle : Type 0 where
  pub connection : Option ℕ

-- The move constructor: the new handle, and what is left of the other one.
abbrev pub move_connection : ConnectionHandle → ConnectionHandle × ConnectionHandle
move_connection other = (record { connection = other.connection }, record { connection = none })

-- The destructor.
abbrev pub end_connection : ConnectionHandle → PgPool → PgPool
end_connection handle pool = elim handle.connection [
  | none ↦ pool
  | some connection ↦ free_connection connection pool
]

-- A transaction of pqxx on a connection.
pub record Txn : Type 0 where
  pub on : ℕ
  pub is_writable : Bool

pub record TransactionHandle : Type 0 where
  pub txn : Option Txn
  pub connection_handle : ConnectionHandle

-- The move constructor that the compiler makes.
abbrev pub move_transaction : TransactionHandle → TransactionHandle × TransactionHandle
move_transaction other =
    let (handle, left) = move_connection other.connection_handle in
    (
      record { txn = other.txn; connection_handle = handle },
      record { txn = none; connection_handle = left },
    )

-- `readOnlyTransaction` and `writableTransaction` once they have a connection: a local handle, which
-- the code moves into the answer or, if pqxx throws, destroys. Here it is a handle without a
-- transaction, until pqxx has made one.
abbrev pub local_handle : ℕ → TransactionHandle
local_handle connection = record {
  txn = none;
  connection_handle = record { connection = some connection };
}

abbrev pub with_transaction : Bool → ℕ → TransactionHandle
with_transaction is_writable connection =
    let (handle, left) = move_connection (record { connection = some connection }) in
    record {
      txn = some (record { on = connection; is_writable = is_writable });
      connection_handle = handle;
    }

-- The pool, the handles that live on some thread, the transactions whose handles are being
-- destroyed, how many threads wait in `poolNotEmpty_`, how many are woken and have not got the mutex
-- back, and how many have pushed a connection and have not called `notify_one` yet.
pub record World : Type 0 where
  pub pool : PgPool
  pub live : List TransactionHandle
  pub ending : List Txn
  pub waiting : ℕ
  pub woken : ℕ
  pub notifying : ℕ

-- `notify_one`, which wakes a thread if one waits; the answer is the waiting and the woken ones.
abbrev pub notify_one : ℕ → ℕ → ℕ × ℕ
notify_one zero woken = (zero, woken)
notify_one (suc waiting) woken = (waiting, suc woken)

-- The end of a handle will notify, unless the handle was moved from.
abbrev pub will_notify : ConnectionHandle → ℕ → ℕ
will_notify handle notifying = elim handle.connection [
  | none ↦ notifying
  | some connection ↦ suc notifying
]

abbrev pub still_open : TransactionHandle → List Txn → List Txn
still_open handle ending = elim handle.txn [ none ↦ ending | some txn ↦ txn ∷ ending ]

-- A thread takes the front connection of the pool.
abbrev pub taken : ℕ → PgPool → World → World
taken connection pool w = record w { pool = pool; live = local_handle connection ∷ w.live }

abbrev pub given_back : List TransactionHandle → TransactionHandle → World → World
given_back others handle w = record w {
  pool = end_connection handle.connection_handle w.pool;
  live = others;
  ending = still_open handle w.ending;
  notifying = will_notify handle.connection_handle w.notifying;
}

-- The pool is behind its mutex, so the threads' calls follow each other.
pub data Step (w : World) : World → Type 0 where
  -- A call of `connection()` takes one, or begins to wait.
  takes : (c : ℕ) (pool : PgPool) → connection w.pool ≡ some (c, pool) → Step w (taken c pool w)
  waits : connection w.pool ≡ none → Step w (record w { waiting = suc w.waiting })
  -- A waiting thread is woken by nothing.
  wakes_up :
      (waiting : ℕ)
      → w.waiting ≡ suc waiting
      → Step w (record w { waiting = waiting; woken = suc w.woken })
  -- A woken thread has the mutex back, and takes a connection or waits again.
  resumes :
      (woken c : ℕ) (pool : PgPool)
      → w.woken ≡ suc woken
      → connection w.pool ≡ some (c, pool)
      → Step w (record (taken c pool w) { woken = woken })
  waits_again :
      (woken : ℕ)
      → w.woken ≡ suc woken
      → connection w.pool ≡ none
      → Step w (record w { waiting = suc w.waiting; woken = woken })
  -- pqxx makes the transaction; where it throws, the local handle is given back instead.
  begins :
      (front back : List TransactionHandle) (is_writable : Bool) (c : ℕ)
      → w.live ≡ front ++ local_handle c ∷ back
      → Step w (record w { live = front ++ with_transaction is_writable c ∷ back })
  moves :
      (front back : List TransactionHandle) (handle : TransactionHandle)
      → w.live ≡ front ++ handle ∷ back
      → Step w (record w {
        live = let (target, left) = move_transaction handle in front ++ target ∷ left ∷ back;
      })
  -- `notify_one`, once the mutex is released.
  notifies :
      (notifying : ℕ)
      → w.notifying ≡ suc notifying
      → Step w (record w {
        waiting = (notify_one w.waiting w.woken).0;
        woken = (notify_one w.waiting w.woken).1;
        notifying = notifying;
      })
  -- The members end in the reverse of their order: the connection handle before the transaction.
  gives_back :
      (front back : List TransactionHandle) (handle : TransactionHandle)
      → w.live ≡ front ++ handle ∷ back
      → Step w (given_back (front ++ back) handle w)
  ends :
      (front back : List Txn) (txn : Txn)
      → w.ending ≡ front ++ txn ∷ back
      → Step w (record w { ending = front ++ back })

abbrev pub new_world : ℕ → World
new_world pool_size = record {
  pool = new_pool pool_size;
  live = [];
  ending = [];
  waiting = 0;
  woken = 0;
  notifying = 0;
}

pub data Reach (pool_size : ℕ) : World → Type 0 where
  start : Reach pool_size (new_world pool_size)
  later : {w v : World} → Reach pool_size w → Step w v → Reach pool_size v
