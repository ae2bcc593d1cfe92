-- ===== src/Postgres/Pool/Held.antt =====
-- libs/postgres/impl/pg_pool.cpp and connection.cpp: which connections the live handles have, and how
-- the calls move them.
use mathlib.Core.List.{perm_middle, append-nil, append_assoc}
use mathlib.Core.List.Perm
use mathlib.Core.Option.{some-injective}
use vm_scheduler.Prelude.{
  ℕ, zero, suc, ◌≡◌, refl, ap, sym, ◌∙◌, Option, none, some, List, [], ◌∷◌, ◌++◌, Perm, All,
}
use vm_scheduler.Postgres.Pool.{
  PgPool, emplace_all, connection, end_connection, TransactionHandle, move_transaction,
}

-- The numbers from `i` on.
abbrev pub numbers_from : ℕ → ℕ → List ℕ
numbers_from i zero = []
numbers_from i (suc count) = i ∷ numbers_from (suc i) count

abbrev lent : Option ℕ → List ℕ
lent none = []
lent (some connection) = connection ∷ []

-- The connections that live handles have.
abbrev pub held : List TransactionHandle → List ℕ
held [] = []
held (handle ∷ live) = lent handle.connection_handle.connection ++ held live

-- A handle has no transaction, or one on the connection that it has.
abbrev pub Matched : TransactionHandle → Type 0
Matched h = elim h.txn [ none ↦ Unit | some txn ↦ h.connection_handle.connection ≡ some txn.on ]

pub held-append :
    (front back : List TransactionHandle) → held (front ++ back) ≡ held front ++ held back
held-append [] back = refl
held-append (h ∷ front) back =
    ap (λ l. lent h.connection_handle.connection ++ l) (held-append front back)
    ∙ sym (append_assoc (lent h.connection_handle.connection) (held front) (held back))

pub emplace_all-numbers_from :
    (count i : ℕ) (queue : List ℕ) → emplace_all count i queue ≡ queue ++ numbers_from i count
unfolding emplace_all
emplace_all-numbers_from zero i queue = sym (append-nil queue)
emplace_all-numbers_from (suc count) i queue =
    emplace_all-numbers_from count (suc i) (queue ++ i ∷ [])
    ∙ append_assoc queue (i ∷ []) (numbers_from (suc i) count)

-- A connection at the back of the queue is one in front of the held ones.
back-held :
    (queue : List ℕ) (c : ℕ) (others : List ℕ)
    → Perm ((queue ++ c ∷ []) ++ others) (c ∷ queue ++ others)
back-held queue c others = rw (append_assoc queue (c ∷ []) others) (perm_middle queue others)

-- What a call of `connection()` does to the queue, and when it answers nothing.
pub connection-some :
    (queue : List ℕ) (c : ℕ) (pool : PgPool)
    → connection (record { connection_pool = queue }) ≡ some (c, pool)
    → queue ≡ c ∷ pool.connection_pool
unfolding connection
connection-some [] c pool e = cc
connection-some (front ∷ queue) c pool e =
    let same : (front, record { connection_pool = queue }) ≡ (c, pool) = some-injective _ _ e in
    ap (λ (p : ℕ × PgPool). p.0 ∷ p.1.connection_pool) same

pub connection-none :
    (queue : List ℕ) → connection (record { connection_pool = queue }) ≡ none → queue ≡ []
unfolding connection
connection-none [] e = refl
connection-none (front ∷ queue) e = cc

given-held :
    (queue : List ℕ) (c : ℕ) (before after : List ℕ)
    → Perm (queue ++ (before ++ c ∷ after)) (c ∷ queue ++ (before ++ after))
given-held queue c before after =
    Perm.trans (Perm.append_left queue (perm_middle before after))
      (perm_middle queue (before ++ after))

-- The end of a handle moves its connection from the held ones to the queue.
pub held-end_connection :
    (front back : List TransactionHandle) (handle : TransactionHandle) (pool : PgPool)
    → Perm
        ((end_connection handle.connection_handle pool).connection_pool ++ held (front ++ back))
        (pool.connection_pool ++ held (front ++ handle ∷ back))
held-end_connection front back handle pool =
    rw (held-append front back, held-append front (handle ∷ back))
      (by_connection handle.connection_handle.connection)
  where
    by_connection :
        (c : Option ℕ)
        → Perm
            ((end_connection (record { connection = c }) pool).connection_pool
              ++ (held front ++ held back))
            (pool.connection_pool ++ (held front ++ (lent c ++ held back)))
    by_connection none = Perm.rfl
    by_connection (some c) =
        Perm.trans (back-held pool.connection_pool c (held front ++ held back))
          (Perm.symm (given-held pool.connection_pool c (held front) (held back)))

-- A handle that is moved and what is left of it hold what it held.
pub held-move_transaction :
    (front back : List TransactionHandle) (handle : TransactionHandle)
    → held (front ++ (move_transaction handle).0 ∷ (move_transaction handle).1 ∷ back)
      ≡ held (front ++ handle ∷ back)
held-move_transaction front back handle =
    held-append front ((move_transaction handle).0 ∷ (move_transaction handle).1 ∷ back)
    ∙ sym (held-append front (handle ∷ back))

pub All-split :
    (P : TransactionHandle → Type 0) (front back : List TransactionHandle) (h : TransactionHandle)
    → All P (front ++ h ∷ back)
    → P h × All P (front ++ back) × All P front × All P back
All-split P [] back h (p, all) = (p, all, tt, all)
All-split P (x ∷ front) back h (p, all) =
    let (q, rest, before, after) = All-split P front back h all in
    (q, (p, rest), (p, before), after)
