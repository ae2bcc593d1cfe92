-- ===== src/Postgres/Pool/Conserved.antt =====
-- libs/postgres/impl/pg_pool.cpp: no connection is lost, and none is lent twice.
use mathlib.Core.List.{perm_middle, append-nil}
use mathlib.Core.List.Perm
use vm_scheduler.Prelude.{
  ℕ, zero, suc, ◌≡◌, refl, ap, sym, subst, ◌∙◌, Option, none, some, List, [], length, length-append,
  ◌+◌, ◌≤◌, arith, ◌∷◌, ◌++◌, ◌⊎◌, inl, inr, Perm, All, All-append,
}
use vm_scheduler.Postgres.Pool.{
  ConnectionHandle, end_connection, TransactionHandle, notify_one, notifies, will_notify, World,
  Step, takes, waits, wakes_up, resumes, waits_again, begins, moves, gives_back, ends, Reach, start,
  later, with_transaction, local_handle,
}
use vm_scheduler.Postgres.Pool.Held.{
  numbers_from, held, Matched, held-append, emplace_all-numbers_from, connection-some,
  connection-none, held-end_connection, held-move_transaction, All-split,
}

-- Each connection that the pool was made with is in the queue or with exactly one live handle; the
-- transaction of a handle is on its own connection; and while a thread waits, as many threads
-- are woken or about to notify as there are connections in the queue, if not more.
pub record Conserved (pool_size : ℕ) (w : World) : Type 0 where
  pub all : Perm (w.pool.connection_pool ++ held w.live) (numbers_from 0 pool_size)
  pub matched : All Matched w.live
  pub served : (w.waiting ≡ 0) ⊎ (length w.pool.connection_pool ≤ w.woken + w.notifying)

-- A connection that is taken goes from the front of the queue to the held ones.
taken-held :
    (queue : List ℕ) (c : ℕ) (rest : List ℕ) (pool_size : ℕ) (live : List TransactionHandle)
    → queue ≡ c ∷ rest
    → Perm (queue ++ held live) (numbers_from 0 pool_size)
    → Perm (rest ++ (c ∷ held live)) (numbers_from 0 pool_size)
taken-held queue c rest pool_size live e p =
    Perm.trans (perm_middle rest (held live))
      (subst (λ q. Perm (q ++ held live) (numbers_from 0 pool_size)) e p)

abbrev Served : ℕ → World → Type 0
Served queued w = (w.waiting ≡ 0) ⊎ (queued ≤ w.woken + w.notifying)

notifies-Served :
    (queued waiting woken notifying : ℕ)
    → (waiting ≡ 0) ⊎ (queued ≤ woken + suc notifying)
    → ((notify_one waiting woken).0 ≡ 0) ⊎ (queued ≤ (notify_one waiting woken).1 + notifying)
notifies-Served queued zero woken notifying h = inl refl
notifies-Served queued (suc waiting) woken notifying (inl e) = cc
notifies-Served queued (suc waiting) woken notifying (inr le) = inr (omega arith)

given-Served :
    (handle : ConnectionHandle) (w : World)
    → Served (length w.pool.connection_pool) w
    → (w.waiting ≡ 0)
      ⊎ (length (end_connection handle w.pool).connection_pool
          ≤ w.woken + will_notify handle w.notifying)
given-Served handle w (inl e) = inl e
given-Served handle w (inr le) = inr (by_connection handle.connection)
  where
    by_connection :
        (c : Option ℕ)
        → length (end_connection (record { connection = c }) w.pool).connection_pool
          ≤ w.woken + will_notify (record { connection = c }) w.notifying
    by_connection none = le
    by_connection (some c) = omega (arith, length-append w.pool.connection_pool (c ∷ []))

-- A thread that takes a connection leaves a shorter queue.
shorter :
    (queue : List ℕ) (c : ℕ) (rest : List ℕ) → queue ≡ c ∷ rest → length queue ≡ suc (length rest)
shorter queue c rest e = ap length e

takes-Served :
    (queue : List ℕ) (c : ℕ) (rest : List ℕ) (w : World)
    → queue ≡ c ∷ rest
    → Served (length queue) w
    → Served (length rest) w
takes-Served queue c rest w e (inl z) = inl z
takes-Served queue c rest w e (inr le) = inr (omega (arith, shorter queue c rest e))

resumes-Served :
    (queue : List ℕ) (c : ℕ) (rest : List ℕ) (woken : ℕ) (w : World)
    → queue ≡ c ∷ rest
    → w.woken ≡ suc woken
    → Served (length queue) w
    → Served (length rest) (record w { woken = woken })
resumes-Served queue c rest woken w e some_woken (inl z) = inl z
resumes-Served queue c rest woken w e some_woken (inr le) =
    inr (omega (arith, shorter queue c rest e))

wakes_up-Served :
    (queued waiting : ℕ) (w : World)
    → w.waiting ≡ suc waiting
    → Served queued w
    → Served queued (record w { waiting = waiting; woken = suc w.woken })
wakes_up-Served queued waiting w e (inl z) = absurd (omega arith)
wakes_up-Served queued waiting w e (inr le) = inr (omega arith)

empty-Served : (queue : List ℕ) (w : World) → queue ≡ [] → Served (length queue) w
empty-Served queue w e = let nothing : length queue ≡ 0 = ap length e in inr (omega arith)

step-Conserved :
    (pool_size : ℕ) (w v : World) → Conserved pool_size w → Step w v → Conserved pool_size v
step-Conserved pool_size w v k (takes c pool e) =
    let front = connection-some w.pool.connection_pool c pool e in
    record {
      all = taken-held w.pool.connection_pool c pool.connection_pool pool_size w.live front k.all;
      matched = (tt, k.matched);
      served = takes-Served w.pool.connection_pool c pool.connection_pool w front k.served;
    }
step-Conserved pool_size w v k (waits e) = record {
  all = k.all;
  matched = k.matched;
  served = empty-Served w.pool.connection_pool v (connection-none w.pool.connection_pool e);
}
step-Conserved pool_size w v k (wakes_up waiting e) = record {
  all = k.all;
  matched = k.matched;
  served = wakes_up-Served _ waiting w e k.served;
}
step-Conserved pool_size w v k (resumes woken c pool some_woken e) =
    let front = connection-some w.pool.connection_pool c pool e in
    record {
      all = taken-held w.pool.connection_pool c pool.connection_pool pool_size w.live front k.all;
      matched = (tt, k.matched);
      served =
          resumes-Served w.pool.connection_pool c pool.connection_pool woken w front some_woken
            k.served;
    }
step-Conserved pool_size w v k (waits_again woken some_woken e) = record {
  all = k.all;
  matched = k.matched;
  served = empty-Served w.pool.connection_pool v (connection-none w.pool.connection_pool e);
}
step-Conserved pool_size w v k (begins front back is_writable c e) =
    let (m, rest, before, after) =
      All-split Matched front back (local_handle c) (subst (All Matched) e k.matched) in
    record {
      all =
          subst (λ l. Perm (w.pool.connection_pool ++ l) (numbers_from 0 pool_size))
            (ap held e
              ∙ held-append front (local_handle c ∷ back)
              ∙ sym (held-append front (with_transaction is_writable c ∷ back)))
            k.all;
      matched = All-append Matched front _ before (refl, after);
      served = k.served;
    }
step-Conserved pool_size w v k (moves front back handle e) =
    let (m, rest, before, after) =
      All-split Matched front back handle (subst (All Matched) e k.matched) in
    record {
      all =
          subst (λ l. Perm (w.pool.connection_pool ++ l) (numbers_from 0 pool_size))
            (ap held e ∙ sym (held-move_transaction front back handle)) k.all;
      matched = All-append Matched front _ before (m, (tt, after));
      served = k.served;
    }
step-Conserved pool_size w v k (gives_back front back handle e) = record {
  all = Perm.trans (held-end_connection front back handle w.pool) (
      subst (λ live. Perm (w.pool.connection_pool ++ held live) (numbers_from 0 pool_size)) e
        k.all);
  matched = (All-split Matched front back handle (subst (All Matched) e k.matched)).1;
  served = given-Served handle.connection_handle w k.served;
}
step-Conserved pool_size w v k (notifies notifying e) = record {
  all = k.all;
  matched = k.matched;
  served =
      notifies-Served (length w.pool.connection_pool) w.waiting w.woken notifying
        (subst (λ n. (w.waiting ≡ 0) ⊎ (length w.pool.connection_pool ≤ w.woken + n)) e k.served);
}
step-Conserved pool_size w v k (ends front back txn e) = record {
  all = k.all;
  matched = k.matched;
  served = k.served;
}

-- However the threads' calls and wake-ups interleave, failures and moves of handles included, each
-- connection that the pool was made with is in the queue or with exactly one live handle, and the
-- transaction of a handle is on its own connection. No thread is left to wait for a connection that
-- is there: while one waits, as many threads are woken or about to notify as there are connections in
-- the queue, if not more.
pub Reach-Conserved : (pool_size : ℕ) (w : World) → Reach pool_size w → Conserved pool_size w
Reach-Conserved pool_size w start = record {
  all =
      subst (λ queue. Perm queue (numbers_from 0 pool_size))
        (sym (append-nil _ ∙ emplace_all-numbers_from pool_size 0 [])) Perm.rfl;
  matched = tt;
  served = inl refl;
}
Reach-Conserved pool_size w (later {w = v} r s) =
    step-Conserved pool_size v w (Reach-Conserved pool_size v r) s
