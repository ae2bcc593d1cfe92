-- ===== src/Storage/Transaction/Safety.antt =====
-- A property of the tables that every query of an operation keeps holds of the stored tables after
-- it, whichever calls throw and whether or not there is a commit.
use vm_scheduler.Prelude.{ℕ, Bool, true, false, if◌then◌else◌, Option, none, some, List, [], ◌∷◌}
use vm_scheduler.Common.Result.{Exception, success, failure}
use vm_scheduler.Storage.Rows.{Db}
use vm_scheduler.Storage.Transaction.{
  Session, Run, ended, crashed, Txn, bind, call_with, exec, caught, uncaught, open_transaction,
  commit, commit_with, query,
}

module _ (Holds : Db → Type 0) where
  -- At the end of a call it holds of the stored tables, and where the transaction may go on, of
  -- its view.
  abbrev pub Safe {ℓ} : {A : Type ℓ} → Run A → Type 0
  Safe (ended (success a) t) = Holds t.stored × Holds t.seen
  Safe (ended (failure e) t) = Holds t.stored
  Safe crashed = Unit

  abbrev pub Keeps {ℓ} : {A : Type ℓ} → (ℕ → Db → A × Db) → Type 0
  Keeps q = (now : ℕ) (db : Db) → Holds db → Holds (q now db).1

  module _ {ℓ} {A : Type ℓ} where
    pub Safe-bind {κ} :
        {B : Type κ} (m : Run A) (f : A → Txn B)
        → Safe m
        → ((a : A) (t : Session) → Holds t.stored → Holds t.seen → Safe (f a t))
        → Safe (bind m f)
    Safe-bind (ended (success a) t) f h k = k a t h.0 h.1
    Safe-bind (ended (failure e) t) f h k = h
    Safe-bind crashed f h k = tt

    pub Safe-caught : (run : Run A) → Safe run → Safe (caught run)
    Safe-caught (ended (success a) t) h = h
    Safe-caught (ended (failure e) t) h = h
    Safe-caught crashed h = tt

    pub Safe-uncaught : (run : Run A) → Safe run → Safe (uncaught run)
    Safe-uncaught (ended (success a) t) h = h
    Safe-uncaught (ended (failure e) t) h = tt
    Safe-uncaught crashed h = tt

    exec_with-Safe :
        (answers : List (Option Exception)) (q : ℕ → Db → A × Db) (s : Session)
        → Keeps q
        → Holds s.stored
        → Holds s.seen
        → Safe (
            call_with answers (λ s. ((q s.now s.seen).0, record s { seen = (q s.now s.seen).1 })) s)
    exec_with-Safe [] q s k h h' = (h, k s.now s.seen h')
    exec_with-Safe (none ∷ rest) q s k h h' = (h, k s.now s.seen h')
    exec_with-Safe (some e ∷ rest) q s k h h' = h

    pub exec-Safe :
        (q : ℕ → Db → A × Db) (s : Session)
        → Keeps q
        → Holds s.stored
        → Holds s.seen
        → Safe (exec q s)
    exec-Safe q s k h h' = exec_with-Safe s.thrown q s k h h'

    pub query-Safe :
        (q : ℕ → Db → A × Db) (s : Session)
        → Keeps q
        → Holds s.stored
        → Holds s.seen
        → Safe (query q s)
    query-Safe q s k h h' = Safe-caught (exec q s) (exec-Safe q s k h h')

  open_with-Safe :
      (answers : List (Option Exception)) (s : Session)
      → Holds s.stored
      → Safe {0} (call_with answers (λ s. (tt, record s { seen = s.stored })) s)
  open_with-Safe [] s h = (h, h)
  open_with-Safe (none ∷ rest) s h = (h, h)
  open_with-Safe (some e ∷ rest) s h = h

  pub open-Safe : (s : Session) → Holds s.stored → Safe {0} (open_transaction s)
  open-Safe s h = open_with-Safe s.thrown s h

  either :
      (b : Bool) (seen stored : Db) → Holds seen → Holds stored → Holds (if b then seen else stored)
  either true seen stored h h' = h
  either false seen stored h h' = h'

  commit_with-Safe :
      (answers : List (Option Exception)) (s : Session)
      → Holds s.stored
      → Holds s.seen
      → Safe {0} (commit_with answers s)
  commit_with-Safe [] s h h' = (h', h')
  commit_with-Safe (none ∷ rest) s h h' = (h', h')
  commit_with-Safe (some e ∷ rest) s h h' = either _ s.seen s.stored h' h

  pub commit-Safe : (s : Session) → Holds s.stored → Holds s.seen → Safe {0} (commit s)
  commit-Safe s h h' = commit_with-Safe s.thrown s h h'
