-- ===== src/Storage/Transaction.antt =====
-- libs/postgres and PostgreSQL as the storage sees them: a transaction works on its own view of
-- the tables, and a commit makes the view the stored tables. Which calls of the library throw is
-- not known: a list of answers, one for each call, says it, and past its end none throws.
pub mod Laws
pub mod Safety
pub mod Ends
use vm_scheduler.Prelude.{ℕ, Bool, true, false, if◌then◌else◌, Option, none, some, List, [], ◌∷◌}
use vm_scheduler.Common.Result.{
  Exception, lock_unavailable, pg_exception, in_doubt, Result, success, failure,
}
use vm_scheduler.Storage.Rows.{Db}

-- `now` is what `NOW()` gives; `thrown` holds the exceptions of the calls to come, where
-- `lock_unavailable` stands for the SQL error with "could not obtain lock" in its text.
pub record Session : Type 0 where
  pub stored : Db
  pub seen : Db
  pub now : ℕ
  pub thrown : List (Option Exception)

-- A call ends with a result, or with `std::terminate`.
pub data Run {ℓ} (A : Type ℓ) : Type ℓ where
  ended : Result A → Session → Run A
  crashed : Run A

abbrev pub Txn {ℓ} : Type ℓ → Type ℓ
Txn A = Session → Run A

module _ {ℓ} {A : Type ℓ} where
  abbrev pub bind {κ} : {B : Type κ} → Run A → (A → Txn B) → Run B
  bind (ended (success a) s) f = f a s
  bind (ended (failure e) s) f = ended (failure e) s
  bind crashed f = crashed

  infixl 5 ◌>>=◌ ◌>>◌
  abbrev pub ◌>>=◌ {κ} : {B : Type κ} → Txn A → (A → Txn B) → Txn B
  (m >>= f) s = bind (m s) f

  abbrev pub ◌>>◌ {κ} : {B : Type κ} → Txn A → Txn B → Txn B
  (m >> k) s = bind (m s) (λ _. k)

  abbrev pub gives : A → Txn A
  gives a s = ended (success a) s

  abbrev pub fails : Exception → Txn A
  fails e s = ended (failure e) s

  -- A call of the library, with what it does if it does not throw.
  abbrev pub call_with : List (Option Exception) → (Session → A × Session) → Session → Run A
  call_with [] act s = ended (success (act s).0) (act s).1
  call_with (none ∷ rest) act s =
      let after = act (record s { thrown = rest }) in ended (success after.0) after.1
  call_with (some e ∷ rest) act s = ended (failure e) (record s { thrown = rest })

  abbrev pub call : (Session → A × Session) → Txn A
  call act s = call_with s.thrown act s

  -- `pg::execQuery`.
  abbrev pub exec : (ℕ → Db → A × Db) → Txn A
  exec query = call λ s. let r = query s.now s.seen in (r.0, record s { seen = r.1 })

  -- `catch (const std::exception&)` around a call, answered by a `PgException`.
  abbrev pub caught : Run A → Run A
  caught (ended (failure e) s) = ended (failure pg_exception) s
  caught run = run

  abbrev pub try_pg : Txn A → Txn A
  try_pg m s = caught (m s)

  -- No handler in a `noexcept` function.
  abbrev uncaught : Run A → Run A
  uncaught (ended (failure e) s) = crashed
  uncaught run = run

  abbrev pub no_handler : Txn A → Txn A
  no_handler m s = uncaught (m s)

-- `writableTransaction()` and `readOnlyTransaction()`.
abbrev pub open_transaction : Txn (Unit {0})
open_transaction = call λ s. (tt, record s { seen = s.stored })

abbrev is_in_doubt : Exception → Bool
is_in_doubt in_doubt = true
is_in_doubt e = false

-- A commit that throws has not been made, or, if libpqxx is in doubt, it has been made all the same.
abbrev pub commit_with : List (Option Exception) → Txn (Unit {0})
commit_with [] s = ended (success tt) (record s { stored = s.seen })
commit_with (none ∷ rest) s = ended (success tt) (record s { stored = s.seen; thrown = rest })
commit_with (some e ∷ rest) s =
    ended (failure e)
      (record s { stored = if is_in_doubt e then s.seen else s.stored; thrown = rest })

abbrev pub commit : Txn (Unit {0})
commit s = commit_with s.thrown s

abbrev pub query {ℓ} : {A : Type ℓ} → (ℕ → Db → A × Db) → Txn A
query q = try_pg (exec q)

-- A query that is run for what it changes.
abbrev pub execute : (ℕ → Db → Db) → Txn (Unit {0})
execute change = exec (λ now db. (tt, change now db))
