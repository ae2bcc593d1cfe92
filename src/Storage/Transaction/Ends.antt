-- ===== src/Storage/Transaction/Ends.antt =====
-- Calls that end with a result, and never with the process.
use vm_scheduler.Prelude.{◌≡◌, refl, ap, Option, none, some, List, [], ◌∷◌}
use vm_scheduler.Common.Result.{Exception, success, failure, pg_exception}
use vm_scheduler.Storage.Rows.{Db}
use vm_scheduler.Storage.Transaction.{
  Session, Run, ended, crashed, Txn, bind, call_with, exec, caught, try_pg, open_transaction, ◌>>◌,
}

-- The run ends; if it succeeds, `P` holds of its value and of the session after it.
abbrev pub Ends {ℓ} : {A : Type ℓ} → (A → Session → Type 0) → Run A → Type 0
Ends P (ended (success a) t) = P a t
Ends P (ended (failure e) t) = Unit
Ends P crashed = ⊥

module _ {ℓ} {A : Type ℓ} where
  call_with-Ends :
      (P : A → Session → Type 0) (answers : List (Option Exception)) (act : Session → A × Session)
      (s : Session)
      → ((rest : List (Option Exception))
          → P (act (record s { thrown = rest })).0 (act (record s { thrown = rest })).1)
      → Ends P (call_with answers act s)
  call_with-Ends P [] act s h = h s.thrown
  call_with-Ends P (none ∷ rest) act s h = h rest
  call_with-Ends P (some e ∷ rest) act s h = tt

  pub bind-Ends {κ} :
      {B : Type κ} (P : A → Session → Type 0) (Q : B → Session → Type 0) (run : Run A)
      (f : A → Txn B)
      → Ends P run
      → ((a : A) (t : Session) → P a t → Ends Q (f a t))
      → Ends Q (bind run f)
  bind-Ends P Q (ended (success a) t) f h k = k a t h
  bind-Ends P Q (ended (failure e) t) f h k = tt
  bind-Ends P Q crashed f h k = absurd h

-- A reading in a `try` block gives what is stored, or fails with a `PgException`.
abbrev pub Reads : {A : Type 0} → A → Run A → Type 0
Reads a (ended (success b) t) = b ≡ a
Reads a (ended (failure e) t) = e ≡ pg_exception
Reads a crashed = ⊥

caught-Reads : {A : Type 0} (a : A) (run : Run A) → Ends (λ b t. b ≡ a) run → Reads a (caught run)
caught-Reads a (ended (success b) t) h = h
caught-Reads a (ended (failure e) t) h = refl
caught-Reads a crashed h = h

pub read-Reads :
    {A : Type 0} (f : Db → A) (s : Session)
    → Reads (f s.stored) (try_pg (open_transaction >> exec (λ now db. (f db, db))) s)
read-Reads {A} f s = caught-Reads (f s.stored) _ (
    bind-Ends {B = A} (λ (u : Unit {0}) t. t.seen ≡ s.stored) (λ b t. b ≡ f s.stored)
      (open_transaction s) (λ _. exec (λ now db. (f db, db)))
      (call_with-Ends (λ (u : Unit {0}) t. t.seen ≡ s.stored) s.thrown _ s (λ rest. refl))
      λ u t h. call_with-Ends (λ b t. b ≡ f s.stored) t.thrown _ t (λ rest. ap f h))
