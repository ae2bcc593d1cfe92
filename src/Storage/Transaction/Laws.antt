-- ===== src/Storage/Transaction/Laws.antt =====
-- What a call leaves as it was, and what a call that succeeds has done.
use vm_scheduler.Prelude.{
  ℕ, ◌⊎◌, inl, inr, Bool, true, false, if◌then◌else◌, ◌≡◌, refl, ◌∙◌, Option, none, some, List, [],
  ◌∷◌,
}
use vm_scheduler.Common.Result.{Exception, success, failure}
use vm_scheduler.Storage.Rows.{Db}
use vm_scheduler.Storage.Transaction.{
  Session, Run, ended, crashed, Txn, bind, call_with, exec, caught, try_pg, uncaught, no_handler,
  open_transaction, commit, commit_with, query,
}

-- Whatever the end, the stored tables are as before.
abbrev pub Kept {ℓ} : {A : Type ℓ} → Session → Run A → Type 0
Kept s (ended r t) = t.stored ≡ s.stored
Kept s crashed = Unit

-- All or nothing: a call that succeeds has done `P`, and one that fails has left the stored tables as
-- they were or has done it as well.
abbrev pub Whole {ℓ} : {A : Type ℓ} → (Session → Type 0) → Session → Run A → Type 0
Whole P s (ended (success a) t) = P t
Whole P s (ended (failure e) t) = (t.stored ≡ s.stored) ⊎ P t
Whole P s crashed = Unit

module _ {ℓ} {A : Type ℓ} (s t : Session) (h : t.stored ≡ s.stored) where
  Kept-trans : (run : Run A) → Kept t run → Kept s run
  Kept-trans (ended r u) e = e ∙ h
  Kept-trans crashed e = tt

module _ {ℓ} {A : Type ℓ} where
  pub Kept-bind {κ} :
      {B : Type κ} (s : Session) (m : Run A) (f : A → Txn B)
      → Kept s m
      → ((a : A) (t : Session) → Kept t (f a t))
      → Kept s (bind m f)
  Kept-bind s (ended (failure e) t) f h k = h
  Kept-bind s crashed f h k = tt
  Kept-bind s (ended (success a) t) f h k = Kept-trans s t h (f a t) (k a t)

  -- A call that leaves the stored tables as they are, and what follows if it succeeds.
  pub Whole-bind {κ} :
      {B : Type κ} (P : Session → Type 0) (s0 s : Session) (m : Run A) (f : A → Txn B)
      → s.stored ≡ s0.stored
      → Kept s m
      → ((a : A) (t : Session)
          → m ≡ ended (success a) t
          → t.stored ≡ s0.stored
          → Whole P s0 (f a t))
      → Whole P s0 (bind m f)
  Whole-bind P s0 s (ended (failure e) t) f same h k = inl (h ∙ same)
  Whole-bind P s0 s crashed f same h k = tt
  Whole-bind P s0 s (ended (success a) t) f same h k = k a t refl (h ∙ same)

  exec_with-Kept :
      (answers : List (Option Exception)) (q : ℕ → Db → A × Db) (s : Session)
      → Kept s
          (call_with answers (λ s. ((q s.now s.seen).0, record s { seen = (q s.now s.seen).1 })) s)
  exec_with-Kept [] q s = refl
  exec_with-Kept (none ∷ rest) q s = refl
  exec_with-Kept (some e ∷ rest) q s = refl

  caught-Kept : (s : Session) (run : Run A) → Kept s run → Kept s (caught run)
  caught-Kept s (ended (failure e) t) h = h
  caught-Kept s (ended (success a) t) h = h
  caught-Kept s crashed h = tt

  uncaught-Kept : (s : Session) (run : Run A) → Kept s run → Kept s (uncaught run)
  uncaught-Kept s (ended (failure e) t) h = tt
  uncaught-Kept s (ended (success a) t) h = h
  uncaught-Kept s crashed h = tt

  pub exec-Kept : (q : ℕ → Db → A × Db) (s : Session) → Kept s (exec q s)
  exec-Kept q s = exec_with-Kept s.thrown q s

  pub query-Kept : (q : ℕ → Db → A × Db) (s : Session) → Kept s (query q s)
  query-Kept q s = caught-Kept s (exec q s) (exec-Kept q s)

  pub no_handler-Kept : (q : ℕ → Db → A × Db) (s : Session) → Kept s (no_handler (exec q) s)
  no_handler-Kept q s = uncaught-Kept s (exec q s) (exec-Kept q s)

  -- A call that succeeded was made of calls that did.
  pub bind-success {κ} :
      {B : Type κ} (m : Run A) (f : A → Txn B) {b : B} {u : Session}
      → bind m f ≡ ended (success b) u
      → (a : A) × (t : Session) × (m ≡ ended (success a) t) × (f a t ≡ ended (success b) u)
  bind-success (ended (success a) t) f e = (a, t, refl, e)
  bind-success (ended (failure e') t) f e = cc
  bind-success crashed f e = cc

  -- What a query that succeeded has done.
  pub record Queried (q : ℕ → Db → A × Db) (s : Session) (a : A) (t : Session) : Type ℓ where
    pub answer : (q s.now s.seen).0 ≡ a
    pub view : t.seen ≡ (q s.now s.seen).1
    pub kept : t.stored ≡ s.stored
    pub clock : t.now ≡ s.now

  exec_with-Queried :
      (answers : List (Option Exception)) (q : ℕ → Db → A × Db) (s : Session) {a : A} {t : Session}
      → call_with answers (λ s. ((q s.now s.seen).0, record s { seen = (q s.now s.seen).1 })) s
        ≡ ended (success a) t
      → Queried q s a t
  exec_with-Queried [] q s e = record { answer = cc; view = cc; kept = cc; clock = cc }
  exec_with-Queried (none ∷ rest) q s e = record { answer = cc; view = cc; kept = cc; clock = cc }
  exec_with-Queried (some e' ∷ rest) q s e = cc

  pub exec-Queried :
      (q : ℕ → Db → A × Db) (s : Session) {a : A} {t : Session}
      → exec q s ≡ ended (success a) t
      → Queried q s a t
  exec-Queried q s e = exec_with-Queried s.thrown q s e

  pub caught-success :
      (run : Run A) {a : A} {t : Session}
      → caught run ≡ ended (success a) t
      → run ≡ ended (success a) t
  caught-success (ended (success a) t) e = e
  caught-success (ended (failure e') t) e = cc
  caught-success crashed e = cc

  uncaught-success :
      (run : Run A) {a : A} {t : Session}
      → uncaught run ≡ ended (success a) t
      → run ≡ ended (success a) t
  uncaught-success (ended (success a) t) e = e
  uncaught-success (ended (failure e') t) e = cc
  uncaught-success crashed e = cc

  pub query-Queried :
      (q : ℕ → Db → A × Db) (s : Session) {a : A} {t : Session}
      → query q s ≡ ended (success a) t
      → Queried q s a t
  query-Queried q s e = exec_with-Queried s.thrown q s (caught-success (exec q s) e)

  pub no_handler-Queried :
      (q : ℕ → Db → A × Db) (s : Session) {a : A} {t : Session}
      → no_handler (exec q) s ≡ ended (success a) t
      → Queried q s a t
  no_handler-Queried q s e = exec_with-Queried s.thrown q s (uncaught-success (exec q s) e)

-- Opening gives the stored tables to see, and a commit stores what is seen.
call_open-Kept :
    (answers : List (Option Exception)) (s : Session)
    → Kept {0} s (call_with answers (λ s. (tt, record s { seen = s.stored })) s)
call_open-Kept [] s = refl
call_open-Kept (none ∷ rest) s = refl
call_open-Kept (some e ∷ rest) s = refl

pub open-Kept : (s : Session) → Kept {0} s (open_transaction s)
open-Kept s = call_open-Kept s.thrown s

call_open-seen :
    (answers : List (Option Exception)) (s : Session) {a : Unit {0}} {t : Session}
    → call_with answers (λ s. (tt, record s { seen = s.stored })) s ≡ ended (success a) t
    → (t.seen ≡ s.stored) × (t.stored ≡ s.stored) × (t.now ≡ s.now)
call_open-seen [] s e = (cc, cc, cc)
call_open-seen (none ∷ rest) s e = (cc, cc, cc)
call_open-seen (some e' ∷ rest) s e = cc

pub open-seen :
    (s : Session) {a : Unit {0}} {t : Session}
    → open_transaction s ≡ ended (success a) t
    → (t.seen ≡ s.stored) × (t.stored ≡ s.stored) × (t.now ≡ s.now)
open-seen s e = call_open-seen s.thrown s e

call_commit-stored :
    (answers : List (Option Exception)) (s : Session) {a : Unit {0}} {t : Session}
    → commit_with answers s ≡ ended (success a) t
    → t.stored ≡ s.seen
call_commit-stored [] s e = cc
call_commit-stored (none ∷ rest) s e = cc
call_commit-stored (some e' ∷ rest) s e = cc

pub commit-stored :
    (s : Session) {a : Unit {0}} {t : Session}
    → try_pg commit s ≡ ended (success a) t
    → t.stored ≡ s.seen
commit-stored s e = call_commit-stored s.thrown s (caught-success (commit s) e)

pub committed-stored :
    (s : Session) {a : Unit {0}} {t : Session} → commit s ≡ ended (success a) t → t.stored ≡ s.seen
committed-stored s e = call_commit-stored s.thrown s e

-- A commit that throws has not been made, or has been made whole.
doubtful :
    (P : Session → Type 0) (s0 s : Session) (made : Bool) (rest : List (Option Exception))
    → s.stored ≡ s0.stored
    → ((t : Session) → t.stored ≡ s.seen → P t)
    → ((if made then s.seen else s.stored) ≡ s0.stored)
      ⊎ P (record s { stored = if made then s.seen else s.stored; thrown = rest })
doubtful P s0 s true rest same h = inr (h _ refl)
doubtful P s0 s false rest same h = inl same

commit_with-Whole :
    (P : Session → Type 0) (s0 : Session) (answers : List (Option Exception)) (s : Session)
    → s.stored ≡ s0.stored
    → ((t : Session) → t.stored ≡ s.seen → P t)
    → Whole {0} P s0 (caught (commit_with answers s))
commit_with-Whole P s0 [] s same h = h _ refl
commit_with-Whole P s0 (none ∷ rest) s same h = h _ refl
commit_with-Whole P s0 (some e ∷ rest) s same h = doubtful P s0 s _ rest same h

pub commit-Whole :
    (P : Session → Type 0) (s0 s : Session)
    → s.stored ≡ s0.stored
    → ((t : Session) → t.stored ≡ s.seen → P t)
    → Whole {0} P s0 (try_pg commit s)
commit-Whole P s0 s same h = commit_with-Whole P s0 s.thrown s same h
