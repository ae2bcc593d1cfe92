-- ===== src/Concurrency.antt =====
-- libs/concurrency/impl/background_thread.cpp: a thread that repeats its payload, as a step relation.
pub mod Spaced
use vm_scheduler.Prelude.{ℕ, ◌+◌, ◌≤◌, ◌≡◌, ◌⊎◌, Bool, true, false, List, [], ◌∷◌}

-- Where `runner` is: at the condition of its loop, between its reading of the clock and the call of
-- the payload, in the payload or in the wait that follows, all with the time `start` that it read, or
-- behind the loop.
pub data Position : Type 0 where
  at_condition ended : Position
  before_payload in_payload in_wait : ℕ → Position

-- A run of the payload: what the clock was read to be before, and when the payload began.
pub record Start : Type 0 where
  pub read : ℕ
  pub begun : ℕ

-- `starts` is the history of the payload's runs, the last one first; `now` is the steady clock.
pub record BackgroundThread : Type 0 where
  pub sleep_duration : ℕ
  pub is_stopped : Bool
  pub position : Position
  pub starts : List Start
  pub now : ℕ

-- The constructor starts the runner.
abbrev pub new_thread : ℕ → ℕ → BackgroundThread
new_thread sleep_duration now = record {
  sleep_duration = sleep_duration;
  is_stopped = false;
  position = at_condition;
  starts = [];
  now = now;
}

pub data Step (t : BackgroundThread) : BackgroundThread → Type 0 where
  reads :
      t.position ≡ at_condition
      → t.is_stopped ≡ false
      → Step t (record t { position = before_payload t.now })
  begins :
      (start : ℕ)
      → t.position ≡ before_payload start
      → Step t (record t {
        position = in_payload start;
        starts = record { read = start; begun = t.now } ∷ t.starts;
      })
  returns :
      (start : ℕ) → t.position ≡ in_payload start → Step t (record t { position = in_wait start })
  -- The condition of the wait fails. It is read again after any wake-up, a spurious one included;
  -- where it holds the thread goes on waiting, which changes nothing here.
  awakes :
      (start : ℕ)
      → t.position ≡ in_wait start
      → (t.is_stopped ≡ true) ⊎ (start + t.sleep_duration ≤ t.now)
      → Step t (record t { position = at_condition })
  leaves : t.position ≡ at_condition → t.is_stopped ≡ true → Step t (record t { position = ended })
  -- The destructor, on another thread.
  stops : Step t (record t { is_stopped = true })
  passes : (later : ℕ) → t.now ≤ later → Step t (record t { now = later })

pub data Reach (sleep_duration begin : ℕ) : BackgroundThread → Type 0 where
  start : Reach sleep_duration begin (new_thread sleep_duration begin)
  next :
      {t u : BackgroundThread}
      → Reach sleep_duration begin t
      → Step t u
      → Reach sleep_duration begin u
