-- ===== src/Concurrency/Spaced.antt =====
-- libs/concurrency/impl/background_thread.cpp: how often the payload runs.
use vm_scheduler.Prelude.{
  ℕ, ◌+◌, ◌≤◌, ◌≡◌, ◌⊎◌, refl, subst, Bool, true, false, List, [], ◌∷◌, arith, inl, inr,
}
use vm_scheduler.Concurrency.{
  Position, at_condition, ended, before_payload, in_payload, in_wait, Start, BackgroundThread, Step,
  reads, begins, returns, awakes, leaves, stops, passes, Reach, start, next,
}

-- Each run begins once the clock is read for it, and the clock is read for it at least the duration
-- after it was read for the run before, and once that one has begun.
abbrev pub Spaced : ℕ → List Start → Type 0
Spaced duration [] = Unit
Spaced duration (last ∷ []) = last.read ≤ last.begun
Spaced duration (last ∷ before ∷ starts) =
    (last.read ≤ last.begun)
    × (before.read + duration ≤ last.read)
    × (before.begun ≤ last.read)
    × Spaced duration (before ∷ starts)

-- That the clock may be read for a run at a time; that no run begins later than a time.
abbrev After : ℕ → List Start → ℕ → Type 0
After duration [] time = Unit
After duration (last ∷ starts) time = last.read + duration ≤ time

abbrev Begun : List Start → ℕ → Type 0
Begun [] time = Unit
Begun (last ∷ starts) time = last.begun ≤ time

abbrev Last : List Start → ℕ → Type 0
Last [] time = ⊥
Last (last ∷ starts) time = last.read ≡ time

abbrev AtPosition : BackgroundThread → Position → Type 0
AtPosition t at_condition = (t.is_stopped ≡ true) ⊎ After t.sleep_duration t.starts t.now
AtPosition t ended = t.is_stopped ≡ true
AtPosition t (before_payload time) =
    After t.sleep_duration t.starts time × Begun t.starts time × (time ≤ t.now)
AtPosition t (in_payload time) = Last t.starts time
AtPosition t (in_wait time) = Last t.starts time

record Inv (duration : ℕ) (t : BackgroundThread) : Type 0 where
  pub same : t.sleep_duration ≡ duration
  pub spaced : Spaced t.sleep_duration t.starts
  pub begun : Begun t.starts t.now
  pub position : AtPosition t t.position

Spaced-begins :
    (duration : ℕ) (starts : List Start) (time now : ℕ)
    → Spaced duration starts
    → After duration starts time
    → Begun starts time
    → time ≤ now
    → Spaced duration (record { read = time; begun = now } ∷ starts)
Spaced-begins duration [] time now h after begun le = le
Spaced-begins duration (last ∷ starts) time now h after begun le = (le, after, begun, h)

After-Last :
    (duration : ℕ) (starts : List Start) (time now : ℕ)
    → Last starts time
    → time + duration ≤ now
    → After duration starts now
After-Last duration [] time now e h = absurd e
After-Last duration (last ∷ starts) time now e h = omega arith

After-later :
    (duration : ℕ) (starts : List Start) (now later : ℕ)
    → now ≤ later
    → After duration starts now
    → After duration starts later
After-later duration [] now later h a = tt
After-later duration (last ∷ starts) now later h a = omega arith

Begun-later :
    (starts : List Start) (now later : ℕ) → now ≤ later → Begun starts now → Begun starts later
Begun-later [] now later h b = tt
Begun-later (last ∷ starts) now later h b = omega arith

not_stopped : {P : Type 0} (stopped : Bool) → stopped ≡ false → (stopped ≡ true) ⊎ P → P
not_stopped stopped f (inl t) = cc
not_stopped stopped f (inr p) = p

stops-AtPosition :
    (t : BackgroundThread) (p : Position)
    → AtPosition t p
    → AtPosition (record t { is_stopped = true }) p
stops-AtPosition t at_condition h = inl refl
stops-AtPosition t ended h = refl
stops-AtPosition t (before_payload time) h = h
stops-AtPosition t (in_payload time) h = h
stops-AtPosition t (in_wait time) h = h

passes-AtPosition :
    (t : BackgroundThread) (later : ℕ) (p : Position)
    → t.now ≤ later
    → AtPosition t p
    → AtPosition (record t { now = later }) p
passes-AtPosition t later at_condition h (inl s) = inl s
passes-AtPosition t later at_condition h (inr a) =
    inr (After-later t.sleep_duration t.starts t.now later h a)
passes-AtPosition t later ended h s = s
passes-AtPosition t later (before_payload time) h (a, b, le) = (a, b, omega arith)
passes-AtPosition t later (in_payload time) h e = e
passes-AtPosition t later (in_wait time) h e = e

awakes-AtPosition :
    (t : BackgroundThread) (time : ℕ)
    → Last t.starts time
    → (t.is_stopped ≡ true) ⊎ (time + t.sleep_duration ≤ t.now)
    → AtPosition t at_condition
awakes-AtPosition t time e (inl s) = inl s
awakes-AtPosition t time e (inr h) = inr (After-Last t.sleep_duration t.starts time t.now e h)

step-Inv : (duration : ℕ) (t u : BackgroundThread) → Inv duration t → Step t u → Inv duration u
step-Inv duration t u v (reads p s) =
    let after = not_stopped t.is_stopped s (subst (AtPosition t) p v.position) in
    record {
      same = v.same;
      spaced = v.spaced;
      begun = v.begun;
      position = (after, v.begun, omega arith);
    }
step-Inv duration t u v (begins time p) =
    let (after, begun, le) = subst (AtPosition t) p v.position in
    record {
      same = v.same;
      spaced = Spaced-begins t.sleep_duration t.starts time t.now v.spaced after begun le;
      begun = omega arith;
      position = refl;
    }
step-Inv duration t u v (returns time p) = record {
  same = v.same;
  spaced = v.spaced;
  begun = v.begun;
  position = subst (AtPosition t) p v.position;
}
step-Inv duration t u v (awakes time p h) = record {
  same = v.same;
  spaced = v.spaced;
  begun = v.begun;
  position = awakes-AtPosition t time (subst (AtPosition t) p v.position) h;
}
step-Inv duration t u v (leaves p s) = record {
  same = v.same;
  spaced = v.spaced;
  begun = v.begun;
  position = s;
}
step-Inv duration t u v stops = record {
  same = v.same;
  spaced = v.spaced;
  begun = v.begun;
  position = stops-AtPosition t t.position v.position;
}
step-Inv duration t u v (passes later h) = record {
  same = v.same;
  spaced = v.spaced;
  begun = Begun-later t.starts t.now later h v.begun;
  position = passes-AtPosition t later t.position h v.position;
}

reach-Inv : (duration begin : ℕ) (t : BackgroundThread) → Reach duration begin t → Inv duration t
reach-Inv duration begin t start = record {
  same = refl;
  spaced = tt;
  begun = tt;
  position = inr tt;
}
reach-Inv duration begin u (next {t = t} r s) =
    step-Inv duration t u (reach-Inv duration begin t r) s

-- However the thread, its wake-ups, the clock and the destructor interleave: the clock is read for
-- each run of the payload at least the duration after it was read for the run before, and not before
-- that one began; and no run begins before the clock is read for it.
pub Reach-Spaced :
    (duration begin : ℕ) (t : BackgroundThread) → Reach duration begin t → Spaced duration t.starts
Reach-Spaced duration begin t r =
    let v = reach-Inv duration begin t r in subst (λ d. Spaced d t.starts) v.same v.spaced
