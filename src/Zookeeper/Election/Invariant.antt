-- ===== src/Zookeeper/Election/Invariant.antt =====
-- What holds in every reachable state of the election, while the sequence numbers have nine digits.
use mathlib.Core.Option.{some-injective}
use vm_scheduler.Prelude.{
  ℕ, zero, suc, ◌≤◌, ◌<◌, ◌≡◌, refl, subst, ◌∙◌, ◌⊎◌, inl, inr, Bool, true, false, some, List, [],
  ◌∷◌, ◌++◌, erase_idx, arith, Bool-cases, ◌==◌, ==_iff, if◌then◌else◌,
}
use vm_scheduler.Zookeeper.Names.{Name, starts_with}
use vm_scheduler.Zookeeper.DistLock.{DistributedLock, slash, begin_lock}
use vm_scheduler.Zookeeper.Election.{In, Answer, World, update, initial, Lists}

module _ {ℓ} {A : Type ℓ} where
  pub In-cons : (x : A) (xs : List A) (y : A) → In (x ∷ xs) y → (x ≡ y) ⊎ In xs y
  In-cons x xs y (zero, e) = inl (some-injective x y e)
  In-cons x xs y (suc i, e) = inr (i, e)

  pub In-later : (x : A) (xs : List A) {y : A} → In xs y → In (x ∷ xs) y
  In-later x xs (i, e) = (suc i, e)

  In-erase_idx : (xs : List A) (k : ℕ) {y : A} → In (erase_idx xs k) y → In xs y
  In-erase_idx [] k m = m
  In-erase_idx (x ∷ xs) zero (i, e) = (suc i, e)
  In-erase_idx (x ∷ xs) (suc k) (zero, e) = (0, e)
  In-erase_idx (x ∷ xs) (suc k) (suc i, e) = In-later x xs (In-erase_idx xs k (i, e))

  -- What holds of the new value at its place and of the old ones elsewhere.
  update-all {κ} :
      (P : ℕ → A → Type κ) (f : ℕ → A) (i : ℕ) (a : A)
      → P i a
      → ((k : ℕ) → P k (f k))
      → (k : ℕ) → P k (update f i a k)
  update-all P f i a h old k = elim (Bool-cases (i == k)) [
    | inl t ↦ rw t (subst (λ k. P k a) ((==_iff i k).0 t) h)
    | inr n ↦ rw n (old k)
  ]

starts_with-append : (prefix rest : Name) → starts_with prefix (prefix ++ rest) ≡ true
starts_with-append [] rest = refl
starts_with-append (c ∷ prefix) rest = ground (arith, starts_with-append prefix rest)

either {ℓ κ} :
    {A : Type ℓ} (P : A → Type κ) (b : Bool) {x y : A} → P x → P y → P (if b then x else y)
either P true p q = p
either P false p q = q

module _ (prefix : Name) (child_of : ℕ → Name) where
  -- An answer, against what is true when it is used.
  pub record Seen (nodes : List ℕ) (now : ℕ) (a : Answer) : Type 0 where
    pub past : a.next ≤ now
    pub only :
        (child : Name)
        → In a.children child
        → starts_with prefix child ≡ true
        → (n : ℕ) × (n < a.next) × (child ≡ child_of n)
    pub all : (n : ℕ) → In nodes n → In a.children (child_of n) ⊎ (a.next ≤ n)

  -- The created node of an instance is one that it asked for.
  abbrev pub Named : ℕ → (ℕ → ℕ) → ℕ → DistributedLock → Type 0
  Named next asked_by i lock =
      (lock.created_node_name ≡ [])
      ⊎ ((n : ℕ) × (n < next) × (asked_by n ≡ i) × (lock.created_node_name ≡ slash ∷ child_of n))

  abbrev pub Held : List ℕ → (ℕ → ℕ) → ℕ → ℕ → DistributedLock → Type 0
  Held granted asked_by next i lock =
      (k : ℕ) → lock.lock_number ≡ some k → In granted k × (asked_by k ≡ i) × (k < next)

  -- A granted number is past, and no node has a lower one.
  abbrev pub Past : List ℕ → ℕ → ℕ → Type 0
  Past nodes next g = (g < next) × ((n : ℕ) → In nodes n → g ≤ n)

  pub record Inv (w : World) : Type 0 where
    pub below : (n : ℕ) → In w.nodes n → n < w.next
    pub seen : (a : Answer) → In w.answers a → Seen w.nodes w.next a
    pub named : (i : ℕ) → Named w.next w.asked_by i (w.locks i)
    pub held : (i : ℕ) → Held w.granted w.asked_by w.next i (w.locks i)
    pub past : (g : ℕ) → In w.granted g → Past w.nodes w.next g

  pub Inv-initial : Inv initial
  Inv-initial = record {
    below = λ n m. let e = m.1 in cc;
    seen = λ a m. let e = m.1 in cc;
    named = λ i. inl refl;
    held = λ i k e. cc;
    past = λ g m. let e = m.1 in cc;
  }

  -- Only the fields of one instance change.
  pub lock-Inv :
      (w : World) (i : ℕ) (lock : DistributedLock)
      → Inv w
      → Named w.next w.asked_by i lock
      → Held w.granted w.asked_by w.next i lock
      → Inv (record w { locks = update w.locks i lock })
  lock-Inv w i lock inv named held = record {
    below = inv.below;
    seen = inv.seen;
    named = update-all (Named w.next w.asked_by) w.locks i lock named inv.named;
    held = update-all (Held w.granted w.asked_by w.next) w.locks i lock held inv.held;
    past = inv.past;
  }

  pub begins-Inv :
      (w : World) (i : ℕ)
      → Inv w
      → Inv (record w { locks = update w.locks i (begin_lock (w.locks i)) })
  begins-Inv w i inv =
      lock-Inv w i (begin_lock (w.locks i)) inv
        (either (Named w.next w.asked_by i) (w.locks i).is_stopped (inv.named i) (inv.named i))
        (either (Held w.granted w.asked_by w.next i) (w.locks i).is_stopped (inv.held i)
          (λ k e. cc))

  not_new : (asked_by : ℕ → ℕ) (next i n : ℕ) → n < next → update asked_by next i n ≡ asked_by n
  not_new asked_by next i n h = ground arith

  pub creates-Inv :
      (w : World) (i : ℕ)
      → Inv w
      → Inv (record w {
        nodes = w.next ∷ w.nodes;
        next = suc w.next;
        asked_by = update w.asked_by w.next i;
      })
  creates-Inv w i inv = record {
    below = λ n m. elim (In-cons w.next w.nodes n m) [
      | inl e ↦ omega arith
      | inr m ↦ omega (arith, inv.below n m)
    ];
    seen = λ a m.
        let s = inv.seen a m in
        record {
          past = omega (arith, s.past);
          only = s.only;
          all = λ n m. elim (In-cons w.next w.nodes n m) [
            | inl e ↦ inr (omega (arith, s.past))
            | inr m ↦ s.all n m
          ];
        };
    named = λ k. elim (inv.named k) [
      | inl e ↦ inl e
      | inr (n, h, asked, e) ↦ inr (n, omega arith, not_new w.asked_by w.next i n h ∙ asked, e)
    ];
    held = λ k l e.
        let (m, asked, h) = inv.held k l e in
        (m, not_new w.asked_by w.next i l h ∙ asked, omega arith);
    past = λ g m.
        let (h, least) = inv.past g m in
        (
          omega arith,
          λ n m. elim (In-cons w.next w.nodes n m) [ inl e ↦ omega arith | inr m ↦ least n m ],
        );
  }

  pub removes-Inv : (w : World) (k : ℕ) → Inv w → Inv (record w { nodes = erase_idx w.nodes k })
  removes-Inv w k inv = record {
    below = λ n m. inv.below n (In-erase_idx w.nodes k m);
    seen = λ a m.
        let s = inv.seen a m in
        record { past = s.past; only = s.only; all = λ n m. s.all n (In-erase_idx w.nodes k m) };
    named = inv.named;
    held = inv.held;
    past = λ g m. let (h, least) = inv.past g m in (h, λ n m. least n (In-erase_idx w.nodes k m));
  }

  pub answer-Inv :
      (w : World) (i : ℕ) (children : List Name)
      → Lists prefix child_of w.nodes children
      → Inv w
      → Inv (record w {
        answers = record { instance_id = i; children = children; next = w.next } ∷ w.answers;
      })
  answer-Inv w i children l inv = record {
    below = inv.below;
    seen = λ a m. elim (In-cons _ w.answers a m) [
      | inl e ↦ subst (Seen w.nodes w.next) e (record {
        past = omega arith;
        only = λ child m ours. let (n, here, e) = l.only child m ours in (n, inv.below n here, e);
        all = λ n m. inl (l.all n m);
      })
      | inr m ↦ inv.seen a m
    ];
    named = inv.named;
    held = inv.held;
    past = inv.past;
  }
