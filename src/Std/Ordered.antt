-- ===== src/Std/Ordered.antt =====
-- Insertion into a `std::multiset`, and `std::sort`, by a strict order given as a test. The
-- standard leaves the order of equivalent elements under `std::sort` open; here they keep theirs.
use native.Mathlib.Bridge.{le_prop}
use mathlib.Core.List.Perm
use mathlib.Core.List.{perm_middle, append-nil}
use vm_scheduler.Prelude.{
  ℕ, ◌+◌, ◌≤◌, ◌≡◌, refl, subst, Bool, true, false, List, [], ◌∷◌, ◌++◌, Perm, arith, All, All-mono,
  All-Perm, sum_of, if◌then◌else◌, Bool-cases, inl, inr, ◌⊎◌,
}

module _ {ℓ} {A : Type ℓ} (lt : A → A → Bool) where
  -- `multiset::insert`: at the upper bound of the equivalent elements.
  unfoldable pub insert_ordered : A → List A → List A
  insert_ordered x [] = x ∷ []
  insert_ordered x (y ∷ ys) = if lt x y then x ∷ y ∷ ys else y ∷ insert_ordered x ys

  unfoldable pub insert_all : List A → List A → List A
  insert_all [] acc = acc
  insert_all (x ∷ xs) acc = insert_all xs (insert_ordered x acc)

  unfoldable pub sort : List A → List A
  unfolding insert_all insert_ordered
  sort xs = insert_all xs []

  pub insert_ordered-perm : (x : A) (ys : List A) → Perm (insert_ordered x ys) (x ∷ ys)
  unfolding insert_ordered
  insert_ordered-perm x [] = Perm.rfl
  insert_ordered-perm x (y ∷ ys) = elim (Bool-cases (lt x y)) [
    | inl t ↦ rw t Perm.rfl
    | inr f ↦ rw f (Perm.trans (Perm.cons y (insert_ordered-perm x ys)) (Perm.swap x y ys))
  ]

  pub insert_all-perm : (xs acc : List A) → Perm (insert_all xs acc) (xs ++ acc)
  unfolding insert_all
  insert_all-perm [] acc = Perm.rfl
  insert_all-perm (x ∷ xs) acc =
      Perm.trans (insert_all-perm xs (insert_ordered x acc))
        (Perm.trans (Perm.append_left xs (insert_ordered-perm x acc)) (perm_middle xs acc))

  -- Sorting loses nothing and makes nothing up.
  pub sort-perm : (xs : List A) → Perm (sort xs) xs
  unfolding sort
  sort-perm xs = rw append-nil at (insert_all-perm xs [])

  -- A later element is never less than an earlier one.
  abbrev pub IsSorted : List A → Type 0
  IsSorted [] = Unit
  IsSorted (x ∷ xs) = All (λ y. lt y x ≡ false) xs × IsSorted xs

  -- What the comparison must be for a sort to mean anything: a strict weak order.
  pub record IsStrictWeak : Type ℓ where
    pub asymm : (a b : A) → lt a b ≡ true → lt b a ≡ false
    pub negative : (a b c : A) → lt a b ≡ false → lt b c ≡ false → lt a c ≡ false

  All-insert_ordered {κ} :
      (P : A → Type κ) (x : A) (ys : List A) → P x → All P ys → All P (insert_ordered x ys)
  unfolding insert_ordered
  All-insert_ordered P x [] p h = (p, tt)
  All-insert_ordered P x (y ∷ ys) p h = elim (Bool-cases (lt x y)) [
    | inl t ↦ rw t (p, h)
    | inr f ↦ rw f (h.0, All-insert_ordered P x ys p h.1)
  ]

  module _ (o : IsStrictWeak) where
    pub insert_ordered-IsSorted :
        (x : A) (ys : List A) → IsSorted ys → IsSorted (insert_ordered x ys)
    unfolding insert_ordered
    insert_ordered-IsSorted x [] h = (tt, tt)
    insert_ordered-IsSorted x (y ∷ ys) h = elim (Bool-cases (lt x y)) [
      | inl t ↦
          rw t ((o.asymm x y t, All-mono _ _ (λ z p. o.negative z y x p (o.asymm x y t)) ys h.0), h)
      | inr f ↦
          rw f
            (All-insert_ordered (λ z. lt z y ≡ false) x ys f h.0, insert_ordered-IsSorted x ys h.1)
    ]

    pub insert_all-IsSorted : (xs acc : List A) → IsSorted acc → IsSorted (insert_all xs acc)
    unfolding insert_all
    insert_all-IsSorted [] acc h = h
    insert_all-IsSorted (x ∷ xs) acc h = insert_all-IsSorted xs _ (insert_ordered-IsSorted x acc h)

    pub sort-IsSorted : (xs : List A) → IsSorted (sort xs)
    unfolding sort
    sort-IsSorted xs = insert_all-IsSorted xs [] tt

-- What is kept by the reorderings above: sums, and what holds of every element.
module _ {ℓ} {A : Type ℓ} (lt : A → A → Bool) where
  pub sum_of-insert_ordered :
      (f : A → ℕ) (x : A) (ys : List A) → sum_of f (insert_ordered lt x ys) ≡ f x + sum_of f ys
  unfolding insert_ordered
  sum_of-insert_ordered f x [] = refl
  sum_of-insert_ordered f x (y ∷ ys) = ground (arith, sum_of-insert_ordered f x ys)

  pub sum_of-insert_all :
      (f : A → ℕ) (xs acc : List A) → sum_of f (insert_all lt xs acc) ≡ sum_of f xs + sum_of f acc
  unfolding insert_all
  sum_of-insert_all f [] acc = omega arith
  sum_of-insert_all f (x ∷ xs) acc =
      omega (arith, sum_of-insert_all f xs (insert_ordered lt x acc), sum_of-insert_ordered f x acc)

  pub sum_of-sort : (f : A → ℕ) (xs : List A) → sum_of f (sort lt xs) ≡ sum_of f xs
  unfolding sort
  sum_of-sort f xs = omega (arith, sum_of-insert_all f xs [])

  pub All-insert {κ} :
      (P : A → Type κ) (x : A) (ys : List A) → P x → All P ys → All P (insert_ordered lt x ys)
  All-insert P x ys p h = All-insert_ordered lt P x ys p h

  pub All-insert_all {κ} :
      (P : A → Type κ) (xs acc : List A) → All P xs → All P acc → All P (insert_all lt xs acc)
  unfolding insert_all
  All-insert_all P [] acc h k = k
  All-insert_all P (x ∷ xs) acc h k =
      All-insert_all P xs _ h.1 (All-insert_ordered lt P x acc h.0 k)

  pub All-sort {κ} : (P : A → Type κ) (xs : List A) → All P xs → All P (sort lt xs)
  unfolding sort
  All-sort P xs h = All-insert_all P xs [] h tt

-- What holds of an element.
module _ {ℓ} {A : Type ℓ} (P : A → Type 0) where
  abbrev pub Any : List A → Type 0
  Any [] = ⊥
  Any (x ∷ xs) = P x ⊎ Any xs

  module _ (lt : A → A → Bool) where
    Any-insert_ordered : (x : A) (ys : List A) → P x ⊎ Any ys → Any (insert_ordered lt x ys)
    unfolding insert_ordered
    Any-insert_ordered x [] h = h
    Any-insert_ordered x (y ∷ ys) h = elim (Bool-cases (lt x y)) [
      | inl t ↦ rw t h
      | inr f ↦ rw f (elim h [
        | inl p ↦ inr (Any-insert_ordered x ys (inl p))
        | inr (inl p) ↦ inl p
        | inr (inr m) ↦ inr (Any-insert_ordered x ys (inr m))
      ])
    ]

    Any-insert_all : (xs acc : List A) → Any xs ⊎ Any acc → Any (insert_all lt xs acc)
    unfolding insert_all
    Any-insert_all [] acc (inl m) = absurd m
    Any-insert_all [] acc (inr m) = m
    Any-insert_all (x ∷ xs) acc h = Any-insert_all xs (insert_ordered lt x acc) (elim h [
      | inl (inl p) ↦ inr (Any-insert_ordered x acc (inl p))
      | inl (inr m) ↦ inl m
      | inr m ↦ inr (Any-insert_ordered x acc (inr m))
    ])

    pub Any-sort : (xs : List A) → Any xs → Any (sort lt xs)
    unfolding sort
    Any-sort xs m = Any-insert_all xs [] (inl m)

-- A measure that the comparison respects grows along a sorted list.
module _ {ℓ} {A : Type ℓ} (lt : A → A → Bool) (key : A → ℕ) where
  pub record Respects : Type ℓ where
    pub less : (a b : A) → lt a b ≡ true → key a ≤ key b
    pub not_less : (a b : A) → lt a b ≡ false → key b ≤ key a

  abbrev pub Grows : List A → Type 0
  Grows [] = Unit
  Grows (x ∷ xs) = All (λ y. key x ≤ key y) xs × Grows xs

  module _ (r : Respects) where
    insert_ordered-Grows : (x : A) (ys : List A) → Grows ys → Grows (insert_ordered lt x ys)
    unfolding insert_ordered
    insert_ordered-Grows x [] h = (tt, tt)
    insert_ordered-Grows x (y ∷ ys) h = elim (Bool-cases (lt x y)) [
      | inl t ↦
          let first = r.less x y t in
          rw t
            ((first, All-mono _ _ (λ (z : A) (p : key y ≤ key z). omega (arith, first)) ys h.0), h)
      | inr f ↦ rw f (
        All-insert lt (λ z. key y ≤ key z) x ys (r.not_less x y f) h.0,
        insert_ordered-Grows x ys h.1,
      )
    ]

    insert_all-Grows : (xs acc : List A) → Grows acc → Grows (insert_all lt xs acc)
    unfolding insert_all
    insert_all-Grows [] acc h = h
    insert_all-Grows (x ∷ xs) acc h = insert_all-Grows xs _ (insert_ordered-Grows x acc h)

    pub sort-Grows : (xs : List A) → Grows (sort lt xs)
    unfolding sort
    sort-Grows xs = insert_all-Grows xs [] tt

    -- The first of a sorted list is the least of the list.
    pub sort-head :
        (xs : List A) (x : A) (rest : List A) → sort lt xs ≡ x ∷ rest → All (λ y. key x ≤ key y) xs
    unfolding sort
    sort-head xs x rest e =
        let grown = subst Grows e (sort-Grows xs) in
        All-Perm (λ y. key x ≤ key y) (λ y. le_prop) (subst (λ l. Perm l xs) e (sort-perm lt xs))
          (omega arith, grown.0)
