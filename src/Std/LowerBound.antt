-- ===== src/Std/LowerBound.antt =====
-- `std::lower_bound`: libstdc++'s loop over a range, and what it finds on any range at all.
use mathlib.Core.Bool.{false≢true}
use mathlib.Core.Option.{some-injective}
use vm_scheduler.Std.Ordered.{IsSorted}
use vm_scheduler.Prelude.{
  ℕ, zero, suc, ◌+◌, ◌-◌, ◌/◌, ◌≤◌, ◌<◌, ◌≡◌, ◌≢◌, sym, subst, ◌∙◌, ◌⊎◌, inl, inr, Bool, true,
  false, none, some, List, [], ◌∷◌, arith, length, get_elem?, get_elem?-lt, All, All-get_elem?,
  All-mono, ◌==◌, if◌then◌else◌, Bool-cases,
}

some-ne-none {ℓ} : {A : Type ℓ} (x : A) → some x ≢ none
some-ne-none x e = cc

module _ {ℓ} {A : Type ℓ} (before : A → Bool) where
  -- `len` elements from `first` on are left. A probe outside the range ends the search; the
  -- theorems below show that none is made.
  unfoldable pub lower_bound_from : ℕ → List A → ℕ → ℕ → ℕ
  lower_bound_from zero xs first len = first
  lower_bound_from (suc fuel) xs first len =
      let half = len / 2 in
      let mid = first + half in
      let right = lower_bound_from fuel xs (mid + 1) (len - half - 1) in
      let left = lower_bound_from fuel xs first half in
      if len == 0
      then first
      else elim (get_elem? xs mid) [ none ↦ first | some x ↦ if before x then right else left ]

  -- The position of `std::lower_bound(begin, end, value, comp)` with `comp(x, value)` as `before x`.
  unfoldable pub lower_bound : List A → ℕ
  unfolding lower_bound_from
  lower_bound xs = lower_bound_from (length xs) xs 0 (length xs)

  -- Either the end of the range, or an element that is not before the value.
  abbrev pub EndOrStop : List A → ℕ → Type ℓ
  EndOrStop xs i = (i ≡ length xs) ⊎ ((x : A) × (get_elem? xs i ≡ some x) × (before x ≡ false))

  lower_bound_from-EndOrStop :
      (fuel : ℕ) (xs : List A) (first len : ℕ)
      → first + len ≤ length xs
      → len ≤ fuel
      → EndOrStop xs (first + len)
      → EndOrStop xs (lower_bound_from fuel xs first len)
  unfolding lower_bound_from
  lower_bound_from-EndOrStop zero xs first len h enough e =
      let z : first + len ≡ first = omega arith in rw z at e
  lower_bound_from-EndOrStop (suc fuel) xs first len h enough e = elim (Bool-cases (len == 0)) [
    | inl done ↦ let z : first + len ≡ first = ground arith in rw done (rw z at e)
    | inr more ↦
        let (x, got) = get_elem?-lt xs (first + len / 2) (ground arith) in
        elim (Bool-cases (before x)) [
          | inl t ↦
              rw (more, got, t)
                (lower_bound_from-EndOrStop fuel xs (first + len / 2 + 1) (len - len / 2 - 1)
                  (ground arith) (ground arith)
                  (let z : first + len ≡ first + len / 2 + 1 + (len - len / 2 - 1) = ground arith in
                    rw z at e))
          | inr f ↦
              rw (more, got, f)
                (lower_bound_from-EndOrStop fuel xs first (len / 2) (ground arith) (ground arith)
                  (inr (x, got, f)))
        ]
  ]

  -- The search needs no sorted range to stop at the end or at an element that is not before.
  pub lower_bound-EndOrStop : (xs : List A) → EndOrStop xs (lower_bound xs)
  unfolding lower_bound
  lower_bound-EndOrStop xs =
      lower_bound_from-EndOrStop (length xs) xs 0 (length xs) (omega arith) (omega arith)
        (inl (omega arith))

  -- The linear search for the first element that is not before the value.
  unfoldable pub first_stop : List A → ℕ
  first_stop [] = 0
  first_stop (x ∷ xs) = if before x then suc (first_stop xs) else 0

  -- No element before the value stands behind one that is not.
  abbrev pub IsPartitioned : List A → Type ℓ
  IsPartitioned [] = Unit
  IsPartitioned (x ∷ xs) = (before x ≡ false → All (λ y. before y ≡ false) xs) × IsPartitioned xs

  first_stop-le : (xs : List A) → first_stop xs ≤ length xs
  unfolding first_stop
  first_stop-le [] = omega arith
  first_stop-le (x ∷ xs) = ground (arith, first_stop-le xs)

  first_stop_above :
      (xs : List A) (i : ℕ) (x : A) → get_elem? xs i ≡ some x → i < first_stop xs → before x ≡ true
  unfolding first_stop
  first_stop_above [] i x e h = cc
  first_stop_above (y ∷ ys) zero x e h = ground arith
  first_stop_above (y ∷ ys) (suc i) x e h = ground (arith, first_stop_above ys i x e)

  first_stop_below :
      (xs : List A) (i : ℕ) (x : A)
      → IsPartitioned xs
      → get_elem? xs i ≡ some x
      → first_stop xs ≤ i
      → before x ≡ false
  unfolding first_stop
  first_stop_below [] i x p e h = cc
  first_stop_below (y ∷ ys) zero x p e h = ground arith
  first_stop_below (y ∷ ys) (suc i) x p e h = elim (Bool-cases (before y)) [
    | inl t ↦ first_stop_below ys i x p.1 e (ground arith)
    | inr f ↦ All-get_elem? (λ z. before z ≡ false) ys i x (p.0 f) e
  ]

  lower_bound_from-first_stop :
      (fuel : ℕ) (xs : List A) (first len : ℕ)
      → IsPartitioned xs
      → first + len ≤ length xs
      → len ≤ fuel
      → first ≤ first_stop xs
      → first_stop xs ≤ first + len
      → lower_bound_from fuel xs first len ≡ first_stop xs
  unfolding lower_bound_from
  lower_bound_from-first_stop zero xs first len p h enough lo hi = omega arith
  lower_bound_from-first_stop (suc fuel) xs first len p h enough lo hi =
      elim (Bool-cases (len == 0)) [
        | inl done ↦ rw done (ground arith)
        | inr more ↦
            let (x, got) = get_elem?-lt xs (first + len / 2) (ground arith) in
            ground (
              arith,
              first_stop_above xs (first + len / 2) x got,
              first_stop_below xs (first + len / 2) x p got,
              lower_bound_from-first_stop fuel xs (first + len / 2 + 1) (len - len / 2 - 1) p,
              lower_bound_from-first_stop fuel xs first (len / 2) p,
            )
      ]

  -- On a partitioned range the binary search is the linear one.
  pub lower_bound-first_stop : (xs : List A) → IsPartitioned xs → lower_bound xs ≡ first_stop xs
  unfolding lower_bound
  lower_bound-first_stop xs p =
      lower_bound_from-first_stop (length xs) xs 0 (length xs) p (omega arith) (omega arith)
        (omega arith) (omega (arith, first_stop-le xs))

  -- What the linear search finds, on any range.
  pub first_stop-none :
      (xs : List A) → get_elem? xs (first_stop xs) ≡ none → All (λ x. before x ≡ true) xs
  unfolding first_stop
  first_stop-none [] e = tt
  first_stop-none (x ∷ xs) e = elim (Bool-cases (before x)) [
    | inl t ↦ (t, first_stop-none xs (rw t at e))
    | inr f ↦ absurd (some-ne-none x (rw f at e))
  ]

  pub first_stop-some :
      (xs : List A) (x : A) → get_elem? xs (first_stop xs) ≡ some x → before x ≡ false
  unfolding first_stop
  first_stop-some [] x e = cc
  first_stop-some (y ∷ ys) x e = ground (arith, first_stop-some ys x)

  -- In a sorted range no element that is not before the value is less than the one found.
  pub first_stop-least :
      (lt : A → A → Bool) (xs : List A) (x : A)
      → ((a : A) → lt a a ≡ false)
      → IsSorted lt xs
      → get_elem? xs (first_stop xs) ≡ some x
      → All (λ y. before y ≡ false → lt y x ≡ false) xs
  unfolding first_stop
  first_stop-least lt [] x irr h e = tt
  first_stop-least lt (y ∷ ys) x irr h e = elim (Bool-cases (before y)) [
    | inl t ↦ (λ f. absurd (false≢true (sym f ∙ t)), first_stop-least lt ys x irr h.1 (rw t at e))
    | inr f ↦
        let same : y ≡ x = some-injective y x (rw f at e) in
        subst (λ z. All (λ w. before w ≡ false → lt w z ≡ false) (y ∷ ys)) same
          (λ _. irr y, All-mono _ _ (λ w k _. k) ys h.0)
  ]
