-- ===== src/Std/Map.antt =====
-- `std::unordered_map` with numbers for keys, as an association list. The order in which the
-- map is walked is open in C++, and is the list's here.
use vm_scheduler.Prelude.{
  ℕ, ◌≡◌, refl, Bool, true, false, ◌||◌, Option, none, some, List, [], ◌∷◌, arith, ◌==◌,
  if◌then◌else◌,
}

module _ {ℓ} {V : Type ℓ} where
  unfoldable pub lookup : ℕ → List (ℕ × V) → Option V
  lookup k [] = none
  lookup k ((j, v) ∷ m) = if j == k then some v else lookup k m

  -- `contains`.
  unfoldable pub has_key : ℕ → List (ℕ × V) → Bool
  has_key k [] = false
  has_key k ((j, v) ∷ m) = k == j || has_key k m

  -- `m[k] = v`.
  unfoldable pub assign : ℕ → V → List (ℕ × V) → List (ℕ × V)
  assign k v [] = (k, v) ∷ []
  assign k v ((j, w) ∷ m) = if j == k then (k, v) ∷ m else (j, w) ∷ assign k v m

  -- `m.emplace(k, v)`: an entry that is there stays.
  unfoldable pub emplace : ℕ → V → List (ℕ × V) → List (ℕ × V)
  emplace k v [] = (k, v) ∷ []
  emplace k v ((j, w) ∷ m) = if j == k then (j, w) ∷ m else (j, w) ∷ emplace k v m

  -- `target.merge(source)`: the entries of the source whose keys the target lacks.
  unfoldable pub merge : List (ℕ × V) → List (ℕ × V) → List (ℕ × V)
  unfolding emplace
  merge target [] = target
  merge target ((k, v) ∷ source) = merge (emplace k v target) source

  pub lookup-has_key :
      (k : ℕ) (m : List (ℕ × V))
      → has_key k m ≡ (elim (lookup k m) [ none ↦ false | some _ ↦ true ])
  unfolding lookup has_key
  lookup-has_key k [] = refl
  lookup-has_key k ((j, v) ∷ m) = ground (arith, lookup-has_key k m)

  pub lookup-assign :
      (k j : ℕ) (v : V) (m : List (ℕ × V))
      → lookup j (assign k v m) ≡ (if k == j then some v else lookup j m)
  unfolding lookup assign
  lookup-assign k j v [] = refl
  lookup-assign k j v ((i, w) ∷ m) = ground (arith, lookup-assign k j v m)

  pub has_key-assign :
      (k j : ℕ) (v : V) (m : List (ℕ × V)) → has_key j (assign k v m) ≡ (j == k || has_key j m)
  unfolding has_key assign
  has_key-assign k j v [] = refl
  has_key-assign k j v ((i, w) ∷ m) = ground (arith, has_key-assign k j v m)

  pub lookup-emplace :
      (k j : ℕ) (v : V) (m : List (ℕ × V))
      → lookup j (emplace k v m)
        ≡ (if has_key j m then lookup j m else if k == j then some v else none)
  unfolding lookup emplace has_key
  lookup-emplace k j v [] = refl
  lookup-emplace k j v ((i, w) ∷ m) = ground (arith, lookup-emplace k j v m, lookup-has_key j m)

  pub has_key-emplace :
      (k j : ℕ) (v : V) (m : List (ℕ × V)) → has_key j (emplace k v m) ≡ (j == k || has_key j m)
  unfolding has_key emplace
  has_key-emplace k j v [] = refl
  has_key-emplace k j v ((i, w) ∷ m) = ground (arith, has_key-emplace k j v m)

  pub has_key-merge :
      (j : ℕ) (target source : List (ℕ × V))
      → has_key j (merge target source) ≡ (has_key j target || has_key j source)
  unfolding has_key merge
  has_key-merge j target [] = ground arith
  has_key-merge j target ((k, v) ∷ source) =
      ground (arith, has_key-merge j (emplace k v target) source, has_key-emplace k j v target)

  pub lookup-merge :
      (j : ℕ) (target source : List (ℕ × V))
      → lookup j (merge target source)
        ≡ (if has_key j target then lookup j target else lookup j source)
  unfolding lookup has_key merge
  lookup-merge j target [] = ground (arith, lookup-has_key j target)
  lookup-merge j target ((k, v) ∷ source) = ground (
    arith,
    lookup-merge j (emplace k v target) source,
    has_key-emplace k j v target,
    lookup-emplace k j v target,
  )
