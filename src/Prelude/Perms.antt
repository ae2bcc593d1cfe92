-- ===== src/Prelude/Perms.antt =====
-- What a reordering keeps: sums, propositions about all elements, and the element at a position.
use mathlib.Core.Path.{◌≡◌, refl, ap, ◌∙◌, subst}
use mathlib.Core.HLevel.{×_prop}
use mathlib.Core.Logic.{∥∥₁_elim}
use mathlib.Core.List.{List, [], ◌∷◌, Perm, Permᴰ}
use mathlib.Core.List.Perm
use mathlib.Core.Option.{some, some-injective}
use Prim.Native.Nat.{ℕ, zero, suc}
use native.Mathlib.Nat.{ℕ_set}
use native.Mathlib.Omega.{arith}
use vm_scheduler.Prelude.Lists.{All, sum_of, get_elem?, erase_idx}

module _ {ℓ} {A : Type ℓ} where
  sum_of-Permᴰ : (f : A → ℕ) {xs ys : List A} → Permᴰ xs ys → sum_of f xs ≡ sum_of f ys
  sum_of-Permᴰ f Permᴰ.nil = refl
  sum_of-Permᴰ f (Permᴰ.cons e p) = omega (arith, ap f e, sum_of-Permᴰ f p)
  sum_of-Permᴰ f (Permᴰ.swap x y) = omega (arith, ap f x, ap f y)
  sum_of-Permᴰ f (Permᴰ.trans p q) = sum_of-Permᴰ f p ∙ sum_of-Permᴰ f q

  pub sum_of-Perm : (f : A → ℕ) {xs ys : List A} → Perm xs ys → sum_of f xs ≡ sum_of f ys
  sum_of-Perm f p = ∥∥₁_elim p (ℕ_set _ _) (λ d. sum_of-Permᴰ f d)

  module _ {κ} (P : A → Type κ) where
    All-Permᴰ : {xs ys : List A} → Permᴰ xs ys → All P xs → All P ys
    All-Permᴰ Permᴰ.nil h = h
    All-Permᴰ (Permᴰ.cons e p) h = (subst P e h.0, All-Permᴰ p h.1)
    All-Permᴰ (Permᴰ.swap x y) h = (subst P y h.1.0, (subst P x h.0, h.1.1))
    All-Permᴰ (Permᴰ.trans p q) h = All-Permᴰ q (All-Permᴰ p h)

    All-prop : ((a : A) → IsProp (P a)) → (xs : List A) → IsProp (All P xs)
    All-prop prop [] = hlevel
    All-prop prop (x ∷ xs) = ×_prop (prop x) (All-prop prop xs)

    pub All-Perm : ((a : A) → IsProp (P a)) → {xs ys : List A} → Perm xs ys → All P xs → All P ys
    All-Perm prop {xs} {ys} p h = ∥∥₁_elim p (All-prop prop ys) (λ d. All-Permᴰ d h)

  pub erase_idx-Perm :
      (xs : List A) (i : ℕ) (x : A) → get_elem? xs i ≡ some x → Perm xs (x ∷ erase_idx xs i)
  erase_idx-Perm [] i x e = cc
  erase_idx-Perm (y ∷ ys) zero x e =
      subst (λ z. Perm (y ∷ ys) (z ∷ ys)) (some-injective y x e) Perm.rfl
  erase_idx-Perm (y ∷ ys) (suc i) x e =
      Perm.trans (Perm.cons y (erase_idx-Perm ys i x e)) (Perm.swap x y _)
