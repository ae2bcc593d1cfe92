-- ===== src/Std/Names.antt =====
-- `std::unordered_map` with texts for keys, as the sources use it: a constant table that is asked
-- by `at`, which throws on a key that is not there (`none`).
use Prim.Native.String.{String}
use text.Mathlib.Text.{◌==◌ as str_eq}
use text.Mathlib.TextEquality.{eq_iff}
use mathlib.Core.Option.{some-injective}
use vm_scheduler.Prelude.{
  ◌≡◌, ◌∙◌, ap, inl, inr, Option, none, some, List, [], ◌∷◌, All, if◌then◌else◌, Bool-cases,
}

module _ {ℓ} {V : Type ℓ} where
  unfoldable pub at_name : String → List (String × V) → Option V
  at_name s [] = none
  at_name s ((name, v) ∷ table) = if str_eq s name then some v else at_name s table

  -- A table whose every name is that of its value answers a text only by the value of that name.
  pub at_name-eq-some :
      (name_of : V → String) (s : String) (v : V) (table : List (String × V))
      → All (λ entry. entry.0 ≡ name_of entry.1) table
      → at_name s table ≡ some v
      → s ≡ name_of v
  unfolding at_name
  at_name-eq-some name_of s v [] h e = cc
  at_name-eq-some name_of s v ((name, w) ∷ table) h e = elim (Bool-cases (str_eq s name)) [
    | inl hit ↦ (eq_iff s name).0 hit ∙ h.0 ∙ ap name_of (some-injective w v (rw hit at e))
    | inr miss ↦ at_name-eq-some name_of s v table h.1 (rw miss at e)
  ]
