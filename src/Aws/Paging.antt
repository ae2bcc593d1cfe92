-- ===== src/Aws/Paging.antt =====
-- libs/aws/allocator/impl/describe_instance_types.cpp and describe_instances.cpp: the loop over the
-- pages of an answer, which the next token of each page leads to.
use Prim.Native.String.{String}
use text.Mathlib.Text.{◌==◌ as str_eq}
use vm_scheduler.Prelude.{
  ℕ, zero, suc, ◌≤◌, ◌≡◌, refl, Bool, true, false, Option, none, some, List, [], ◌∷◌, length, arith,
  if◌then◌else◌,
}
use vm_scheduler.Common.Result.{Result, success, failure, runtime_exception}

-- A page, with the token of the next one; the last page has an empty token.
pub record Page (A : Type 0) : Type 0 where
  pub items : List A
  pub next_token : String

abbrev pub is_last : {A : Type 0} → Page A → Bool
is_last page = str_eq page.next_token ""

-- EC2's answers to the requests with each token: `none` where the outcome is no success.
abbrev pub Answers : Type 0 → Type 0
Answers A = String → Option (Page A)

module _ {A B : Type 0} (answers : Answers A) (add : B → List A → B) where
  -- On fuel: `none` where it runs out.
  unfoldable pub collect : ℕ → String → B → Option (Result B)
  collect zero token found = none
  collect (suc fuel) token found = elim (answers token) [
    | none ↦ some (failure runtime_exception)
    | some page ↦
        let rest = collect fuel page.next_token (add found page.items) in
        if is_last page then some (success (add found page.items)) else rest
  ]

  -- The answers from a token on are these pages, and then no more.
  pub data Serves : String → List (Page A) → Type 0 where
    last :
        {token : String} (page : Page A)
        → answers token ≡ some page
        → is_last page ≡ true
        → Serves token (page ∷ [])
    more :
        {token : String} (page : Page A) {pages : List (Page A)}
        → answers token ≡ some page
        → is_last page ≡ false
        → Serves page.next_token pages
        → Serves token (page ∷ pages)

  abbrev pub add_all : B → List (Page A) → B
  add_all found [] = found
  add_all found (page ∷ pages) = add_all (add found page.items) pages

  -- The loop ends, with what all the pages add.
  pub collect-Serves :
      {token : String} {pages : List (Page A)}
      → Serves token pages
      → (fuel : ℕ) → length pages ≤ fuel
      → (found : B) → collect fuel token found ≡ some (success (add_all found pages))
  unfolding collect
  collect-Serves (last page here end) zero enough found = absurd (omega arith)
  collect-Serves (last page here end) (suc fuel) enough found = rw (here, end, collect) refl
  collect-Serves (more page here on rest) zero enough found = absurd (omega arith)
  collect-Serves (more page here on rest) (suc fuel) enough found =
      rw (here, on, collect) (collect-Serves rest fuel (omega arith) (add found page.items))
