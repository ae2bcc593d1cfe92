-- ===== src/Common/Result.antt =====
-- libs/common/include/result.h and errors.h, with the exception classes of libs/state, libs/db,
-- libs/server and libs/aws.
-- An exception is its class; the message, which nothing inspects, is left out.
use vm_scheduler.Prelude.{ℕ, Bool, true, false, ◌==◌}

-- Every class but `RuntimeException` derives from it, none from another.
-- `in_doubt` is `pqxx::in_doubt_error`, of a commit that may have been made.
pub data Exception : Type 0 where
  runtime_exception job_not_found job_cancelled lock_unavailable pg_exception : Exception
  inconsistent_pg_result scheduling_cancelled optimistic_locking_failure : Exception
  input_validation allocation_failed in_doubt : Exception

pub data Result {ℓ} (A : Type ℓ) : Type ℓ where
  success : A → Result A
  failure : Exception → Result A

abbrev class_number : Exception → ℕ
class_number runtime_exception = 0
class_number job_not_found = 1
class_number job_cancelled = 2
class_number lock_unavailable = 3
class_number pg_exception = 4
class_number inconsistent_pg_result = 5
class_number scheduling_cancelled = 6
class_number optimistic_locking_failure = 7
class_number input_validation = 8
class_number allocation_failed = 9
class_number in_doubt = 10

-- Whether `catch (const C&)` catches an exception of class `e`.
abbrev catches : Exception → Exception → Bool
catches runtime_exception e = true
catches c e = class_number c == class_number e

module _ {ℓ} {A : Type ℓ} where
  unfoldable pub is_failure : Result A → Bool
  is_failure (success a) = false
  is_failure (failure e) = true

  -- `ErrorRefOrThrow()`, and what it throws.
  unfoldable pub error_ref_or_throw : Result A → Result Exception
  error_ref_or_throw (success a) = failure runtime_exception
  error_ref_or_throw (failure e) = success e

  unfoldable pub holds_error_type : Exception → Result A → Bool
  holds_error_type c (success a) = false
  holds_error_type c (failure e) = catches c e

infixl 5 ◌>>=◌ ◌>>◌
abbrev pub ◌>>=◌ {ℓ κ} : {A : Type ℓ} {B : Type κ} → Result A → (A → Result B) → Result B
success a >>= f = f a
failure e >>= f = failure e

abbrev pub ◌>>◌ {ℓ} : {B : Type ℓ} → Result (Unit {0}) → Result B → Result B
m >> k = m >>= λ _. k
