-- ===== src/Server/PublicApi/AddTask.antt =====
-- libs/server/impl/public_api_service.cpp, addTask: the reply on every branch, and what a question
-- about the new task is answered.
use Prim.Native.String.{String}
use vm_scheduler.Prelude.{
  ℕ, ◌≡◌, refl, ◌⊎◌, inl, inr, none, List, [], ◌∷◌, All, length, ◌==◌, arith, Bool-cases,
  Option-cases, ==_iff,
}
use vm_scheduler.Common.Result.{
  Result, success, failure, runtime_exception, input_validation, error_ref_or_throw, ◌>>◌,
}
use vm_scheduler.Server.Messages.{Task}
use vm_scheduler.Server.Helpers.{Reply, handed_over, invalid_argument, replies_with, replies_ok}
use vm_scheduler.Server.Conversions.{
  ParseJson, validate_options, validate_json, validate_proto_task_parameters, parameters_of,
  task_parameters_from_proto,
}
use vm_scheduler.Server.PublicApi.{answer_added, add_with, add_task}
use vm_scheduler.Storage.Transaction.{Run, Session, ended, crashed, bind}
use vm_scheduler.Storage.Jobs
use vm_scheduler.Storage.Jobs.{TaskParameters, new_job, new_jobs}

-- A request that may be taken: as many texts of options as jobs, and every text is JSON.
pub record IsValid (parse : ParseJson) (task : Task) : Type 0 where
  pub count : length task.job_options ≡ task.job_count
  pub settings : parse task.settings ≡ none
  pub options : All (λ text. parse text ≡ none) task.job_options

abbrev Checks : Type 0 → Result (Unit {0}) → Type 0
Checks P (success _) = P
Checks P (failure e) = (¬ P) × (e ≡ input_validation)

validate_json-Checks :
    (parse : ParseJson) (text : String) → Checks (parse text ≡ none) (validate_json parse text)
validate_json-Checks parse text = elim (Option-cases (parse text)) [
  | inl n ↦ rw (n, validate_json) refl
  | inr (position, s) ↦ rw (s, validate_json) (λ e. cc, refl)
]

then-Checks :
    (P Q : Type 0) (a b : Result (Unit {0})) → Checks P a → Checks Q b → Checks (P × Q) (a >> b)
then-Checks P Q (success x) (success y) p q = (p, q)
then-Checks P Q (success x) (failure e) p q = (λ both. q.0 both.1, q.1)
then-Checks P Q (failure e) b p q = (λ both. p.0 both.0, p.1)

validate_options-Checks :
    (parse : ParseJson) (options : List String)
    → Checks (All (λ text. parse text ≡ none) options) (validate_options parse options)
unfolding validate_options
validate_options-Checks parse [] = tt
validate_options-Checks parse (text ∷ rest) =
    then-Checks _ _ (validate_json parse text) (validate_options parse rest)
      (validate_json-Checks parse text) (validate_options-Checks parse rest)

mono-Checks : {P Q : Type 0} (r : Result (Unit {0})) → (P → Q) → (Q → P) → Checks P r → Checks Q r
mono-Checks (success x) f g p = f p
mono-Checks (failure e) f g p = (λ q. p.0 (g q), p.1)

validate-Checks :
    (parse : ParseJson) (task : Task)
    → Checks (IsValid parse task) (validate_proto_task_parameters parse task)
validate-Checks parse task = elim (Bool-cases (length task.job_options == task.job_count)) [
  | inl t ↦ rw t (
      mono-Checks (validate_json parse task.settings >> validate_options parse task.job_options)
        (λ h. record { count = (==_iff _ _).0 t; settings = h.0; options = h.1 })
        (λ v. (v.settings, v.options))
        (then-Checks _ _ (validate_json parse task.settings)
          (validate_options parse task.job_options) (validate_json-Checks parse task.settings)
          (validate_options-Checks parse task.job_options)))
  | inr n ↦ rw n (λ v. let e = v.count in ground arith, refl)
]

-- How `addTask` ends, for each end of the storage's function.
abbrev pub Follows : Run (ℕ × List ℕ) → Run (Reply ℕ) → Type 0
Follows (ended (success (id, ids)) t) run = run ≡ ended (success (replies_ok id)) t
Follows (ended (failure e) t) run = run ≡ ended (failure runtime_exception) t
Follows crashed run = run ≡ crashed

handed-Follows :
    (p : TaskParameters) (run : Run (ℕ × List ℕ))
    → Follows run (bind (handed_over run) (λ r. answer_added p r))
unfolding error_ref_or_throw
handed-Follows p (ended (success (id, ids)) t) = refl
handed-Follows p (ended (failure e) t) = refl
handed-Follows p crashed = refl

add_valid-Follows :
    (p : TaskParameters) (s : Session) → Follows (Jobs.add_task p s) (add_with (success p) s)
add_valid-Follows p s = handed-Follows p (Jobs.add_task p s)

checked-Follows :
    (parse : ParseJson) (task : Task) (s : Session) (checks : Result (Unit {0}))
    → Checks (IsValid parse task) checks
    → (IsValid parse task
        × Follows
            (Jobs.add_task (parameters_of task) s)
            (add_with (checks >> success (parameters_of task)) s))
      ⊎ ((¬ IsValid parse task)
          × (add_with (checks >> success (parameters_of task)) s
              ≡ ended (success (replies_with invalid_argument)) s))
checked-Follows parse task s (success x) h = inl (h, add_valid-Follows (parameters_of task) s)
checked-Follows parse task s (failure e) h = inr (h.0, refl)

-- A request is refused with INVALID_ARGUMENT, and nothing changes, exactly if the number of its
-- texts of options is not its number of jobs or one of its texts is no JSON. Any other request is
-- handed to the storage: where that succeeds, the reply is OK with the id of the new task; where it
-- fails, no status is replied: an exception leaves the handler.
pub add_task-Follows :
    (parse : ParseJson) (task : Task) (s : Session)
    → (IsValid parse task × Follows (Jobs.add_task (parameters_of task) s) (add_task parse task s))
      ⊎ ((¬ IsValid parse task)
          × (add_task parse task s ≡ ended (success (replies_with invalid_argument)) s))
unfolding add_task task_parameters_from_proto
add_task-Follows parse task s =
    checked-Follows parse task s (validate_proto_task_parameters parse task)
      (validate-Checks parse task)
