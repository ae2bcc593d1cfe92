-- ===== src/Aws/Instances/Complete.antt =====
-- That the cloud's VMs are all found.
use text.Mathlib.Text.{◌==◌ as str_eq}
use text.Mathlib.TextEquality.{eq_iff}
use vm_scheduler.Prelude.{
  ℕ, ◌≤◌, ◌≡◌, refl, sym, ap, subst, ◌∙◌, Bool, true, false, ◌&&◌, ◌||◌, some, List, [], ◌∷◌, ◌++◌,
  map, length, arith, Bool-cases, inl, inr,
}
use vm_scheduler.Common.Result.{success}
use vm_scheduler.State.Vm.{AllocatedVmInfo}
use vm_scheduler.Services.Allocator.{same_info, has_info}
use vm_scheduler.Aws.Paging.{Page, Answers, Serves, add_all, collect-Serves}
use vm_scheduler.Aws.Instances.{
  AwsVmInfo, convert_aws_vm_info_to_vm_info, insert_info, insert_instances, insert_reservations,
  describe_instances,
}

-- What the pages report, one after the other.
abbrev pub all_instances : List (List AwsVmInfo) → List AllocatedVmInfo
all_instances [] = []
all_instances (instances ∷ reservations) =
    map convert_aws_vm_info_to_vm_info instances ++ all_instances reservations

abbrev pub reported : List (Page (List AwsVmInfo)) → List AllocatedVmInfo
reported [] = []
reported (page ∷ pages) = all_instances page.items ++ reported pages

has_info-append :
    (vm : AllocatedVmInfo) (xs ys : List AllocatedVmInfo)
    → has_info vm (xs ++ ys) ≡ (has_info vm xs || has_info vm ys)
has_info-append vm [] ys = refl
has_info-append vm (x ∷ xs) ys = ground (arith, has_info-append vm xs ys)

both : (a b : Bool) → (a && b) ≡ true → (a ≡ true) × (b ≡ true)
both true b h = (refl, h)
both false b h = cc

same_info-eq : (a b : AllocatedVmInfo) → same_info a b ≡ true → a ≡ b
same_info-eq a b h =
    let (i, t) = both (str_eq a.id b.id) (str_eq a.type b.type) h in
    let ids : a.id ≡ b.id = (eq_iff a.id b.id).0 i in
    let types : a.type ≡ b.type = (eq_iff a.type b.type).0 t in cc

or-nil : (a : Bool) → (a || false) ≡ a
or-nil true = refl
or-nil false = refl

or_assoc : (a b c : Bool) → ((a || b) || c) ≡ (a || (b || c))
or_assoc true b c = refl
or_assoc false b c = refl

or-absorb : (a b : Bool) → (b ≡ true → a ≡ true) → a ≡ (a || b)
or-absorb true b h = refl
or-absorb false true h = h refl
or-absorb false false h = refl

has_info-insert_info :
    (vm x : AllocatedVmInfo) (infos : List AllocatedVmInfo)
    → has_info vm (insert_info x infos) ≡ (has_info vm infos || same_info x vm)
has_info-insert_info vm x infos = elim (Bool-cases (has_info x infos)) [
  | inr n ↦ rw n (
      has_info-append vm infos (x ∷ [])
      ∙ ap (λ b. has_info vm infos || b) (or-nil (same_info x vm)))
  | inl t ↦ rw t (
      or-absorb (has_info vm infos) (same_info x vm)
        (λ s. subst (λ y. has_info y infos ≡ true) (same_info-eq x vm s) t))
]

module _ (vm : AllocatedVmInfo) where
  has_info-insert_instances :
      (infos : List AllocatedVmInfo) (instances : List AwsVmInfo)
      → has_info vm (insert_instances infos instances)
        ≡ (has_info vm infos || has_info vm (map convert_aws_vm_info_to_vm_info instances))
  unfolding insert_instances
  has_info-insert_instances infos [] = sym (or-nil (has_info vm infos))
  has_info-insert_instances infos (x ∷ instances) =
      let info = convert_aws_vm_info_to_vm_info x in
      let rest = has_info vm (map convert_aws_vm_info_to_vm_info instances) in
      has_info-insert_instances (insert_info info infos) instances
      ∙ ap (λ b. b || rest) (has_info-insert_info vm info infos)
      ∙ or_assoc (has_info vm infos) (same_info info vm) rest

  has_info-insert_reservations :
      (infos : List AllocatedVmInfo) (reservations : List (List AwsVmInfo))
      → has_info vm (insert_reservations infos reservations)
        ≡ (has_info vm infos || has_info vm (all_instances reservations))
  unfolding insert_reservations
  has_info-insert_reservations infos [] = sym (or-nil (has_info vm infos))
  has_info-insert_reservations infos (instances ∷ reservations) =
      let here = map convert_aws_vm_info_to_vm_info instances in
      let rest = has_info vm (all_instances reservations) in
      has_info-insert_reservations (insert_instances infos instances) reservations
      ∙ ap (λ b. b || rest) (has_info-insert_instances infos instances)
      ∙ or_assoc (has_info vm infos) (has_info vm here) rest
      ∙ ap (λ b. has_info vm infos || b)
          (sym (has_info-append vm here (all_instances reservations)))

  has_info-add_all :
      (answers : Answers (List AwsVmInfo)) (infos : List AllocatedVmInfo)
      (pages : List (Page (List AwsVmInfo)))
      → has_info vm (add_all answers insert_reservations infos pages)
        ≡ (has_info vm infos || has_info vm (reported pages))
  has_info-add_all answers infos [] = sym (or-nil (has_info vm infos))
  has_info-add_all answers infos (page ∷ pages) =
      let rest = has_info vm (reported pages) in
      has_info-add_all answers (insert_reservations infos page.items) pages
      ∙ ap (λ b. b || rest) (has_info-insert_reservations infos page.items)
      ∙ or_assoc (has_info vm infos) (has_info vm (all_instances page.items)) rest
      ∙ ap (λ b. has_info vm infos || b)
          (sym (has_info-append vm (all_instances page.items) (reported pages)))

-- If EC2 answers with some pages, of which the last has no next token, the loop ends after as many
-- rounds with success, and has found exactly the VMs that any of the pages reports.
pub describe_instances_complete :
    (answers : Answers (List AwsVmInfo)) (pages : List (Page (List AwsVmInfo))) (fuel : ℕ)
    → Serves answers insert_reservations "" pages
    → length pages ≤ fuel
    → (infos : List AllocatedVmInfo) × (describe_instances answers fuel ≡ some (success infos))
      × ((vm : AllocatedVmInfo) → has_info vm infos ≡ has_info vm (reported pages))
unfolding describe_instances
describe_instances_complete answers pages fuel serves enough = (
  add_all answers insert_reservations [] pages,
  collect-Serves answers insert_reservations serves fuel enough [],
  λ vm. has_info-add_all vm answers [] pages,
)
