-- ===== src/Aws/InstanceTypes/Choice.antt =====
-- libs/aws/allocator/impl/cloud_client.cpp: a slot that the client offered gets a VM of its size.
use mathlib.Core.Bool.{false≢true}
use mathlib.Core.Option.{some-injective}
use vm_scheduler.Prelude.{
  ℕ, zero, suc, ◌≡◌, refl, sym, ap, ◌∙◌, inl, inr, Bool, true, false, some, List, [], ◌∷◌, map,
  get_elem?, All-mono, All-get_elem?, arith, Option-cases,
}
use vm_scheduler.Common.Slot.{SlotCapacity, less}
use vm_scheduler.Std.Ordered.{IsStrictWeak, IsSorted, sort-IsSorted}
use vm_scheduler.Std.LowerBound.{
  first_stop, IsPartitioned, lower_bound-first_stop, first_stop-none, first_stop-some,
  first_stop-least,
}
use vm_scheduler.Aws.InstanceTypes.{
  InstanceTypeInfo, less_type, sorted_types, type_at, get_instance_type_for_slot,
  get_possible_slots,
}

less-IsStrictWeak : IsStrictWeak less_type
less-IsStrictWeak = record { asymm = λ a b h. ground arith; negative = λ a b c h k. ground arith }

less_self : (a : InstanceTypeInfo) → less_type a a ≡ false
less_self a = ground arith

slots_eq : (a b : SlotCapacity) → less a b ≡ false → less b a ≡ false → a ≡ b
slots_eq a b h k =
    let c : a.cpu ≡ b.cpu = ground arith in let r : a.ram ≡ b.ram = ground arith in cc

not_before :
    (info : InstanceTypeInfo) (slot : SlotCapacity)
    → info.capacity ≡ slot
    → less info.capacity slot ≡ false
not_before info slot e = ap (λ c. less c slot) e ∙ less_self (record { type = ""; capacity = slot })

sorted_types-IsSorted : (infos : List InstanceTypeInfo) → IsSorted less_type (sorted_types infos)
unfolding sorted_types
sorted_types-IsSorted infos = sort-IsSorted less_type less-IsStrictWeak infos

module _ (slot : SlotCapacity) where
  abbrev before : InstanceTypeInfo → Bool
  before info = less info.capacity slot

  IsSorted-IsPartitioned :
      (infos : List InstanceTypeInfo) → IsSorted less_type infos → IsPartitioned before infos
  IsSorted-IsPartitioned [] h = tt
  IsSorted-IsPartitioned (info ∷ infos) h = (
    λ stop.
        All-mono (λ y. less_type y info ≡ false) (λ y. before y ≡ false)
          (λ y k. ground (arith, stop, k)) infos h.0,
    IsSorted-IsPartitioned infos h.1,
  )

  -- Where some type has the slot's capacity, the first that is not less has it too.
  chosen :
      (infos : List InstanceTypeInfo) (i : ℕ) (info : InstanceTypeInfo)
      → IsSorted less_type infos
      → get_elem? infos i ≡ some info
      → info.capacity ≡ slot
      → (found : InstanceTypeInfo) × (get_elem? infos (first_stop before infos) ≡ some found)
        × (found.capacity ≡ slot)
  chosen infos i info sorted here same =
      elim (Option-cases (get_elem? infos (first_stop before infos))) [
        | inl n ↦
            let all =
              All-get_elem? (λ x. before x ≡ true) infos i info (first_stop-none before infos n)
                here in
            absurd (false≢true (sym (not_before info slot same) ∙ all))
        | inr (found, e) ↦
            let stop = first_stop-some before infos found e in
            let least =
              All-get_elem? (λ y. before y ≡ false → less_type y found ≡ false) infos i info
                (first_stop-least before less_type infos found less_self sorted e) here in
            (
              found,
              e,
              slots_eq found.capacity slot stop
                  (ap (λ c. less c found.capacity) (sym same) ∙ least (not_before info slot same)),
            )
      ]

get_elem?-map {ℓ} :
    {A B : Type ℓ} (f : A → B) (xs : List A) (i : ℕ) (b : B)
    → get_elem? (map f xs) i ≡ some b
    → (a : A) × (get_elem? xs i ≡ some a) × (f a ≡ b)
get_elem?-map f [] i b e = cc
get_elem?-map f (x ∷ xs) zero b e = (x, refl, some-injective _ _ e)
get_elem?-map f (x ∷ xs) (suc i) b e = get_elem?-map f xs i b e

-- With the types that the constructor has sorted, each slot that is offered is given a type of
-- exactly its capacity.
pub get_instance_type_for_slot-own :
    (infos : List InstanceTypeInfo) (i : ℕ) (slot : SlotCapacity)
    → get_elem? (get_possible_slots (sorted_types infos)) i ≡ some slot
    → (k : ℕ) × (found : InstanceTypeInfo) × (get_elem? (sorted_types infos) k ≡ some found)
      × (found.capacity ≡ slot)
      × (get_instance_type_for_slot (sorted_types infos) slot ≡ some found.type)
unfolding get_possible_slots get_instance_type_for_slot
get_instance_type_for_slot-own infos i slot e =
    let types = sorted_types infos in
    let (info, here, same) =
      get_elem?-map (λ (info : InstanceTypeInfo). info.capacity) types i slot e in
    let sorted = sorted_types-IsSorted infos in
    let (found, at, size) = chosen slot types i info sorted here same in
    let place =
      lower_bound-first_stop (before slot) types (IsSorted-IsPartitioned slot types sorted) in
    (
      first_stop (before slot) types,
      found,
      at,
      size,
      ap (type_at types) (ap (get_elem? types) place ∙ at),
    )
