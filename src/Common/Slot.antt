-- ===== src/Common/Slot.antt =====
-- libs/common/include/slot.h and types.h: `SlotCapacity` and its operators. `CpuCores` and
-- `MegaBytes` wrap a `size_t`, and are numbers here; what wraps in C++ is written out.
use vm_scheduler.Prelude.{
  ℕ, ◌+◌, ◌-◌, ◌*◌, ◌%◌, ◌^◌, ◌<◌, ◌≡◌, refl, Bool, true, ◌&&◌, ◌||◌, arith, ltb, leb, ◌==◌,
  if◌then◌else◌,
}
use vm_scheduler.Prelude.Int.{ℤ, pos, negsuc, ◌-ℤ◌, pos_part}

pub record SlotCapacity : Type 0 where
  pub cpu : ℕ
  pub ram : ℕ

-- `operator<=>` is defaulted: the order is lexicographic, cores first.
abbrev pub less : SlotCapacity → SlotCapacity → Bool
less a b = ltb a.cpu b.cpu || (a.cpu == b.cpu && ltb a.ram b.ram)

abbrev pub equal : SlotCapacity → SlotCapacity → Bool
equal a b = a.cpu == b.cpu && a.ram == b.ram

abbrev pub fits : SlotCapacity → SlotCapacity → Bool
fits a b = leb a.cpu b.cpu && leb a.ram b.ram

-- `static_cast<int>` of a `size_t`: the low 32 bits, read as two's complement.
to_int : ℕ → ℤ
to_int n = let low = n % 2 ^ 32 in if ltb low (2 ^ 31) then pos low else negsuc (2 ^ 32 - low - 1)

-- `std::max(int(a) - int(b), 0)`, for differences that an `int` holds.
int_difference : ℕ → ℕ → ℕ
unfolding to_int
int_difference a b = pos_part (to_int a -ℤ to_int b)

unfoldable pub add_assign : SlotCapacity → SlotCapacity → SlotCapacity
add_assign a b = record { cpu = (a.cpu + b.cpu) % 2 ^ 64; ram = (a.ram + b.ram) % 2 ^ 64 }

unfoldable pub sub_assign : SlotCapacity → SlotCapacity → SlotCapacity
unfolding int_difference
sub_assign a b = record { cpu = int_difference a.cpu b.cpu; ram = int_difference a.ram b.ram }

unfoldable pub mul_assign : SlotCapacity → ℕ → SlotCapacity
mul_assign a multiplier = record {
  cpu = (a.cpu * multiplier) % 2 ^ 64;
  ram = (a.ram * multiplier) % 2 ^ 64;
}

-- `operator*` and `operator-`.
unfoldable pub times : SlotCapacity → ℕ → SlotCapacity
times a multiplier = record {
  cpu = (a.cpu * multiplier) % 2 ^ 64;
  ram = (a.ram * multiplier) % 2 ^ 64;
}

unfoldable pub minus : SlotCapacity → SlotCapacity → SlotCapacity
unfolding sub_assign
minus a b = sub_assign a b

pub mul_assign-times :
    (a : SlotCapacity) (multiplier : ℕ) → mul_assign a multiplier ≡ times a multiplier
unfolding mul_assign times
mul_assign-times a multiplier = refl

-- The amounts that the database's `integer` columns hold.
abbrev pub IsInt : SlotCapacity → Type 0
IsInt c = (c.cpu < 2 ^ 31) × (c.ram < 2 ^ 31)

int_difference_lem : (a b : ℕ) → a < 2 ^ 31 → b < 2 ^ 31 → int_difference a b ≡ a - b
unfolding int_difference
int_difference_lem a b h k = ground arith

-- In the range of `int` the clamped difference is the truncated one: nothing wraps.
pub sub_assign_lem :
    (a b : SlotCapacity)
    → IsInt a
    → IsInt b
    → sub_assign a b ≡ record { cpu = a.cpu - b.cpu; ram = a.ram - b.ram }
unfolding sub_assign
sub_assign_lem a b h k =
    ground (arith, int_difference_lem a.cpu b.cpu, int_difference_lem a.ram b.ram)

-- Taking what fits, and giving it back, is the identity on amounts that an `int` holds.
pub add-sub_assign :
    (a b : SlotCapacity) → IsInt a → fits b a ≡ true → add_assign (sub_assign a b) b ≡ a
unfolding add_assign
add-sub_assign a b h f = ground (arith, sub_assign_lem a b h)
