-- ===== src/Zookeeper/Names.antt =====
-- libs/zookeeper/impl/dist_lock.cpp: the names of the nodes, as lists of bytes.
pub mod Decimal
use vm_scheduler.Prelude.{
  ℕ, zero, suc, ◌+◌, ◌-◌, ◌*◌, ◌/◌, Bool, true, false, ◌&&◌, ◌||◌, Option, none, some, List, [],
  ◌∷◌, length, ltb, leb, ◌==◌, if◌then◌else◌,
}

abbrev pub Name : Type 0
Name = List ℕ

-- `substr(n)`, for an `n` that is no greater than the length.
abbrev pub drop {ℓ} : {A : Type ℓ} → ℕ → List A → List A
drop zero xs = xs
drop (suc n) [] = []
drop (suc n) (x ∷ xs) = drop n xs

abbrev pub is_digit : ℕ → Bool
is_digit c = leb 48 c && leb c 57

-- `std::atoi`, for a text that starts with neither white space nor a sign.
unfoldable pub atoi_from : ℕ → Name → ℕ
atoi_from value [] = value
atoi_from value (c ∷ cs) =
    let rest = atoi_from (value * 10 + (c - 48)) cs in if is_digit c then rest else value

-- Nine characters from the end; of a shorter name `substr` throws, since the difference wraps.
unfoldable pub get_zxid : Name → Option ℕ
get_zxid name =
    if ltb (length name) 9 then none else some (atoi_from 0 (drop (length name - 9) name))

abbrev pub starts_with : Name → Name → Bool
starts_with [] name = true
starts_with (p ∷ prefix) [] = false
starts_with (p ∷ prefix) (c ∷ name) = (p == c) && starts_with prefix name

abbrev pub same_name : Name → Name → Bool
same_name [] [] = true
same_name [] (d ∷ b) = false
same_name (c ∷ a) [] = false
same_name (c ∷ a) (d ∷ b) = (c == d) && same_name a b

-- `operator<` of strings, and of pairs.
abbrev pub less_name : Name → Name → Bool
less_name a [] = false
less_name [] (d ∷ b) = true
less_name (c ∷ a) (d ∷ b) = ltb c d || ((c == d) && less_name a b)

abbrev pub less_pair : ℕ × Name → ℕ × Name → Bool
less_pair p q = ltb p.0 q.0 || ((p.0 == q.0) && less_name p.1 q.1)

abbrev pub same_pair : ℕ × Name → ℕ × Name → Bool
same_pair p q = (p.0 == q.0) && same_name p.1 q.1
