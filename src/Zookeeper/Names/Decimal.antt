-- ===== src/Zookeeper/Names/Decimal.antt =====
-- ZooKeeper's sequence numbers: ten decimal digits at the end of a name, of which the lock reads nine.
use native.Mathlib.Nat.{add-mul, mul_assoc, mul_comm, div-add-mod', div-div-eq-div-mul}
use mathlib.Core.Path.{ap₂}
use vm_scheduler.Prelude.{
  ℕ, zero, suc, ◌+◌, ◌-◌, ◌*◌, ◌/◌, ◌%◌, ◌^◌, ◌<◌, ◌≡◌, refl, sym, ap, ◌∙◌, true, false, some, List,
  [], ◌∷◌, ◌++◌, length, length-append, arith, ltb,
}
use vm_scheduler.Zookeeper.Names.{Name, drop, is_digit, atoi_from, get_zxid}

-- The last digits of a number, zeros in front.
abbrev pub decimal : ℕ → ℕ → Name
decimal zero n = []
decimal (suc width) n = (48 + (n / 10 ^ width) % 10) ∷ decimal width n

length-decimal : (width n : ℕ) → length (decimal width n) ≡ width
length-decimal zero n = refl
length-decimal (suc width) n = ap suc (length-decimal width n)

drop-append {ℓ} :
    {A : Type ℓ} (xs : List A) (y : A) (ys : List A) → drop (suc (length xs)) (xs ++ y ∷ ys) ≡ ys
drop-append [] y ys = refl
drop-append (x ∷ xs) y ys = drop-append xs y ys

digit : (d : ℕ) → d < 10 → is_digit (48 + d) ≡ true
digit d h = ground arith

-- One more digit.
mod-step : (n p : ℕ) → 0 < p → n % (p * 10) ≡ ((n / p) % 10) * p + n % p
mod-step n p h =
    let q = n / p in
    let whole : q * p + n % p ≡ n = div-add-mod' n p in
    let tens : (q / 10) * 10 + q % 10 ≡ q = div-add-mod' q 10 in
    let large : (n / (p * 10)) * (p * 10) + n % (p * 10) ≡ n = div-add-mod' n (p * 10) in
    let same : q / 10 ≡ n / (p * 10) = div-div-eq-div-mul n p 10 in
    omega (arith, whole, large, ap (λ (t : ℕ). t * p) tens, ap (λ (t : ℕ). t * (p * 10)) same)

pow-pos : (w : ℕ) → 0 < 10 ^ w
pow-pos zero = omega arith
pow-pos (suc w) = omega (arith, pow-pos w)

ten : (w : ℕ) → 10 ^ suc w ≡ 10 ^ w * 10
ten w = omega arith

shifted : (value d p r : ℕ) → (value * 10 + d) * p + r ≡ value * (p * 10) + (d * p + r)
shifted value d p r = omega (
  arith,
  add-mul (value * 10) d p,
  mul_assoc value 10 p,
  mul_comm 10 p,
  ap (λ (t : ℕ). value * t) (mul_comm 10 p),
)

atoi_from-decimal :
    (width value n : ℕ) → atoi_from value (decimal width n) ≡ value * 10 ^ width + n % 10 ^ width
unfolding atoi_from
atoi_from-decimal zero value n = omega arith
atoi_from-decimal (suc width) value n =
    let d = (n / 10 ^ width) % 10 in
    let small : d < 10 = omega arith in
    let step = mod-step n (10 ^ width) (pow-pos width) in
    let ih = atoi_from-decimal width (value * 10 + d) n in
    rw (digit d small) (
      ap (λ v. atoi_from (value * 10 + v) (decimal width n)) (omega arith)
      ∙ ih
      ∙ shifted value d (10 ^ width) (n % 10 ^ width)
      ∙ ap₂ (λ (p r : ℕ). value * p + r) (sym (ten width))
          (sym step ∙ ap (λ (p : ℕ). n % p) (sym (ten width))))

zxid-of :
    (name last : Name)
    → ltb (length name) 9 ≡ false
    → drop (length name - 9) name ≡ last
    → get_zxid name ≡ some (atoi_from 0 last)
unfolding get_zxid
zxid-of name last enough e = rw (enough, e) refl

-- The number that the lock reads from a name that ends in ten digits.
pub get_zxid-decimal :
    (prefix : Name) (n : ℕ) → get_zxid (prefix ++ decimal 10 n) ≡ some (n % 1000000000)
unfolding get_zxid
get_zxid-decimal prefix n =
    let long : length (prefix ++ decimal 10 n) ≡ length prefix + 10 =
      length-append prefix (decimal 10 n)
      ∙ ap (λ (k : ℕ). length prefix + k) (length-decimal 10 n) in
    let enough : ltb (length (prefix ++ decimal 10 n)) 9 ≡ false = ground (arith, long) in
    let start : length (prefix ++ decimal 10 n) - 9 ≡ suc (length prefix) = omega (arith, long) in
    let last = drop-append prefix (48 + (n / 10 ^ 9) % 10) (decimal 9 n) in
    zxid-of (prefix ++ decimal 10 n) (decimal 9 n) enough
      (ap (λ k. drop k (prefix ++ decimal 10 n)) start ∙ last)
    ∙ ap some (atoi_from-decimal 9 0 n ∙ omega arith)
