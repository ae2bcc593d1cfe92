-- ===== src/Common/Base64/RoundTrip.antt =====
-- What the encoder writes can be read again, and how long it is.
use mathlib.Core.Path.{ap₂}
use native.Mathlib.Decide.{dec_lt}
use vm_scheduler.Prelude.{
  ℕ, zero, suc, ◌+◌, ◌-◌, ◌*◌, ◌/◌, ◌%◌, ◌^◌, ◌≤◌, ◌<◌, ◌≡◌, refl, sym, ap, subst, ◌∙◌, Bool, true,
  false, not, ◌&&◌, none, some, List, [], ◌∷◌, length, All, arith, ltb, ◌==◌, ==_iff, if◌then◌else◌,
}
use vm_scheduler.Common.Base64.{encoding_char, padding, base64_encode}
use vm_scheduler.Common.Base64.Reference.{encoding, IsByte, base64_encode-encoding}

-- The decoder of RFC 4648, which this repository leaves to the reader of the text.
abbrev pub index_of : ℕ → ℕ
index_of c =
    if ltb c 44
    then 62
    else if ltb c 48
    then 63
    else if ltb c 58
    then c + 4
    else if ltb c 91
    then c - 65
    else c - 71

abbrev pub bits_of : ℕ → ℕ → ℕ → ℕ → ℕ
bits_of w x y z = index_of w * 262144 + index_of x * 4096 + index_of y * 64 + index_of z

abbrev pub ungroup : ℕ → ℕ → ℕ → ℕ → List ℕ → List ℕ
ungroup w x y z rest =
    if y == padding
    then bits_of w x 65 65 / 65536 ∷ []
    else if z == padding
    then bits_of w x y 65 / 65536 ∷ bits_of w x y 65 / 256 % 256 ∷ []
    else bits_of w x y z / 65536 ∷ bits_of w x y z / 256 % 256 ∷ bits_of w x y z % 256 ∷ rest

unfoldable pub decode : List ℕ → List ℕ
decode [] = []
decode (w ∷ []) = []
decode (w ∷ x ∷ []) = []
decode (w ∷ x ∷ y ∷ []) = []
decode (w ∷ x ∷ y ∷ z ∷ rest) = ungroup w x y z (decode rest)

-- The index under a character of the table is read back, and the character is no padding.
abbrev is_good : ℕ → Bool
is_good n = (index_of (encoding_char n) == n) && not (encoding_char n == padding)

abbrev AllGood : ℕ → Type 0
AllGood zero = Unit
AllGood (suc count) = AllGood count × (is_good count ≡ true)

entry : (count n : ℕ) → AllGood count → n < count → is_good n ≡ true
entry zero n table h = absurd (omega arith)
entry (suc count) n (earlier, last) h = elim (dec_lt n count) [
  | yes before ↦ entry count n earlier before
  | no end ↦ let same : count ≡ n = omega arith in subst (λ k. is_good k ≡ true) same last
]

table : AllGood 64
unfolding encoding_char
table = ground arith

good : (n : ℕ) → n < 64 → is_good n ≡ true
good n h = entry 64 n table h

both : (a b : Bool) → (a && not b) ≡ true → (a ≡ true) × (b ≡ false)
both true false h = (refl, refl)
both true true h = cc
both false b h = cc

char-index : (n : ℕ) → n < 64 → index_of (encoding_char n) ≡ n
char-index n h = (==_iff _ n).0 (both _ _ (good n h)).0

char-padding : (n : ℕ) → n < 64 → (encoding_char n == padding) ≡ false
char-padding n h = (both (index_of (encoding_char n) == n) _ (good n h)).1

-- Reading a group again gives its bits.
abbrev join : ℕ → ℕ → ℕ → ℕ → ℕ
join n m k l = n * 262144 + m * 4096 + k * 64 + l

bits_of-char :
    (n m k l : ℕ)
    → n < 64
    → m < 64
    → k < 64
    → l < 64
    → bits_of (encoding_char n) (encoding_char m) (encoding_char k) (encoding_char l) ≡ join n m k l
bits_of-char n m k l hn hm hk hl =
    let a = char-index n hn in
    let b = char-index m hm in let c = char-index k hk in let d = char-index l hl in cc

zero-char : encoding_char 0 ≡ 65
unfolding encoding_char
zero-char = refl

ungroup-one :
    (n m : ℕ)
    → n < 64
    → m < 64
    → ungroup (encoding_char n) (encoding_char m) padding padding [] ≡ join n m 0 0 / 65536 ∷ []
ungroup-one n m hn hm =
    ap (λ v. v / 65536 ∷ [])
      (ap (λ c. bits_of (encoding_char n) (encoding_char m) c c) (sym zero-char)
        ∙ bits_of-char n m 0 0 hn hm (omega arith) (omega arith))

ungroup-two :
    (n m k : ℕ)
    → n < 64
    → m < 64
    → k < 64
    → ungroup (encoding_char n) (encoding_char m) (encoding_char k) padding []
      ≡ join n m k 0 / 65536 ∷ join n m k 0 / 256 % 256 ∷ []
ungroup-two n m k hn hm hk = rw (char-padding k hk) (
    ap (λ v. v / 65536 ∷ v / 256 % 256 ∷ [])
      (ap (λ c. bits_of (encoding_char n) (encoding_char m) (encoding_char k) c) (sym zero-char)
        ∙ bits_of-char n m k 0 hn hm hk (omega arith)))

ungroup-three :
    (n m k l : ℕ) (rest : List ℕ)
    → n < 64
    → m < 64
    → k < 64
    → l < 64
    → ungroup (encoding_char n) (encoding_char m) (encoding_char k) (encoding_char l) rest
      ≡ join n m k l / 65536 ∷ join n m k l / 256 % 256 ∷ join n m k l % 256 ∷ rest
ungroup-three n m k l rest hn hm hk hl =
    rw (char-padding k hk, char-padding l hl)
      (ap (λ v. v / 65536 ∷ v / 256 % 256 ∷ v % 256 ∷ rest) (bits_of-char n m k l hn hm hk hl))

decode-encoding : (text : List ℕ) → All IsByte text → decode (encoding text) ≡ text
unfolding decode encoding
decode-encoding [] h = refl
decode-encoding (a ∷ []) h =
    let byte = h.0 in
    let bits = a * 65536 in
    ungroup-one (bits / 262144) (bits / 4096 % 64) (omega arith) (omega arith)
    ∙ ap (λ v. v ∷ []) (omega arith)
decode-encoding (a ∷ b ∷ []) h =
    let first = h.0 in
    let second = h.1.0 in
    let bits = a * 65536 + b * 256 in
    ungroup-two (bits / 262144) (bits / 4096 % 64) (bits / 64 % 64) (omega arith) (omega arith)
      (omega arith)
    ∙ ap₂ (λ (v w : ℕ). v ∷ w ∷ []) (omega arith) (omega arith)
decode-encoding (a ∷ b ∷ c ∷ rest) h =
    let first = h.0 in
    let second = h.1.0 in
    let third = h.1.1.0 in
    let bits = a * 65536 + b * 256 + c in
    let split : join (bits / 262144) (bits / 4096 % 64) (bits / 64 % 64) (bits % 64) ≡ bits =
      omega arith in
    let i : bits / 65536 ≡ a = omega arith in
    let j : bits / 256 % 256 ≡ b = omega arith in
    let k : bits % 256 ≡ c = omega arith in
    let ih = decode-encoding rest h.1.1.1 in
    ungroup-three (bits / 262144) (bits / 4096 % 64) (bits / 64 % 64) (bits % 64)
      (decode (encoding rest)) (omega arith) (omega arith) (omega arith) (omega arith)
    ∙ ap (λ v. v / 65536 ∷ v / 256 % 256 ∷ v % 256 ∷ decode (encoding rest)) split
    ∙ cc

length-encoding : (text : List ℕ) → length (encoding text) ≡ 4 * ((length text + 2) / 3)
unfolding encoding
length-encoding [] = refl
length-encoding (a ∷ []) = refl
length-encoding (a ∷ b ∷ []) = refl
length-encoding (a ∷ b ∷ c ∷ rest) = omega (arith, length-encoding rest)

-- What the encoder returns is as long as the buffer that it writes to, and a decoder of RFC 4648
-- gives the text back; for every text of at least two bytes.
pub decode-base64_encode :
    (text : List ℕ)
    → All IsByte text
    → 2 ≤ length text
    → length text < 2 ^ 63
    → (out : List ℕ) × (base64_encode text ≡ some out)
      × (length out ≡ 4 * ((length text + 2) / 3))
      × (decode out ≡ text)
decode-base64_encode text bytes two small =
    let n : ltb (length text) 2 ≡ false = ground arith in
    (
      encoding text,
      base64_encode-encoding text bytes small
          ∙ ap (λ b. if b then none else some (encoding text)) n,
      length-encoding text,
      decode-encoding text bytes,
    )
