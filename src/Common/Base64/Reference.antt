-- ===== src/Common/Base64/Reference.antt =====
-- RFC 4648 as a recursion on groups of three bytes, and that the loop computes it.
use vm_scheduler.Prelude.{
  ℕ, zero, suc, ◌+◌, ◌-◌, ◌*◌, ◌/◌, ◌%◌, ◌^◌, ◌≤◌, ◌<◌, ◌≡◌, refl, ap, ◌∙◌, Option, none, some,
  List, [], ◌∷◌, ◌++◌, length, get_elem?, All, arith, ltb, Bool-cases, inl, inr, ◌==◌,
  if◌then◌else◌, true, false,
}
use vm_scheduler.Common.Base64.{
  encoding_char, padding, first_index, second_index, third_index, group, last_group, limit,
  encode_from, base64_encode,
}

-- The 24 bits of three bytes, six at a time.
abbrev pub sextets : ℕ → ℕ → ℕ → List ℕ
sextets a b c =
    let bits = a * 65536 + b * 256 + c in
    encoding_char (bits / 262144)
    ∷ encoding_char ((bits / 4096) % 64)
    ∷ encoding_char ((bits / 64) % 64)
    ∷ encoding_char (bits % 64)
    ∷ []

-- Missing bytes are zero, and the characters that hold none of the input are padding.
unfoldable pub encoding : List ℕ → List ℕ
encoding [] = []
encoding (a ∷ []) =
    encoding_char ((a * 65536) / 262144)
    ∷ encoding_char ((a * 65536) / 4096 % 64)
    ∷ padding
    ∷ padding
    ∷ []
encoding (a ∷ b ∷ []) =
    encoding_char ((a * 65536 + b * 256) / 262144)
    ∷ encoding_char ((a * 65536 + b * 256) / 4096 % 64)
    ∷ encoding_char ((a * 65536 + b * 256) / 64 % 64)
    ∷ padding
    ∷ []
encoding (a ∷ b ∷ c ∷ rest) = sextets a b c ++ encoding rest

abbrev pub IsByte : ℕ → Type 0
IsByte b = b < 256

indices :
    (a b c : ℕ)
    → IsByte a
    → IsByte b
    → IsByte c
    → (first_index a ≡ (a * 65536 + b * 256 + c) / 262144)
      × (second_index a b ≡ (a * 65536 + b * 256 + c) / 4096 % 64)
      × (third_index b c ≡ (a * 65536 + b * 256 + c) / 64 % 64)
      × (c % 64 ≡ (a * 65536 + b * 256 + c) % 64)
indices a b c ha hb hc = (omega arith, omega arith, omega arith, omega arith)

-- The text from a place on.
abbrev IsRest : List ℕ → ℕ → List ℕ → Type 0
IsRest text i rest = (j : ℕ) → get_elem? text (i + j) ≡ get_elem? rest j

at :
    (text : List ℕ) (i : ℕ) (rest : List ℕ) (j k : ℕ)
    → IsRest text i rest
    → k ≡ i + j
    → get_elem? text k ≡ get_elem? rest j
at text i rest j k h e = ap (get_elem? text) e ∙ h j

last-none : (text : List ℕ) (i : ℕ) → ltb i (length text) ≡ false → last_group text i ≡ some []
last-none text i h = rw (h, last_group) refl

last-one :
    (text : List ℕ) (i a : ℕ)
    → ltb i (length text) ≡ true
    → get_elem? text i ≡ some a
    → (i == length text - 1) ≡ true
    → last_group text i
      ≡ some (encoding_char (first_index a) ∷ encoding_char ((a % 4) * 16) ∷ padding ∷ padding ∷ [])
last-one text i a h ea last = rw (h, ea, last, last_group) refl

last-two :
    (text : List ℕ) (i a b : ℕ)
    → ltb i (length text) ≡ true
    → get_elem? text i ≡ some a
    → (i == length text - 1) ≡ false
    → get_elem? text (i + 1) ≡ some b
    → last_group text i
      ≡ some (
          encoding_char (first_index a)
          ∷ encoding_char (second_index a b)
          ∷ encoding_char ((b % 16) * 4)
          ∷ padding
          ∷ [])
last-two text i a b h ea last eb = rw (h, ea, last, eb, last_group) refl

limit-length :
    (text : List ℕ) → 2 ≤ length text → length text < 2 ^ 63 → limit text ≡ length text - 2
limit-length text two small = omega arith

encode-end :
    (fuel : ℕ) (text : List ℕ) (i : ℕ)
    → ltb i (limit text) ≡ false
    → encode_from (suc fuel) text i ≡ last_group text i
unfolding encode_from
encode-end fuel text i h = rw (h, encode_from) refl

encode-group :
    (fuel : ℕ) (text : List ℕ) (i a b c : ℕ) (rest : List ℕ)
    → ltb i (limit text) ≡ true
    → get_elem? text i ≡ some a
    → get_elem? text (i + 1) ≡ some b
    → get_elem? text (i + 2) ≡ some c
    → encode_from fuel text (i + 3) ≡ some rest
    → encode_from (suc fuel) text i ≡ some (group a b c ++ rest)
unfolding encode_from
encode-group fuel text i a b c rest h ea eb ec ih = rw (h, ea, eb, ec, ih) refl

ltb-true : (a b : ℕ) → a < b → ltb a b ≡ true
ltb-true a b h = ground arith

partial_one :
    (a : ℕ)
    → IsByte a
    → ◌≡◌ {A = Option (List ℕ)}
        (some
          (encoding_char (first_index a) ∷ encoding_char ((a % 4) * 16) ∷ padding ∷ padding ∷ []))
        (some (encoding (a ∷ [])))
unfolding encoding
partial_one a h =
    let i : first_index a ≡ (a * 65536) / 262144 = omega arith in
    let j : (a % 4) * 16 ≡ (a * 65536) / 4096 % 64 = omega arith in cc

partial_two :
    (a b : ℕ)
    → IsByte a
    → IsByte b
    → ◌≡◌ {A = Option (List ℕ)}
        (some (
          encoding_char (first_index a)
          ∷ encoding_char (second_index a b)
          ∷ encoding_char ((b % 16) * 4)
          ∷ padding
          ∷ []))
        (some (encoding (a ∷ b ∷ [])))
unfolding encoding
partial_two a b h k =
    let i : first_index a ≡ (a * 65536 + b * 256) / 262144 = omega arith in
    let j : second_index a b ≡ (a * 65536 + b * 256) / 4096 % 64 = omega arith in
    let l : (b % 16) * 4 ≡ (a * 65536 + b * 256) / 64 % 64 = omega arith in cc

encode_from-encoding :
    (fuel : ℕ) (text : List ℕ) (i : ℕ) (rest : List ℕ)
    → IsRest text i rest
    → length text ≡ i + length rest
    → 2 ≤ length text
    → length text < 2 ^ 63
    → length rest < fuel
    → All IsByte rest
    → encode_from fuel text i ≡ some (encoding rest)
unfolding encoding
encode_from-encoding zero text i rest h len two small enough bytes = absurd (omega arith)
encode_from-encoding (suc fuel) text i [] h len two small enough bytes =
    encode-end fuel text i (ground (arith, limit-length text two small))
    ∙ last-none text i (ground (arith, len))
encode_from-encoding (suc fuel) text i (a ∷ []) h len two small enough bytes =
    encode-end fuel text i (ground (arith, limit-length text two small))
    ∙ last-one text i a (ground (arith, len)) (at text i (a ∷ []) 0 i h (omega arith))
        (ground (arith, len))
    ∙ partial_one a bytes.0
encode_from-encoding (suc fuel) text i (a ∷ b ∷ []) h len two small enough bytes =
    encode-end fuel text i (ground (arith, limit-length text two small))
    ∙ last-two text i a b (ground (arith, len)) (at text i (a ∷ b ∷ []) 0 i h (omega arith))
        (ground (arith, len)) (at text i (a ∷ b ∷ []) 1 (i + 1) h (omega arith))
    ∙ partial_two a b bytes.0 bytes.1.0
encode_from-encoding (suc fuel) text i (a ∷ b ∷ c ∷ rest) h len two small enough bytes =
    let (ia, ib, ic, id) = indices a b c bytes.0 bytes.1.0 bytes.1.1.0 in
    let ih =
      encode_from-encoding fuel text (i + 3) rest
        (λ j. at text i (a ∷ b ∷ c ∷ rest) (suc (suc (suc j))) (i + 3 + j) h (omega arith))
        (omega arith) two small (omega arith) bytes.1.1.1 in
    let here = ltb-true i (limit text) (omega (arith, limit-length text two small)) in
    encode-group fuel text i a b c (encoding rest) here
      (at text i (a ∷ b ∷ c ∷ rest) 0 i h (omega arith))
      (at text i (a ∷ b ∷ c ∷ rest) 1 (i + 1) h (omega arith))
      (at text i (a ∷ b ∷ c ∷ rest) 2 (i + 2) h (omega arith)) ih
    ∙ cc

too_short : (text : List ℕ) → length text < 2 → base64_encode text ≡ none
unfolding base64_encode encode_from
too_short [] h = refl
too_short (a ∷ []) h = refl
too_short (a ∷ b ∷ text) h = absurd (omega arith)

-- For a text of at least two bytes the loop ends, reads nothing behind the end, and gives the
-- encoding of RFC 4648; for none or one byte it reads behind the end, since the difference
-- `in_len - 2` wraps.
pub base64_encode-encoding :
    (text : List ℕ)
    → All IsByte text
    → length text < 2 ^ 63
    → base64_encode text ≡ (if ltb (length text) 2 then none else some (encoding text))
unfolding base64_encode
base64_encode-encoding text bytes small = elim (Bool-cases (ltb (length text) 2)) [
  | inl t ↦ rw t (too_short text (ground (arith, t)))
  | inr n ↦ rw n (
      encode_from-encoding (length text + 1) text 0 text (λ j. ap (get_elem? text) (omega arith))
        (omega arith) (ground (arith, n)) small (omega arith) bytes)
]
