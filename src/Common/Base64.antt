-- ===== src/Common/Base64.antt =====
-- libs/common/impl/base64.cpp: the encoder, over bytes. A `char` may be negative, but every use of
-- one is masked; the bits that `|` joins do not overlap, and are added here.
pub mod Reference
pub mod RoundTrip
use vm_scheduler.Prelude.{
  ℕ, zero, suc, ◌+◌, ◌-◌, ◌*◌, ◌/◌, ◌%◌, ◌^◌, Option, none, some, List, [], ◌∷◌, ◌++◌, length,
  get_elem?, ltb, ◌==◌, if◌then◌else◌,
}

-- `sEncodingTable`.
abbrev encoding_table : List ℕ
encoding_table =
    65 ∷ 66 ∷ 67 ∷ 68 ∷ 69 ∷ 70 ∷ 71 ∷ 72 ∷ 73 ∷ 74 ∷ 75 ∷ 76 ∷ 77 ∷ 78 ∷ 79 ∷ 80 ∷ 81 ∷ 82 ∷ 83
    ∷ 84 ∷ 85 ∷ 86 ∷ 87 ∷ 88 ∷ 89 ∷ 90 ∷ 97 ∷ 98 ∷ 99 ∷ 100 ∷ 101 ∷ 102 ∷ 103 ∷ 104 ∷ 105 ∷ 106
    ∷ 107 ∷ 108 ∷ 109 ∷ 110 ∷ 111 ∷ 112 ∷ 113 ∷ 114 ∷ 115 ∷ 116 ∷ 117 ∷ 118 ∷ 119 ∷ 120 ∷ 121 ∷ 122
    ∷ 48 ∷ 49 ∷ 50 ∷ 51 ∷ 52 ∷ 53 ∷ 54 ∷ 55 ∷ 56 ∷ 57 ∷ 43 ∷ 47 ∷ []

unfoldable pub encoding_char : ℕ → ℕ
encoding_char n = elim (get_elem? encoding_table n) [ none ↦ 0 | some c ↦ c ]

-- `=`.
abbrev pub padding : ℕ
padding = 61

-- The indices into the table of one to three bytes.
abbrev pub first_index : ℕ → ℕ
first_index a = (a / 4) % 64

abbrev pub second_index : ℕ → ℕ → ℕ
second_index a b = (a % 4) * 16 + (b / 16) % 16

abbrev pub third_index : ℕ → ℕ → ℕ
third_index b c = (b % 16) * 4 + (c / 64) % 4

abbrev pub group : ℕ → ℕ → ℕ → List ℕ
group a b c =
    encoding_char (first_index a)
    ∷ encoding_char (second_index a b)
    ∷ encoding_char (third_index b c)
    ∷ encoding_char (c % 64)
    ∷ []

-- The rest behind the whole groups, with the padding.
abbrev pub last_group : List ℕ → ℕ → Option (List ℕ)
last_group text i =
    if ltb i (length text)
    then elim (get_elem? text i) [
      | none ↦ none
      | some a ↦
          if i == length text - 1
          then some (
              encoding_char (first_index a) ∷ encoding_char ((a % 4) * 16) ∷ padding ∷ padding ∷ [])
          else elim (get_elem? text (i + 1)) [
            | none ↦ none
            | some b ↦ some (
                encoding_char (first_index a)
                ∷ encoding_char (second_index a b)
                ∷ encoding_char ((b % 16) * 4)
                ∷ padding
                ∷ [])
          ]
    ]
    else some []

abbrev pub followed_by : List ℕ → Option (List ℕ) → Option (List ℕ)
followed_by out none = none
followed_by out (some rest) = some (out ++ rest)

-- `in_len - 2`, as `size_t` has it.
abbrev pub limit : List ℕ → ℕ
limit text = (length text + 2 ^ 64 - 2) % 2 ^ 64

-- The loop; a read behind the end gives `none`, and so does too little fuel.
unfoldable pub encode_from : ℕ → List ℕ → ℕ → Option (List ℕ)
encode_from zero text i = none
encode_from (suc fuel) text i =
    let rest = encode_from fuel text (i + 3) in
    if ltb i (limit text)
    then elim (get_elem? text i) [
      | none ↦ none
      | some a ↦ elim (get_elem? text (i + 1)) [
        | none ↦ none
        | some b ↦ elim (get_elem? text (i + 2)) [
          | none ↦ none
          | some c ↦ followed_by (group a b c) rest
        ]
      ]
    ]
    else last_group text i

unfoldable pub base64_encode : List ℕ → Option (List ℕ)
base64_encode text = encode_from (length text + 1) text 0
