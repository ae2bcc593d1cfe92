-- ===== src/Tests/Common.antt =====
-- libs/common/impl/base64.cpp on small texts.
use vm_scheduler.Prelude.{
  ℕ, ◌≡◌, ◌*◌, ◌+◌, ◌/◌, refl, none, some, List, [], ◌∷◌, length, arith, ltb, if◌then◌else◌,
}
use vm_scheduler.Common.Base64.{encoding_char, encode_from, base64_encode}
use vm_scheduler.Common.Base64.Reference.{encoding, base64_encode-encoding}
use vm_scheduler.Common.Base64.RoundTrip.{decode, decode-base64_encode}

-- "Many".
abbrev text : List ℕ
text = 77 ∷ 97 ∷ 110 ∷ 121 ∷ []

-- "TWFueQ==".
encodes : base64_encode text ≡ some (84 ∷ 87 ∷ 70 ∷ 117 ∷ 101 ∷ 81 ∷ 61 ∷ 61 ∷ [])
unfolding base64_encode encode_from encoding_char
encodes = refl

base64_encode-encoding_example :
    base64_encode text ≡ (if ltb (length text) 2 then none else some (encoding text))
base64_encode-encoding_example = base64_encode-encoding text (ground arith) (omega arith)

decode-base64_encode_example :
    (out : List ℕ) × (base64_encode text ≡ some out)
    × (length out ≡ 4 * ((length text + 2) / 3))
    × (decode out ≡ text)
decode-base64_encode_example = decode-base64_encode text (ground arith) (omega arith) (omega arith)
