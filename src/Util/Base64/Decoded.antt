-- ===== src/Util/Base64/Decoded.antt =====
-- What a base64 decoder makes of the result of `base64decode`.
use mathlib.Core.Path.{ap₂}
use zero_archive.Prelude.{
  ◌++◌, ◌∙◌, ap, ℕ, ◌+◌, ◌-◌, ◌*◌, ◌/◌, ◌%◌, ◌<◌, ◌≡◌, refl, Bool-cases, inl, inr, Option, none,
  some, [], ◌∷◌, leb, ◌==◌, if◌then◌else◌, get_or, Text, Bool, true, false, ◌&&◌, arith,
  succeeds_below, succeeds_below-at, not,
}
use zero_archive.Util.Base64.{
  b64table, print_group, print_groups, encode_rounds, some_wide, base64decode,
}

-- The value of a digit of base64.
unfoldable pub digit_of : ℕ → Option ℕ
digit_of c =
    if leb b'A' c && leb c b'Z'
    then some (c - b'A')
    else if leb b'a' c && leb c b'z'
    then some (c - b'a' + 26)
    else if leb b'0' c && leb c b'9'
    then some (c - b'0' + 52)
    else if c == b'+'
    then some 62
    else if c == b'/'
    then some 63
    else none

-- The bytes of a padded base64 text, four digits after the other; none if it is malformed.
abbrev pub three_bytes : Option ℕ → Option ℕ → Option ℕ → Option ℕ → Option Text → Option Text
three_bytes (some a) (some b) (some c) (some d) (some rest) =
    some ((a * 4 + b / 16) ∷ (b % 16 * 16 + c / 4) ∷ (c % 4 * 64 + d) ∷ rest)
three_bytes _ _ _ _ _ = none

abbrev pub two_bytes : Option ℕ → Option ℕ → Option ℕ → Option Text
two_bytes (some a) (some b) (some c) = some ((a * 4 + b / 16) ∷ (b % 16 * 16 + c / 4) ∷ [])
two_bytes _ _ _ = none

abbrev pub one_byte : Option ℕ → Option ℕ → Option Text
one_byte (some a) (some b) = some ((a * 4 + b / 16) ∷ [])
one_byte _ _ = none

unfoldable pub decode : Text → Option Text
unfolding digit_of
decode [] = some []
decode (a ∷ b ∷ c ∷ d ∷ rest) =
    let more = decode rest in
    if c == b'='
    then one_byte (digit_of a) (digit_of b)
    else if d == b'='
    then two_bytes (digit_of a) (digit_of b) (digit_of c)
    else three_bytes (digit_of a) (digit_of b) (digit_of c) (digit_of d) more
decode _ = none

same_digit : ℕ → Bool
same_digit g =
    not (get_or b64table g 0 == b'=')
    && elim (digit_of (get_or b64table g 0)) [ none ↦ false | some h ↦ h == g ]

digit_table : succeeds_below same_digit 64 ≡ true
unfolding succeeds_below same_digit digit_of b64table
digit_table = refl

record IsDigit (c g : ℕ) : Type 0 where
  value : digit_of c ≡ some g
  no_pad : (c == b'=') ≡ false

print_group-IsDigit : (g : ℕ) → g < 64 → IsDigit (print_group (some g)) g
unfolding same_digit print_group
print_group-IsDigit g h =
    let e = succeeds_below-at same_digit g 64 h digit_table in
    record { value = ground arith; no_pad = ground arith }

pad : print_group none ≡ b'='
unfolding print_group
pad = refl

module _ (a b c : ℕ) (ha : a < 64) (hb : b < 64) (hc : c < 64) where
  decode_one : decode (print_groups (some a) (some b) none none) ≡ some ((a * 4 + b / 16) ∷ [])
  unfolding decode print_groups
  decode_one = ground (arith, pad, print_group-IsDigit a, print_group-IsDigit b)

  decode_two :
      decode (print_groups (some a) (some b) (some c) none)
      ≡ some ((a * 4 + b / 16) ∷ (b % 16 * 16 + c / 4) ∷ [])
  unfolding decode print_groups
  decode_two =
      rw
        (
          pad,
          (print_group-IsDigit a ha).value,
          (print_group-IsDigit b hb).value,
          (print_group-IsDigit c hc).value,
          (print_group-IsDigit c hc).no_pad,
        )
        refl

  decode_three :
      (d : ℕ) (rest : Text) (bytes : Text)
      → d < 64
      → decode rest ≡ some bytes
      → decode (print_groups (some a) (some b) (some c) (some d) ++ rest)
        ≡ some ((a * 4 + b / 16) ∷ (b % 16 * 16 + c / 4) ∷ (c % 4 * 64 + d) ∷ bytes)
  unfolding decode print_groups
  decode_three d rest bytes hd e =
      rw
        (
          e,
          (print_group-IsDigit a ha).value,
          (print_group-IsDigit b hb).value,
          (print_group-IsDigit c hc).value,
          (print_group-IsDigit d hd).value,
          (print_group-IsDigit c hc).no_pad,
          (print_group-IsDigit d hd).no_pad,
        )
        refl

first_byte : (x y : ℕ) → y < 256 → x / 4 * 4 + (x % 4 * 16 + y / 16) / 16 ≡ x
first_byte x y h = omega arith

second_byte :
    (x y z : ℕ)
    → y < 256
    → z < 256
    → (x % 4 * 16 + y / 16) % 16 * 16 + (y % 16 * 4 + z / 64) / 4 ≡ y
second_byte x y z h k = omega arith

third_byte : (y z : ℕ) → z < 256 → (y % 16 * 4 + z / 64) % 4 * 64 + z % 64 ≡ z
third_byte y z h = omega arith

decode_nil : decode [] ≡ some []
unfolding decode
decode_nil = refl

decode-encode_rounds :
    (bytes : Text) → some_wide bytes ≡ false → decode (encode_rounds bytes) ≡ some bytes
unfolding encode_rounds some_wide
decode-encode_rounds [] h = decode_nil
decode-encode_rounds (x ∷ []) h =
    let x_small : x < 256 = ground arith in
    decode_one (x / 4) (x % 4 * 16) 0 (omega arith) (omega arith) (omega arith)
    ∙ ap (λ n. some (n ∷ [])) (omega arith)
decode-encode_rounds (x ∷ y ∷ []) h =
    let x_small : x < 256 = ground arith in
    let y_small : y < 256 = ground arith in
    decode_two (x / 4) (x % 4 * 16 + y / 16) (y % 16 * 4) (omega arith) (omega arith) (omega arith)
    ∙ ap₂ (λ m n. some (m ∷ n ∷ [])) (first_byte x y y_small) (omega arith)
decode-encode_rounds (x ∷ y ∷ z ∷ rest) h =
    let x_small : x < 256 = ground arith in
    let y_small : y < 256 = ground arith in
    let z_small : z < 256 = ground arith in
    decode_three (x / 4) (x % 4 * 16 + y / 16) (y % 16 * 4 + z / 64) (omega arith) (omega arith)
      (omega arith) (z % 64) (encode_rounds rest) rest (omega arith)
      (decode-encode_rounds rest (ground arith))
    ∙ ap₂ (λ m n. some (m ∷ n ∷ ((y % 16 * 4 + z / 64) % 4 * 64 + z % 64) ∷ rest))
        (first_byte x y y_small) (second_byte x y z y_small z_small)
    ∙ ap (λ n. some (x ∷ y ∷ n ∷ rest)) (third_byte y z z_small)

-- The result of an encoder.
abbrev pub Encodes : Text → Option Text → Type 0
Encodes bytes none = some_wide bytes ≡ true
Encodes bytes (some printed) = (some_wide bytes ≡ false) × (decode printed ≡ some bytes)

-- `base64decode` encodes: for a text of bytes it returns the base64 text that a decoder takes back to
-- those bytes, and it returns null exactly if some character is above 255.
pub base64decode-Encodes : (bytes : Text) → Encodes bytes (base64decode bytes)
unfolding base64decode
base64decode-Encodes bytes = elim (Bool-cases (some_wide bytes)) [
  | inl e ↦ rw e e
  | inr e ↦ rw e (e, decode-encode_rounds bytes e)
]
