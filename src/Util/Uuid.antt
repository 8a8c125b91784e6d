-- ===== src/Util/Uuid.antt =====
-- `uuid4122` of lib/util.js. `Math.random() * 16 | 0` in round `i` is a parameter.
use zero_archive.Prelude.{
  ℕ, zero, suc, ◌+◌, ◌-◌, ◌%◌, ◌≤◌, ◌≡◌, refl, [], ◌∷◌, ◌++◌, ◌==◌, ◌||◌, ltb, if◌then◌else◌,
  get_or, length, arith, Text,
}

-- `n.toString(16)` of one digit.
unfoldable pub hex_digit_of : ℕ → ℕ
hex_digit_of n = if ltb n 10 then b'0' + n else b'a' + (n - 10)

unfoldable pub uuid_digit : (ℕ → ℕ) → ℕ → ℕ
uuid_digit random i = if i == 12 then 4 else if i == 16 then random i % 4 else random i

-- The rounds from `i` on, with as many left.
unfoldable pub uuid_rounds : (ℕ → ℕ) → ℕ → ℕ → Text
uuid_rounds random zero i = []
uuid_rounds random (suc rounds) i =
    (if i == 8 || i == 12 || i == 16 || i == 20 then b'-' ∷ [] else [])
    ++ hex_digit_of (uuid_digit random i) ∷ uuid_rounds random rounds (i + 1)

unfoldable pub uuid4122 : (ℕ → ℕ) → Text
uuid4122 random = uuid_rounds random 32 0

-- Whatever the random digits are, the text has 36 characters, the version digit is 4, and the variant
-- digit is one of 0 to 3 and so not one of 8, 9, a and b.
pub uuid4122-form :
    (random : ℕ → ℕ)
    → (length (uuid4122 random) ≡ 36)
      × (get_or (uuid4122 random) 14 0 ≡ b'4')
      × (b'0' ≤ get_or (uuid4122 random) 19 0)
      × (get_or (uuid4122 random) 19 0 ≤ b'3')
unfolding uuid4122 uuid_rounds uuid_digit hex_digit_of
uuid4122-form random = (refl, refl, ground arith, ground arith)
