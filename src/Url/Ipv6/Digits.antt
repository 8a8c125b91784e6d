-- ===== src/Url/Ipv6/Digits.antt =====
-- What the digit loops of `parseIPv6Host` return: the range of the value, and how much is read.
use native.Mathlib.Nat.{pow-suc}
use zero_archive.Prelude.{
  ℕ, zero, suc, ◌+◌, ◌*◌, ◌^◌, ◌≤◌, ◌<◌, ◌≡◌, true, Option, none, some, [], ◌∷◌, arith, ltb, ◌==◌,
  length, Text, inl, inr, Bool-cases, Option-cases, ◌&&◌,
}
use zero_archive.Url.Chars.{is_digit, is_ascii_hex}
use zero_archive.Url.Ipv4.{digit_value}
use zero_archive.Url.Ipv6.{hex_digits, decimal_digits, read_piece, skip_dot, add_digit}
use zero_archive.Url.Ipv6.Runs.{Run, returned, null, Clean, Clean-bind, Clean-if}

digit_value-lt_16 : (c : ℕ) → is_ascii_hex (some c) ≡ true → digit_value c < 16
unfolding digit_value is_ascii_hex is_digit
digit_value-lt_16 c h = ground arith

digit_value-lt_10 : (c : ℕ) → is_digit c ≡ true → digit_value c < 10
unfolding digit_value is_digit
digit_value-lt_10 c h = ground arith

le-mul-pow : (room b : ℕ) → b ≤ b * 16 ^ room
le-mul-pow zero b = omega arith
le-mul-pow (suc room) b = rw pow-suc (omega (arith, le-mul-pow room b))

-- The value grows by a factor of 16 a round at most.
pub hex_digits-lt :
    (room value n b : ℕ) (rest : Text)
    → value < b
    → (hex_digits room value n rest).0 < b * 16 ^ room
unfolding hex_digits
hex_digits-lt zero value n b rest h = omega arith
hex_digits-lt (suc room) value n b [] h = omega (arith, le-mul-pow (suc room) b)
hex_digits-lt (suc room) value n b (c ∷ rest) h = elim (Bool-cases (is_ascii_hex (some c))) [
  | inl e ↦
      let ih =
        hex_digits-lt room (value * 16 + digit_value c) (n + 1) (b * 16) rest
          (omega (arith, digit_value-lt_16 c e)) in
      rw (e, pow-suc) (omega (arith, ih))
  | inr e ↦ rw e (omega (arith, le-mul-pow (suc room) b))
]

pub hex_digits_left :
    (room value n : ℕ) (rest : Text) → length (hex_digits room value n rest).2 ≤ length rest
unfolding hex_digits
hex_digits_left zero value n rest = omega arith
hex_digits_left (suc room) value n [] = omega arith
hex_digits_left (suc room) value n (c ∷ rest) =
    ground (arith, hex_digits_left room (value * 16 + digit_value c) (n + 1) rest)

abbrev IsByte? : Option ℕ → Type 0
IsByte? none = Unit
IsByte? (some n) = n ≤ 255

add_digit-IsByte? : (piece : Option ℕ) (d p : ℕ) → add_digit piece d ≡ some p → p ≤ 255
unfolding add_digit
add_digit-IsByte? none d p h = ground arith
add_digit-IsByte? (some zero) d p h = cc
add_digit-IsByte? (some (suc q)) d p h = ground arith

decimal_digits-IsByte? :
    (piece : Option ℕ) (rest : Text)
    → IsByte? piece
    → Clean (λ r. IsByte? r.0) (decimal_digits piece rest)
unfolding decimal_digits
decimal_digits-IsByte? piece [] h = h
decimal_digits-IsByte? piece (c ∷ rest) h =
    Clean-if _ (is_digit c) _ _
      (λ e. elim (Option-cases (add_digit piece (digit_value c))) [
        | inl f ↦ rw f tt
        | inr (p, f) ↦
            rw f
              (decimal_digits-IsByte? (some p) rest (add_digit-IsByte? piece (digit_value c) p f))
      ])
      (λ e. h)

found : Option ℕ × Text → Run (ℕ × Text)
found r = elim r.0 [ none ↦ null | some p ↦ returned (p, r.1) ]

found-le : (r : Option ℕ × Text) → IsByte? r.0 → Clean (λ x. x.0 ≤ 255) (found r)
unfolding found
found-le (none, t) h = tt
found-le (some p, t) h = h

-- A decimal piece is a byte.
pub read_piece-le : (rest : Text) → Clean (λ r. r.0 ≤ 255) (read_piece rest)
unfolding read_piece found
read_piece-le [] = tt
read_piece-le (c ∷ rest) =
    Clean-if _ (is_digit c) _ _
      (λ e.
        Clean-bind (λ r. IsByte? r.0) (λ r. r.0 ≤ 255) (decimal_digits none (c ∷ rest)) found
          (decimal_digits-IsByte? none (c ∷ rest) tt) found-le)
      (λ e. tt)

-- A dot may stand in front of at most three more pieces.
pub skip_dot-lt : (seen c : ℕ) (rest : Text) → Clean (λ r. seen < 4) (skip_dot seen (c ∷ rest))
unfolding skip_dot
skip_dot-lt zero c rest = omega arith
skip_dot-lt (suc seen) c rest =
    Clean-if _ (c == b'.' && ltb (suc seen) 4) _ _ (λ e. ground arith) (λ e. tt)
