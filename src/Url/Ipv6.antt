-- ===== src/Url/Ipv6.antt =====
-- `parseIPv6Host` of lib/whatwg/url/parser.js. What is left of the input from `pointer` on is a list,
-- so `input[pointer]` is its head and undefined is the empty list; going back by `pointer -= length`
-- is going on from the list that the hexadecimal digits were read from.
pub mod Runs
pub mod Digits
pub mod Halves
pub mod Round
pub mod Safe
use zero_archive.Prelude.{
  ℕ, zero, suc, ◌+◌, ◌-◌, ◌*◌, ◌≡◌, refl, Bool, true, false, ◌&&◌, ◌||◌, Option, none, some, List,
  [], ◌∷◌, leb, ltb, ◌==◌, if◌then◌else◌, length, get_elem?, Text, codes, is_char, is_some,
}
use zero_archive.Url.Chars.{is_digit, is_ascii_hex}
use zero_archive.Url.Ipv4.{digit_value}
use Runs.{Run, returned, null, fault, out_of_fuel, ◌>>=◌, read, write}

-- `address`, `pieceIndex` and `compress`.
pub record Pieces : Type 0 where
  pub address : List ℕ
  pub piece_index : ℕ
  pub compress : Option ℕ

abbrev pub initial : Pieces
initial = record { address = 0 ∷ 0 ∷ 0 ∷ 0 ∷ 0 ∷ 0 ∷ 0 ∷ 0 ∷ []; piece_index = 0; compress = none }

-- `while (length < 4 && isASCIIHex(input[pointer]))`, with `room` rounds left: value, length, rest.
unfoldable pub hex_digits : ℕ → ℕ → ℕ → Text → ℕ × ℕ × Text
hex_digits zero value length rest = (value, length, rest)
hex_digits (suc room) value length [] = (value, length, [])
hex_digits (suc room) value length (c ∷ rest) =
    let more = hex_digits room (value * 0x10 + digit_value c) (length + 1) rest in
    if is_ascii_hex (some c) then more else (value, length, c ∷ rest)

-- `ipv4Piece` after one more digit; `none` is `return null`.
unfoldable pub add_digit : Option ℕ → ℕ → Option ℕ
add_digit none number = if ltb 255 number then none else some number
add_digit (some zero) number = none
add_digit (some (suc p)) number =
    let piece = suc p * 10 + number in if ltb 255 piece then none else some piece

-- `while (isASCIIDigit(input[pointer]))`: the decimal piece and the rest.
unfoldable pub decimal_digits : Option ℕ → Text → Run (Option ℕ × Text)
decimal_digits piece [] = returned (piece, [])
decimal_digits piece (c ∷ rest) =
    if is_digit c
    then elim (add_digit piece (digit_value c)) [
      | none ↦ null
      | some p ↦ decimal_digits (some p) rest
    ]
    else returned (piece, c ∷ rest)

-- One decimal piece: a dot in front of it unless it is the first, and at least one digit.
unfoldable pub skip_dot : ℕ → Text → Run Text
skip_dot zero rest = returned rest
skip_dot (suc seen) [] = null
skip_dot (suc seen) (c ∷ rest) = if c == b'.' && ltb (suc seen) 4 then returned rest else null

unfoldable pub read_piece : Text → Run (ℕ × Text)
read_piece [] = null
read_piece (c ∷ rest) =
    if is_digit c
    then (decimal_digits none (c ∷ rest)
        >>= (λ (piece, left). elim piece [ none ↦ null | some p ↦ returned (p, left) ]))
    else null

-- `while (input[pointer])` of the embedded IPv4 address; `seen` is `numbersSeen`.
unfoldable pub decimal_pieces : ℕ → Pieces → ℕ → Text → Run (Pieces × ℕ)
decimal_pieces zero p seen rest = out_of_fuel
decimal_pieces (suc fuel) p seen [] = returned (p, seen)
decimal_pieces (suc fuel) p seen (c ∷ rest) = do
  digits ← skip_dot seen (c ∷ rest)
  (piece, left) ← read_piece digits
  old ← read p.address p.piece_index
  address ← write p.address p.piece_index (old * 0x100 + piece)
  let seen' = seen + 1
  let p' = record p {
    address = address;
    piece_index = if seen' == 2 || seen' == 4 then p.piece_index + 1 else p.piece_index;
  }
  decimal_pieces fuel p' seen' left

-- The embedded IPv4 address, from `if (length === 0)` up to `break`.
unfoldable pub embedded_ipv4 : Pieces → ℕ → Text → Run Pieces
embedded_ipv4 p length_read digits =
    if length_read == 0 || ltb 6 p.piece_index
    then null
    else decimal_pieces 6 p 0 digits >>= λ (p', seen). if seen == 4 then returned p' else null

-- `address[pieceIndex] = value; pieceIndex += 1;`
unfoldable pub push_piece : Pieces → ℕ → Run Pieces
push_piece p value = do
  address ← write p.address p.piece_index value
  returned (record p { address = address; piece_index = p.piece_index + 1 })

-- The rest of a round behind the hexadecimal digits that were read from `c ∷ rest`.
unfoldable pub after_hex : Pieces → ℕ → Text → ℕ × ℕ × Text → Run (Pieces × Option Text)
after_hex p c rest (value, length_read, []) = push_piece p value >>= (λ p'. returned (p', some []))
after_hex p c rest (value, length_read, d ∷ left) =
    if d == b'.'
    then (embedded_ipv4 p length_read (c ∷ rest) >>= (λ p'. returned (p', none)))
    else if d == b':'
    then elim left [
      | [] ↦ null
      | e ∷ more ↦ push_piece p value >>= (λ p'. returned (p', some (e ∷ more)))
    ]
    else null

-- One round of the main loop, at a character: the new state, and the rest of the input if the loop
-- goes on, or none at `break`.
unfoldable pub round : Pieces → ℕ → Text → Run (Pieces × Option Text)
round p c rest =
    if p.piece_index == 8
    then null
    else if c == b':'
    then elim p.compress [
      | some k ↦ null
      | none ↦ returned (
        record p { piece_index = p.piece_index + 1; compress = some (p.piece_index + 1) },
        some rest,
      )
    ]
    else after_hex p c rest (hex_digits 4 0 0 (c ∷ rest))

unfoldable pub rounds : ℕ → Pieces → Text → Run Pieces
rounds zero p rest = out_of_fuel
rounds (suc fuel) p [] = returned p
rounds (suc fuel) p (c ∷ rest) = round p c rest >>= λ (p', left). elim left [
  | none ↦ returned p'
  | some rest' ↦ rounds fuel p' rest'
]

-- `while (pieceIndex !== 0 && swaps > 0)`.
unfoldable pub move_pieces : ℕ → ℕ → ℕ → List ℕ → Run (List ℕ)
move_pieces zero piece_index compress address = returned address
move_pieces (suc swaps) zero compress address = returned address
move_pieces (suc swaps) (suc index) compress address = do
  t ← read address (suc index)
  s ← read address (compress + suc swaps - 1)
  address' ← write address (suc index) s
  address'' ← write address' (compress + suc swaps - 1) t
  move_pieces swaps index compress address''

-- The part behind the main loop.
unfoldable pub decompress : Pieces → Run (List ℕ)
decompress p = elim p.compress [
  | some k ↦ move_pieces (p.piece_index - k) 7 k p.address
  | none ↦ if p.piece_index == 8 then returned p.address else null
]

-- `if (input[pointer] === ':')` in front of the main loop.
unfoldable pub start : Text → Run (Pieces × Text)
start [] = returned (initial, [])
start (c ∷ rest) =
    if c == b':'
    then elim rest [
      | [] ↦ null
      | d ∷ rest' ↦
          if d == b':'
          then returned (record initial { piece_index = 1; compress = some 1 }, rest')
          else null
    ]
    else returned (initial, c ∷ rest)

unfoldable pub parse_ipv6_host : Text → Run (List ℕ)
parse_ipv6_host input = do
  (p, rest) ← start input
  p' ← rounds (length rest + 1) p rest
  decompress p'

ipv6_runs :
    (parse_ipv6_host (codes "::1") ≡ returned (0 ∷ 0 ∷ 0 ∷ 0 ∷ 0 ∷ 0 ∷ 0 ∷ 1 ∷ []))
    × (parse_ipv6_host (codes "2001:db8::A:1.2.3.4")
        ≡ returned (0x2001 ∷ 0xdb8 ∷ 0 ∷ 0 ∷ 0 ∷ 0xa ∷ 0x102 ∷ 0x304 ∷ []))
    × (parse_ipv6_host (codes "1:2:3:4:5:6:7:8:9") ≡ null)
    × (parse_ipv6_host (codes "1::2::3") ≡ null)
unfolding parse_ipv6_host start rounds decompress round after_hex hex_digits push_piece
    embedded_ipv4 decimal_pieces skip_dot read_piece decimal_digits add_digit move_pieces
    digit_value is_digit is_ascii_hex Runs.read Runs.write
ipv6_runs = (refl, refl, refl, refl)
