-- ===== src/Url/Ipv4.antt =====
-- IPv4 addresses: `parseIPv4Number` and `parseIPv4` of lib/whatwg/url/parser.js, and the branch of
-- `serializeURLHost` in lib/whatwg/url.js for a host that is a number.
pub mod Bounds
pub mod RoundTrip
use zero_archive.Prelude.{
  ℕ, zero, suc, ◌+◌, ◌-◌, ◌*◌, ◌/◌, ◌%◌, ◌^◌, ◌≡◌, refl, Bool, true, false, ◌&&◌, ◌||◌, Option,
  none, some, List, [], ◌∷◌, ◌++◌, leb, ltb, ◌==◌, if◌then◌else◌, is_some, length, get_elem?,
  get_or, drop, drop_last, Text, codes, same, is_char,
}
use zero_archive.Url.Chars.{is_digit, is_ascii_hex}

-- `input.split(separator)` for a separator of one character.
unfoldable pub split : ℕ → Text → List Text
split separator [] = [] ∷ []
split separator (c ∷ cs) =
    let rest = split separator cs in
    if c == separator
    then [] ∷ rest
    else elim rest [ [] ↦ (c ∷ []) ∷ [] | part ∷ parts ↦ (c ∷ part) ∷ parts ]

-- The value of a digit for `parseInt`.
unfoldable pub digit_value : ℕ → ℕ
unfolding is_digit
digit_value c = if is_digit c then c - b'0' else if leb b'a' c then c - b'a' + 10 else c - b'A' + 10

-- `parseInt(input, radix)`, on digits of the radix.
unfoldable pub parse_int_from : ℕ → ℕ → Text → ℕ
parse_int_from radix acc [] = acc
parse_int_from radix acc (c ∷ cs) = parse_int_from radix (acc * radix + digit_value c) cs

abbrev pub parse_int : ℕ → Text → ℕ
parse_int radix = parse_int_from radix 0

-- The character classes of the three regular expressions.
unfoldable pub is_radix_digit : ℕ → ℕ → Bool
unfolding is_digit is_ascii_hex
is_radix_digit radix c =
    if radix == 10
    then is_digit c
    else if radix == 16
    then is_ascii_hex (some c)
    else leb b'0' c && leb c b'7'

unfoldable pub all_radix_digits : ℕ → Text → Bool
unfolding is_radix_digit
all_radix_digits radix [] = true
all_radix_digits radix (c ∷ cs) = is_radix_digit radix c && all_radix_digits radix cs

-- From `if (input === '')` on.
unfoldable pub parse_digits : ℕ → Text → Option ℕ
unfolding parse_int_from digit_value all_radix_digits
parse_digits radix [] = some 0
parse_digits radix (c ∷ cs) =
    if all_radix_digits radix (c ∷ cs) then some (parse_int radix (c ∷ cs)) else none

unfoldable pub parse_ipv4_number : Text → Option ℕ
unfolding parse_digits
parse_ipv4_number input =
    if leb 2 (length input)
      && is_char (get_elem? input 0) b'0'
      && (is_char (get_elem? input 1) b'x' || is_char (get_elem? input 1) b'X')
    then parse_digits 16 (drop 2 input)
    else if leb 2 (length input) && is_char (get_elem? input 0) b'0'
    then parse_digits 8 (drop 1 input)
    else parse_digits 10 input

-- `parseIPv4` returns its input, null, or a number.
pub data Ipv4Result : Type 0 where
  not_ipv4 : Ipv4Result
  invalid : Ipv4Result
  address : ℕ → Ipv4Result

-- A last part that is empty is dropped, unless it is the only one.
unfoldable pub drop_empty_last : List Text → List Text
drop_empty_last parts =
    if length (get_or parts (length parts - 1) []) == 0 && ltb 1 (length parts)
    then drop_last parts
    else parts

-- The loop over the parts; `none` is its `return input`.
unfoldable pub numbers_of : List Text → Option (List ℕ)
numbers_of [] = some []
numbers_of ([] ∷ parts) = none
numbers_of (part ∷ parts) = elim (parse_ipv4_number part) [
  | none ↦ none
  | some n ↦ elim (numbers_of parts) [ none ↦ none | some ns ↦ some (n ∷ ns) ]
]

-- `numbers[i] > 255` for some `i` of the numbers but the last.
unfoldable pub some_above_255 : List ℕ → Bool
some_above_255 [] = false
some_above_255 (n ∷ ns) = ltb 255 n || some_above_255 ns

-- `for (const n of numbers) { ipv4 += n * (256 ** (3 - counter)); counter += 1; }`
unfoldable pub add_numbers : List ℕ → ℕ → ℕ → ℕ
add_numbers [] ipv4 counter = ipv4
add_numbers (n ∷ ns) ipv4 counter = add_numbers ns (ipv4 + n * 256 ^ (3 - counter)) (counter + 1)

-- The part of `parseIPv4` behind the loop over the parts.
unfoldable pub combine : List ℕ → Ipv4Result
unfolding some_above_255 add_numbers
combine numbers =
    let front = drop_last numbers in
    let last = get_or numbers (length numbers - 1) 0 in
    if some_above_255 front
    then invalid
    else if leb (256 ^ (5 - length numbers)) last
    then invalid
    else address (add_numbers front last 0)

unfoldable pub parse_ipv4 : Text → Ipv4Result
parse_ipv4 input =
    let parts = drop_empty_last (split b'.' input) in
    if ltb 4 (length parts)
    then not_ipv4
    else elim (numbers_of parts) [ none ↦ not_ipv4 | some numbers ↦ combine numbers ]

-- `String(n)`, the decimal digits; the first argument bounds how many digits are printed.
unfoldable pub decimal_onto : ℕ → ℕ → Text → Text
decimal_onto zero n out = out
decimal_onto (suc fuel) n out =
    let more = decimal_onto fuel (n / 10) ((b'0' + n % 10) ∷ out) in
    if ltb n 10 then (b'0' + n % 10) ∷ out else more

unfoldable pub decimal : ℕ → Text
unfolding decimal_onto
decimal n = decimal_onto (suc n) n []

-- The loop of `serializeURLHost`, from `i` on, with `rounds` of its rounds left.
unfoldable pub serialize_ipv4_from : ℕ → ℕ → ℕ → Text → Text
serialize_ipv4_from zero i n output = output
serialize_ipv4_from (suc rounds) i n output =
    let printed = decimal (n % 256) ++ output in
    serialize_ipv4_from rounds (i + 1) (n / 256) (if i == 4 then printed else b'.' ∷ printed)

unfoldable pub serialize_ipv4 : ℕ → Text
unfolding serialize_ipv4_from
serialize_ipv4 n = serialize_ipv4_from 4 1 n []

ipv4_runs :
    (parse_ipv4 (codes "127.0.0.1") ≡ address 2130706433)
    × (parse_ipv4 (codes "0x7f.1.") ≡ address 2130706433)
    × (parse_ipv4 (codes "256.1") ≡ invalid)
    × (parse_ipv4 (codes "a.b") ≡ not_ipv4)
    × (serialize_ipv4 2130706433 ≡ codes "127.0.0.1")
unfolding parse_ipv4 split drop_empty_last numbers_of parse_ipv4_number combine serialize_ipv4
    decimal
ipv4_runs = (refl, refl, refl, refl, refl)
