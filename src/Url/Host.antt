-- ===== src/Url/Host.antt =====
-- `parseOpaqueHost` and `parseHost` of lib/whatwg/url/parser.js.
pub mod Fits
use zero_archive.Prelude.{
  ℕ, ◌-◌, Bool, false, not, ◌||◌, Option, none, some, List, [], ◌∷◌, ◌++◌, leb, ltb, ◌==◌,
  if◌then◌else◌, length, get_elem?, drop, drop_last, Text, is_char,
}
use zero_archive.Url.Ipv4
use zero_archive.Url.Ipv4.{parse_ipv4}
use zero_archive.Url.Ipv6.{parse_ipv6_host}
use zero_archive.Url.Ipv6.Runs.{Run, returned, null, fault, out_of_fuel}
use zero_archive.Url.Record.{Host, domain, ipv4, ipv6}

unfoldable pub is_forbidden_host_code_point : ℕ → Bool
is_forbidden_host_code_point c =
    c == 0x0000
    || c == 0x0009
    || c == 0x000a
    || c == 0x000d
    || c == 0x0020
    || c == b'#'
    || c == b'/'
    || c == b':'
    || c == b'?'
    || c == b'@'
    || c == b'['
    || c == b'\\'
    || c == b']'

unfoldable pub contains_forbidden_host_code_point : Text → Bool
contains_forbidden_host_code_point [] = false
contains_forbidden_host_code_point (c ∷ cs) =
    is_forbidden_host_code_point c || contains_forbidden_host_code_point cs

unfoldable pub is_c0_control_percent_encode : ℕ → Bool
is_c0_control_percent_encode c = leb c 0x1f || ltb 0x7e c

-- `percentEncode` is handed a character and not its code, so `c.toString(16)` is the character and
-- only `toUpperCase` acts. `upper` is what the engine's Unicode tables give for a character.
unfoldable pub percent_encode : (ℕ → Text) → ℕ → Text
percent_encode upper c = if length (upper c) == 1 then b'0' ∷ upper c else b'%' ∷ upper c

unfoldable pub percent_encode_char : (ℕ → Text) → ℕ → (ℕ → Bool) → Text
percent_encode_char upper c encode_set_predicate =
    if encode_set_predicate c then percent_encode upper c else c ∷ []

-- The loop of `parseOpaqueHost`, from `output` on.
unfoldable pub encode_opaque : (ℕ → Text) → Text → Text → Text
encode_opaque upper output [] = output
encode_opaque upper output (c ∷ cs) =
    encode_opaque upper (output ++ percent_encode_char upper c is_c0_control_percent_encode) cs

unfoldable pub parse_opaque_host : (ℕ → Text) → Text → Option Host
parse_opaque_host upper input =
    if contains_forbidden_host_code_point input
    then none
    else some (domain (encode_opaque upper [] input))

-- A fault and a lack of fuel never occur (Url/Ipv6/Safe.antt).
abbrev pub ipv6_host : Run (List ℕ) → Option Host
ipv6_host (returned pieces) = some (ipv6 pieces)
ipv6_host null = none
ipv6_host fault = none
ipv6_host out_of_fuel = none

-- From `parseIPv4(asciiDomain)` on.
abbrev pub ipv4_or_domain : Ipv4.Ipv4Result → Text → Option Host
ipv4_or_domain (Ipv4.address n) ascii_domain = some (ipv4 n)
ipv4_or_domain Ipv4.invalid ascii_domain = none
ipv4_or_domain Ipv4.not_ipv4 ascii_domain = some (domain ascii_domain)

-- `percentDecode` and `toASCII` return their argument; `none` is null.
unfoldable pub parse_host : (ℕ → Text) → Text → Bool → Option Host
parse_host upper input special =
    if length input == 0
    then some (domain [])
    else if is_char (get_elem? input 0) b'['
    then (if is_char (get_elem? input (length input - 1)) b']'
        then ipv6_host (parse_ipv6_host (drop_last (drop 1 input)))
        else none)
    else if not special
    then parse_opaque_host upper input
    else if contains_forbidden_host_code_point input
    then none
    else ipv4_or_domain (parse_ipv4 input) input
