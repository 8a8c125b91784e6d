-- ===== src/Url/Serialize.antt =====
-- `findLongestZeroSequence`, `serializeURLHost`, `serializeURLPath` and `serializeURL` of
-- lib/whatwg/url.js.
pub mod Zeros
pub mod Port
use zero_archive.Prelude.{
  ℕ, zero, suc, ◌+◌, ◌-◌, ◌*◌, ◌/◌, ◌%◌, ◌≡◌, refl, Bool, true, false, not, ◌&&◌, ◌||◌, Option,
  none, some, List, [], ◌∷◌, ◌++◌, ltb, ◌==◌, if◌then◌else◌, length, get_elem?, Text, codes, same,
  is_some,
}
use zero_archive.Url.Ipv4.{decimal, serialize_ipv4}
use zero_archive.Url.Record.{Url, Host, domain, ipv4, ipv6, file_scheme}

-- The variables of `findLongestZeroSequence`.
pub record Search : Type 0 where
  pub max_idx : Option ℕ
  pub max_len : ℕ
  pub curr_start : Option ℕ
  pub curr_len : ℕ

-- `if (currLen > maxLen) { maxIdx = currStart; maxLen = currLen; }`
unfoldable pub keep_longer : Search → Search
keep_longer s =
    if ltb s.max_len s.curr_len
    then record s { max_idx = s.curr_start; max_len = s.curr_len }
    else s

-- One round, at the element `i` of the array.
unfoldable pub search_round : Search → ℕ → ℕ → Search
search_round s i element =
    if not (element == 0)
    then record (keep_longer s) { curr_start = none; curr_len = 0 }
    else record s {
      curr_start = if is_some s.curr_start then s.curr_start else some i;
      curr_len = s.curr_len + 1;
    }

unfoldable pub search_from : Search → ℕ → List ℕ → Search
search_from s i [] = keep_longer s
search_from s i (element ∷ arr) = search_from (search_round s i element) (i + 1) arr

abbrev pub no_zeros : Search
no_zeros = record { max_idx = none; max_len = 1; curr_start = none; curr_len = 0 }

-- The result: `maxIdx` and `maxLen`.
unfoldable pub find_longest_zero_sequence : List ℕ → Option ℕ × ℕ
find_longest_zero_sequence arr = let s = search_from no_zeros 0 arr in (s.max_idx, s.max_len)

-- `n.toString(16)`; the first argument bounds how many digits are printed.
abbrev hex_digit : ℕ → ℕ
hex_digit d = if ltb d 10 then b'0' + d else b'a' + (d - 10)

unfoldable pub hexadecimal_onto : ℕ → ℕ → Text → Text
hexadecimal_onto zero n out = out
hexadecimal_onto (suc fuel) n out =
    let more = hexadecimal_onto fuel (n / 16) (hex_digit (n % 16) ∷ out) in
    if ltb n 16 then hex_digit (n % 16) ∷ out else more

unfoldable pub hexadecimal : ℕ → Text
unfolding hexadecimal_onto
hexadecimal n = hexadecimal_onto (suc n) n []

abbrev is_index : Option ℕ → ℕ → Bool
is_index none i = false
is_index (some k) i = k == i

-- The loop over the pieces, from `pieceIndex` on.
unfoldable pub serialize_pieces : Option ℕ → Bool → ℕ → List ℕ → Text → Text
serialize_pieces compress ignore0 i [] output = output
serialize_pieces compress ignore0 i (piece ∷ pieces) output =
    let skipped = ignore0 && piece == 0 in
    let compressed = not skipped && is_index compress i in
    serialize_pieces compress (skipped || compressed) (i + 1) pieces (
      if skipped
      then output
      else if compressed
      then output ++ (if i == 0 then codes "::" else codes ":")
      else output ++ (hexadecimal piece ++ (if i == 7 then [] else codes ":")))

unfoldable pub serialize_url_host : Host → Text
serialize_url_host (ipv4 n) = serialize_ipv4 n
serialize_url_host (ipv6 host) =
    codes "[" ++ (serialize_pieces (find_longest_zero_sequence host).0 false 0 host [] ++ codes "]")
serialize_url_host (domain d) = d

-- `url.path.join('/')`
unfoldable pub join : List Text → Text
join [] = []
join (segment ∷ []) = segment
join (segment ∷ next ∷ path) = segment ++ b'/' ∷ join (next ∷ path)

-- `none` is undefined: `url.path[0]` of an opaque URL without a path.
unfoldable pub serialize_url_path : Url → Option Text
serialize_url_path url =
    if url.cannot_be_base
    then get_elem? url.path 0
    else if length url.path == 0
    then some []
    else some (b'/' ∷ join url.path)

-- `ret += x` for an `x` that may be undefined.
unfoldable pub text_of : Option Text → Text
text_of none = codes "undefined"
text_of (some t) = t

-- `if (url.host)`: null, 0 and the empty string are false.
unfoldable pub host_is_true : Option Host → Bool
host_is_true none = false
host_is_true (some (domain d)) = ltb 0 (length d)
host_is_true (some (ipv4 n)) = ltb 0 n
host_is_true (some (ipv6 pieces)) = true

pub record Parts : Type 0 where
  pub fragment : Bool
  pub search : Bool
  pub auth : Bool

abbrev pub all_parts : Parts
all_parts = record { fragment = true; search = true; auth = true }

unfoldable pub credentials_part : Url → Text
credentials_part url =
    let has_username = ltb 0 (length url.username) in
    let has_password = ltb 0 (length url.password) in
    if has_username || has_password
    then (if has_username then url.username else [])
      ++ ((if has_password then b':' ∷ url.password else []) ++ codes "@")
    else []

unfoldable pub host_part : Option Host → Text
host_part none = []
host_part (some h) = serialize_url_host h

unfoldable pub port_part : Url → Text
port_part url = elim url.port [
  | none ↦ []
  | some p ↦ if not url.is_default_scheme_port then b':' ∷ decimal p else []
]

-- `search && url.query`, `fragment && url.fragment`: null and the empty string are false.
unfoldable pub marked_part : Bool → ℕ → Option Text → Text
marked_part wanted mark none = []
marked_part wanted mark (some t) = if wanted && ltb 0 (length t) then mark ∷ t else []

unfoldable pub serialize_url : Url → Parts → Text
serialize_url url parts =
    url.scheme
    ++ ((if host_is_true url.host
          then codes "//"
            ++ ((if parts.auth then credentials_part url else [])
                ++ (host_part url.host ++ port_part url))
          else if same url.scheme file_scheme
          then codes "//"
          else [])
        ++ (text_of (serialize_url_path url)
            ++ (marked_part parts.search b'?' url.query
                ++ marked_part parts.fragment b'#' url.fragment)))

ipv6_prints :
    (serialize_url_host (ipv6 (0x2001 ∷ 0xdb8 ∷ 0 ∷ 0 ∷ 0 ∷ 0xa ∷ 0x102 ∷ 0x304 ∷ []))
      ≡ codes "[2001:db8::a:102:304]")
    × (serialize_url_host (ipv6 (0 ∷ 0 ∷ 0 ∷ 0 ∷ 0 ∷ 0 ∷ 0 ∷ 1 ∷ [])) ≡ codes "[::1]")
unfolding serialize_url_host serialize_pieces find_longest_zero_sequence search_from search_round
    keep_longer hexadecimal
ipv6_prints = (refl, refl)
