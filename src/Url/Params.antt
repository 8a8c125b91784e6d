-- ===== src/Url/Params.antt =====
-- `encodeStr`, `parseParams`, `serializeSearchParams`, `updateSearchParams` and the class
-- URLSearchParams of lib/whatwg/url.js.
pub mod Encode
pub mod Lookup
pub mod Set
use zero_archive.Prelude.{
  ℕ, zero, suc, ◌+◌, ◌-◌, ◌*◌, ◌/◌, ◌%◌, ◌≡◌, refl, Bool, true, false, not, ◌||◌, Option, none,
  some, List, [], ◌∷◌, ◌++◌, leb, ltb, ◌==◌, if◌then◌else◌, length, get_elem?, get_or, set, drop,
  take, remove_at, Text, codes, same, is_char, replace_char, lacks,
}
use zero_archive.Url.Ipv4.{split}
use zero_archive.Url.Record.{Url}

-- The rows of `noEscape`, which has an entry for each of the 128 ASCII characters.
unfoldable pub no_escape : List ℕ
no_escape =
    0 ∷ 0 ∷ 0 ∷ 0 ∷ 0 ∷ 0 ∷ 0 ∷ 0 ∷ 0 ∷ 0 ∷ 0 ∷ 0 ∷ 0 ∷ 0 ∷ 0 ∷ 0 ∷ 0 ∷ 0 ∷ 0 ∷ 0 ∷ 0 ∷ 0 ∷ 0 ∷ 0
    ∷ 0 ∷ 0 ∷ 0 ∷ 0 ∷ 0 ∷ 0 ∷ 0 ∷ 0 ∷ 0 ∷ 0 ∷ 0 ∷ 0 ∷ 0 ∷ 0 ∷ 0 ∷ 0 ∷ 0 ∷ 0 ∷ 1 ∷ 0 ∷ 0 ∷ 1 ∷ 1 ∷ 0
    ∷ 1 ∷ 1 ∷ 1 ∷ 1 ∷ 1 ∷ 1 ∷ 1 ∷ 1 ∷ 1 ∷ 1 ∷ 0 ∷ 0 ∷ 0 ∷ 0 ∷ 0 ∷ 0 ∷ 0 ∷ 1 ∷ 1 ∷ 1 ∷ 1 ∷ 1 ∷ 1 ∷ 1
    ∷ 1 ∷ 1 ∷ 1 ∷ 1 ∷ 1 ∷ 1 ∷ 1 ∷ 1 ∷ 1 ∷ 1 ∷ 1 ∷ 1 ∷ 1 ∷ 1 ∷ 1 ∷ 1 ∷ 1 ∷ 1 ∷ 1 ∷ 0 ∷ 0 ∷ 0 ∷ 0 ∷ 1
    ∷ 0 ∷ 1 ∷ 1 ∷ 1 ∷ 1 ∷ 1 ∷ 1 ∷ 1 ∷ 1 ∷ 1 ∷ 1 ∷ 1 ∷ 1 ∷ 1 ∷ 1 ∷ 1 ∷ 1 ∷ 1 ∷ 1 ∷ 1 ∷ 1 ∷ 1 ∷ 1 ∷ 1
    ∷ 1 ∷ 1 ∷ 1 ∷ 0 ∷ 0 ∷ 0 ∷ 0 ∷ 0 ∷ []

abbrev upper_hex_digit : ℕ → ℕ
upper_hex_digit d = if ltb d 10 then b'0' + d else b'A' + (d - 10)

-- An entry of `hexTable`: `%` and two digits in upper case.
unfoldable pub hex_entry : ℕ → Text
hex_entry i = b'%' ∷ upper_hex_digit (i / 16) ∷ upper_hex_digit (i % 16) ∷ []

-- An entry of `paramHexTable`.
unfoldable pub param_hex_entry : ℕ → Text
unfolding hex_entry
param_hex_entry i = if i == 0x20 then b'+' ∷ [] else hex_entry i

-- The branches of the loop of `encodeStr`, for a code unit.
pub data UnitKind : Type 0 where
  unescaped : UnitKind
  escaped : Text → UnitKind
  surrogate : UnitKind

unfoldable pub kind_of : ℕ → UnitKind
kind_of c =
    if ltb c 0x80
    then (if get_or no_escape c 0 == 1 then unescaped else escaped (param_hex_entry c))
    else if ltb c 0x800
    then escaped (param_hex_entry (0xc0 + c / 64) ++ param_hex_entry (0x80 + c % 64))
    else if ltb c 0xd800 || leb 0xe000 c
    then escaped (
        param_hex_entry (0xe0 + c / 4096)
        ++ (param_hex_entry (0x80 + c / 64 % 64) ++ param_hex_entry (0x80 + c % 64)))
    else surrogate

-- The code point of a surrogate and the code unit behind it, of which the low ten bits count.
unfoldable pub pair_code : ℕ → ℕ → ℕ
pair_code c next = 0x10000 + (c % 1024 * 1024 + next % 1024)

unfoldable pub escape_pair : ℕ → Text
escape_pair c =
    param_hex_entry (0xf0 + c / 262144)
    ++ (param_hex_entry (0x80 + c / 4096 % 64)
        ++ (param_hex_entry (0x80 + c / 64 % 64) ++ param_hex_entry (0x80 + c % 64)))

-- `str.slice(from, to)`
abbrev pub slice : Text → ℕ → ℕ → Text
slice str from to = take (to - from) (drop from str)

-- `if (lastPos < i) { out += str.slice(lastPos, i); }`
unfoldable pub flush : Text → ℕ → ℕ → Text → Text
flush str last_pos i out = if ltb last_pos i then out ++ slice str last_pos i else out

-- The part of `encodeStr` behind its loop.
unfoldable pub finish : Text → ℕ → Text → Text
finish str last_pos out =
    if last_pos == 0
    then str
    else if ltb last_pos (length str)
    then out ++ drop last_pos str
    else out

-- The loop of `encodeStr`; the last argument is the part of `str` from `i` on.
unfoldable pub encode_from : Text → ℕ → ℕ → Text → Text → Text
encode_from str i last_pos out [] = finish str last_pos out
encode_from str i last_pos out (c ∷ []) = elim (kind_of c) [
  | unescaped ↦ finish str last_pos out
  | escaped bytes ↦ finish str (i + 1) (flush str last_pos i out ++ bytes)
  | surrogate ↦ finish str (i + 2) (flush str last_pos i out ++ escape_pair (pair_code c 0))
]
encode_from str i last_pos out (c ∷ d ∷ rest) = elim (kind_of c) [
  | unescaped ↦ encode_from str (i + 1) last_pos out (d ∷ rest)
  | escaped bytes ↦ encode_from str (i + 1) (i + 1) (flush str last_pos i out ++ bytes) (d ∷ rest)
  | surrogate ↦
      encode_from str (i + 2) (i + 2) (flush str last_pos i out ++ escape_pair (pair_code c d)) rest
]

-- `encodeStr(str, noEscape, paramHexTable)`
unfoldable pub encode_str : Text → Text
encode_str str = if length str == 0 then [] else encode_from str 0 0 [] str

abbrev pub Pair : Type 0
Pair = Text × Text

unfoldable pub serialize_pair : Pair → Text
serialize_pair (k, v) = encode_str k ++ b'=' ∷ encode_str v

unfoldable pub serialize_pairs : List Pair → Text
serialize_pairs [] = []
serialize_pairs (p ∷ []) = serialize_pair p
serialize_pairs (p ∷ q ∷ list) = serialize_pair p ++ b'&' ∷ serialize_pairs (q ∷ list)

-- `kList`, and the record of the URL object `kURLObject`, if there is one.
pub record SearchParams : Type 0 where
  pub list : List Pair
  pub url_object : Option Url

unfoldable pub serialize_search_params : SearchParams → Text
serialize_search_params p = serialize_pairs p.list

unfoldable pub update_search_params : SearchParams → SearchParams
update_search_params p = elim p.url_object [
  | none ↦ p
  | some url ↦ record p {
    url_object = some (record url { query = some (serialize_search_params p) });
  }
]

unfoldable pub append : SearchParams → Text → Text → SearchParams
append p name value = update_search_params (record p { list = p.list ++ (name, value) ∷ [] })

-- `list.filter(([n]) => n !== name)`
unfoldable pub without : Text → List Pair → List Pair
without name [] = []
without name ((n, v) ∷ list) =
    let rest = without name list in if same n name then rest else (n, v) ∷ rest

unfoldable pub delete : SearchParams → Text → SearchParams
delete p name = update_search_params (record p { list = without name p.list })

-- The value of the first pair that `find` finds, or null.
unfoldable pub find_value : Text → List Pair → Option Text
find_value name [] = none
find_value name ((n, v) ∷ list) =
    let rest = find_value name list in if same n name then some v else rest

unfoldable pub get : SearchParams → Text → Option Text
get p name = find_value name p.list

unfoldable pub values_of : Text → List Pair → List Text
values_of name [] = []
values_of name ((n, v) ∷ list) =
    let rest = values_of name list in if same n name then v ∷ rest else rest

unfoldable pub get_all : SearchParams → Text → List Text
get_all p name = values_of name p.list

unfoldable pub some_named : Text → List Pair → Bool
some_named name [] = false
some_named name ((n, v) ∷ list) = same n name || some_named name list

unfoldable pub has : SearchParams → Text → Bool
has p name = some_named name p.list

-- The variables of `set`: `this[kList]`, which the callback of `forEach` changes, and `remove`.
pub record SetLoop : Type 0 where
  pub list : List Pair
  pub remove : Bool

-- The callback for a pair at `i`.
unfoldable pub set_pair : Text → Text → ℕ → SetLoop → Pair → SetLoop
set_pair name value i s (n, v) =
    if not (same n name)
    then s
    else if s.remove
    then record s { list = remove_at s.list i }
    else record { list = set s.list i (n, value); remove = true }

-- The rounds of `forEach` from `i` on: their number is fixed by the length at the start, and an
-- index behind the end of the changed list is passed over.
unfoldable pub set_rounds : Text → Text → ℕ → ℕ → SetLoop → SetLoop
set_rounds name value zero i s = s
set_rounds name value (suc rounds) i s =
    set_rounds name value rounds (i + 1)
      (elim (get_elem? s.list i) [ none ↦ s | some p ↦ set_pair name value i s p ])

-- The list that `set` leaves.
unfoldable pub set_list : Text → Text → List Pair → List Pair
set_list name value list =
    let s = set_rounds name value (length list) 0 (record { list = list; remove = false }) in
    if s.remove then s.list else s.list ++ (name, value) ∷ []

unfoldable pub set_param : SearchParams → Text → Text → SearchParams
set_param p name value = update_search_params (record p { list = set_list name value p.list })

-- `decodeURIComponent` is the engine's and may throw: `none`.
abbrev spaced : Text → Text
spaced part = replace_char b'+' b' ' part

-- `[name, value] = bytes.split('=')`, or the whole as the name; `+` is a space.
unfoldable pub name_and_value : Text → Pair
name_and_value bytes =
    if lacks b'=' bytes
    then (spaced bytes, [])
    else (let parts = split b'=' bytes in (spaced (get_or parts 0 []), spaced (get_or parts 1 [])))

unfoldable pub decode_sequences : (Text → Option Text) → List Text → Option (List Pair)
decode_sequences decode [] = some []
decode_sequences decode ([] ∷ sequences) = decode_sequences decode sequences
decode_sequences decode (bytes ∷ sequences) = elim (decode (name_and_value bytes).0) [
  | none ↦ none
  | some name ↦ elim (decode (name_and_value bytes).1) [
    | none ↦ none
    | some value ↦ elim (decode_sequences decode sequences) [
      | none ↦ none
      | some output ↦ some ((name, value) ∷ output)
    ]
  ]
]

unfoldable pub parse_params : (Text → Option Text) → Text → Option (List Pair)
parse_params decode input = decode_sequences decode (split b'&' input)

-- The constructor for a string.
unfoldable pub search_params_of_string : (Text → Option Text) → Text → Option SearchParams
search_params_of_string decode init =
    elim (parse_params decode (if is_char (get_elem? init 0) b'?' then drop 1 init else init)) [
      | none ↦ none
      | some list ↦ some (record { list = list; url_object = none })
    ]

-- The third of three adjacent pairs with the name is left.
params_run :
    (encode_str (codes "a b/c") ≡ codes "a+b%2Fc")
    × (set_list
          (codes "a")
          (codes "0")
          ((codes "a", codes "1") ∷ (codes "a", codes "2") ∷ (codes "a", codes "3") ∷ [])
        ≡ (codes "a", codes "0") ∷ (codes "a", codes "3") ∷ [])
unfolding set_list set_rounds set_pair same encode_str encode_from finish flush kind_of no_escape
    param_hex_entry
params_run = (refl, refl)
