-- ===== src/Fetch/Headers.antt =====
-- The class Headers of lib/whatwg/fetch.js. `headers[kHeaders]` is the list of its keys and their
-- arrays, which no two objects share; its order is not seen, since `getHeaderList` sorts. `none` is a
-- TypeError.
pub mod Keys
pub mod Refines
pub mod Copies
pub mod Answers
pub mod Iterator
pub mod Walk
use zero_archive.Prelude.{
  false, zero, suc, refl, arith, inl, inr, ◌≡◌, ◌<◌, ◌≤◌, is_some, same, ◌+◌, ◌||◌, if◌then◌else◌,
  ◌&&◌, ◌==◌, leb, Text, List, ◌++◌, ◌∷◌, [], some, none, Option, ℕ, true, Bool,
}

-- `invalidTokenRegex`, the other way round.
unfoldable pub is_token_char : ℕ → Bool
is_token_char c =
    (leb b'^' c && leb c b'z')
    || (leb b'A' c && leb c b'Z')
    || (leb b'0' c && leb c b'9')
    || (leb b'#' c && leb c b'\'')
    || c == b'!'
    || c == b'*'
    || c == b'+'
    || c == b'-'
    || c == b'.'
    || c == b'|'
    || c == b'~'

-- `invalidHeaderCharRegex`, the other way round.
unfoldable pub is_value_char : ℕ → Bool
is_value_char c = c == 0x09 || (leb 0x20 c && leb c 0x7e) || (leb 0x80 c && leb c 0xff)

-- `validateHeaderName` and `validateHeaderValue` do not throw.
unfoldable pub is_header_name : Text → Bool
is_header_name [] = true
is_header_name (c ∷ name) = is_token_char c && is_header_name name

unfoldable pub is_header_value : Text → Bool
is_header_value [] = true
is_header_value (c ∷ value) = is_value_char c && is_header_value value

-- `toLowerCase`, of names that are valid, so that there are no characters outside of ASCII.
unfoldable pub to_lower_case : Text → Text
to_lower_case [] = []
to_lower_case (c ∷ cs) = (if leb b'A' c && leb c b'Z' then c + 0x20 else c) ∷ to_lower_case cs

-- A key and its array.
pub record Header : Type 0 where
  pub name : Text
  pub values : List Text

-- The loop of `find`, behind its `toLowerCase`.
unfoldable pub find_key : List Header → Text → Option Text
find_key [] name = none
find_key (h ∷ headers) name =
    let later = find_key headers name in
    if same (to_lower_case h.name) name then some h.name else later

unfoldable pub find : List Header → Text → Option Text
find headers name = find_key headers (to_lower_case name)

-- `map[key]`, `map[key] = values` and `delete map[key]`.
unfoldable pub values_at : List Header → Text → List Text
values_at [] key = []
values_at (h ∷ headers) key =
    let later = values_at headers key in if same h.name key then h.values else later

unfoldable pub put : List Header → Text → List Text → List Header
put [] key values = record { name = key; values = values } ∷ []
put (h ∷ headers) key values =
    let later = put headers key values in
    if same h.name key then record { name = h.name; values = values } ∷ headers else h ∷ later

unfoldable pub remove : List Header → Text → List Header
remove [] key = []
remove (h ∷ headers) key =
    let later = remove headers key in if same h.name key then headers else h ∷ later

-- `values.join(', ')`
unfoldable pub join_values : List Text → Text
join_values [] = []
join_values (value ∷ []) = value
join_values (value ∷ next ∷ values) = value ++ b',' ∷ b' ' ∷ join_values (next ∷ values)

-- `get`; the inner `none` is null.
unfoldable pub get_header : List Header → Text → Option (Option Text)
get_header headers name =
    if is_header_name name
    then elim (find headers name) [
      | none ↦ some none
      | some key ↦ some (some (join_values (values_at headers key)))
    ]
    else none

unfoldable pub set_header : List Header → Text → Text → Option (List Header)
set_header headers name value =
    if is_header_name name && is_header_value value
    then elim (find headers name) [
      | none ↦ some (put headers name (value ∷ []))
      | some key ↦ some (put headers key (value ∷ []))
    ]
    else none

unfoldable pub append_header : List Header → Text → Text → Option (List Header)
append_header headers name value =
    if is_header_name name && is_header_value value
    then elim (find headers name) [
      | none ↦ some (put headers name (value ∷ []))
      | some key ↦ some (put headers key (values_at headers key ++ value ∷ []))
    ]
    else none

unfoldable pub has_header : List Header → Text → Option Bool
has_header headers name = if is_header_name name then some (is_some (find headers name)) else none

unfoldable pub delete_header : List Header → Text → Option (List Header)
delete_header headers name =
    if is_header_name name
    then elim (find headers name) [ none ↦ some headers | some key ↦ some (remove headers key) ]
    else none

-- The loops over `pairs` and over the keys of an object in the constructor.
unfoldable pub append_pairs : List Header → List (List Text) → Option (List Header)
append_pairs headers [] = some headers
append_pairs headers ((name ∷ value ∷ []) ∷ pairs) = elim (append_header headers name value) [
  | none ↦ none
  | some headers' ↦ append_pairs headers' pairs
]
append_pairs headers (pair ∷ pairs) = none

-- The constructor, for an iterable of arrays of strings, an object (its pairs), and no argument (no
-- pairs).
unfoldable pub new_headers : List (List Text) → Option (List Header)
new_headers pairs = append_pairs [] pairs

-- The constructor, for a Headers object.
unfoldable pub copy_keys : List Header → List Header → List Header
copy_keys headers [] = headers
copy_keys headers (h ∷ others) = copy_keys (put headers h.name h.values) others

unfoldable pub copy_headers : List Header → List Header
copy_headers init = copy_keys [] init

-- The calls that change headers; one that throws leaves them.
pub data HeaderCall : Type 0 where
  set_call : Text → Text → HeaderCall
  append_call : Text → Text → HeaderCall
  delete_call : Text → HeaderCall

unfoldable pub call_header : HeaderCall → List Header → Option (List Header)
call_header (set_call name value) headers = set_header headers name value
call_header (append_call name value) headers = append_header headers name value
call_header (delete_call name) headers = delete_header headers name

abbrev pub changed : Option (List Header) → List Header → List Header
changed none headers = headers
changed (some headers') headers = headers'

unfoldable pub call_all : List HeaderCall → List Header → List Header
call_all [] headers = headers
call_all (call ∷ calls) headers = call_all calls (changed (call_header call headers) headers)
