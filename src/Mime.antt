-- ===== src/Mime.antt =====
-- lib/mime.js: the parser of a MIME type, its parameters, the class MIME and its printing.
pub mod Spans
pub mod Entries
pub mod Skipped
pub mod Kept
pub mod RoundTrip
pub mod Valid
pub mod Lookup
use zero_archive.Prelude.{
  ◌+◌, length, drop, if◌then◌else◌, not, same, ◌&&◌, ◌++◌, ◌||◌, Text, leb, ◌==◌, some, [], ◌∷◌,
  true, false, zero, suc, refl, arith, inl, inr, ◌≡◌, ◌<◌, ◌≤◌, Bool, Option, List, ℕ, none,
}

-- The white space and line ends that `trimLeft` removes.
unfoldable pub is_white_space : ℕ → Bool
is_white_space c =
    (leb 9 c && leb c 13)
    || c == 0x20
    || c == 0xa0
    || c == 0x1680
    || (leb 0x2000 c && leb c 0x200a)
    || c == 0x2028
    || c == 0x2029
    || c == 0x202f
    || c == 0x205f
    || c == 0x3000
    || c == 0xfeff

unfoldable pub trim_left : Text → Text
trim_left [] = []
trim_left (c ∷ cs) = let rest = trim_left cs in if is_white_space c then rest else c ∷ cs

-- `trimRight`
unfoldable pub trim_right : Text → Text
trim_right [] = []
trim_right (c ∷ cs) = elim (trim_right cs) [
  | [] ↦ if is_white_space c then [] else c ∷ []
  | d ∷ ds ↦ c ∷ d ∷ ds
]

-- A character that `NotHTTPTokenCodePoint` does not match. Its `+-.` is a range.
unfoldable pub is_token_code_point : ℕ → Bool
is_token_code_point c =
    c == b'!'
    || (leb b'#' c && leb c 0x27)
    || c == b'*'
    || (leb b'+' c && leb c b'.')
    || c == b'^'
    || c == b'_'
    || c == b'`'
    || c == b'|'
    || c == b'~'
    || (leb b'A' c && leb c b'Z')
    || (leb b'a' c && leb c b'z')
    || (leb b'0' c && leb c b'9')

-- A character that `NotHTTPQuotedStringCodePoint` does not match.
unfoldable pub is_quoted_code_point : ℕ → Bool
is_quoted_code_point c = c == 9 || (leb 0x20 c && leb c b'~') || (leb 0x80 c && leb c 0xff)

-- `test` with the pattern that matches the other characters is the negation of this.
unfoldable pub all_chars : (ℕ → Bool) → Text → Bool
all_chars fits [] = true
all_chars fits (c ∷ cs) = fits c && all_chars fits cs

abbrev pub is_empty : Text → Bool
is_empty [] = true
is_empty (c ∷ cs) = false

abbrev pub Entry : Type 0
Entry = Text × Text

-- The class MIMEParams: the entries of its Map, in the order of their insertion.
unfoldable pub has_entry : Text → List Entry → Bool
has_entry name [] = false
has_entry name ((n, v) ∷ entries) = same n name || has_entry name entries

-- `get`; `none` is null.
unfoldable pub get_entry : Text → List Entry → Option Text
get_entry name [] = none
get_entry name ((n, v) ∷ entries) =
    let rest = get_entry name entries in if same n name then some v else rest

-- `delete`
unfoldable pub delete_entry : Text → List Entry → List Entry
delete_entry name [] = []
delete_entry name ((n, v) ∷ entries) =
    let rest = delete_entry name entries in if same n name then entries else (n, v) ∷ rest

-- `Map.prototype.set`: a new name comes last.
unfoldable pub store : Text → Text → List Entry → List Entry
store name value [] = (name, value) ∷ []
store name value ((n, v) ∷ entries) =
    let rest = store name value entries in
    if same n name then (n, value) ∷ entries else (n, v) ∷ rest

unfoldable pub is_token : Text → Bool
is_token name = not (is_empty name) && all_chars is_token_code_point name

unfoldable pub is_value : Text → Bool
is_value value = not (is_empty value) && all_chars is_quoted_code_point value

-- `set` of MIMEParams; `none` is its Error.
unfoldable pub set_entry : Text → Text → List Entry → Option (List Entry)
unfolding store is_token is_value
set_entry name value entries =
    if not (is_token (trim_left name)) || not (is_value value)
    then none
    else some (store (trim_left name) value entries)

-- `escaped`: a backslash goes before every `"` and `\`.
unfoldable pub escape : Text → Text
escape [] = []
escape (c ∷ cs) =
    let rest = escape cs in if c == b'"' || c == 0x5c then 0x5c ∷ c ∷ rest else c ∷ rest

unfoldable pub encode : Text → Text
unfolding escape
encode value =
    if all_chars is_token_code_point value then value else b'"' ∷ (escape value ++ b'"' ∷ [])

pub record Mime : Type 0 where
  pub type : Text
  pub subtype : Text
  pub parameters : List Entry

-- The loop of `MIMEStringify`.
unfoldable pub print_entries : List Entry → Text
unfolding encode
print_entries [] = []
print_entries ((key, value) ∷ entries) =
    b';' ∷ (key ++ b'=' ∷ (encode value ++ print_entries entries))

unfoldable pub mime_stringify : Mime → Text
unfolding print_entries
mime_stringify m = m.type ++ b'/' ∷ (m.subtype ++ print_entries m.parameters)

-- A loop that takes characters up to one that `stops` or to the end: what it takes, and the text
-- from the place where it ends.
unfoldable pub collect : (ℕ → Bool) → Text → Text
collect stops [] = []
collect stops (c ∷ cs) = let rest = collect stops cs in if stops c then [] else c ∷ rest

unfoldable pub behind : (ℕ → Bool) → Text → Text
behind stops [] = []
behind stops (c ∷ cs) = let rest = behind stops cs in if stops c then c ∷ cs else rest

-- The value of a quoted string behind its first `"`, and the text from the place where the loop
-- ends: its last `"` is not passed.
unfoldable pub quoted : Text → Text × Text
quoted [] = ([], [])
quoted (c ∷ []) =
    if c == b'"' then ([], c ∷ []) else if c == 0x5c then (0x5c ∷ [], []) else (c ∷ [], [])
quoted (c ∷ d ∷ cs) =
    let escaped = quoted cs in
    let plain = quoted (d ∷ cs) in
    if c == b'"'
    then ([], c ∷ d ∷ cs)
    else if c == 0x5c
    then (d ∷ escaped.0, escaped.1)
    else (c ∷ plain.0, plain.1)

abbrev pub is_name_end : ℕ → Bool
is_name_end c = c == b';' || c == b'='

-- `parameterValue`, and the text behind it.
unfoldable pub parameter_value : Text → Text × Text
unfolding quoted collect behind
parameter_value [] = ([], [])
parameter_value (c ∷ cs) =
    if c == b'"'
    then quoted cs
    else (collect (λ d. d == b';') (c ∷ cs), behind (λ d. d == b';') (c ∷ cs))

-- The end of a round: the entry is set if there is a name and a value and the name is new.
unfoldable pub add_entry : Text → Text → List Entry → Option (List Entry)
unfolding set_entry has_entry
add_entry name value entries =
    if not (is_empty name) && not (is_empty value) && not (has_entry name entries)
    then set_entry name value entries
    else some entries

-- What `parse` returns, the Error of a parameter, or that the fuel of the model is used up.
pub data Outcome (A : Type 0) : Type 0 where
  returns : A → Outcome A
  throws : Outcome A
  out_of_fuel : Outcome A

-- `toLowerCase` is the engine's.
module _ (lower : Text → Text) where
  abbrev pub name_of : Text → Text
  name_of cs = lower (collect is_name_end cs)

  abbrev pub value_of : Text → Text × Text
  value_of cs = parameter_value (drop 1 (behind is_name_end cs))

  -- The outer loop; a round starts at the separator, which it passes.
  unfoldable pub parse_entries : ℕ → Text → List Entry → Outcome (List Entry)
  unfolding add_entry collect behind parameter_value
  parse_entries zero input entries = out_of_fuel
  parse_entries (suc fuel) [] entries = returns entries
  parse_entries (suc fuel) (separator ∷ input) entries =
      elim (add_entry (name_of input) (value_of input).0 entries) [
        | none ↦ throws
        | some entries' ↦ parse_entries fuel (value_of input).1 entries'
      ]

  -- `parse`, with a round for each character and one for the end.
  unfoldable pub parse : Text → Outcome Mime
  unfolding parse_entries
  parse input =
      let rest = drop 1 (behind (λ c. c == b'/') input) in
      let tail = behind (λ c. c == b';') rest in
      elim (parse_entries (length tail + 1) tail []) [
        | returns entries ↦ returns (record {
          type = lower (collect (λ c. c == b'/') input);
          subtype = lower (trim_left (collect (λ c. c == b';') rest));
          parameters = entries;
        })
        | throws ↦ throws
        | out_of_fuel ↦ out_of_fuel
      ]

-- The setters of `type` and `subtype`; `none` is their Error.
unfoldable pub set_type : Mime → Text → Option Mime
unfolding is_token
set_type m v = if is_token (trim_left v) then some (record m { type = trim_left v }) else none

unfoldable pub set_subtype : Mime → Text → Option Mime
unfolding is_token trim_right
set_subtype m v =
    if is_token (trim_right v) then some (record m { subtype = trim_right v }) else none
