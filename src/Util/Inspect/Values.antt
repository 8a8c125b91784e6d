-- ===== src/Util/Inspect/Values.antt =====
-- The values that `inspect` of lib/util/inspect.js is given, which may refer to each other in circles,
-- its context, and the texts of strings and keys. An object is its place in a list; what reflection
-- tells of it (`getPrefix`, property descriptors, the entries of a collection) and the texts that the
-- engine makes (of numbers, symbols, dates, stacks) are its data. Objects with `kCustomInspect`, which
-- call other code, are left out.
use zero_archive.Prelude.{
  Text, List, ◌++◌, ◌∷◌, [], some, none, Option, ℕ, true, false, Bool, zero, suc, codes, ◌||◌, ◌&&◌,
  ltb, leb, ◌==◌, if◌then◌else◌, length, ◌+◌, ◌-◌,
}

-- The keys of `styles`, and `name`, which is none of them.
pub data Style : Type 0 where
  special bigint number boolean undefined null string symbol date regexp name : Style

-- `ansi[styles[styleName]]`
unfoldable pub ansi_of : Style → Option (Text × Text)
ansi_of special = some (codes "36", codes "39")
ansi_of bigint = some (codes "34", codes "39")
ansi_of number = some (codes "34", codes "39")
ansi_of boolean = some (codes "33", codes "39")
ansi_of undefined = some (codes "90", codes "39")
ansi_of null = some (codes "1", codes "22")
ansi_of string = some (codes "32", codes "39")
ansi_of symbol = some (codes "32", codes "39")
ansi_of date = some (codes "35", codes "39")
ansi_of regexp = some (codes "31", codes "39")
ansi_of name = none

-- `stylize`, with `stylizeWithColor` or without a change.
unfoldable pub stylize : Bool → Text → Style → Text
unfolding ansi_of
stylize false str style = str
stylize true str style = elim (ansi_of style) [
  | none ↦ str
  | some (start, end) ↦ 0x1b ∷ b'[' ∷ (start ++ b'm' ∷ (str ++ 0x1b ∷ b'[' ∷ (end ++ b'm' ∷ [])))
]

abbrev hex_digit : ℕ → ℕ
hex_digit n = if ltb n 10 then b'0' + n else b'a' + (n - 10)

-- `meta[s.charCodeAt(0)]`
unfoldable pub meta_of : ℕ → Text
meta_of c =
    if c == 0x08
    then codes "\\b"
    else if c == 0x09
    then codes "\\t"
    else if c == 0x0a
    then codes "\\n"
    else if c == 0x0c
    then codes "\\f"
    else if c == 0x0d
    then codes "\\r"
    else if c == b'\''
    then codes "\\'"
    else if c == 0x5c
    then 0x5c ∷ 0x5c ∷ []
    else if ltb c 0x10
    then codes "\\u000" ++ hex_digit c ∷ []
    else codes "\\u001" ++ hex_digit (c - 0x10) ∷ []

unfoldable pub needs_escape : ℕ → Bool
needs_escape c = ltb c 0x20 || c == b'\'' || c == 0x5c

unfoldable pub replace_all : Text → Text
replace_all [] = []
replace_all (c ∷ cs) = (if needs_escape c then meta_of c else c ∷ []) ++ replace_all cs

unfoldable pub any_escape : Text → Bool
any_escape [] = false
any_escape (c ∷ cs) = needs_escape c || any_escape cs

unfoldable pub str_escape : Text → Text
str_escape str =
    if ltb (length str) 5000 && (if any_escape str then false else true)
    then b'\'' ∷ (str ++ b'\'' ∷ [])
    else b'\'' ∷ (replace_all str ++ b'\'' ∷ [])

-- A primitive value has its text; an object is its place in the list of objects.
pub data Value : Type 0 where
  primitive : Text → Style → Value
  text : Text → Value
  object : ℕ → Value

pub data Descriptor : Type 0 where
  uninitialized : Descriptor
  value_of : Value → Descriptor
  accessor : Bool → Bool → Descriptor
  no_value : Descriptor

pub data PropertyKey : Type 0 where
  symbol_key string_key : Text → PropertyKey

-- A property that is not left out by `desc.enumerable === false`.
pub record Property : Type 0 where
  pub key : PropertyKey
  pub descriptor : Descriptor

-- `items` of an object with an iterator: of a map or not.
pub data Items : Type 0 where
  values : List Value → Items
  entries : List (Value × Value) → Items

pub data Object : Type 0 where
  text_object : Text → Style → Object
  proxy : Value → Value → Object
  pending : Object
  rejected fulfilled : Value → Object
  error : Text → Object
  function : Text → Text → Object
  iterable : Text → Bool → Items → Object
  plain : Text → List Property → Object

-- `options.ctx`; the last one seen is the first of the list.
pub record Context : Type 0 where
  pub seen : List ℕ
  pub indent : ℕ

abbrev pub new_context : Context
new_context = record { seen = []; indent = 1 }

unfoldable pub includes_object : ℕ → List ℕ → Bool
includes_object r [] = false
includes_object r (s ∷ seen) = r == s || includes_object r seen

abbrev pub push_seen : ℕ → Context → Context
push_seen r ctx = record ctx { seen = r ∷ ctx.seen }

abbrev pub tail : List ℕ → List ℕ
tail [] = []
tail (r ∷ seen) = seen

abbrev pub pop_seen : Context → Context
pop_seen ctx = record ctx { seen = tail ctx.seen }

-- What is made, and the context behind it; none is a recursion that is too deep.
abbrev pub Inspection : Type 0 → Type 0
Inspection A = Option (A × Context)

abbrev pub and_then : {A B : Type 0} → Inspection A → (A → Context → Inspection B) → Inspection B
and_then none f = none
and_then (some (a, ctx)) f = f a ctx

-- `parts.join(separator)`
unfoldable pub join_text : Text → List Text → Text
join_text separator [] = []
join_text separator (part ∷ []) = part
join_text separator (part ∷ next ∷ parts) = part ++ separator ++ join_text separator (next ∷ parts)

unfoldable pub has_line_feed : Text → Bool
has_line_feed [] = false
has_line_feed (c ∷ cs) = c == 0x0a || has_line_feed cs

-- `s.split('\n').join('\n  ')`
unfoldable pub indent_lines : Text → Text
indent_lines [] = []
indent_lines (c ∷ cs) =
    let rest = indent_lines cs in if c == 0x0a then 0x0a ∷ b' ' ∷ b' ' ∷ rest else c ∷ rest

-- `'  '.repeat(n)`
unfoldable pub spaces : ℕ → Text
spaces zero = []
spaces (suc n) = b' ' ∷ b' ' ∷ spaces n

-- `keyStrRegExp`
abbrev is_key_start : ℕ → Bool
is_key_start c = (leb b'a' c && leb c b'z') || (leb b'A' c && leb c b'Z') || c == b'_'

unfoldable pub is_key_rest : Text → Bool
is_key_rest [] = true
is_key_rest (c ∷ cs) = (is_key_start c || (leb b'0' c && leb c b'9')) && is_key_rest cs

abbrev pub is_key : Text → Bool
is_key [] = false
is_key (c ∷ cs) = is_key_start c && is_key_rest cs
