-- ===== src/Mime/Entries.antt =====
-- The entries of a printed MIME type, read one by one by `parse` of lib/mime.js.
use zero_archive.Prelude.{
  none, same→eq, if◌then◌else◌, ◌∙◌, suc, ◌||◌, same, ◌&&◌, ◌++◌, ◌==◌, Text, not, some, [], ◌∷◌,
  true, false, refl, arith, ◌≡◌, Bool, List,
}
use mathlib.Core.List.{append_assoc}
use zero_archive.Mime.{
  throws, Outcome, Option, name_of, ℕ, value_of, print_entries, parse_entries, all_chars, escape,
  encode, parameter_value, is_token_code_point, is_empty, is_value, is_token, Entry, has_entry,
  store, set_entry, add_entry, quoted,
}
use zero_archive.Mime.Spans.{
  collect-name, behind-name, is_stopped, trim_left-token, quoted-escape, parameter_value-token,
}

-- No entry has the name.
unfoldable pub apart : Text → List Entry → Bool
apart name [] = true
apart name ((n, v) ∷ entries) = not (same name n) && apart name entries

-- No name of the second list is in the first.
unfoldable pub all_new : List Entry → List Entry → Bool
all_new entries [] = true
all_new entries ((n, v) ∷ more) = not (has_entry n entries) && all_new entries more

has_entry-concat :
    (name n v : Text) (entries : List Entry)
    → has_entry name (entries ++ (n, v) ∷ []) ≡ (has_entry name entries || same n name)
unfolding has_entry
has_entry-concat name n v [] = ground arith
has_entry-concat name n v ((m, w) ∷ entries) = ground (arith, has_entry-concat name n v entries)

pub all_new-concat :
    (entries more : List Entry) (n v : Text)
    → all_new entries more ≡ true
    → apart n more ≡ true
    → all_new (entries ++ (n, v) ∷ []) more ≡ true
unfolding all_new apart
all_new-concat entries [] n v h e = refl
all_new-concat entries ((m, w) ∷ more) n v h e =
    ground (arith, has_entry-concat m n v entries, all_new-concat entries more n v)

store-new :
    (name value : Text) (entries : List Entry)
    → has_entry name entries ≡ false
    → store name value entries ≡ entries ++ (name, value) ∷ []
unfolding store has_entry
store-new name value [] h = refl
store-new name value ((n, v) ∷ entries) h = ground (arith, store-new name value entries)

is_token-is_empty : (name : Text) → is_token name ≡ true → is_empty name ≡ false
unfolding is_token
is_token-is_empty name h = ground arith

is_value-is_empty : (value : Text) → is_value value ≡ true → is_empty value ≡ false
unfolding is_value
is_value-is_empty value h = ground arith

set_entry-new :
    (name value : Text) (entries : List Entry)
    → is_token name ≡ true
    → is_value value ≡ true
    → has_entry name entries ≡ false
    → set_entry name value entries ≡ some (entries ++ (name, value) ∷ [])
unfolding set_entry
set_entry-new name value entries t v h =
    simp (trim_left-token name t, t, v, store-new name value entries h) refl

add_entry-sets :
    (name value : Text) (entries : List Entry)
    → is_empty name ≡ false
    → is_empty value ≡ false
    → has_entry name entries ≡ false
    → add_entry name value entries ≡ set_entry name value entries
unfolding add_entry
add_entry-sets name value entries n v h = simp (n, v, h) refl

pub add_entry-new :
    (name value : Text) (entries : List Entry)
    → is_token name ≡ true
    → is_value value ≡ true
    → has_entry name entries ≡ false
    → add_entry name value entries ≡ some (entries ++ (name, value) ∷ [])
add_entry-new name value entries t v h =
    add_entry-sets name value entries (is_token-is_empty name t) (is_value-is_empty value v) h
    ∙ set_entry-new name value entries t v h

-- Whether `encode` leaves the value as it is.
abbrev pub is_plain : Text → Bool
is_plain value = all_chars is_token_code_point value

encode-plain : (value : Text) → is_plain value ≡ true → encode value ≡ value
unfolding encode
encode-plain value h = ground arith

encode-quoted :
    (value : Text) → is_plain value ≡ false → encode value ≡ b'"' ∷ (escape value ++ b'"' ∷ [])
unfolding encode
encode-quoted value h = ground arith

parameter_value-quote : (cs : Text) → parameter_value (b'"' ∷ cs) ≡ quoted cs
unfolding parameter_value
parameter_value-quote cs = refl

pub parameter_value-encode_quoted :
    (value rest : Text)
    → is_plain value ≡ false
    → parameter_value (encode value ++ rest) ≡ (value, b'"' ∷ rest)
parameter_value-encode_quoted value rest h = cc (
  encode-quoted value h,
  parameter_value-quote ((escape value ++ b'"' ∷ []) ++ rest),
  append_assoc (escape value) (b'"' ∷ []) rest,
  quoted-escape value rest,
)

pub parameter_value-encode_plain :
    (value rest : Text)
    → is_plain value ≡ true
    → is_empty value ≡ false
    → is_stopped (λ d. d == b';') rest ≡ true
    → parameter_value (encode value ++ rest) ≡ (value, rest)
parameter_value-encode_plain value rest h n e =
    cc (encode-plain value h, parameter_value-token value rest n h e)

pub is_token-all : (name : Text) → is_token name ≡ true → all_chars is_token_code_point name ≡ true
unfolding is_token
is_token-all name h = ground arith

-- What follows an entry: nothing, or the next entry.
pub is_stopped-print_entries :
    (entries : List Entry) → is_stopped (λ d. d == b';') (print_entries entries) ≡ true
unfolding is_stopped print_entries
is_stopped-print_entries [] = refl
is_stopped-print_entries ((k, v) ∷ entries) = refl

-- The text behind the value of a printed entry: a quotation mark is left.
abbrev pub left_over : Text → Text → Text
left_over value rest = if is_plain value then rest else b'"' ∷ rest

parameter_value-encode :
    (value : Text) (entries : List Entry)
    → is_value value ≡ true
    → parameter_value (encode value ++ print_entries entries)
      ≡ (value, left_over value (print_entries entries))
parameter_value-encode value entries v = by_test (is_plain value) refl
  where
    by_test :
        (b : Bool)
        → is_plain value ≡ b
        → parameter_value (encode value ++ print_entries entries)
          ≡ (value, if b then print_entries entries else b'"' ∷ print_entries entries)
    by_test true h =
        parameter_value-encode_plain value (print_entries entries) h (is_value-is_empty value v)
          (is_stopped-print_entries entries)
    by_test false h = parameter_value-encode_quoted value (print_entries entries) h

module _ (lower : Text → Text) where
  -- The name is in lower case and made of token characters, and the value can be quoted.
  unfoldable pub entry_fits : Text → Text → Bool
  entry_fits name value = same (lower name) name && is_token name && is_value value

  value_of-entry :
      (name value : Text) (entries : List Entry)
      → is_token name ≡ true
      → is_value value ≡ true
      → value_of lower (name ++ b'=' ∷ (encode value ++ print_entries entries))
        ≡ (value, left_over value (print_entries entries))
  value_of-entry name value entries t v = cc (
    behind-name name (encode value ++ print_entries entries) (is_token-all name t),
    parameter_value-encode value entries v,
  )

  name_of-entry :
      (name rest : Text)
      → is_token name ≡ true
      → same (lower name) name ≡ true
      → name_of lower (name ++ b'=' ∷ rest) ≡ name
  name_of-entry name rest t l =
      cc (collect-name name rest (is_token-all name t), same→eq (lower name) name l)

  -- The rest of the loop behind `add_entry`.
  abbrev resume : ℕ → Option (List Entry) → Text → Outcome (List Entry)
  resume fuel o rest = elim o [
    | none ↦ throws
    | some entries ↦ parse_entries lower fuel rest entries
  ]

  resume-cong :
      (fuel : ℕ) (o o' : Option (List Entry)) (rest rest' : Text)
      → o ≡ o'
      → rest ≡ rest'
      → resume fuel o rest ≡ resume fuel o' rest'
  resume-cong fuel o o' rest rest' e r = cc

  pub parse_entries-round :
      (fuel separator : ℕ) (input name value rest : Text) (entries entries' : List Entry)
      → name_of lower input ≡ name
      → value_of lower input ≡ (value, rest)
      → add_entry name value entries ≡ some entries'
      → parse_entries lower (suc fuel) (separator ∷ input) entries
        ≡ parse_entries lower fuel rest entries'
  unfolding parse_entries
  parse_entries-round fuel separator input name value rest entries entries' n v a =
      resume-cong fuel (add_entry (name_of lower input) (value_of lower input).0 entries)
        (some entries') (value_of lower input).1 rest (cc (n, v, a)) (cc v)

  -- One round reads a printed entry.
  pub parse_entries-entry :
      (fuel : ℕ) (name value : Text) (entries more : List Entry)
      → entry_fits name value ≡ true
      → has_entry name entries ≡ false
      → parse_entries lower (suc fuel) (print_entries ((name, value) ∷ more)) entries
        ≡ parse_entries lower fuel
            (left_over value (print_entries more))
            (entries ++ (name, value) ∷ [])
  unfolding print_entries entry_fits
  parse_entries-entry fuel name value entries more f h =
      parse_entries-round fuel b';' (name ++ b'=' ∷ (encode value ++ print_entries more)) name value
        _ entries _
        (name_of-entry name (encode value ++ print_entries more) (ground arith) (ground arith))
        (value_of-entry name value more (ground arith) (ground arith))
        (add_entry-new name value entries (ground arith) (ground arith) h)
