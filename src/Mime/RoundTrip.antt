-- ===== src/Mime/RoundTrip.antt =====
-- What `parse` of lib/mime.js reads back of a text that `MIMEStringify` printed.
use zero_archive.Prelude.{
  drop, same→eq, ap, ◌+◌, length, ◌&&◌, ◌++◌, ◌==◌, ◌∙◌, [], ◌∷◌, true, refl, arith, ◌≡◌, List,
  Bool, same, Text,
}
use zero_archive.Mime.{
  trim_right, is_token, trim_left, Entry, Mime, has_entry, print_entries, mime_stringify,
  parse_entries, parse, Outcome, returns, throws, out_of_fuel, collect, behind,
}
use zero_archive.Mime.Spans.{is_stopped, none_stops, collect-append, behind-append}
use zero_archive.Mime.Entries.{is_plain, all_new, is_stopped-print_entries}
use zero_archive.Mime.Skipped.{lacks_semicolon}
use zero_archive.Mime.Kept.{kept, entries_fit, parse_entries-print_entries}

-- A comma passes for a token code point in the source, and is none.
unfoldable pub lacks_comma : Text → Bool
lacks_comma t = none_stops (λ c. c == b',') t

unfoldable pub names_lack_comma : List Entry → Bool
names_lack_comma [] = true
names_lack_comma ((n, v) ∷ entries) = lacks_comma n && names_lack_comma entries

-- The type is a token, the subtype has no white space at either end, both are in lower case, and
-- they end at `/` and `;`.
unfoldable pub is_printable : (Text → Text) → Mime → Bool
is_printable lower m =
    same (lower []) []
    && is_token m.type
    && lacks_comma m.type
    && same (trim_right m.subtype) m.subtype
    && names_lack_comma m.parameters
    && none_stops (λ c. c == b'/') m.type
    && same (lower m.type) m.type
    && lacks_semicolon m.subtype
    && same (trim_left m.subtype) m.subtype
    && same (lower m.subtype) m.subtype
    && entries_fit lower m.parameters

-- The entries that follow one another are all unquoted, up to the last.
unfoldable pub all_plain_but_last : List Entry → Bool
all_plain_but_last [] = true
all_plain_but_last (e ∷ []) = true
all_plain_but_last ((n, v) ∷ e ∷ entries) = is_plain v && all_plain_but_last (e ∷ entries)

kept-all : (entries : List Entry) → all_plain_but_last entries ≡ true → kept entries ≡ entries
unfolding kept all_plain_but_last
kept-all [] h = refl
kept-all (e ∷ []) h = refl
kept-all ((n, v) ∷ e ∷ entries) h = ground (arith, kept-all (e ∷ entries))

record Printable (lower : Text → Text) (m : Mime) : Type 0 where
  no_letters : same (lower []) [] ≡ true
  type_ends : none_stops (λ c. c == b'/') m.type ≡ true
  type_lower : same (lower m.type) m.type ≡ true
  subtype_ends : lacks_semicolon m.subtype ≡ true
  subtype_trimmed : same (trim_left m.subtype) m.subtype ≡ true
  subtype_lower : same (lower m.subtype) m.subtype ≡ true
  fit : entries_fit lower m.parameters ≡ true

printable : (lower : Text → Text) (m : Mime) → is_printable lower m ≡ true → Printable lower m
unfolding is_printable
printable lower m h = ground arith

-- `parse` behind the loops over the type and the subtype.
abbrev read : (Text → Text) → Text → Text → Text → Outcome Mime
read lower type subtype tail = elim (parse_entries lower (length tail + 1) tail []) [
  | returns entries ↦ returns (record { type = type; subtype = subtype; parameters = entries })
  | throws ↦ throws
  | out_of_fuel ↦ out_of_fuel
]

read-cong :
    (lower : Text → Text) (type type' subtype subtype' tail tail' : Text)
    → type ≡ type'
    → subtype ≡ subtype'
    → tail ≡ tail'
    → read lower type subtype tail ≡ read lower type' subtype' tail'
read-cong lower type type' subtype subtype' tail tail' a b c = cc

all_new-nil : (entries : List Entry) → all_new [] entries ≡ true
unfolding all_new has_entry
all_new-nil [] = refl
all_new-nil ((n, v) ∷ entries) = all_new-nil entries

read-print_entries :
    (lower : Text → Text) (m : Mime)
    → same (lower []) [] ≡ true
    → entries_fit lower m.parameters ≡ true
    → read lower m.type m.subtype (print_entries m.parameters)
      ≡ returns (record m { parameters = kept m.parameters })
read-print_entries lower m l f =
    rw
      (
        parse_entries-print_entries lower l (length (print_entries m.parameters) + 1) m.parameters
            [] (omega arith) f (all_new-nil m.parameters),
        read,
      )
      refl

-- The text behind the `/`.
rest_of : Mime → Text
rest_of m = m.subtype ++ print_entries m.parameters

module _ (lower : Text → Text) (m : Mime) (f : Printable lower m) where
  type-printed : lower (collect (λ c. c == b'/') (m.type ++ b'/' ∷ rest_of m)) ≡ m.type
  unfolding is_stopped
  type-printed = cc (
    collect-append (λ c. c == b'/') m.type (b'/' ∷ rest_of m) f.type_ends refl,
    same→eq (lower m.type) m.type f.type_lower,
  )

  rest-printed : drop 1 (behind (λ c. c == b'/') (m.type ++ b'/' ∷ rest_of m)) ≡ rest_of m
  unfolding is_stopped
  rest-printed =
      ap (drop 1) (behind-append (λ c. c == b'/') m.type (b'/' ∷ rest_of m) f.type_ends refl)

  subtype-printed : lower (trim_left (collect (λ c. c == b';') (rest_of m))) ≡ m.subtype
  unfolding rest_of
  subtype-printed = cc (
    collect-append (λ c. c == b';') m.subtype (print_entries m.parameters) f.subtype_ends
        (is_stopped-print_entries m.parameters),
    same→eq (trim_left m.subtype) m.subtype f.subtype_trimmed,
    same→eq (lower m.subtype) m.subtype f.subtype_lower,
  )

  entries-printed : behind (λ c. c == b';') (rest_of m) ≡ print_entries m.parameters
  unfolding rest_of
  entries-printed =
      behind-append (λ c. c == b';') m.subtype (print_entries m.parameters) f.subtype_ends
        (is_stopped-print_entries m.parameters)

-- A record whose type is a lower case token, not empty and without `/` and commas, whose subtype is
-- in lower case, without `;` and without white space at its ends, whose names are distinct lower case
-- tokens without commas, and whose values can be quoted and have no `;` behind a quoted one, is
-- printed and read back with the entries that `kept` names: the entry behind a quoted one is lost,
-- and the others stand in their order.
pub parse-mime_stringify :
    (lower : Text → Text) (m : Mime)
    → is_printable lower m ≡ true
    → parse lower (mime_stringify m) ≡ returns (record m { parameters = kept m.parameters })
unfolding parse mime_stringify rest_of
parse-mime_stringify lower m h =
    let f = printable lower m h in
    let rest = rest-printed lower m f in
    read-cong lower _ m.type _ m.subtype _ (print_entries m.parameters) (type-printed lower m f)
      (ap (λ t. lower (trim_left (collect (λ c. c == b';') t))) rest ∙ subtype-printed lower m f)
      (ap (behind (λ c. c == b';')) rest ∙ entries-printed lower m f)
    ∙ read-print_entries lower m f.no_letters f.fit

-- A record that `is_printable` admits (its type a lower case token without `/` and commas, its subtype
-- in lower case, without `;` and without white space at its ends, its names distinct lower case tokens
-- without commas, its values such as can be quoted), in which no entry is behind a quoted one, is
-- printed and read back as it was.
pub parse-mime_stringify_plain :
    (lower : Text → Text) (m : Mime)
    → is_printable lower m ≡ true
    → all_plain_but_last m.parameters ≡ true
    → parse lower (mime_stringify m) ≡ returns m
parse-mime_stringify_plain lower m h p =
    parse-mime_stringify lower m h
    ∙ ap (λ entries. returns (record m { parameters = entries })) (kept-all m.parameters p)
