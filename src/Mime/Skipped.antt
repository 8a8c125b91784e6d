-- ===== src/Mime/Skipped.antt =====
-- The round of `parse` of lib/mime.js that starts at the last quotation mark of a value.
use zero_archive.Prelude.{
  same, Text, ap, ◌∙◌, same→eq, ◌++◌, ◌==◌, some, [], ◌∷◌, true, suc, refl, arith, ◌≡◌, Bool, List,
  ℕ,
}
use mathlib.Core.List.{append_assoc}
use zero_archive.Mime.{
  collect, all_chars, escape, encode, parameter_value, is_token_code_point, is_token, Entry,
  add_entry, print_entries, parse_entries, name_of, returns, behind,
}
use zero_archive.Mime.Spans.{
  all_chars-head, token-is_quote, parameter_value-unquoted, token-is_semicolon, is_stopped,
  none_stops, behind-append, all_chars→none_stops,
}
use zero_archive.Mime.Entries.{is_stopped-print_entries, is_token-all, parse_entries-round}

-- No `;` is in the text.
abbrev pub lacks_semicolon : Text → Bool
lacks_semicolon t = none_stops (λ d. d == b';') t

none_stops-append :
    (stops : ℕ → Bool) (s t : Text)
    → none_stops stops s ≡ true
    → none_stops stops t ≡ true
    → none_stops stops (s ++ t) ≡ true
unfolding none_stops
none_stops-append stops [] t h e = e
none_stops-append stops (c ∷ s) t h e = ground (arith, none_stops-append stops s t)

lacks_semicolon-escape : (t : Text) → lacks_semicolon t ≡ true → lacks_semicolon (escape t) ≡ true
unfolding escape none_stops
lacks_semicolon-escape [] h = refl
lacks_semicolon-escape (c ∷ t) h = ground (arith, lacks_semicolon-escape t)

lacks_semicolon-quote :
    (t : Text) → lacks_semicolon t ≡ true → lacks_semicolon (b'"' ∷ (t ++ b'"' ∷ [])) ≡ true
unfolding none_stops
lacks_semicolon-quote t h = none_stops-append (λ d. d == b';') t (b'"' ∷ []) h refl

lacks_semicolon-encode : (t : Text) → lacks_semicolon t ≡ true → lacks_semicolon (encode t) ≡ true
unfolding encode
lacks_semicolon-encode t h =
    ground (arith, lacks_semicolon-quote (escape t) (lacks_semicolon-escape t h))

lacks_semicolon-token :
    (t : Text) → all_chars is_token_code_point t ≡ true → lacks_semicolon t ≡ true
lacks_semicolon-token t h =
    all_chars→none_stops is_token_code_point (λ d. d == b';') t token-is_semicolon h

-- The text of an entry behind its `;`.
abbrev entry_text : Text → Text → Text
entry_text name value = name ++ b'=' ∷ encode value

lacks_semicolon-entry_text :
    (name value : Text)
    → is_token name ≡ true
    → lacks_semicolon value ≡ true
    → lacks_semicolon (entry_text name value) ≡ true
unfolding none_stops
lacks_semicolon-entry_text name value t v =
    none_stops-append (λ d. d == b';') name (b'=' ∷ encode value)
      (lacks_semicolon-token name (is_token-all name t)) (lacks_semicolon-encode value v)

is_token-nil : ¬ (is_token [] ≡ true)
unfolding is_token
is_token-nil h = absurd cc

-- Where a value is read at the start of an entry, the whole entry is the value.
parameter_value-entry_text :
    (name value rest : Text)
    → is_token name ≡ true
    → lacks_semicolon value ≡ true
    → is_stopped (λ d. d == b';') rest ≡ true
    → (parameter_value (entry_text name value ++ rest)).1 ≡ rest
parameter_value-entry_text [] value rest t v e = absurd (is_token-nil t)
parameter_value-entry_text (c ∷ cs) value rest t v e = cc (
  parameter_value-unquoted c ((cs ++ b'=' ∷ encode value) ++ rest)
      (token-is_quote c (all_chars-head is_token_code_point c cs (is_token-all (c ∷ cs) t))),
  behind-append (λ d. d == b';') (entry_text (c ∷ cs) value) rest
      (lacks_semicolon-entry_text (c ∷ cs) value t v) e,
)

add_entry-no_name :
    (value : Text) (entries : List Entry) → add_entry [] value entries ≡ some entries
unfolding add_entry
add_entry-no_name value entries = refl

add_entry-no_value : (name : Text) (entries : List Entry) → add_entry name [] entries ≡ some entries
unfolding add_entry
add_entry-no_value name entries = ground arith

module _ (lower : Text → Text) where
  -- At the end of the input the quotation mark is passed.
  pub parse_entries-last_mark :
      (fuel : ℕ) (entries : List Entry)
      → parse_entries lower (suc (suc fuel)) (b'"' ∷ []) entries ≡ returns entries
  unfolding parse_entries behind parameter_value
  parse_entries-last_mark fuel entries =
      parse_entries-round lower (suc fuel) b'"' [] (name_of lower []) [] [] entries entries refl
        refl (add_entry-no_value (name_of lower []) entries)

  mark-round :
      (fuel : ℕ) (input : Text) (entries : List Entry)
      → same (lower []) [] ≡ true
      → parse_entries lower (suc fuel) (b'"' ∷ b';' ∷ input) entries
        ≡ parse_entries lower fuel (parameter_value input).1 entries
  unfolding behind collect
  mark-round fuel input entries l =
      parse_entries-round lower fuel b'"' (b';' ∷ input) [] (parameter_value input).0
        (parameter_value input).1 entries entries (same→eq (lower []) [] l) refl
        (add_entry-no_name (parameter_value input).0 entries)

  -- The entry behind the quotation mark is passed as the value of no name.
  pub parse_entries-mark :
      (fuel : ℕ) (name value : Text) (entries more : List Entry)
      → same (lower []) [] ≡ true
      → is_token name ≡ true
      → lacks_semicolon value ≡ true
      → parse_entries lower (suc fuel) (b'"' ∷ print_entries ((name, value) ∷ more)) entries
        ≡ parse_entries lower fuel (print_entries more) entries
  unfolding print_entries
  parse_entries-mark fuel name value entries more l t v =
      mark-round fuel (name ++ b'=' ∷ (encode value ++ print_entries more)) entries l
      ∙ ap (λ rest. parse_entries lower fuel rest entries)
          (cc (
            append_assoc name (b'=' ∷ encode value) (print_entries more),
            parameter_value-entry_text name value (print_entries more) t v
                (is_stopped-print_entries more),
          ))
