-- ===== src/Mime/Valid.antt =====
-- The records that `parse` of lib/mime.js returns, and that it ends.
use zero_archive.Prelude.{
  ◌+◌, none, some, ◌<◌, Option, ◌&&◌, ◌==◌, [], ◌∷◌, false, zero, suc, refl, arith, ◌≡◌, ◌≤◌, drop,
  length, true, List, Bool, Text, same, ℕ,
}
use zero_archive.Mime.{
  name_of, out_of_fuel, throws, returns, parse, Mime, is_name_end, trim_left, set_entry, Outcome,
  add_entry, parse_entries, value_of, is_token, is_value, Entry, store, quoted, parameter_value,
  behind,
}
use zero_archive.Mime.Entries.{apart}

length-behind : (stops : ℕ → Bool) (t : Text) → length (behind stops t) ≤ length t
unfolding behind
length-behind stops [] = omega arith
length-behind stops (c ∷ cs) = ground (arith, length-behind stops cs)

length-drop : (n : ℕ) (t : Text) → length (drop n t) ≤ length t
length-drop zero t = omega arith
length-drop (suc n) [] = omega arith
length-drop (suc n) (c ∷ cs) = omega (arith, length-drop n cs)

length-quoted : (t : Text) → length (quoted t).1 ≤ length t
unfolding quoted
length-quoted [] = omega arith
length-quoted (c ∷ []) = ground arith
length-quoted (c ∷ d ∷ cs) = ground (arith, length-quoted cs, length-quoted (d ∷ cs))

length-parameter_value : (t : Text) → length (parameter_value t).1 ≤ length t
unfolding parameter_value
length-parameter_value [] = omega arith
length-parameter_value (c ∷ cs) =
    ground (arith, length-quoted cs, length-behind (λ d. d == b';') (c ∷ cs))

-- Names are tokens, no two the same, and values can be quoted.
unfoldable pub are_valid : List Entry → Bool
are_valid [] = true
are_valid ((n, v) ∷ entries) = is_token n && is_value v && apart n entries && are_valid entries

apart-store :
    (m name value : Text) (entries : List Entry)
    → apart m entries ≡ true
    → same m name ≡ false
    → apart m (store name value entries) ≡ true
unfolding apart store
apart-store m name value [] a e = ground arith
apart-store m name value ((n, v) ∷ entries) a e = ground (arith, apart-store m name value entries)

are_valid-store :
    (name value : Text) (entries : List Entry)
    → is_token name ≡ true
    → is_value value ≡ true
    → are_valid entries ≡ true
    → are_valid (store name value entries) ≡ true
unfolding are_valid store apart
are_valid-store name value [] t v a = ground arith
are_valid-store name value ((n, w) ∷ entries) t v a =
    ground (arith, are_valid-store name value entries, apart-store n name value entries)

-- The entries are valid, if the outcome has any, and the fuel was not used up.
abbrev entries_valid : Outcome (List Entry) → Bool
entries_valid (returns entries) = are_valid entries
entries_valid throws = true
entries_valid out_of_fuel = false

abbrev option_valid : Option (List Entry) → Bool
option_valid none = true
option_valid (some entries) = are_valid entries

are_valid-set_entry :
    (name value : Text) (entries : List Entry)
    → are_valid entries ≡ true
    → option_valid (set_entry name value entries) ≡ true
unfolding set_entry
are_valid-set_entry name value entries a =
    ground (arith, are_valid-store (trim_left name) value entries)

are_valid-add_entry :
    (name value : Text) (entries : List Entry)
    → are_valid entries ≡ true
    → option_valid (add_entry name value entries) ≡ true
unfolding add_entry
are_valid-add_entry name value entries a = ground (arith, are_valid-set_entry name value entries)

module _ (lower : Text → Text) where
  length-value_of : (t : Text) → length (value_of lower t).1 ≤ length t
  length-value_of t = omega (
    arith,
    length-parameter_value (drop 1 (behind is_name_end t)),
    length-drop 1 (behind is_name_end t),
    length-behind is_name_end t,
  )

  -- The rest of the loop behind `add_entry`.
  resumed :
      (fuel : ℕ) (rest : Text) (o : Option (List Entry))
      → option_valid o ≡ true
      → ((entries : List Entry)
          → are_valid entries ≡ true
          → entries_valid (parse_entries lower fuel rest entries) ≡ true)
      → entries_valid
          (elim o [ none ↦ throws | some entries ↦ parse_entries lower fuel rest entries ])
        ≡ true
  resumed fuel rest none a go = refl
  resumed fuel rest (some entries) a go = go entries a

  entries_valid-parse_entries :
      (fuel : ℕ) (input : Text) (entries : List Entry)
      → length input < fuel
      → are_valid entries ≡ true
      → entries_valid (parse_entries lower fuel input entries) ≡ true
  unfolding parse_entries
  entries_valid-parse_entries zero input entries h a = absurd (omega arith)
  entries_valid-parse_entries (suc fuel) [] entries h a = a
  entries_valid-parse_entries (suc fuel) (separator ∷ input) entries h a =
      resumed fuel (value_of lower input).1
        (add_entry (name_of lower input) (value_of lower input).0 entries)
        (are_valid-add_entry (name_of lower input) (value_of lower input).0 entries a)
        (λ entries' a'.
          entries_valid-parse_entries fuel (value_of lower input).1 entries'
            (omega (arith, length-value_of input)) a')

-- A record with valid entries, or the Error of a parameter; not out of fuel.
unfoldable pub is_read : Outcome Mime → Bool
is_read (returns m) = are_valid m.parameters
is_read throws = true
is_read out_of_fuel = false

is_read-finish :
    (type subtype : Text) (o : Outcome (List Entry))
    → entries_valid o ≡ true
    → is_read (elim o [
      | returns entries ↦ returns (record { type = type; subtype = subtype; parameters = entries })
      | throws ↦ throws
      | out_of_fuel ↦ out_of_fuel
    ])
      ≡ true
unfolding is_read
is_read-finish type subtype (returns entries) h = h
is_read-finish type subtype throws h = refl
is_read-finish type subtype out_of_fuel h = h

-- For every input `parse` ends, and it throws or returns a record in which the names of the
-- parameters are tokens, no two the same, and the values can be quoted.
pub parse-is_read : (lower : Text → Text) (input : Text) → is_read (parse lower input) ≡ true
unfolding parse are_valid
parse-is_read lower input =
    let tail = behind (λ c. c == b';') (drop 1 (behind (λ c. c == b'/') input)) in
    is_read-finish _ _ (parse_entries lower (length tail + 1) tail [])
      (entries_valid-parse_entries lower (length tail + 1) tail [] (omega arith) refl)
