-- ===== src/Fetch/Headers/Walk.antt =====
-- What `forEach` of the class Headers of lib/whatwg/fetch.js visits.
use zero_archive.Prelude.{
  Text, List, ◌≡◌, ◌++◌, ◌∷◌, [], some, none, Option, true, false, refl, arith, ℕ, zero, suc, same,
  same→eq, is_some, if◌then◌else◌, get_elem?, length, length-append, get_elem?-beyond,
  get_elem?-append_self, ap, sym, ◌∙◌, ◌<◌, ◌+◌, inl, inr, Option-cases, Bool-cases,
}
use mathlib.Core.List.{append_assoc}
use zero_archive.Fetch.Headers.{
  Header, HeaderCall, to_lower_case, find_key, values_at, join_values, call_all,
}
use zero_archive.Fetch.Headers.Keys.{
  is_filled, are_unique, values_of-found, values_of-filled, values_of-absent, find_key-lower,
}
use zero_archive.Fetch.Headers.Refines.{Shows}
use zero_archive.Fetch.Headers.Iterator.{
  HeaderPair, insert_key, sorted_keys, pair_keys, get_header_list, next_header,
  create_headers_iterator, entries_kind, for_each_rounds, for_each, HeadersIterator, entry_item,
  arguments_of, HeaderItem,
}

-- The pairs of a name.
unfoldable pub pairs_of : Text → List HeaderPair → List HeaderPair
pairs_of name [] = []
pairs_of name ((n, v) ∷ pairs) =
    let others = pairs_of name pairs in if same n name then (n, v) ∷ others else others

pairs_of-insert_other :
    (headers : List Header) (name key : Text) (keys : List Text)
    → same (to_lower_case key) name ≡ false
    → pairs_of name (pair_keys headers (insert_key key keys))
      ≡ pairs_of name (pair_keys headers keys)
unfolding pairs_of pair_keys insert_key
pairs_of-insert_other headers name key [] h = ground arith
pairs_of-insert_other headers name key (k ∷ keys) h =
    ground (arith, pairs_of-insert_other headers name key keys)

pairs_of-insert_first :
    (headers : List Header) (name key : Text) (keys : List Text)
    → same (to_lower_case key) name ≡ true
    → pairs_of name (pair_keys headers keys) ≡ []
    → pairs_of name (pair_keys headers (insert_key key keys))
      ≡ (to_lower_case key, join_values (values_at headers key)) ∷ []
unfolding pairs_of pair_keys insert_key
pairs_of-insert_first headers name key [] h e = ground arith
pairs_of-insert_first headers name key (k ∷ keys) h e =
    ground (arith, pairs_of-insert_first headers name key keys)

abbrev pair_of : List Header → Option Text → List HeaderPair
pair_of headers none = []
pair_of headers (some key) = (to_lower_case key, join_values (values_at headers key)) ∷ []

pairs_of-sorted :
    (all headers : List Header) (name : Text)
    → are_unique headers ≡ true
    → pairs_of name (pair_keys all (sorted_keys headers)) ≡ pair_of all (find_key headers name)
unfolding sorted_keys are_unique find_key pairs_of pair_keys
pairs_of-sorted all [] name u = refl
pairs_of-sorted all (h ∷ headers) name u =
    let keys = sorted_keys headers in
    let later = pairs_of-sorted all headers name (ground arith) in
    elim (Bool-cases (same (to_lower_case h.name) name)) [
      | inr other ↦
          let same_key : find_key headers name ≡ find_key (h ∷ headers) name = ground arith in
          pairs_of-insert_other all name h.name keys other ∙ later ∙ ap (pair_of all) same_key
      | inl found ↦
          let last : find_key headers name ≡ none =
            ground (arith, same→eq (to_lower_case h.name) name) in
          let first : some h.name ≡ find_key (h ∷ headers) name = ground arith in
          pairs_of-insert_first all name h.name keys found (later ∙ ap (pair_of all) last)
          ∙ ap (pair_of all) first
    ]

-- A callback that changes nothing.
abbrev pub quiet : Text → Text → List HeaderCall
quiet name value = []

next_header-end :
    (headers : List Header) (i : ℕ)
    → get_elem? (get_header_list headers) i ≡ none
    → next_header headers (record { index = i; kind = entries_kind })
      ≡ (record { index = i; kind = entries_kind }, none)
unfolding next_header
next_header-end headers i g = rw (g, next_header) refl

next_header-entry :
    (headers : List Header) (i : ℕ) (name value : Text)
    → get_elem? (get_header_list headers) i ≡ some (name, value)
    → next_header headers (record { index = i; kind = entries_kind })
      ≡ (record { index = i + 1; kind = entries_kind }, some (entry_item name value))
unfolding next_header
next_header-entry headers i name value g = rw (g, next_header) refl

abbrev visit :
    HeaderPair → Option (List Header × List HeaderPair) → Option (List Header × List HeaderPair)
visit pair none = none
visit pair (some (headers, visited)) = some (headers, pair ∷ visited)

abbrev round :
    ℕ → List Header → HeadersIterator × Option HeaderItem → Option (List Header × List HeaderPair)
round fuel headers (it, result) = elim result [
  | none ↦ some (headers, [])
  | some item ↦ visit (arguments_of item) (for_each_rounds quiet fuel headers it)
]

for_each_rounds-round :
    (fuel : ℕ) (headers : List Header) (it : HeadersIterator)
    → for_each_rounds quiet (suc fuel) headers it ≡ round fuel headers (next_header headers it)
unfolding for_each_rounds call_all
for_each_rounds-round fuel headers it = refl

for_each_rounds-quiet :
    (headers : List Header) (seen rest : List HeaderPair) (fuel i : ℕ)
    → get_header_list headers ≡ seen ++ rest
    → i ≡ length seen
    → length rest < fuel
    → for_each_rounds quiet fuel headers (record { index = i; kind = entries_kind })
      ≡ some (headers, rest)
unfolding join_values
for_each_rounds-quiet headers seen rest zero i e l f = absurd (omega arith)
for_each_rounds-quiet headers seen [] (suc fuel) i e l f =
    let g =
      ap (λ x. get_elem? x i) e
      ∙ get_elem?-beyond (seen ++ []) i (omega (arith, length-append seen [], l)) in
    for_each_rounds-round fuel headers _ ∙ ap (round fuel headers) (next_header-end headers i g)
for_each_rounds-quiet headers seen ((name, value) ∷ rest) (suc fuel) i e l f =
    let g = ap (λ x. get_elem? x i) e ∙ get_elem?-append_self seen rest (name, value) i l in
    let later =
      for_each_rounds-quiet headers (seen ++ (name, value) ∷ []) rest fuel (i + 1)
        (e ∙ sym (append_assoc seen ((name, value) ∷ []) rest))
        (omega (arith, l, length-append seen ((name, value) ∷ []))) (omega (arith, f)) in
    for_each_rounds-round fuel headers _
    ∙ ap (round fuel headers) (next_header-entry headers i name value g)
    ∙ ap (visit (name, value)) later

length-insert_key :
    (key : Text) (keys : List Text) → length (insert_key key keys) ≡ suc (length keys)
unfolding insert_key
length-insert_key key [] = refl
length-insert_key key (k ∷ keys) = ground (arith, length-insert_key key keys)

length-sorted_keys : (headers : List Header) → length (sorted_keys headers) ≡ length headers
unfolding sorted_keys
length-sorted_keys [] = refl
length-sorted_keys (h ∷ headers) =
    length-insert_key h.name (sorted_keys headers) ∙ ap suc (length-sorted_keys headers)

length-pair_keys :
    (headers : List Header) (keys : List Text) → length (pair_keys headers keys) ≡ length keys
unfolding pair_keys
length-pair_keys headers [] = refl
length-pair_keys headers (key ∷ keys) = ap suc (length-pair_keys headers keys)

length-get_header_list : (headers : List Header) → length (get_header_list headers) ≡ length headers
unfolding get_header_list
length-get_header_list headers =
    length-pair_keys headers (sorted_keys headers) ∙ length-sorted_keys headers

-- The pairs of a name in the list: one with the joined values, or none without values.
abbrev pub shown_pairs : Text → List Text → List HeaderPair
shown_pairs name [] = []
shown_pairs name (value ∷ values) = (name, join_values (value ∷ values)) ∷ []

shown_filled :
    (name : Text) (values : List Text)
    → is_filled values ≡ true
    → shown_pairs name values ≡ (name, join_values values) ∷ []
shown_filled name [] h = absurd cc
shown_filled name (value ∷ values) h = refl

pairs_of-shown :
    {f : Text → List Text} (headers : List Header) (name : Text)
    → Shows headers f
    → pair_of headers (find_key headers name) ≡ shown_pairs name (f name)
pairs_of-shown {f} headers name s = elim (Option-cases (find_key headers name)) [
  | inl e ↦
      ap (pair_of headers) e
      ∙ ap (shown_pairs name) (sym (sym (s.shown name) ∙ values_of-absent headers name e))
  | inr (key, e) ↦
      let found = values_of-found headers name key e ∙ s.shown name in
      let filled =
        ap is_filled (sym (s.shown name)) ∙ values_of-filled headers name s.unique ∙ ap is_some e in
      let lower = find_key-lower headers name key e in
      ap (pair_of headers) e
      ∙ ap (λ n. (n, join_values (values_at headers key)) ∷ []) lower
      ∙ ap (λ values. (name, join_values values) ∷ []) found
      ∙ sym (shown_filled name (f name) filled)
]

-- With a callback that changes nothing, `forEach` ends, leaves the headers, and calls it once for
-- each lower-case name that has values, with the values joined, and for no other name.
pub for_each-visits :
    {f : Text → List Text} (headers : List Header)
    → Shows headers f
    → (visits : List HeaderPair) × (for_each quiet (suc (length headers)) headers
        ≡ some (headers, visits))
      × (length visits ≡ length headers)
      × ((name : Text) → pairs_of name visits ≡ shown_pairs name (f name))
unfolding for_each create_headers_iterator get_header_list
for_each-visits headers s = (
  get_header_list headers,
  for_each_rounds-quiet headers [] (get_header_list headers) (suc (length headers)) 0 refl refl
      (omega (arith, length-get_header_list headers)),
  length-get_header_list headers,
  λ name. pairs_of-sorted headers headers name s.unique ∙ pairs_of-shown headers name s,
)
