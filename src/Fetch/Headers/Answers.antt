-- ===== src/Fetch/Headers/Answers.antt =====
-- What the methods of the class Headers of lib/whatwg/fetch.js return behind any calls.
use zero_archive.Prelude.{
  Text, List, ◌≡◌, ◌∷◌, [], some, none, Option, true, false, refl, arith, Bool, is_some, ◌&&◌,
  if◌then◌else◌, ap, sym, ◌∙◌, inl, inr, Option-cases, Bool-cases,
}
use zero_archive.Fetch.Headers.{
  delete_call, delete_header, set_call, set_header, Header, HeaderCall, append_call, to_lower_case,
  find_key, find, is_header_name, is_header_value, call_header, call_all, append_header, get_header,
  has_header, append_pairs, new_headers, join_values, copy_headers,
}
use zero_archive.Fetch.Headers.Keys.{
  values_of, is_filled, are_unique, values_of-found, values_of-filled, values_of-absent,
}
use zero_archive.Fetch.Headers.Refines.{Shows, promise_all, call_all-Shows}
use zero_archive.Fetch.Headers.Copies.{copy_headers-same}

-- The joined values, and null for none.
abbrev pub joined : List Text → Option Text
joined [] = none
joined (value ∷ values) = some (join_values (value ∷ values))

joined_filled :
    (values : List Text) → is_filled values ≡ true → joined values ≡ some (join_values values)
joined_filled [] h = absurd cc
joined_filled (value ∷ values) h = refl

get_header-Shows :
    {f : Text → List Text} (headers : List Header) (name : Text)
    → Shows headers f
    → get_header headers name
      ≡ (if is_header_name name then some (joined (f (to_lower_case name))) else none)
unfolding get_header find
get_header-Shows {f} headers name s =
    let shown = s.shown (to_lower_case name) in
    elim (Option-cases (find_key headers (to_lower_case name))) [
      | inl e ↦
          let absent = sym shown ∙ values_of-absent headers (to_lower_case name) e in
          ground (arith, ap joined absent)
      | inr (key, e) ↦
          let found = values_of-found headers (to_lower_case name) key e ∙ shown in
          let filled =
            ap is_filled (sym shown)
            ∙ values_of-filled headers (to_lower_case name) s.unique
            ∙ ap is_some e in
          ground (arith, ap join_values found, joined_filled (f (to_lower_case name)) filled)
    ]

has_header-Shows :
    {f : Text → List Text} (headers : List Header) (name : Text)
    → Shows headers f
    → has_header headers name
      ≡ (if is_header_name name then some (is_filled (f (to_lower_case name))) else none)
unfolding has_header find
has_header-Shows {f} headers name s =
    ground
      (arith, values_of-filled headers (to_lower_case name) s.unique, s.shown (to_lower_case name))

-- Each pair has two elements, a valid name and a valid value.
unfoldable pub all_pairs : List (List Text) → Bool
all_pairs [] = true
all_pairs ((name ∷ value ∷ []) ∷ pairs) =
    is_header_name name && is_header_value value && all_pairs pairs
all_pairs (pair ∷ pairs) = false

unfoldable pub calls_of : List (List Text) → List HeaderCall
calls_of [] = []
calls_of ((name ∷ value ∷ []) ∷ pairs) = append_call name value ∷ calls_of pairs
calls_of (pair ∷ pairs) = []

append_header-valid :
    (headers : List Header) (name value : Text)
    → is_some (append_header headers name value) ≡ is_header_name name && is_header_value value
unfolding append_header
append_header-valid headers name value = elim (Option-cases (find headers name)) [
  | inl e ↦ ground arith
  | inr (key, e) ↦ ground arith
]

set_header-valid :
    (headers : List Header) (name value : Text)
    → is_some (set_header headers name value) ≡ is_header_name name && is_header_value value
unfolding set_header
set_header-valid headers name value = elim (Option-cases (find headers name)) [
  | inl e ↦ ground arith
  | inr (key, e) ↦ ground arith
]

delete_header-valid :
    (headers : List Header) (name : Text)
    → is_some (delete_header headers name) ≡ is_header_name name
unfolding delete_header
delete_header-valid headers name = elim (Option-cases (find headers name)) [
  | inl e ↦ ground arith
  | inr (key, e) ↦ ground arith
]

-- The name is valid, and the value if there is one.
abbrev pub is_valid_call : HeaderCall → Bool
is_valid_call (set_call name value) = is_header_name name && is_header_value value
is_valid_call (append_call name value) = is_header_name name && is_header_value value
is_valid_call (delete_call name) = is_header_name name

call_header-valid :
    (call : HeaderCall) (headers : List Header)
    → is_some (call_header call headers) ≡ is_valid_call call
unfolding call_header
call_header-valid (set_call name value) headers = set_header-valid headers name value
call_header-valid (append_call name value) headers = append_header-valid headers name value
call_header-valid (delete_call name) headers = delete_header-valid headers name

append_pairs-calls :
    (headers : List Header) (pairs : List (List Text))
    → append_pairs headers pairs
      ≡ (if all_pairs pairs then some (call_all (calls_of pairs) headers) else none)
unfolding append_pairs all_pairs calls_of call_all call_header
append_pairs-calls headers [] = refl
append_pairs-calls headers ([] ∷ pairs) = refl
append_pairs-calls headers ((name ∷ []) ∷ pairs) = refl
append_pairs-calls headers ((name ∷ value ∷ more ∷ rest) ∷ pairs) = refl
append_pairs-calls headers ((name ∷ value ∷ []) ∷ pairs) =
    elim (Option-cases (append_header headers name value)) [
      | inl e ↦ ground (arith, append_header-valid headers name value)
      | inr (headers', e) ↦
          ground (arith, append_header-valid headers name value, append_pairs-calls headers' pairs)
    ]

-- The headers, if the constructor made them, behind calls.
abbrev pub behind_calls : List HeaderCall → Option (List Header) → Option (List Header)
behind_calls calls none = none
behind_calls calls (some headers) = some (call_all calls headers)

abbrev pub ask {ℓ} : {A : Type ℓ} → (List Header → Option A) → Option (List Header) → Option A
ask answer none = none
ask answer (some headers) = answer headers

-- What the pairs of the constructor and the calls promise.
abbrev pub promised : List (List Text) → List HeaderCall → Text → List Text
promised pairs calls = promise_all calls (promise_all (calls_of pairs) (λ name. []))

no_headers-Shows : Shows [] (λ name. [])
unfolding are_unique values_of
no_headers-Shows = record { unique = refl; shown = λ name. refl }

pub made-Shows :
    (pairs : List (List Text)) (calls : List HeaderCall)
    → Shows (call_all calls (call_all (calls_of pairs) [])) (promised pairs calls)
made-Shows pairs calls =
    call_all-Shows calls _ (call_all-Shows (calls_of pairs) [] no_headers-Shows)

new_headers-calls :
    (pairs : List (List Text))
    → new_headers pairs ≡ (if all_pairs pairs then some (call_all (calls_of pairs) []) else none)
unfolding new_headers
new_headers-calls pairs = append_pairs-calls [] pairs

-- The constructor throws where a pair has not two elements, a name that is not valid or a value
-- that is not valid, and only there. Behind the constructor and any calls of `set`, `append` and
-- `delete`, which may throw, a further call throws exactly where its name or its value is not valid,
-- `get` and `has` throw for names that are not valid, and otherwise they answer as the map from
-- lower-case names to lists of values does that these calls promise; a copy of the headers is equal
-- to them.
pub headers_answer :
    (pairs : List (List Text)) (calls : List HeaderCall) (call : HeaderCall) (name : Text)
    → let headers = behind_calls calls (new_headers pairs) in
      let values = promised pairs calls (to_lower_case name) in
      let answers = all_pairs pairs && is_header_name name in
      (is_some (new_headers pairs) ≡ all_pairs pairs)
      × (ask (λ h. some (is_some (call_header call h))) headers
          ≡ (if all_pairs pairs then some (is_valid_call call) else none))
      × (ask (λ h. get_header h name) headers ≡ (if answers then some (joined values) else none))
      × (ask (λ h. has_header h name) headers ≡ (if answers then some (is_filled values) else none))
      × (ask (λ h. some (copy_headers h)) headers ≡ headers)
headers_answer pairs calls call name =
    let s = made-Shows pairs calls in
    let made = call_all calls (call_all (calls_of pairs) []) in
    rw (new_headers-calls pairs) (elim (Bool-cases (all_pairs pairs)) [
      | inr bad ↦ (ground arith, ground arith, ground arith, ground arith, ground arith)
      | inl all ↦ (
        ground arith,
        ground (arith, call_header-valid call made),
        ground (arith, get_header-Shows made name s),
        ground (arith, has_header-Shows made name s),
        ground (arith, copy_headers-same made s.unique),
      )
    ])
