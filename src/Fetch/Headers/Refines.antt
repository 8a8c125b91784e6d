-- ===== src/Fetch/Headers/Refines.antt =====
-- The class Headers of lib/whatwg/fetch.js implements a map of lower-case names to lists of values.
use zero_archive.Prelude.{
  Text, List, ◌≡◌, ◌++◌, ◌∷◌, [], some, none, true, refl, arith, inl, inr, same, same→eq, same_refl,
  Bool-cases, Option-cases, ◌&&◌, if◌then◌else◌, ap, sym, ◌∙◌,
}
use zero_archive.Fetch.Headers.{
  Header, HeaderCall, set_call, append_call, delete_call, to_lower_case, find, values_at, put,
  remove, is_header_name, is_header_value, call_header, call_all, changed, set_header,
  append_header, delete_header,
}
use zero_archive.Fetch.Headers.Keys.{
  values_of, is_free, is_filled, are_unique, values_of-absent, values_of-found, find_key-lower,
  values_of-put, are_unique-put, values_of-remove, are_unique-remove,
}

-- What a call promises: a valid one changes the values of its name, and of no other name.
unfoldable pub promise : HeaderCall → (Text → List Text) → Text → List Text
promise (set_call name value) f m =
    if is_header_name name && is_header_value value && same (to_lower_case name) m
    then value ∷ []
    else f m
promise (append_call name value) f m =
    if is_header_name name && is_header_value value && same (to_lower_case name) m
    then f m ++ value ∷ []
    else f m
promise (delete_call name) f m =
    if is_header_name name && same (to_lower_case name) m then [] else f m

unfoldable pub promise_all : List HeaderCall → (Text → List Text) → Text → List Text
promise_all [] f = f
promise_all (call ∷ calls) f = promise_all calls (promise call f)

-- Headers that show the map.
pub record Shows (headers : List Header) (f : Text → List Text) : Type 0 where
  pub unique : are_unique headers ≡ true
  pub shown : (name : Text) → values_of headers name ≡ f name

find-is_free :
    (headers : List Header) (name key : Text)
    → find headers name ≡ some key
    → is_free headers key ≡ true
unfolding find is_free
find-is_free headers name key h =
    ground (arith, find_key-lower headers (to_lower_case name) key h, same_refl key)

missing-is_free :
    (headers : List Header) (name : Text) → find headers name ≡ none → is_free headers name ≡ true
unfolding find is_free
missing-is_free headers name h = ground arith

abbrev at_name : Text → List Text → (Text → List Text) → Text → List Text
at_name name values f m = if same (to_lower_case name) m then values else f m

put-Shows :
    {f : Text → List Text} (headers : List Header) (name key : Text) (values : List Text)
    → Shows headers f
    → is_free headers key ≡ true
    → to_lower_case key ≡ to_lower_case name
    → is_filled values ≡ true
    → Shows (put headers key values) (at_name name values f)
put-Shows {f} headers name key values s free e filled = record {
  unique = are_unique-put headers key values s.unique free filled;
  shown = λ m.
      values_of-put headers key m values free
      ∙ ap (λ l. if same l m then values else values_of headers m) e
      ∙ ap (λ l. if same (to_lower_case name) m then values else l) (s.shown m);
}

remove-Shows :
    {f : Text → List Text} (headers : List Header) (name key : Text)
    → Shows headers f
    → is_free headers key ≡ true
    → to_lower_case key ≡ to_lower_case name
    → Shows (remove headers key) (at_name name [] f)
remove-Shows {f} headers name key s free e = record {
  unique = are_unique-remove headers key s.unique;
  shown = λ m.
      values_of-remove headers key m s.unique free
      ∙ ap (λ l. if same l m then [] else values_of headers m) e
      ∙ ap (λ l. if same (to_lower_case name) m then [] else l) (s.shown m);
}

-- What `find` finds has the name, and its values are those of the name.
find-lower :
    (headers : List Header) (name key : Text)
    → find headers name ≡ some key
    → to_lower_case key ≡ to_lower_case name
unfolding find
find-lower headers name key h = find_key-lower headers (to_lower_case name) key h

find-values :
    {f : Text → List Text} (headers : List Header) (name key : Text)
    → Shows headers f
    → find headers name ≡ some key
    → values_at headers key ≡ f (to_lower_case name)
unfolding find
find-values headers name key s h =
    values_of-found headers (to_lower_case name) key h ∙ s.shown (to_lower_case name)

missing-values :
    {f : Text → List Text} (headers : List Header) (name : Text)
    → Shows headers f
    → find headers name ≡ none
    → f (to_lower_case name) ≡ []
unfolding find
missing-values headers name s h =
    sym (s.shown (to_lower_case name)) ∙ values_of-absent headers (to_lower_case name) h

-- Equal headers, and a map that is the same on all names.
Shows-same :
    {f g : Text → List Text} (headers headers' : List Header)
    → headers' ≡ headers
    → Shows headers f
    → ((m : Text) → f m ≡ g m)
    → Shows headers' g
Shows-same headers headers' h s e = record {
  unique = ap are_unique h ∙ s.unique;
  shown = λ m. ap (λ x. values_of x m) h ∙ s.shown m ∙ e m;
}

set_call-Shows :
    {f : Text → List Text} (headers : List Header) (name value : Text)
    → Shows headers f
    → Shows (changed (set_header headers name value) headers) (promise (set_call name value) f)
unfolding set_header promise
set_call-Shows {f} headers name value s =
    elim (Bool-cases (is_header_name name && is_header_value value)) [
      | inr invalid ↦ Shows-same headers _ (ground arith) s (λ m. ground arith)
      | inl valid ↦ elim (Option-cases (find headers name)) [
        | inl e ↦
            Shows-same (put headers name (value ∷ [])) _ (ground arith)
              (put-Shows headers name name (value ∷ []) s (missing-is_free headers name e) refl
                refl)
              (λ m. ground arith)
        | inr (key, e) ↦
            Shows-same (put headers key (value ∷ [])) _ (ground arith)
              (put-Shows headers name key (value ∷ []) s (find-is_free headers name key e)
                (find-lower headers name key e) refl)
              (λ m. ground arith)
      ]
    ]

append-filled : (values : List Text) (value : Text) → is_filled (values ++ value ∷ []) ≡ true
append-filled [] value = refl
append-filled (v ∷ values) value = refl

append_call-Shows :
    {f : Text → List Text} (headers : List Header) (name value : Text)
    → Shows headers f
    → Shows
        (changed (append_header headers name value) headers)
        (promise (append_call name value) f)
unfolding append_header promise
append_call-Shows {f} headers name value s =
    elim (Bool-cases (is_header_name name && is_header_value value)) [
      | inr invalid ↦ Shows-same headers _ (ground arith) s (λ m. ground arith)
      | inl valid ↦ elim (Option-cases (find headers name)) [
        | inl e ↦
            Shows-same (put headers name (value ∷ [])) _ (ground arith)
              (put-Shows headers name name (value ∷ []) s (missing-is_free headers name e) refl
                refl)
              (λ m. ground (arith, missing-values headers name s e, same→eq (to_lower_case name) m))
        | inr (key, e) ↦
            Shows-same (put headers key (values_at headers key ++ value ∷ [])) _ (ground arith)
              (put-Shows headers name key (values_at headers key ++ value ∷ []) s
                (find-is_free headers name key e) (find-lower headers name key e)
                (append-filled (values_at headers key) value))
              (λ m.
                ground (arith, find-values headers name key s e, same→eq (to_lower_case name) m))
      ]
    ]

delete_call-Shows :
    {f : Text → List Text} (headers : List Header) (name : Text)
    → Shows headers f
    → Shows (changed (delete_header headers name) headers) (promise (delete_call name) f)
unfolding delete_header promise
delete_call-Shows {f} headers name s = elim (Bool-cases (is_header_name name)) [
  | inr invalid ↦ Shows-same headers _ (ground arith) s (λ m. ground arith)
  | inl valid ↦ elim (Option-cases (find headers name)) [
    | inl e ↦
        Shows-same headers _ (ground arith) s
          (λ m. ground (arith, missing-values headers name s e, same→eq (to_lower_case name) m))
    | inr (key, e) ↦
        Shows-same (remove headers key) _ (ground arith)
          (remove-Shows headers name key s (find-is_free headers name key e)
            (find-lower headers name key e))
          (λ m. ground arith)
  ]
]

call_header-Shows :
    {f : Text → List Text} (call : HeaderCall) (headers : List Header)
    → Shows headers f
    → Shows (changed (call_header call headers) headers) (promise call f)
unfolding call_header
call_header-Shows (set_call name value) headers s = set_call-Shows headers name value s
call_header-Shows (append_call name value) headers s = append_call-Shows headers name value s
call_header-Shows (delete_call name) headers s = delete_call-Shows headers name s

pub call_all-Shows :
    {f : Text → List Text} (calls : List HeaderCall) (headers : List Header)
    → Shows headers f
    → Shows (call_all calls headers) (promise_all calls f)
unfolding call_all promise_all
call_all-Shows [] headers s = s
call_all-Shows {f = f} (call ∷ calls) headers s =
    call_all-Shows {f = promise call f} calls _ (call_header-Shows call headers s)
