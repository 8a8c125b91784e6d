-- ===== src/Fetch/Headers/Keys.antt =====
-- The keys of a Headers object of lib/whatwg/fetch.js: no two are equal without regard to case.
use zero_archive.Prelude.{
  Text, List, ◌≡◌, ◌∷◌, [], some, none, true, false, refl, arith, Bool, same, same→eq, same_refl,
  is_some, not, ◌&&◌, if◌then◌else◌,
}
use zero_archive.Fetch.Headers.{Header, to_lower_case, find_key, values_at, put, remove}

-- The values of the first key that has the lower-case name.
unfoldable pub values_of : List Header → Text → List Text
values_of [] name = []
values_of (h ∷ headers) name =
    let later = values_of headers name in
    if same (to_lower_case h.name) name then h.values else later

-- `find` finds the key or nothing.
unfoldable pub is_free : List Header → Text → Bool
is_free headers key = elim (find_key headers (to_lower_case key)) [
  | none ↦ true
  | some k ↦ same k key
]

abbrev pub is_filled : List Text → Bool
is_filled [] = false
is_filled (value ∷ values) = true

-- No key is found behind itself, and each has a value.
unfoldable pub are_unique : List Header → Bool
are_unique [] = true
are_unique (h ∷ headers) =
    not (is_some (find_key headers (to_lower_case h.name)))
    && is_filled h.values
    && are_unique headers

pub values_of-absent :
    (headers : List Header) (name : Text)
    → find_key headers name ≡ none
    → values_of headers name ≡ []
unfolding find_key values_of
values_of-absent [] name h = refl
values_of-absent (x ∷ headers) name h = ground (arith, values_of-absent headers name)

pub find_key-lower :
    (headers : List Header) (name key : Text)
    → find_key headers name ≡ some key
    → to_lower_case key ≡ name
unfolding find_key
find_key-lower [] name key h = absurd cc
find_key-lower (x ∷ headers) name key h =
    ground (arith, find_key-lower headers name key, same→eq (to_lower_case x.name) name)

pub values_of-found :
    (headers : List Header) (name key : Text)
    → find_key headers name ≡ some key
    → values_at headers key ≡ values_of headers name
unfolding find_key values_of values_at
values_of-found [] name key h = absurd cc
values_of-found (x ∷ headers) name key h = ground (
  arith,
  values_of-found headers name key,
  find_key-lower headers name key,
  same_refl name,
  same_refl x.name,
  same_refl key,
  same→eq x.name key,
)

pub values_of-put :
    (headers : List Header) (key name : Text) (values : List Text)
    → is_free headers key ≡ true
    → values_of (put headers key values) name
      ≡ (if same (to_lower_case key) name then values else values_of headers name)
unfolding values_of put is_free find_key
values_of-put [] key name values h = refl
values_of-put (x ∷ headers) key name values h = ground (
  arith,
  values_of-put headers key name values,
  same→eq x.name key,
  same→eq (to_lower_case x.name) name,
  same→eq (to_lower_case key) name,
  same_refl (to_lower_case key),
  same_refl name,
)

find_key-put :
    (headers : List Header) (key name : Text) (values : List Text)
    → is_free headers key ≡ true
    → find_key (put headers key values) name
      ≡ (if same (to_lower_case key) name then some key else find_key headers name)
unfolding put is_free find_key
find_key-put [] key name values h = refl
find_key-put (x ∷ headers) key name values h = ground (
  arith,
  find_key-put headers key name values,
  same→eq x.name key,
  same→eq (to_lower_case x.name) name,
  same→eq (to_lower_case key) name,
  same_refl (to_lower_case key),
  same_refl name,
)

pub are_unique-put :
    (headers : List Header) (key : Text) (values : List Text)
    → are_unique headers ≡ true
    → is_free headers key ≡ true
    → is_filled values ≡ true
    → are_unique (put headers key values) ≡ true
unfolding put is_free find_key are_unique
are_unique-put [] key values u h f = ground arith
are_unique-put (x ∷ headers) key values u h f = ground (
  arith,
  are_unique-put headers key values,
  find_key-put headers key (to_lower_case x.name) values,
  same→eq (to_lower_case key) (to_lower_case x.name),
  same_refl (to_lower_case x.name),
)

pub values_of-remove :
    (headers : List Header) (key name : Text)
    → are_unique headers ≡ true
    → is_free headers key ≡ true
    → values_of (remove headers key) name
      ≡ (if same (to_lower_case key) name then [] else values_of headers name)
unfolding values_of remove is_free find_key are_unique
values_of-remove [] key name u h = ground arith
values_of-remove (x ∷ headers) key name u h = ground (
  arith,
  values_of-remove headers key name,
  values_of-absent headers name,
  same→eq x.name key,
  same→eq (to_lower_case x.name) name,
  same→eq (to_lower_case key) name,
  same_refl (to_lower_case key),
  same_refl name,
)

find_key-remove :
    (headers : List Header) (key name : Text)
    → find_key headers name ≡ none
    → find_key (remove headers key) name ≡ none
unfolding remove find_key
find_key-remove [] key name h = refl
find_key-remove (x ∷ headers) key name h = ground (arith, find_key-remove headers key name)

pub are_unique-remove :
    (headers : List Header) (key : Text)
    → are_unique headers ≡ true
    → are_unique (remove headers key) ≡ true
unfolding remove are_unique
are_unique-remove [] key u = refl
are_unique-remove (x ∷ headers) key u =
    ground
      (arith, are_unique-remove headers key, find_key-remove headers key (to_lower_case x.name))

pub values_of-filled :
    (headers : List Header) (name : Text)
    → are_unique headers ≡ true
    → is_filled (values_of headers name) ≡ is_some (find_key headers name)
unfolding values_of find_key are_unique
values_of-filled [] name u = refl
values_of-filled (x ∷ headers) name u = ground (arith, values_of-filled headers name)
