-- ===== src/Fetch/Headers/Iterator.antt =====
-- The iterators and `forEach` of the class Headers of lib/whatwg/fetch.js.
use zero_archive.Prelude.{
  ◌+◌, ◌==◌, Text, List, ◌∷◌, [], some, none, Option, true, false, Bool, ℕ, zero, suc,
  if◌then◌else◌, get_elem?, ltb,
}
use zero_archive.Fetch.Headers.{Header, HeaderCall, to_lower_case, values_at, join_values, call_all}

-- The order of `sort` without a function, by code units.
unfoldable pub is_before : Text → Text → Bool
is_before s [] = false
is_before [] (d ∷ t) = true
is_before (c ∷ s) (d ∷ t) = let later = is_before s t in if c == d then later else ltb c d

unfoldable pub insert_key : Text → List Text → List Text
insert_key key [] = key ∷ []
insert_key key (k ∷ keys) =
    let rest = insert_key key keys in if is_before k key then k ∷ rest else key ∷ k ∷ keys

-- `Object.keys(headers[kHeaders]).sort()`
unfoldable pub sorted_keys : List Header → List Text
sorted_keys [] = []
sorted_keys (h ∷ headers) = insert_key h.name (sorted_keys headers)

-- A name in lower case and the joined values.
abbrev pub HeaderPair : Type 0
HeaderPair = Text × Text

unfoldable pub pair_keys : List Header → List Text → List HeaderPair
pair_keys headers [] = []
pair_keys headers (key ∷ keys) =
    (to_lower_case key, join_values (values_at headers key)) ∷ pair_keys headers keys

unfoldable pub get_header_list : List Header → List HeaderPair
get_header_list headers = pair_keys headers (sorted_keys headers)

-- `IT_KIND_KEYS`, `IT_KIND_VALUES` and `IT_KIND_ENTRIES`, and what `next` gives for them.
pub data IteratorKind : Type 0 where
  keys_kind values_kind entries_kind : IteratorKind

pub data HeaderItem : Type 0 where
  key_item : Text → HeaderItem
  values_item : List Text → HeaderItem
  entry_item : Text → Text → HeaderItem

abbrev pub item_of : IteratorKind → HeaderPair → HeaderItem
item_of keys_kind (name, value) = key_item name
item_of values_kind (name, value) = values_item (value ∷ [])
item_of entries_kind (name, value) = entry_item name value

-- `this[kContext]` less its target.
pub record HeadersIterator : Type 0 where
  pub index : ℕ
  pub kind : IteratorKind

unfoldable pub create_headers_iterator : IteratorKind → HeadersIterator
create_headers_iterator kind = record { index = 0; kind = kind }

-- `next`, on what the target is then; none is `done`.
unfoldable pub next_header : List Header → HeadersIterator → HeadersIterator × Option HeaderItem
next_header headers it = elim (get_elem? (get_header_list headers) it.index) [
  | none ↦ (it, none)
  | some pair ↦ (record it { index = it.index + 1 }, some (item_of it.kind pair))
]

-- The arguments of a call of the callback of `forEach`: `values.join(', ')` of one value, and the key.
abbrev pub arguments_of : HeaderItem → HeaderPair
arguments_of (key_item name) = (name, [])
arguments_of (values_item values) = ([], join_values values)
arguments_of (entry_item name value) = (name, join_values (value ∷ []))

-- The rounds of the loop of `forEach`. The callback is the calls that it makes, and `none` is a loop
-- that is not at its end when the fuel is.
unfoldable pub for_each_rounds :
    (Text → Text → List HeaderCall)
    → ℕ
    → List Header
    → HeadersIterator
    → Option (List Header × List HeaderPair)
for_each_rounds callback zero headers it = none
for_each_rounds callback (suc fuel) headers it =
    let (it', result) = next_header headers it in
    elim result [
      | none ↦ some (headers, [])
      | some item ↦
          let (name, value) = arguments_of item in
          elim (for_each_rounds callback fuel (call_all (callback name value) headers) it') [
            | none ↦ none
            | some (headers', visited) ↦ some (headers', (name, value) ∷ visited)
          ]
    ]

unfoldable pub for_each :
    (Text → Text → List HeaderCall) → ℕ → List Header → Option (List Header × List HeaderPair)
for_each callback fuel headers =
    for_each_rounds callback fuel headers (create_headers_iterator entries_kind)
