-- ===== src/Fetch/Headers/Copies.antt =====
-- `new Headers(headers)` of lib/whatwg/fetch.js.
use zero_archive.Prelude.{
  List, ◌≡◌, ◌++◌, ◌∷◌, [], none, true, refl, arith, same→eq, same_refl, is_some, ap, sym, ◌∙◌,
}
use mathlib.Core.List.{append-nil, append_assoc}
use zero_archive.Fetch.Headers.{Header, to_lower_case, find_key, put, copy_keys, copy_headers}
use zero_archive.Fetch.Headers.Keys.{are_unique}

put-last :
    (headers : List Header) (h : Header)
    → find_key headers (to_lower_case h.name) ≡ none
    → put headers h.name h.values ≡ headers ++ h ∷ []
unfolding put find_key
put-last [] h e = refl
put-last (x ∷ headers) h e =
    ground (arith, put-last headers h, same→eq x.name h.name, same_refl (to_lower_case h.name))

find_key-behind :
    (headers others : List Header) (h : Header)
    → is_some (find_key (headers ++ h ∷ others) (to_lower_case h.name)) ≡ true
unfolding find_key
find_key-behind [] others h = ground (arith, same_refl (to_lower_case h.name))
find_key-behind (x ∷ headers) others h = ground (arith, find_key-behind headers others h)

-- The names in front of a header of unique ones are others.
find_key-front :
    (headers others : List Header) (h : Header)
    → are_unique (headers ++ h ∷ others) ≡ true
    → find_key headers (to_lower_case h.name) ≡ none
unfolding find_key are_unique
find_key-front [] others h u = refl
find_key-front (x ∷ headers) others h u = ground (
  arith,
  find_key-front headers others h,
  find_key-behind headers others h,
  same→eq (to_lower_case x.name) (to_lower_case h.name),
)

copy_keys-append :
    (headers others : List Header)
    → are_unique (headers ++ others) ≡ true
    → copy_keys headers others ≡ headers ++ others
unfolding copy_keys
copy_keys-append headers [] u = sym (append-nil headers)
copy_keys-append headers (h ∷ others) u =
    let e = append_assoc headers (h ∷ []) others in
    ap (λ hs. copy_keys hs others) (put-last headers h (find_key-front headers others h u))
    ∙ copy_keys-append (headers ++ h ∷ []) others (ap are_unique e ∙ u)
    ∙ e

pub copy_headers-same :
    (headers : List Header) → are_unique headers ≡ true → copy_headers headers ≡ headers
unfolding copy_headers
copy_headers-same headers u = copy_keys-append [] headers u
