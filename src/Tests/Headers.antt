-- ===== src/Tests/Headers.antt =====
-- The theorems on the class Headers of lib/whatwg/fetch.js at concrete inputs.
use zero_archive.Prelude.{
  Text, List, ◌≡◌, ◌∷◌, [], some, none, codes, ◌&&◌, if◌then◌else◌, length, suc, is_some,
}
use zero_archive.Fetch.Headers.{
  call_header, Header, HeaderCall, append_call, set_call, delete_call, call_all, get_header,
  has_header, copy_headers, new_headers, is_header_name, to_lower_case,
}
use zero_archive.Fetch.Headers.Keys.{is_filled}
use zero_archive.Fetch.Headers.Answers.{
  is_valid_call, headers_answer, ask, behind_calls, promised, all_pairs, joined, calls_of,
  made-Shows,
}
use zero_archive.Fetch.Headers.Iterator.{HeaderPair, for_each}
use zero_archive.Fetch.Headers.Walk.{for_each-visits, quiet, pairs_of, shown_pairs}

abbrev two_pairs : List (List Text)
two_pairs = (codes "Accept" ∷ codes "text/html" ∷ []) ∷ (codes "x-a" ∷ codes "1" ∷ []) ∷ []

-- The names differ from the keys in case, and one is no name.
abbrev some_calls : List HeaderCall
some_calls =
    append_call (codes "aCCEPT") (codes "*/*")
    ∷ set_call (codes "no name") (codes "1")
    ∷ delete_call (codes "X-A")
    ∷ []

headers_answer_example :
    let headers = behind_calls some_calls (new_headers two_pairs) in
    let values = promised two_pairs some_calls (to_lower_case (codes "ACCEPT")) in
    let answers = all_pairs two_pairs && is_header_name (codes "ACCEPT") in
    (is_some (new_headers two_pairs) ≡ all_pairs two_pairs)
    × (ask (λ h. some (is_some (call_header (set_call (codes "no name") (codes "2")) h))) headers
        ≡ (if all_pairs two_pairs
            then some (is_valid_call (set_call (codes "no name") (codes "2")))
            else none))
    × (ask (λ h. get_header h (codes "ACCEPT")) headers
        ≡ (if answers then some (joined values) else none))
    × (ask (λ h. has_header h (codes "ACCEPT")) headers
        ≡ (if answers then some (is_filled values) else none))
    × (ask (λ h. some (copy_headers h)) headers ≡ headers)
headers_answer_example =
    headers_answer two_pairs some_calls (set_call (codes "no name") (codes "2")) (codes "ACCEPT")

abbrev sample_headers : List Header
sample_headers = call_all some_calls (call_all (calls_of two_pairs) [])

for_each-visits_example :
    (visits : List HeaderPair) × (for_each quiet (suc (length sample_headers)) sample_headers
      ≡ some (sample_headers, visits))
    × (length visits ≡ length sample_headers)
    × ((name : Text) → pairs_of name visits ≡ shown_pairs name (promised two_pairs some_calls name))
for_each-visits_example = for_each-visits sample_headers (made-Shows two_pairs some_calls)
