-- ===== src/Tests/Mime.antt =====
-- The theorems on lib/mime.js at concrete inputs. The inputs are in lower case.
use zero_archive.Prelude.{
  same, if◌then◌else◌, some, [], ◌∷◌, true, refl, ◌≡◌, codes, List, Text, none,
}
use zero_archive.Mime.{
  trim_right, is_white_space, is_quoted_code_point, is_token_code_point, is_value, is_token,
  trim_left, all_chars, Entry, Mime, get_entry, delete_entry, set_entry, store, mime_stringify,
  parse, returns,
}
use zero_archive.Mime.Spans.{none_stops}
use zero_archive.Mime.Entries.{apart, entry_fits}
use zero_archive.Mime.Kept.{kept, entries_fit}
use zero_archive.Mime.RoundTrip.{
  names_lack_comma, lacks_comma, parse-mime_stringify, parse-mime_stringify_plain, is_printable,
  all_plain_but_last,
}
use zero_archive.Mime.Valid.{are_valid, is_read, parse-is_read}
use zero_archive.Mime.Lookup.{get_entry_changed}

abbrev unchanged : Text → Text
unchanged t = t

abbrev sample_entries : List Entry
sample_entries = (codes "a", codes "1") ∷ (codes "b", codes "x \"y") ∷ (codes "c", codes "2;") ∷ []

abbrev sample_mime : Mime
sample_mime = record {
  type = codes "text";
  subtype = codes "html";
  parameters =
      (codes "a", codes "1")
      ∷ (codes "b", codes "x \"y")
      ∷ (codes "c", codes "2")
      ∷ (codes "d", codes "3")
      ∷ [];
}

abbrev plain_mime : Mime
plain_mime = record sample_mime {
  parameters = (codes "a", codes "1") ∷ (codes "b", codes "x;\"y") ∷ [];
}

sample-printable : is_printable unchanged sample_mime ≡ true
unfolding is_printable lacks_comma names_lack_comma same none_stops trim_left trim_right
    is_white_space entries_fit entry_fits is_token is_value all_chars is_token_code_point
    is_quoted_code_point apart
sample-printable = refl

plain-printable : is_printable unchanged plain_mime ≡ true
unfolding is_printable lacks_comma names_lack_comma same none_stops trim_left trim_right
    is_white_space entries_fit entry_fits is_token is_value all_chars is_token_code_point
    is_quoted_code_point apart
plain-printable = refl

plain-ends : all_plain_but_last plain_mime.parameters ≡ true
unfolding all_plain_but_last all_chars is_token_code_point
plain-ends = refl

sample-valid : are_valid sample_entries ≡ true
unfolding are_valid is_token is_value all_chars is_token_code_point is_quoted_code_point apart same
sample-valid = refl

set-returns :
    set_entry (codes " a") (codes "3") sample_entries
    ≡ some (store (codes "a") (codes "3") sample_entries)
unfolding set_entry store is_token is_value all_chars is_token_code_point is_quoted_code_point same
    trim_left is_white_space
set-returns = refl

parse-mime_stringify_example :
    parse unchanged (mime_stringify sample_mime)
    ≡ returns (record sample_mime { parameters = kept sample_mime.parameters })
parse-mime_stringify_example = parse-mime_stringify unchanged sample_mime sample-printable

parse-mime_stringify_plain_example :
    parse unchanged (mime_stringify plain_mime) ≡ returns plain_mime
parse-mime_stringify_plain_example =
    parse-mime_stringify_plain unchanged plain_mime plain-printable plain-ends

parse-is_read_example : is_read (parse unchanged (codes "text/html;a=\"1")) ≡ true
parse-is_read_example = parse-is_read unchanged (codes "text/html;a=\"1")

get_entry_changed_example :
    (get_entry (codes "b") (store (codes "a") (codes "3") sample_entries) ≡ (
      if same (trim_left (codes " a")) (codes "b")
      then some (codes "3")
      else get_entry (codes "b") sample_entries))
    × (get_entry (codes "b") (delete_entry (codes " a") sample_entries)
        ≡ (if same (codes " a") (codes "b") then none else get_entry (codes "b") sample_entries))
get_entry_changed_example =
    get_entry_changed (codes " a") (codes "3") (codes "b") sample_entries
      (store (codes "a") (codes "3") sample_entries) sample-valid set-returns
