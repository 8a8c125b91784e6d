-- ===== src/Tests/Encoding.antt =====
-- The theorem on lib/whatwg/encoding.js at a concrete input.
use zero_archive.Prelude.{refl, Text, ◌∷◌, [], codes, true, ◌≡◌, arith}
use zero_archive.Encoding.{get_encoding_from_label, find_encoding, trim_ascii_whitespace}
use zero_archive.Encoding.Table.{encodings}
use zero_archive.Encoding.Labels.{is_plain, again, get_encoding_from_label-trims}
use zero_archive.Fetch.Headers.{to_lower_case}

-- The mapping of the ASCII letters leaves plain texts.
to_lower_case-plain : (s : Text) → is_plain s ≡ true → to_lower_case s ≡ s
unfolding is_plain to_lower_case
to_lower_case-plain [] p = refl
to_lower_case-plain (c ∷ cs) p = ground (arith, to_lower_case-plain cs)

abbrev spaced_label : Text
spaced_label = codes " UTF8 "

get_encoding_from_label-trims_example :
    (get_encoding_from_label to_lower_case spaced_label
      ≡ find_encoding (trim_ascii_whitespace (to_lower_case spaced_label)) encodings)
    × (again to_lower_case (get_encoding_from_label to_lower_case spaced_label)
        ≡ get_encoding_from_label to_lower_case spaced_label)
get_encoding_from_label-trims_example =
    get_encoding_from_label-trims to_lower_case to_lower_case-plain spaced_label
