-- ===== src/Encoding/Labels.antt =====
-- `getEncodingFromLabel` of lib/whatwg/encoding.js, whose first lookup is an optimisation.
use zero_archive.Prelude.{
  Text, List, ◌≡◌, ◌∷◌, [], some, none, Option, true, false, refl, arith, Bool, same, same→eq, ◌&&◌,
  ltb, leb, not, Option-cases, Bool-cases, inl, inr, ap, sym, ◌∙◌,
}
use zero_archive.Encoding.{
  find_encoding, trim_start, trim_end, trim_ascii_whitespace, get_encoding_from_label,
}
use zero_archive.Encoding.Table.{Row, encodings}

-- Printable ASCII characters that are no capital letters.
unfoldable pub is_plain : Text → Bool
is_plain [] = true
is_plain (c ∷ cs) = ltb 0x20 c && ltb c 0x7f && not (leb b'A' c && leb c b'Z') && is_plain cs

abbrev is_own : Text → Option Text → Bool
is_own encoding none = false
is_own encoding (some e) = same e encoding

-- The labels are plain, and each encoding is a label of itself.
unfoldable all_plain : List Row → Bool
all_plain [] = true
all_plain ((label, encoding) ∷ rows) = is_plain label && all_plain rows

unfoldable all_own : List Row → Bool
all_own [] = true
all_own ((label, encoding) ∷ rows) =
    is_own encoding (find_encoding encoding encodings) && all_own rows

encodings-all_plain : all_plain encodings ≡ true
unfolding all_plain is_plain encodings
encodings-all_plain = refl

encodings-all_own : all_own encodings ≡ true
unfolding all_own find_encoding encodings same
encodings-all_own = refl

find_encoding-plain :
    (label encoding : Text) (rows : List Row)
    → all_plain rows ≡ true
    → find_encoding label rows ≡ some encoding
    → is_plain label ≡ true
unfolding all_plain find_encoding
find_encoding-plain label encoding [] p h = absurd cc
find_encoding-plain label encoding ((l, e) ∷ rows) p h =
    ground (arith, find_encoding-plain label encoding rows, same→eq l label)

own_found : (encoding : Text) (o : Option Text) → is_own encoding o ≡ true → o ≡ some encoding
own_found encoding none h = absurd cc
own_found encoding (some e) h = ap some (same→eq e encoding h)

find_encoding-own :
    (label encoding : Text) (rows : List Row)
    → all_own rows ≡ true
    → find_encoding label rows ≡ some encoding
    → find_encoding encoding encodings ≡ some encoding
unfolding all_own find_encoding
find_encoding-own label encoding [] p h = absurd cc
find_encoding-own label encoding ((l, e) ∷ rows) p h = elim (Bool-cases (same l label)) [
  | inl found ↦
      let same_one : e ≡ encoding = ground arith in
      ap (λ x. find_encoding x encodings) (sym same_one)
      ∙ own_found e (find_encoding e encodings) (ground arith)
      ∙ ap some same_one
  | inr other ↦ find_encoding-own label encoding rows (ground arith) (ground arith)
]

trim_end-plain : (label : Text) → is_plain label ≡ true → trim_end label ≡ label
unfolding trim_end is_plain
trim_end-plain [] p = refl
trim_end-plain (c ∷ []) p = ground arith
trim_end-plain (c ∷ d ∷ ds) p = rw (trim_end-plain (d ∷ ds) (ground arith), trim_end) refl

trim-plain : (label : Text) → is_plain label ≡ true → trim_ascii_whitespace label ≡ label
unfolding trim_ascii_whitespace trim_start is_plain
trim-plain [] p = trim_end-plain [] p
trim-plain (c ∷ cs) p = ground (arith, trim_end-plain (c ∷ cs) p)

module _ (lower : Text → Text) where
  -- The label that is looked up a second time for a result.
  abbrev pub again : Option Text → Option Text
  again none = none
  again (some encoding) = get_encoding_from_label lower encoding

  get_encoding-found :
      (label encoding : Text)
      → find_encoding label encodings ≡ some encoding
      → get_encoding_from_label lower label ≡ some encoding
  unfolding get_encoding_from_label
  get_encoding-found label encoding h = rw (h, get_encoding_from_label) refl

  get_encoding-missing :
      (label : Text)
      → find_encoding label encodings ≡ none
      → get_encoding_from_label lower label
        ≡ find_encoding (trim_ascii_whitespace (lower label)) encodings
  unfolding get_encoding_from_label
  get_encoding-missing label h = rw (h, get_encoding_from_label) refl

  again-find :
      (label : Text) → again (find_encoding label encodings) ≡ find_encoding label encodings
  again-find label = elim (Option-cases (find_encoding label encodings)) [
    | inl e ↦ rw e refl
    | inr (encoding, e) ↦ rw e (
        get_encoding-found encoding encoding
          (find_encoding-own label encoding encodings encodings-all_own e))
  ]

  -- If `toLowerCase` leaves printable ASCII characters that are no capital letters, the lookup of the
  -- label as it is changes nothing: every label is looked up in lower case and without the ASCII
  -- white space around it. An encoding that is found is a label of itself.
  pub get_encoding_from_label-trims :
      ((s : Text) → is_plain s ≡ true → lower s ≡ s)
      → (label : Text)
      → (get_encoding_from_label lower label
          ≡ find_encoding (trim_ascii_whitespace (lower label)) encodings)
        × (again (get_encoding_from_label lower label) ≡ get_encoding_from_label lower label)
  get_encoding_from_label-trims h label =
      let trims : get_encoding_from_label lower label
          ≡ find_encoding (trim_ascii_whitespace (lower label)) encodings =
        elim (Option-cases (find_encoding label encodings)) [
          | inl e ↦ get_encoding-missing label e
          | inr (encoding, e) ↦
              let plain = find_encoding-plain label encoding encodings encodings-all_plain e in
              let same_label = ap trim_ascii_whitespace (h label plain) ∙ trim-plain label plain in
              get_encoding-found label encoding e
              ∙ sym (ap (λ l. find_encoding l encodings) same_label ∙ e)
        ] in
      (trims, ap again trims ∙ again-find (trim_ascii_whitespace (lower label)) ∙ sym trims)
