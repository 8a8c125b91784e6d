-- ===== src/Encoding.antt =====
-- The labels of encodings of lib/whatwg/encoding.js. The encoders and decoders are native code.
pub mod Table
pub mod Labels
use zero_archive.Prelude.{
  zero, suc, inl, inr, ◌<◌, ◌≤◌, Text, List, ◌≡◌, ◌++◌, ◌∷◌, [], some, none, Option, ℕ, true, false,
  refl, arith, Bool, same, ◌||◌, ◌&&◌, ◌==◌, if◌then◌else◌,
}
use zero_archive.Encoding.Table.{Row, encodings}

-- `encodings.get(label)`
unfoldable pub find_encoding : Text → List Row → Option Text
find_encoding label [] = none
find_encoding label ((l, encoding) ∷ rows) =
    let later = find_encoding label rows in if same l label then some encoding else later

abbrev pub is_ascii_whitespace : ℕ → Bool
is_ascii_whitespace c = c == 0x09 || c == 0x0a || c == 0x0c || c == 0x0d || c == 0x20

-- The loop over `s`, and the one over `e`.
unfoldable pub trim_start : Text → Text
trim_start [] = []
trim_start (c ∷ cs) = let rest = trim_start cs in if is_ascii_whitespace c then rest else c ∷ cs

unfoldable pub trim_end : Text → Text
trim_end [] = []
trim_end (c ∷ cs) = elim (trim_end cs) [
  | [] ↦ if is_ascii_whitespace c then [] else c ∷ []
  | d ∷ ds ↦ c ∷ d ∷ ds
]

unfoldable pub trim_ascii_whitespace : Text → Text
trim_ascii_whitespace label = trim_end (trim_start label)

-- `toLowerCase` is the engine's.
module _ (lower : Text → Text) where
  unfoldable pub get_encoding_from_label : Text → Option Text
  get_encoding_from_label label = elim (find_encoding label encodings) [
    | some encoding ↦ some encoding
    | none ↦ find_encoding (trim_ascii_whitespace (lower label)) encodings
  ]
