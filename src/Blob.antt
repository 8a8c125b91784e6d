-- ===== src/Blob.antt =====
-- The class Blob of lib/w3/blob.js. `ENCODER.encode`, which is native, and `toLowerCase`, for the
-- parser of MIME types, are parameters; a string is the list of its code points.
pub mod Slices
use zero_archive.Prelude.{
  inl, inr, ◌<◌, ◌≤◌, Text, List, ◌≡◌, ◌++◌, ◌∷◌, [], some, none, Option, ℕ, true, false, refl,
  arith, Bool, zero, suc, ◌||◌, ◌&&◌, ◌==◌, leb, if◌then◌else◌, length, take, drop, ◌+◌, ◌-◌,
}
use zero_archive.Mime.{Mime, Outcome, returns, throws, parse, mime_stringify}

-- `convertLineEndingsToNative`: behind a CR the loop passes over one more character than a LF.
unfoldable pub convert_line_endings_to_native : Text → Text
convert_line_endings_to_native [] = []
convert_line_endings_to_native (c ∷ []) = (if c == 0x0d then 0x0a else c) ∷ []
convert_line_endings_to_native (c ∷ d ∷ []) =
    let rest = convert_line_endings_to_native (d ∷ []) in
    if c == 0x0d then 0x0a ∷ (if d == 0x0a then [] else d ∷ []) else c ∷ rest
convert_line_endings_to_native (c ∷ d ∷ x ∷ xs) =
    let rest = convert_line_endings_to_native (d ∷ x ∷ xs) in
    let behind_two = convert_line_endings_to_native (x ∷ xs) in
    let behind_three = convert_line_endings_to_native xs in
    if c == 0x0d then 0x0a ∷ (if d == 0x0a then x ∷ behind_three else d ∷ behind_two) else c ∷ rest

pub data Endings : Type 0 where
  native transparent other_endings : Endings

-- An array buffer source has its `byteLength`, and the elements that `set` copies, each as the byte
-- that it is converted to; of an ArrayBuffer and a DataView it copies none.
pub data BlobPart : Type 0 where
  blob_part : List ℕ → BlobPart
  string_part : Text → BlobPart
  buffer_part : ℕ → List ℕ → BlobPart
  other_part : BlobPart

-- `new Uint8Array(n)` with the elements at its start.
unfoldable pub fill_bytes : ℕ → List ℕ → List ℕ
fill_bytes zero elements = []
fill_bytes (suc n) [] = 0 ∷ fill_bytes n []
fill_bytes (suc n) (x ∷ elements) = x ∷ fill_bytes n elements

pub record Blob : Type 0 where
  pub type : Text
  pub buffer : List ℕ

-- An argument of `slice`: not given, `n`, or `-1 - n`; -0 is not less than 0, and so `from_start 0`.
pub data Position : Type 0 where
  not_given : Position
  from_start from_end : ℕ → Position

-- The clamping of `start` and `end`, with what is taken for a missing one.
unfoldable pub clamp : ℕ → ℕ → Position → ℕ
clamp size default not_given = default
clamp size default (from_start n) = if leb n size then n else size
clamp size default (from_end n) = size - (n + 1)

-- `buffer.slice(start, end)`
unfoldable pub slice_bytes : List ℕ → ℕ → ℕ → List ℕ
slice_bytes buffer start end = take (end - start) (drop start buffer)

module _ (encode : Text → List ℕ) (lower : Text → Text) where
  abbrev string_of : Endings → Text → Text
  string_of native s = convert_line_endings_to_native s
  string_of transparent s = s
  string_of other_endings s = []

  -- The bytes of a part; none is the TypeError.
  unfoldable pub part_bytes : Endings → BlobPart → Option (List ℕ)
  part_bytes endings (blob_part buffer) = some buffer
  part_bytes endings (string_part s) = some (encode (string_of endings s))
  part_bytes endings (buffer_part n elements) = some (fill_bytes n elements)
  part_bytes endings other_part = none

  unfoldable pub process_blob_parts : Endings → List BlobPart → Option (List ℕ)
  process_blob_parts endings [] = some []
  process_blob_parts endings (part ∷ parts) = elim (part_bytes endings part) [
    | none ↦ none
    | some bytes ↦ elim (process_blob_parts endings parts) [
      | none ↦ none
      | some rest ↦ some (bytes ++ rest)
    ]
  ]

  -- `${new MIME(type)}`, or the empty string where that throws.
  unfoldable pub blob_type : Text → Text
  blob_type [] = []
  blob_type (c ∷ cs) = elim (parse lower (c ∷ cs)) [ returns m ↦ mime_stringify m | _ ↦ [] ]

  unfoldable pub new_blob : List BlobPart → Endings → Text → Option Blob
  new_blob parts endings type = elim (process_blob_parts endings parts) [
    | none ↦ none
    | some bytes ↦ some (record { type = blob_type type; buffer = bytes })
  ]

  -- `slice`, of a content type that is a string.
  unfoldable pub slice_blob : Blob → Position → Position → Text → Option Blob
  slice_blob blob start end content_type =
      let size = length blob.buffer in
      let bytes = slice_bytes blob.buffer (clamp size 0 start) (clamp size size end) in
      new_blob (buffer_part (length bytes) bytes ∷ []) transparent content_type
