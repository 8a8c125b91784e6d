-- ===== src/Blob/Slices.antt =====
-- The slices of a Blob of lib/w3/blob.js.
use zero_archive.Prelude.{Text, List, ◌∷◌, [], some, none, Option, ℕ}
use zero_archive.Blob.{Blob, blob_part, transparent, slice_bytes, blob_type, new_blob}

module _ (encode : Text → List ℕ) (lower : Text → Text) where
  -- The blob that `slice` makes.
  abbrev sliced : Blob → ℕ → ℕ → Text → Blob
  sliced blob start end type = record {
    type = blob_type encode lower type;
    buffer = slice_bytes blob.buffer start end;
  }

  -- `new Blob([a, b], { type })`, of two blobs that are there.
  abbrev pub join_blobs : Text → Option Blob → Option Blob → Option Blob
  join_blobs type (some a) (some b) =
      new_blob encode lower (blob_part a.buffer ∷ blob_part b.buffer ∷ []) transparent type
  join_blobs type _ _ = none

  -- The blob with the bytes and the type that is given.
  abbrev pub typed : Text → List ℕ → Option Blob
  typed type bytes = some (record { type = blob_type encode lower type; buffer = bytes })
