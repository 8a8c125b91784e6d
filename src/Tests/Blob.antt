-- ===== src/Tests/Blob.antt =====
-- The theorem on lib/w3/blob.js at a concrete input.
use zero_archive.Prelude.{Text, ◌∷◌, []}
use zero_archive.Blob.{Blob}

-- An encoder for ASCII, and a `toLowerCase` for texts in lower case.
abbrev unchanged : Text → Text
unchanged t = t

abbrev five_bytes : Blob
five_bytes = record { type = []; buffer = 1 ∷ 2 ∷ 3 ∷ 4 ∷ 5 ∷ [] }
