-- ===== src/Util/Base64.antt =====
-- `base64decode` of lib/util.js, which encodes: it is btoa of the library it was taken from.
pub mod Decoded
use zero_archive.Prelude.{
  ℕ, ◌+◌, ◌*◌, ◌/◌, ◌%◌, ◌≡◌, refl, Option, none, some, List, [], ◌∷◌, ◌++◌, leb, ◌==◌,
  if◌then◌else◌, get_or, Text, codes, Bool, true, false, ltb, ◌||◌,
}

-- The table `b64table`.
unfoldable pub b64table : Text
b64table = codes "ABCDEFGHIJKLMNOPQRSTUVWXYZabcdefghijklmnopqrstuvwxyz0123456789+/"

-- A group of six, of which undefined is printed as `=`.
unfoldable pub print_group : Option ℕ → ℕ
print_group none = b'='
print_group (some g) = get_or b64table g 0

unfoldable pub print_groups : Option ℕ → Option ℕ → Option ℕ → Option ℕ → Text
print_groups a b c d = print_group a ∷ print_group b ∷ print_group c ∷ print_group d ∷ []

-- The loop over the data, three characters a round. The shifts and masks are divisions, and the bits
-- that `|=` joins do not overlap.
unfoldable pub encode_rounds : Text → Text
encode_rounds [] = []
encode_rounds (x ∷ []) = print_groups (some (x / 4)) (some (x % 4 * 16)) none none
encode_rounds (x ∷ y ∷ []) =
    print_groups (some (x / 4)) (some (x % 4 * 16 + y / 16)) (some (y % 16 * 4)) none
encode_rounds (x ∷ y ∷ z ∷ rest) =
    print_groups (some (x / 4)) (some (x % 4 * 16 + y / 16)) (some (y % 16 * 4 + z / 64))
      (some (z % 64))
    ++ encode_rounds rest

-- Some character code is above 255.
unfoldable pub some_wide : Text → Bool
some_wide [] = false
some_wide (c ∷ cs) = ltb 255 c || some_wide cs

unfoldable pub base64decode : Text → Option Text
unfolding encode_rounds some_wide
base64decode input = if some_wide input then none else some (encode_rounds input)

encodes : base64decode (codes "TWFu") ≡ some (codes "VFdGdQ==")
unfolding base64decode b64table print_groups print_group
encodes = refl
