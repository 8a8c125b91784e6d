-- ===== src/Url/EncodeSets.antt =====
-- lib/whatwg/url/encode_sets.js: five tables of 32 bytes, one bit for each code unit below 256, and
-- `appendOrEscape` of lib/whatwg/url/parser.js, which looks a character up in one of them.
use zero_archive.Prelude.{
  ℕ, ◌/◌, ◌%◌, ◌^◌, Bool, List, [], ◌∷◌, ◌++◌, ◌==◌, not, if◌then◌else◌, get_or, Text,
}

-- Each byte is the `|` of its row; byte `i` has the bits of the code units `8 * i` to `8 * i + 7`.
abbrev pub EncodeSet : Type 0
EncodeSet = List ℕ

unfoldable pub userinfo_encode_set : EncodeSet
userinfo_encode_set =
    0xff ∷ 0xff ∷ 0xff ∷ 0xff ∷ 0x0d ∷ 0x80 ∷ 0x00 ∷ 0xfc ∷ 0x01 ∷ 0x00 ∷ 0x00 ∷ 0x78 ∷ 0x01 ∷ 0x00
    ∷ 0x00 ∷ 0xb8 ∷ 0xff ∷ 0xff ∷ 0xff ∷ 0xff ∷ 0xff ∷ 0xff ∷ 0xff ∷ 0xff ∷ 0xff ∷ 0xff ∷ 0xff
    ∷ 0xff ∷ 0xff ∷ 0xff ∷ 0xff ∷ 0xff ∷ []

unfoldable pub c0_control_encode_set : EncodeSet
c0_control_encode_set =
    0xff ∷ 0xff ∷ 0xff ∷ 0xff ∷ 0x00 ∷ 0x00 ∷ 0x00 ∷ 0x00 ∷ 0x00 ∷ 0x00 ∷ 0x00 ∷ 0x00 ∷ 0x00 ∷ 0x00
    ∷ 0x00 ∷ 0x80 ∷ 0xff ∷ 0xff ∷ 0xff ∷ 0xff ∷ 0xff ∷ 0xff ∷ 0xff ∷ 0xff ∷ 0xff ∷ 0xff ∷ 0xff
    ∷ 0xff ∷ 0xff ∷ 0xff ∷ 0xff ∷ 0xff ∷ []

unfoldable pub fragment_encode_set : EncodeSet
fragment_encode_set =
    0xff ∷ 0xff ∷ 0xff ∷ 0xff ∷ 0x05 ∷ 0x00 ∷ 0x00 ∷ 0x50 ∷ 0x00 ∷ 0x00 ∷ 0x00 ∷ 0x00 ∷ 0x01 ∷ 0x00
    ∷ 0x00 ∷ 0x80 ∷ 0xff ∷ 0xff ∷ 0xff ∷ 0xff ∷ 0xff ∷ 0xff ∷ 0xff ∷ 0xff ∷ 0xff ∷ 0xff ∷ 0xff
    ∷ 0xff ∷ 0xff ∷ 0xff ∷ 0xff ∷ 0xff ∷ []

unfoldable pub path_encode_set : EncodeSet
path_encode_set =
    0xff ∷ 0xff ∷ 0xff ∷ 0xff ∷ 0x0d ∷ 0x00 ∷ 0x00 ∷ 0xd0 ∷ 0x00 ∷ 0x00 ∷ 0x00 ∷ 0x00 ∷ 0x01 ∷ 0x00
    ∷ 0x00 ∷ 0xa8 ∷ 0xff ∷ 0xff ∷ 0xff ∷ 0xff ∷ 0xff ∷ 0xff ∷ 0xff ∷ 0xff ∷ 0xff ∷ 0xff ∷ 0xff
    ∷ 0xff ∷ 0xff ∷ 0xff ∷ 0xff ∷ 0xff ∷ []

unfoldable pub query_encode_set : EncodeSet
query_encode_set =
    0xff ∷ 0xff ∷ 0xff ∷ 0xff ∷ 0x0d ∷ 0x00 ∷ 0x00 ∷ 0x50 ∷ 0x00 ∷ 0x00 ∷ 0x00 ∷ 0x00 ∷ 0x00 ∷ 0x00
    ∷ 0x00 ∷ 0x80 ∷ 0xff ∷ 0xff ∷ 0xff ∷ 0xff ∷ 0xff ∷ 0xff ∷ 0xff ∷ 0xff ∷ 0xff ∷ 0xff ∷ 0xff
    ∷ 0xff ∷ 0xff ∷ 0xff ∷ 0xff ∷ 0xff ∷ []

-- `encodeSet[cn >> 3] & (1 << (cn & 7))` is not 0; behind the table JS reads undefined, which
-- `&` takes for 0.
unfoldable pub in_set : EncodeSet → ℕ → Bool
in_set encode_set cn = not (get_or encode_set (cn / 8) 0 / 2 ^ (cn % 8) % 2 == 0)

-- `hex` is indexed by the character and not by its code, so `hex[ch]` is undefined or a text such as
-- `%05`, and `String.fromCharCode` of either is the NUL character.
unfoldable pub append_or_escape : Text → ℕ → EncodeSet → Text
append_or_escape str ch encode_set = if in_set encode_set ch then str ++ 0 ∷ [] else str ++ ch ∷ []
