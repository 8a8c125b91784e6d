-- ===== src/Url/Chars.antt =====
-- The character tests and the segment tests at the top of lib/whatwg/url/parser.js.
use zero_archive.Prelude.{
  ℕ, ◌+◌, ◌≡◌, refl, Bool, true, false, ◌&&◌, ◌||◌, Option, none, some, leb, ◌==◌, if◌then◌else◌,
  length, get_elem?, Text, codes, same, is_char,
}

abbrev within : ℕ → ℕ → ℕ → Bool
within lo hi c = leb lo c && leb c hi

-- `isASCIIAlpha`, on a defined character and on `str[i]`.
unfoldable pub is_alpha : ℕ → Bool
is_alpha c = within b'A' b'Z' c || within b'a' b'z' c

unfoldable pub is_ascii_alpha : Option ℕ → Bool
is_ascii_alpha none = false
is_ascii_alpha (some c) = is_alpha c

unfoldable pub is_digit : ℕ → Bool
is_digit c = within b'0' b'9' c

unfoldable pub is_ascii_digit : Option ℕ → Bool
is_ascii_digit none = false
is_ascii_digit (some c) = is_digit c

unfoldable pub is_ascii_alphanumeric : Option ℕ → Bool
is_ascii_alphanumeric ch = is_ascii_alpha ch || is_ascii_digit ch

unfoldable pub is_ascii_hex : Option ℕ → Bool
is_ascii_hex none = false
is_ascii_hex (some c) = is_digit c || (within b'A' b'F' c || within b'a' b'f' c)

unfoldable pub ascii_lowercase : ℕ → ℕ
ascii_lowercase c = if within b'A' b'Z' c then c + 32 else c

-- `ASCIILowercase(ch) === c` for a character that may be undefined.
abbrev lowercase_is : Option ℕ → ℕ → Bool
lowercase_is none c = false
lowercase_is (some d) c = ascii_lowercase d == c

unfoldable pub is_windows_drive_letter : Text → Bool
is_windows_drive_letter str =
    is_ascii_alpha (get_elem? str 0)
    && (is_char (get_elem? str 1) b':' || is_char (get_elem? str 1) b'|')

unfoldable pub is_normalized_windows_drive_letter : Text → Bool
is_normalized_windows_drive_letter str =
    is_ascii_alpha (get_elem? str 0) && is_char (get_elem? str 1) b':'

unfoldable pub starts_with_windows_drive_letter : Text → Bool
starts_with_windows_drive_letter str =
    leb 2 (length str)
    && is_windows_drive_letter str
    && (length str == 2
        || is_char (get_elem? str 2) b'/'
        || is_char (get_elem? str 2) b'\\'
        || is_char (get_elem? str 2) b'?'
        || is_char (get_elem? str 2) b'#')

-- `%2e` at position `i`.
abbrev encoded_dot : Text → ℕ → Bool
encoded_dot str i =
    is_char (get_elem? str i) b'%'
    && is_char (get_elem? str (i + 1)) b'2'
    && lowercase_is (get_elem? str (i + 2)) b'e'

unfoldable pub is_single_dot_segment : Text → Bool
is_single_dot_segment str =
    if length str == 1
    then same str (codes ".")
    else if length str == 3
    then encoded_dot str 0
    else false

unfoldable pub is_double_dot_segment : Text → Bool
is_double_dot_segment str =
    if length str == 2
    then same str (codes "..")
    else if length str == 4
    then (is_char (get_elem? str 0) b'.' && encoded_dot str 1)
      || (encoded_dot str 0 && is_char (get_elem? str 3) b'.')
    else if length str == 6
    then encoded_dot str 0 && encoded_dot str 3
    else false

dot_segments :
    (is_single_dot_segment (codes "%2E") ≡ true)
    × (is_double_dot_segment (codes "%2e.") ≡ true)
    × (is_double_dot_segment (codes ".%2E") ≡ true)
    × (is_double_dot_segment (codes "..") ≡ true)
    × (is_double_dot_segment (codes "...") ≡ false)
unfolding is_single_dot_segment is_double_dot_segment ascii_lowercase same
dot_segments = (refl, refl, refl, refl, refl)
