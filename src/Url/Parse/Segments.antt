-- ===== src/Url/Parse/Segments.antt =====
-- Path segments that are no dot segments and have no slash, and how the helpers of the rounds of
-- `basicURLParse` keep a list of them.
use zero_archive.Prelude.{
  ℕ, ◌≡◌, refl, Bool, true, false, not, ◌&&◌, Option, none, some, List, [], ◌∷◌, ◌++◌, arith,
  get_elem?, get_or, drop_last, Text, same, is_char, lacks, lacks-concat,
}
use zero_archive.Url.Chars.{
  is_single_dot_segment, is_double_dot_segment, is_windows_drive_letter, is_ascii_alpha, is_alpha,
  is_ascii_alphanumeric, ascii_lowercase, is_ascii_digit, is_digit,
}
use zero_archive.Url.EncodeSets.{EncodeSet, append_or_escape}
use zero_archive.Url.Record.{Url, shorten_url_path}
use zero_archive.Url.Step.Scheme.{lower_onto}
use zero_archive.Url.Step.Path.{
  end_segment, push_segment, strip_empty, strip_file_path, escape_onto,
}

unfoldable pub segment_fits : Text → Bool
segment_fits s = not (is_single_dot_segment s) && (not (is_double_dot_segment s) && lacks b'/' s)

unfoldable pub all_fit : List Text → Bool
all_fit [] = true
all_fit (s ∷ ss) = segment_fits s && all_fit ss

segment_fits-nil : segment_fits [] ≡ true
unfolding segment_fits is_single_dot_segment is_double_dot_segment lacks
segment_fits-nil = refl

pub all_fit-concat :
    (path : List Text) (s : Text)
    → all_fit path ≡ true
    → segment_fits s ≡ true
    → all_fit (path ++ s ∷ []) ≡ true
unfolding all_fit
all_fit-concat [] s h e = ground arith
all_fit-concat (p ∷ path) s h e = ground (arith, all_fit-concat path s)

pub all_fit-drop_last : (path : List Text) → all_fit path ≡ true → all_fit (drop_last path) ≡ true
unfolding all_fit
all_fit-drop_last [] h = refl
all_fit-drop_last (p ∷ []) h = refl
all_fit-drop_last (p ∷ q ∷ path) h = ground (arith, all_fit-drop_last (q ∷ path))

all_fit-strip_empty : (path : List Text) → all_fit path ≡ true → all_fit (strip_empty path) ≡ true
unfolding all_fit strip_empty
all_fit-strip_empty [] h = refl
all_fit-strip_empty ([] ∷ []) h = h
all_fit-strip_empty ([] ∷ q ∷ path) h = all_fit-strip_empty (q ∷ path) (ground arith)
all_fit-strip_empty ((c ∷ p) ∷ path) h = h

pub all_fit-first :
    (path : List Text) (first : Text)
    → all_fit path ≡ true
    → get_elem? path 0 ≡ some first
    → segment_fits first ≡ true
unfolding all_fit
all_fit-first [] first h e = cc
all_fit-first (p ∷ path) first h e = ground arith

pub all_fit-shorten_url_path :
    (u : Url) → all_fit u.path ≡ true → all_fit (shorten_url_path u).path ≡ true
unfolding shorten_url_path
all_fit-shorten_url_path u h = ground (arith, all_fit-drop_last u.path)

-- A drive letter with its colon.
segment_fits_drive :
    (buffer : Text)
    → is_windows_drive_letter buffer ≡ true
    → segment_fits (get_or buffer 0 0 ∷ b':' ∷ []) ≡ true
unfolding segment_fits is_windows_drive_letter is_ascii_alpha is_alpha is_single_dot_segment
    is_double_dot_segment lacks same
segment_fits_drive [] h = ground arith
segment_fits_drive (c ∷ cs) h = ground arith

all_fit-push_segment :
    (u : Url) (buffer : Text)
    → all_fit u.path ≡ true
    → segment_fits buffer ≡ true
    → all_fit (push_segment u buffer).path ≡ true
unfolding push_segment
all_fit-push_segment u buffer h e = ground (
  arith,
  segment_fits_drive buffer,
  all_fit-concat u.path buffer,
  all_fit-concat u.path (get_or buffer 0 0 ∷ b':' ∷ []),
)

-- What a segment without a slash makes of the path.
pub all_fit-end_segment :
    (u : Url) (buffer : Text) (slash : Bool)
    → all_fit u.path ≡ true
    → lacks b'/' buffer ≡ true
    → all_fit (end_segment u buffer slash).path ≡ true
unfolding end_segment segment_fits
all_fit-end_segment u buffer slash h e = ground (
  arith,
  all_fit-shorten_url_path u,
  segment_fits-nil,
  all_fit-concat u.path [],
  all_fit-concat (shorten_url_path u).path [],
  all_fit-push_segment u buffer,
)

pub all_fit-strip_file_path :
    (u : Url) (ch : Option ℕ) → all_fit u.path ≡ true → all_fit (strip_file_path u ch).path ≡ true
unfolding strip_file_path
all_fit-strip_file_path u ch h = ground (arith, all_fit-strip_empty u.path)

-- A character that is no slash, escaped or not.
pub lacks-escape_onto :
    (buffer : Text) (ch : Option ℕ) (set : EncodeSet)
    → lacks b'/' buffer ≡ true
    → is_char ch b'/' ≡ false
    → lacks b'/' (escape_onto buffer ch set) ≡ true
unfolding escape_onto append_or_escape
lacks-escape_onto buffer none set h e = h
lacks-escape_onto buffer (some c) set h e =
    ground (arith, lacks-concat b'/' buffer c, lacks-concat b'/' buffer 0)

-- The characters of a scheme.
pub lacks-lower_onto :
    (buffer : Text) (ch : Option ℕ)
    → lacks b'/' buffer ≡ true
    → (is_char ch b'/') ≡ false
    → lacks b'/' (lower_onto buffer ch) ≡ true
unfolding lower_onto ascii_lowercase
lacks-lower_onto buffer none h e = h
lacks-lower_onto buffer (some c) h e = ground (arith, lacks-concat b'/' buffer (ascii_lowercase c))

pub not_slash_of_alphanumeric :
    (ch : Option ℕ) → is_ascii_alphanumeric ch ≡ true → is_char ch b'/' ≡ false
unfolding is_ascii_alphanumeric is_ascii_alpha is_ascii_digit is_alpha is_digit
not_slash_of_alphanumeric none h = cc
not_slash_of_alphanumeric (some c) h = ground arith

pub not_slash_of_alpha : (ch : Option ℕ) → is_ascii_alpha ch ≡ true → is_char ch b'/' ≡ false
unfolding is_ascii_alpha is_alpha
not_slash_of_alpha none h = cc
not_slash_of_alpha (some c) h = ground arith

pub not_slash_of_digit : (ch : Option ℕ) → is_ascii_digit ch ≡ true → is_char ch b'/' ≡ false
unfolding is_ascii_digit is_digit
not_slash_of_digit none h = cc
not_slash_of_digit (some c) h = ground arith
