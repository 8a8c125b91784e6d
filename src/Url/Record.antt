-- ===== src/Url/Record.antt =====
-- The URL record of `basicURLParse` in lib/whatwg/url/parser.js, the table of special schemes, and
-- the functions on the record.
use zero_archive.Prelude.{
  ℕ, Bool, true, false, ◌&&◌, Option, none, some, List, [], ◌∷◌, ◌==◌, if◌then◌else◌, length,
  get_or, drop_last, Text, codes, same, is_some,
}
use zero_archive.Url.Chars.{is_normalized_windows_drive_letter}

-- `url.host` is null (`none`), a string, a number or an array.
pub data Host : Type 0 where
  domain : Text → Host
  ipv4 : ℕ → Host
  ipv6 : List ℕ → Host

pub record Url : Type 0 where
  pub scheme : Text
  pub username : Text
  pub password : Text
  pub host : Option Host
  pub port : Option ℕ
  pub path : List Text
  pub query : Option Text
  pub fragment : Option Text
  pub has_username : Bool
  pub has_password : Bool
  pub failed : Bool
  pub invalid : Bool
  pub special : Bool
  pub cannot_be_base : Bool
  pub is_default_scheme_port : Bool
  pub terminated : Bool

abbrev pub empty_url : Url
empty_url = record {
  scheme = [];
  username = [];
  password = [];
  host = none;
  port = none;
  path = [];
  query = none;
  fragment = none;
  has_username = false;
  has_password = false;
  failed = false;
  invalid = false;
  special = false;
  cannot_be_base = false;
  is_default_scheme_port = true;
  terminated = false;
}

abbrev pub file_scheme : Text
file_scheme = codes "file:"

-- `specials`. The -1 of `file:`, which equals no port, is `none`.
abbrev pub specials : List (Text × Option ℕ)
specials =
    (codes "ftp:", some 21)
    ∷ (file_scheme, none)
    ∷ (codes "gopher:", some 70)
    ∷ (codes "http:", some 80)
    ∷ (codes "https:", some 443)
    ∷ (codes "ws:", some 80)
    ∷ (codes "wss:", some 443)
    ∷ []

-- `specials.get(scheme)`; the outer `none` is undefined.
unfoldable pub lookup_special : List (Text × Option ℕ) → Text → Option (Option ℕ)
lookup_special [] scheme = none
lookup_special ((name, port) ∷ rest) scheme =
    if same name scheme then some port else lookup_special rest scheme

unfoldable pub is_special : Text → Bool
is_special scheme = is_some (lookup_special specials scheme)

abbrev drop_default : Option (Option ℕ) → Option ℕ → Option ℕ
drop_default (some (some p)) (some port) = if p == port then none else some port
drop_default _ port = port

unfoldable pub normalize_port : Text → Option ℕ → Option ℕ
normalize_port scheme port = drop_default (lookup_special specials scheme) port

unfoldable pub shorten_url_path : Url → Url
shorten_url_path url =
    if length url.path == 0
    then url
    else if length url.path == 1
        && same url.scheme file_scheme
        && is_normalized_windows_drive_letter (get_or url.path 0 [])
    then url
    else record url { path = drop_last url.path }
