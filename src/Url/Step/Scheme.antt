-- ===== src/Url/Step/Scheme.antt =====
-- The cases STATE_SCHEME_START, STATE_SCHEME and STATE_NO_SCHEME of `basicURLParse`.
use zero_archive.Prelude.{
  ℕ, ◌+◌, Bool, true, false, not, ◌&&◌, ◌||◌, Option, none, some, [], ◌∷◌, ◌++◌, ◌==◌,
  if◌then◌else◌, length, Text, same, is_char, is_some,
}
use zero_archive.Url.Chars.{is_ascii_alpha, is_ascii_alphanumeric, ascii_lowercase}
use zero_archive.Url.Record.{Url, file_scheme, is_special, normalize_port}
use zero_archive.Url.Machine.{
  Context, Machine, State, Step, return, advance, stay, fail, terminate, has_state_override,
  next_is,
}

-- `buffer += ASCIILowercase(ch)`
unfoldable pub lower_onto : Text → Option ℕ → Text
lower_onto buffer none = buffer
lower_onto buffer (some c) = buffer ++ ascii_lowercase c ∷ []

unfoldable pub step_scheme_start : Context → Machine → Option ℕ → Step
step_scheme_start x m ch =
    if is_ascii_alpha ch
    then advance (record m { buffer = lower_onto m.buffer ch }) State.scheme m.url
    else if not (has_state_override x)
    then stay m State.no_scheme m.url
    else fail m.url

abbrev same_bool : Bool → Bool → Bool
same_bool true b = b
same_bool false b = not b

-- The scheme of the base, compared with the new one.
unfoldable pub base_has_scheme : Context → Text → Bool
base_has_scheme x scheme = elim x.base [ none ↦ false | some base ↦ same scheme base.scheme ]

-- From `if (url.scheme === 'file:')` on; `url` has the new scheme and `m` the empty buffer.
unfoldable pub after_scheme : Context → Machine → Url → Step
after_scheme x m url =
    if same url.scheme file_scheme
    then advance m State.file url
    else if url.special && base_has_scheme x url.scheme
    then advance m State.special_relative_or_authority url
    else if url.special
    then advance m State.special_authority_slashes url
    else if next_is x m b'/'
    then advance (record m { index = m.index + 1 }) State.path_or_authority url
    else advance m State.cannot_be_base
        (record url { cannot_be_base = true; path = url.path ++ [] ∷ [] })

-- At the colon: `buffer` is the scheme with the colon.
unfoldable pub end_scheme : Context → Machine → Text → Step
end_scheme x m buffer =
    let url = m.url in
    let new_is_special = is_special buffer in
    if has_state_override x
      && (not (same_bool url.special new_is_special)
          || (same buffer file_scheme
              && (url.has_username || url.has_password || is_some url.port)))
    then terminate url
    else (let url' = record url {
      scheme = buffer;
      port = normalize_port buffer url.port;
      special = new_is_special;
    } in
        if has_state_override x
        then return url'
        else after_scheme x (record m { buffer = [] }) url')

unfoldable pub step_scheme : Context → Machine → Option ℕ → Step
step_scheme x m ch =
    if is_ascii_alphanumeric ch || is_char ch b'+' || is_char ch b'-' || is_char ch b'.'
    then advance (record m { buffer = lower_onto m.buffer ch }) State.scheme m.url
    else if is_char ch b':' || (has_state_override x && not (is_some ch))
    then (if has_state_override x && length m.buffer == 0
        then terminate m.url
        else end_scheme x m (m.buffer ++ b':' ∷ []))
    else if not (has_state_override x)
    then stay (record m { buffer = []; index = 0 }) State.no_scheme m.url
    else fail m.url

-- From the test of `cannotBeBase` on, with a base.
unfoldable pub no_scheme_base : Machine → Option ℕ → Url → Step
no_scheme_base m ch base =
    if base.cannot_be_base && not (is_char ch b'#')
    then fail m.url
    else if base.cannot_be_base && is_char ch b'#'
    then advance m State.fragment (record (m.url) {
      scheme = base.scheme;
      path = base.path;
      query = base.query;
      fragment = some [];
      cannot_be_base = true;
      special = is_special base.scheme;
    })
    else if not (same base.scheme file_scheme)
    then stay m State.relative m.url
    else stay m State.file (record (m.url) { scheme = file_scheme; special = true })

unfoldable pub step_no_scheme : Context → Machine → Option ℕ → Step
step_no_scheme x m ch = elim x.base [ none ↦ fail m.url | some base ↦ no_scheme_base m ch base ]
