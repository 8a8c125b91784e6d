-- ===== src/Url/Step/Relative.antt =====
-- The cases STATE_SPECIAL_RELATIVE_OR_AUTHORITY to STATE_SPECIAL_AUTHORITY_IGNORE_SLASHES of
-- `basicURLParse`.
use zero_archive.Prelude.{
  ℕ, ◌+◌, Bool, not, ◌&&◌, ◌||◌, Option, some, [], if◌then◌else◌, drop_last, is_char, is_some,
}
use zero_archive.Url.Record.{Url, is_special}
use zero_archive.Url.Machine.{
  Context, Machine, State, Step, advance, stay, with_base, next_is, special_back_slash,
}

unfoldable pub step_special_relative_or_authority : Context → Machine → Option ℕ → Step
step_special_relative_or_authority x m ch =
    if is_char ch b'/' && next_is x m b'/'
    then advance (record m { index = m.index + 1 }) State.special_authority_ignore_slashes m.url
    else stay m State.relative m.url

unfoldable pub step_path_or_authority : Context → Machine → Option ℕ → Step
step_path_or_authority x m ch =
    if is_char ch b'/' then advance m State.authority m.url else advance m State.path m.url

-- `url.username = base.username; …; url.port = base.port;`
abbrev pub with_authority_of : Url → Url → Url
with_authority_of url base = record url {
  username = base.username;
  password = base.password;
  host = base.host;
  port = base.port;
}

-- STATE_RELATIVE, with a base; `back_slash` is computed before `special` changes.
unfoldable pub relative_base : Machine → Bool → Option ℕ → Url → Step
relative_base m back_slash ch base =
    let url = record (m.url) { scheme = base.scheme; special = is_special base.scheme } in
    let copied = with_authority_of url base in
    if not (is_some ch)
    then advance m State.relative (record copied { path = base.path; query = base.query })
    else if is_char ch b'/'
    then advance m State.relative_slash url
    else if is_char ch b'?'
    then advance m State.query (record copied { path = base.path; query = some [] })
    else if is_char ch b'#'
    then advance m State.fragment
        (record copied { path = base.path; query = base.query; fragment = some [] })
    else if back_slash
    then advance m State.relative_slash url
    else stay m State.path (record copied { path = drop_last base.path })

unfoldable pub step_relative : Context → Machine → Option ℕ → Step
step_relative x m ch = with_base x (relative_base m (special_back_slash m ch) ch)

unfoldable pub step_relative_slash : Context → Machine → Option ℕ → Step
step_relative_slash x m ch =
    if is_special m.url.scheme && (is_char ch b'/' || is_char ch b'\\')
    then advance m State.special_authority_ignore_slashes m.url
    else if is_char ch b'/'
    then advance m State.authority m.url
    else with_base x (λ base. stay m State.path (with_authority_of m.url base))

unfoldable pub step_special_authority_slashes : Context → Machine → Option ℕ → Step
step_special_authority_slashes x m ch =
    if is_char ch b'/' && next_is x m b'/'
    then advance (record m { index = m.index + 1 }) State.special_authority_ignore_slashes m.url
    else stay m State.special_authority_ignore_slashes m.url

unfoldable pub step_special_authority_ignore_slashes : Context → Machine → Option ℕ → Step
step_special_authority_ignore_slashes x m ch =
    if not (is_char ch b'/') && not (is_char ch b'\\')
    then stay m State.authority m.url
    else advance m State.special_authority_ignore_slashes m.url
