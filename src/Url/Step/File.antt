-- ===== src/Url/Step/File.antt =====
-- The cases STATE_FILE, STATE_FILE_SLASH and STATE_FILE_HOST of `basicURLParse`.
use zero_archive.Prelude.{
  ℕ, not, ◌&&◌, ◌||◌, Option, none, some, [], ◌∷◌, ◌++◌, ◌==◌, if◌then◌else◌, length, get_elem?,
  drop, codes, same, is_char, is_some,
}
use zero_archive.Url.Chars.{
  is_windows_drive_letter, is_normalized_windows_drive_letter, starts_with_windows_drive_letter,
}
use zero_archive.Url.Host.{parse_host}
use zero_archive.Url.Record.{Url, Host, domain, file_scheme, shorten_url_path}
use zero_archive.Url.Machine.{
  Context, Machine, State, Step, return, type_error, advance, stay, fail, has_state_override,
}

-- The base, if it is there and its scheme is `file:`.
unfoldable pub file_base : Context → Option Url
file_base x = elim x.base [
  | none ↦ none
  | some base ↦ if same base.scheme file_scheme then some base else none
]

-- The switch of STATE_FILE, with a base whose scheme is `file:`.
unfoldable pub file_switch : Context → Machine → Option ℕ → Url → Url → Step
file_switch x m ch url base =
    if not (is_some ch)
    then advance m State.file
        (record url { host = base.host; path = base.path; query = base.query })
    else if is_char ch b'?'
    then advance m State.query (record url { host = base.host; path = base.path; query = some [] })
    else if is_char ch b'#'
    then advance m State.fragment
        (record url { host = base.host; path = base.path; query = base.query; fragment = some [] })
    else stay m State.path (
        if not (starts_with_windows_drive_letter (drop m.index x.input))
        then shorten_url_path (record url { host = base.host; path = base.path })
        else url)

unfoldable pub step_file : Context → Machine → Option ℕ → Step
step_file x m ch =
    let url = record (m.url) { scheme = file_scheme } in
    if is_char ch b'/' || is_char ch b'\\'
    then advance m State.file_slash url
    else (elim (file_base x) [
      | none ↦ stay m State.path url
      | some base ↦ file_switch x m ch url base
    ])

-- `isNormalizedWindowsDriveLetter(base.path[0])`, which throws on an empty path.
unfoldable pub file_slash_base : Machine → Url → Step
file_slash_base m base = elim (get_elem? base.path 0) [
  | none ↦ type_error
  | some first ↦ stay m State.path (
      if is_normalized_windows_drive_letter first
      then record (m.url) { path = m.url.path ++ first ∷ [] }
      else record (m.url) { host = base.host })
]

unfoldable pub step_file_slash : Context → Machine → Option ℕ → Step
step_file_slash x m ch =
    if is_char ch b'/' || is_char ch b'\\'
    then advance m State.file_host m.url
    else (elim (file_base x) [
      | none ↦ stay m State.path m.url
      | some base ↦
          if not (starts_with_windows_drive_letter (drop m.index x.input))
          then file_slash_base m base
          else stay m State.path m.url
    ])

-- `if (host === 'localhost') { host = ''; }`
unfoldable pub drop_localhost : Host → Host
drop_localhost (domain d) = if same d (codes "localhost") then domain [] else domain d
drop_localhost h = h

-- At the end of the host of a `file:` URL.
unfoldable pub end_file_host : Context → Machine → Step
end_file_host x m =
    if not (has_state_override x) && length m.buffer == 2 && is_windows_drive_letter m.buffer
    then stay m State.path m.url
    else if length m.buffer == 0
    then (let url = record (m.url) { host = some (domain []) } in
        if has_state_override x then return url else stay m State.path_start url)
    else (elim (parse_host x.upper m.buffer m.url.special) [
      | none ↦ fail m.url
      | some h ↦
          let url = record (m.url) { host = some (drop_localhost h) } in
          if has_state_override x
          then return url
          else stay (record m { buffer = [] }) State.path_start url
    ])

unfoldable pub step_file_host : Context → Machine → Option ℕ → Step
step_file_host x m none = end_file_host x m
step_file_host x m (some c) =
    if c == b'/' || c == b'\\' || c == b'?' || c == b'#'
    then end_file_host x m
    else advance (record m { buffer = m.buffer ++ c ∷ [] }) State.file_host m.url
