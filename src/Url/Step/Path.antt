-- ===== src/Url/Step/Path.antt =====
-- The cases STATE_PATH_START to STATE_FRAGMENT of `basicURLParse`.
use zero_archive.Prelude.{
  ℕ, Bool, not, ◌&&◌, ◌||◌, Option, none, some, List, [], ◌∷◌, ◌++◌, ◌==◌, ltb, if◌then◌else◌,
  length, get_or, set, Text, same, is_char, is_some,
}
use zero_archive.Url.Chars.{is_windows_drive_letter, is_single_dot_segment, is_double_dot_segment}
use zero_archive.Url.EncodeSets.{
  append_or_escape, path_encode_set, c0_control_encode_set, query_encode_set, fragment_encode_set,
}
use zero_archive.Url.Record.{
  Url, Host, domain, ipv4, ipv6, file_scheme, is_special, shorten_url_path,
}
use zero_archive.Url.Machine.{
  Context, Machine, State, Step, advance, stay, has_state_override, special_back_slash,
}

unfoldable pub step_path_start : Context → Machine → Option ℕ → Step
step_path_start x m ch =
    if is_special m.url.scheme
    then (if not (is_char ch b'/') && not (is_char ch b'\\')
        then stay m State.path m.url
        else advance m State.path m.url)
    else if not (has_state_override x) && is_char ch b'?'
    then advance m State.query (record (m.url) { query = some [] })
    else if not (has_state_override x) && is_char ch b'#'
    then advance m State.fragment (record (m.url) { fragment = some [] })
    else if is_some ch
    then (if not (is_char ch b'/') then stay m State.path m.url else advance m State.path m.url)
    else advance m State.path_start m.url

abbrev pub push : Url → Text → Url
push url segment = record url { path = url.path ++ segment ∷ [] }

-- `if (url.host) { url.host = ''; }`: null, 0 and the empty string are false.
unfoldable pub clear_host : Option Host → Option Host
clear_host none = none
clear_host (some (domain d)) = some (domain [])
clear_host (some (ipv4 n)) = if n == 0 then some (ipv4 n) else some (domain [])
clear_host (some (ipv6 pieces)) = some (domain [])

-- A segment that is no dot segment; a drive letter gets a colon and clears the host.
unfoldable pub push_segment : Url → Text → Url
push_segment url buffer =
    if same url.scheme file_scheme
      && length url.path == 0
      && length buffer == 2
      && is_windows_drive_letter buffer
    then push (record url { host = clear_host url.host }) (get_or buffer 0 0 ∷ b':' ∷ [])
    else push url buffer

-- The end of a segment; `slash` is `ch === '/' || specialBackSlash`.
unfoldable pub end_segment : Url → Text → Bool → Url
end_segment url buffer slash =
    if is_double_dot_segment buffer
    then (if slash then shorten_url_path url else push (shorten_url_path url) [])
    else if is_single_dot_segment buffer && not slash
    then push url []
    else if not (is_single_dot_segment buffer)
    then push_segment url buffer
    else url

-- `while (url.path.length > 1 && url.path[0].length === 0) { url.path = url.path.splice(1); }`
unfoldable pub strip_empty : List Text → List Text
strip_empty ([] ∷ segment ∷ path) = strip_empty (segment ∷ path)
strip_empty path = path

-- The strip loop, which runs for `file:` at undefined, `?` and `#`.
unfoldable pub strip_file_path : Url → Option ℕ → Url
strip_file_path url ch =
    if same url.scheme file_scheme && (not (is_some ch) || is_char ch b'?' || is_char ch b'#')
    then record url { path = strip_empty url.path }
    else url

-- What follows the segment.
unfoldable pub after_segment : Machine → Option ℕ → Url → Step
after_segment m ch url =
    if is_char ch b'?'
    then advance m State.query (record url { query = some [] })
    else if is_char ch b'#'
    then advance m State.fragment (record url { fragment = some [] })
    else advance m State.path url

abbrev pub ends_segment : Context → Machine → Option ℕ → Bool
ends_segment x m ch =
    not (is_some ch)
    || is_char ch b'/'
    || special_back_slash m ch
    || (not (has_state_override x) && (is_char ch b'?' || is_char ch b'#'))

-- `buffer = appendOrEscape(buffer, ch, set)`, for a character that is defined.
unfoldable pub escape_onto : Text → Option ℕ → List ℕ → Text
escape_onto buffer none encode_set = buffer
escape_onto buffer (some c) encode_set = append_or_escape buffer c encode_set

unfoldable pub step_path : Context → Machine → Option ℕ → Step
step_path x m ch =
    if ends_segment x m ch
    then after_segment (record m { buffer = [] }) ch
        (strip_file_path (end_segment m.url m.buffer (is_char ch b'/' || special_back_slash m ch))
          ch)
    else advance (record m { buffer = escape_onto m.buffer ch path_encode_set }) State.path m.url

unfoldable pub step_cannot_be_base : Context → Machine → Option ℕ → Step
step_cannot_be_base x m ch =
    if is_char ch b'?'
    then advance m State.query m.url
    else if is_char ch b'#'
    then advance m State.fragment m.url
    else (let path = if length m.url.path == 0 then m.url.path ++ [] ∷ [] else m.url.path in
        advance m State.cannot_be_base (record (m.url) {
          path =
              if ltb 0 (length path) && is_some ch
              then set path 0 (escape_onto (get_or path 0 []) ch c0_control_encode_set)
              else path;
        }))

unfoldable pub step_query : Context → Machine → Option ℕ → Step
step_query x m ch =
    if not (is_some ch) || (not (has_state_override x) && is_char ch b'#')
    then advance (record m { buffer = [] })
        (if is_char ch b'#' then State.fragment else State.query)
        (record (m.url) { query = some m.buffer })
    else advance (record m { buffer = escape_onto m.buffer ch query_encode_set }) State.query m.url

-- `case 0` compares with a number and matches no character.
unfoldable pub step_fragment : Context → Machine → Option ℕ → Step
step_fragment x m ch =
    if not (is_some ch)
    then advance m State.fragment (record (m.url) { fragment = some m.buffer })
    else advance (record m { buffer = escape_onto m.buffer ch fragment_encode_set }) State.fragment
        m.url
