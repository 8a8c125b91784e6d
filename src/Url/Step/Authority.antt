-- ===== src/Url/Step/Authority.antt =====
-- The cases STATE_AUTHORITY, STATE_HOST, STATE_HOSTNAME and STATE_PORT of `basicURLParse`.
use zero_archive.Prelude.{
  ℕ, ◌-◌, Bool, true, false, not, ◌&&◌, ◌||◌, Option, none, some, [], ◌∷◌, ◌++◌, ◌==◌, ltb,
  if◌then◌else◌, length, Text, codes, same, is_char, is_some,
}
use zero_archive.Url.Chars.{is_ascii_digit}
use zero_archive.Url.EncodeSets.{append_or_escape, userinfo_encode_set}
use zero_archive.Url.Host.{parse_host}
use zero_archive.Url.Ipv4.{parse_int}
use zero_archive.Url.Record.{Url, file_scheme, normalize_port}
use zero_archive.Url.Machine.{
  Context, Machine, State, Step, return, advance, stay, fail, terminate, has_state_override,
  special_back_slash,
}

-- `ch === undefined || ch === '/' || ch === '?' || ch === '#' || specialBackSlash`
abbrev pub ends_authority : Machine → Option ℕ → Bool
ends_authority m ch =
    not (is_some ch)
    || is_char ch b'/'
    || is_char ch b'?'
    || is_char ch b'#'
    || special_back_slash m ch

-- The loop over the buffer at `@`: the flag `passwordTokenSeenFlag` and the record.
unfoldable pub credentials : Bool → Url → Text → Bool × Url
credentials seen url [] = (seen, url)
credentials seen url (c ∷ cs) =
    credentials (seen || c == b':')
      (if c == b':' && not seen
        then url
        else if seen
        then record url { password = append_or_escape url.password c userinfo_encode_set }
        else record url { username = append_or_escape url.username c userinfo_encode_set })
      cs

-- `index -= buffer.length + 1` and the `index += 1` behind the switch go back to the first
-- character of the buffer.
unfoldable pub step_authority : Context → Machine → Option ℕ → Step
step_authority x m ch =
    if is_char ch b'@'
    then (let r =
          credentials m.password_token_seen_flag m.url
            (if m.at_flag then codes "%40" ++ m.buffer else m.buffer) in
        advance (record m { at_flag = true; buffer = []; password_token_seen_flag = r.0 })
          State.authority r.1)
    else if ends_authority m ch
    then (if m.at_flag && length m.buffer == 0
        then fail m.url
        else stay (record m { index = m.index - length m.buffer; buffer = [] }) State.host m.url)
    else (elim ch [
      | none ↦ advance m State.authority m.url
      | some c ↦ advance (record m { buffer = m.buffer ++ c ∷ [] }) State.authority m.url
    ])

-- `url.host = parseHost(buffer, special)`, and what is done with a host that is not null.
abbrev pub set_host : Context → Machine → (Url → Step) → Step
set_host x m f = elim (parse_host x.upper m.buffer m.url.special) [
  | none ↦ fail (record (m.url) { host = none })
  | some h ↦ f (record (m.url) { host = some h })
]

abbrev override_is_hostname : Option State → Bool
override_is_hostname (some State.hostname) = true
override_is_hostname _ = false

abbrev override_is_host : Option State → Bool
override_is_host (some State.host) = true
override_is_host _ = false

-- A character of the host name.
unfoldable pub host_character : Machine → Option ℕ → Step
host_character m none = advance m m.state m.url
host_character m (some c) =
    advance
      (record m {
        square_bracket_flag =
            if c == b'[' then true else if c == b']' then false else m.square_bracket_flag;
        buffer = m.buffer ++ c ∷ [];
      })
      m.state m.url

-- At a colon outside of brackets.
unfoldable pub host_colon : Context → Machine → Step
host_colon x m =
    if length m.buffer == 0
    then fail m.url
    else set_host x m (λ url.
      if override_is_hostname x.state_override
      then return url
      else advance (record m { buffer = [] }) State.port url)

-- At the end of the authority; `index -= 1` takes back the `index += 1` behind the switch.
unfoldable pub end_host : Context → Machine → Step
end_host x m =
    if m.url.special && length m.buffer == 0
    then fail m.url
    else if has_state_override x
        && length m.buffer == 0
        && (ltb 0 (length m.url.username) || ltb 0 (length m.url.password) || is_some m.url.port)
    then terminate m.url
    else set_host x m (λ url.
      if has_state_override x
      then return url
      else stay (record m { buffer = [] }) State.path_start url)

-- STATE_HOST and STATE_HOSTNAME.
unfoldable pub step_host : Context → Machine → Option ℕ → Step
step_host x m ch =
    if has_state_override x && same m.url.scheme file_scheme
    then stay m State.file_host m.url
    else if is_char ch b':' && not m.square_bracket_flag
    then host_colon x m
    else if ends_authority m ch
    then end_host x m
    else host_character m ch

-- A digit is appended, which is defined.
unfoldable pub port_digit : Machine → Option ℕ → Step
port_digit m none = advance m State.port m.url
port_digit m (some c) = advance (record m { buffer = m.buffer ++ c ∷ [] }) State.port m.url

-- `url.port = normalizePort(url.scheme, port)`
abbrev pub set_port : Url → ℕ → Url
set_port url p =
    let port = normalize_port url.scheme (some p) in
    record url {
      port = port;
      is_default_scheme_port = if is_some port then url.is_default_scheme_port else true;
    }

unfoldable pub end_port : Context → Machine → Step
end_port x m =
    if ltb 0 (length m.buffer)
    then (let p = parse_int 10 m.buffer in
        if ltb 0xffff p
        then (if override_is_host x.state_override
            then return (record (m.url) { port = none })
            else fail m.url)
        else stay (record m { buffer = [] }) State.path_start (set_port m.url p))
    else if has_state_override x
    then (if override_is_host x.state_override
        then return (record (m.url) { port = none })
        else terminate m.url)
    else stay m State.path_start m.url

unfoldable pub step_port : Context → Machine → Option ℕ → Step
step_port x m ch =
    if is_ascii_digit ch
    then port_digit m ch
    else if has_state_override x || ends_authority m ch
    then end_port x m
    else fail m.url
