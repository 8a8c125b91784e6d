-- ===== src/Url/Parse/Consistent.antt =====
-- The scheme, the flag `special` and the port of the record agree in every round of
-- `basicURLParse`.
use zero_archive.Prelude.{
  ℕ, ◌≤◌, ◌≡◌, refl, Bool, true, false, not, ◌&&◌, ◌||◌, Option, none, some, [], ◌∷◌, ◌++◌, arith,
  leb, if◌then◌else◌, get_elem?, Text, same, is_some, is_char, codes, Option-cases, inl, inr,
  same_refl, same→eq,
}
use zero_archive.Url.Ipv4.{parse_int}
use zero_archive.Url.Record.{Url, file_scheme, is_special, normalize_port, lookup_special}
use zero_archive.Url.Machine.{Context, Machine, State, Step, next, special_back_slash}
use zero_archive.Url.Parse.Alike.{
  credentials-Alike, shorten_url_path-Alike, end_segment-Alike, strip_file_path-Alike,
}
use zero_archive.Url.Step.Scheme.{
  step_scheme_start, step_scheme, step_no_scheme, after_scheme, end_scheme, no_scheme_base,
  base_has_scheme,
}
use zero_archive.Url.Step.Relative.{
  step_special_relative_or_authority, step_path_or_authority, step_relative, step_relative_slash,
  step_special_authority_slashes, step_special_authority_ignore_slashes, relative_base,
}
use zero_archive.Url.Step.Authority.{
  host_colon, end_host, step_authority, step_host, step_port, host_character, port_digit, end_port,
}
use zero_archive.Url.Step.File.{
  step_file, step_file_slash, step_file_host, file_switch, file_slash_base, end_file_host,
  file_base,
}
use zero_archive.Url.Step.Path.{
  step_path_start, step_path, step_cannot_be_base, step_query, step_fragment, after_segment,
  end_segment,
}
use zero_archive.Url.Parse.{step_in, step}

-- A port of 16 bits that is not the default port of the scheme.
unfoldable pub port_fits : Text → Option ℕ → Bool
port_fits scheme none = true
port_fits scheme (some p) = leb p 0xffff && is_some (normalize_port scheme (some p))

pub record IsConsistent (u : Url) : Type 0 where
  pub special : u.special ≡ is_special u.scheme
  pub port : port_fits u.scheme u.port ≡ true
  pub is_default_scheme_port : u.is_default_scheme_port ≡ true

-- The states in front of any that sets a port.
unfoldable pub before_port : State → Bool
before_port State.scheme_start = true
before_port State.scheme = true
before_port State.no_scheme = true
before_port State.special_relative_or_authority = true
before_port _ = false

unfoldable pub is_file_state : State → Bool
is_file_state State.file = true
is_file_state _ = false

unfoldable pub is_relative : State → Bool
is_relative State.relative = true
is_relative _ = false

unfoldable pub is_relative_slash : State → Bool
is_relative_slash State.relative_slash = true
is_relative_slash _ = false

-- The scheme that STATE_RELATIVE copies.
unfoldable pub base_scheme : Option Url → Text
base_scheme none = []
base_scheme (some base) = base.scheme

-- What holds in every round.
pub record Agrees (x : Context) (m : Machine) : Type 0 where
  pub url : IsConsistent m.url
  pub no_port : (before_port m.state && is_some m.url.port) ≡ false
  pub file : (is_file_state m.state && not (same m.url.scheme file_scheme)) ≡ false
  pub relative : (is_relative m.state && not (port_fits (base_scheme x.base) m.url.port)) ≡ false
  pub relative_slash :
      (is_relative_slash m.state && not (same m.url.scheme (base_scheme x.base))) ≡ false

abbrev Keeps : (Context → Machine → Option ℕ → Step) → State → Type 0
Keeps f s =
    (x : Context) (m m' : Machine) (ch : Option ℕ)
    → m.state ≡ s
    → Agrees x m
    → ((base : Url) → x.base ≡ some base → IsConsistent base)
    → f x m ch ≡ next m'
    → Agrees x m'

normalize_port-fits :
    (scheme : Text) (p : ℕ) → p ≤ 0xffff → port_fits scheme (normalize_port scheme (some p)) ≡ true
unfolding port_fits normalize_port
normalize_port-fits scheme p h = ground arith

pub normalize_port-none : (scheme : Text) → normalize_port scheme none ≡ none
unfolding normalize_port
normalize_port-none scheme = ground arith

pub file_scheme_special : is_special file_scheme ≡ true
unfolding is_special lookup_special same
file_scheme_special = refl

scheme_start-Agrees : Keeps step_scheme_start State.scheme_start
unfolding before_port is_file_state is_relative is_relative_slash base_scheme port_fits
    step_scheme_start
scheme_start-Agrees x m m' ch s r b h = ground arith

scheme-Agrees : Keeps step_scheme State.scheme
unfolding before_port is_file_state is_relative is_relative_slash base_scheme port_fits step_scheme
    end_scheme after_scheme base_has_scheme
scheme-Agrees x m m' ch s r b h = ground (arith, normalize_port-none (m.buffer ++ b':' ∷ []))

no_scheme-Agrees : Keeps step_no_scheme State.no_scheme
unfolding before_port is_file_state is_relative is_relative_slash base_scheme port_fits
    step_no_scheme no_scheme_base
no_scheme-Agrees x m m' ch s r b h = elim (Option-cases x.base) [
  | inl e ↦ ground arith
  | inr (base, e) ↦ ground (arith, b base e, file_scheme_special, same_refl file_scheme)
]

special_relative_or_authority-Agrees :
    Keeps step_special_relative_or_authority State.special_relative_or_authority
unfolding before_port is_file_state is_relative is_relative_slash base_scheme port_fits
    step_special_relative_or_authority
special_relative_or_authority-Agrees x m m' ch s r b h = ground arith

path_or_authority-Agrees : Keeps step_path_or_authority State.path_or_authority
unfolding before_port is_file_state is_relative is_relative_slash base_scheme port_fits
    step_path_or_authority
path_or_authority-Agrees x m m' ch s r b h = ground arith

relative-Agrees : Keeps step_relative State.relative
unfolding before_port is_file_state is_relative is_relative_slash base_scheme port_fits
    step_relative relative_base
relative-Agrees x m m' ch s r b h = elim (Option-cases x.base) [
  | inl e ↦ ground arith
  | inr (base, e) ↦ ground (arith, b base e, same_refl base.scheme)
]

relative_slash-Agrees : Keeps step_relative_slash State.relative_slash
unfolding before_port is_file_state is_relative is_relative_slash base_scheme port_fits
    step_relative_slash
relative_slash-Agrees x m m' ch s r b h = elim (Option-cases x.base) [
  | inl e ↦ ground arith
  | inr (base, e) ↦ ground (arith, b base e, same→eq m.url.scheme base.scheme)
]

special_authority_slashes-Agrees :
    Keeps step_special_authority_slashes State.special_authority_slashes
unfolding before_port is_file_state is_relative is_relative_slash base_scheme port_fits
    step_special_authority_slashes
special_authority_slashes-Agrees x m m' ch s r b h = ground arith

special_authority_ignore_slashes-Agrees :
    Keeps step_special_authority_ignore_slashes State.special_authority_ignore_slashes
unfolding before_port is_file_state is_relative is_relative_slash base_scheme port_fits
    step_special_authority_ignore_slashes
special_authority_ignore_slashes-Agrees x m m' ch s r b h = ground arith

authority-Agrees : Keeps step_authority State.authority
unfolding before_port is_file_state is_relative is_relative_slash base_scheme port_fits
    step_authority
authority-Agrees x m m' ch s r b h = ground (
  arith,
  credentials-Alike m.password_token_seen_flag m.url
      (if m.at_flag then codes "%40" ++ m.buffer else m.buffer),
)

host-Agrees : Keeps step_host State.host
unfolding before_port is_file_state is_relative is_relative_slash base_scheme port_fits step_host
    host_colon end_host host_character
host-Agrees x m m' ch s r b h = ground arith

hostname-Agrees : Keeps step_host State.hostname
unfolding before_port is_file_state is_relative is_relative_slash base_scheme port_fits step_host
    host_colon end_host host_character
hostname-Agrees x m m' ch s r b h = ground arith

port-Agrees : Keeps step_port State.port
unfolding before_port is_file_state is_relative is_relative_slash base_scheme port_fits step_port
    port_digit end_port
port-Agrees x m m' ch s r b h =
    ground (arith, normalize_port-fits m.url.scheme (parse_int 10 m.buffer))

file-Agrees : Keeps step_file State.file
unfolding before_port is_file_state is_relative is_relative_slash base_scheme port_fits step_file
    file_switch
file-Agrees x m m' ch s r b h = elim (Option-cases (file_base x)) [
  | inl e ↦ ground (arith, same→eq m.url.scheme file_scheme)
  | inr (base, e) ↦ ground (
    arith,
    same→eq m.url.scheme file_scheme,
    same_refl file_scheme,
    shorten_url_path-Alike
        (record (m.url) { scheme = file_scheme; host = base.host; path = base.path }),
  )
]

file_slash-Agrees : Keeps step_file_slash State.file_slash
unfolding before_port is_file_state is_relative is_relative_slash base_scheme port_fits
    step_file_slash file_slash_base
file_slash-Agrees x m m' ch s r b h = ground arith

file_host-Agrees : Keeps step_file_host State.file_host
unfolding before_port is_file_state is_relative is_relative_slash base_scheme port_fits
    step_file_host end_file_host
file_host-Agrees x m m' ch s r b h = ground arith

path_start-Agrees : Keeps step_path_start State.path_start
unfolding before_port is_file_state is_relative is_relative_slash base_scheme port_fits
    step_path_start
path_start-Agrees x m m' ch s r b h = ground arith

path-Agrees : Keeps step_path State.path
unfolding before_port is_file_state is_relative is_relative_slash base_scheme port_fits step_path
    after_segment
path-Agrees x m m' ch s r b h =
    let slash = is_char ch b'/' || special_back_slash m ch in
    ground (
      arith,
      end_segment-Alike m.url m.buffer slash,
      strip_file_path-Alike (end_segment m.url m.buffer slash) ch,
    )

cannot_be_base-Agrees : Keeps step_cannot_be_base State.cannot_be_base
unfolding before_port is_file_state is_relative is_relative_slash base_scheme port_fits
    step_cannot_be_base
cannot_be_base-Agrees x m m' ch s r b h = ground arith

query-Agrees : Keeps step_query State.query
unfolding before_port is_file_state is_relative is_relative_slash base_scheme port_fits step_query
query-Agrees x m m' ch s r b h = ground arith

fragment-Agrees : Keeps step_fragment State.fragment
unfolding before_port is_file_state is_relative is_relative_slash base_scheme port_fits
    step_fragment
fragment-Agrees x m m' ch s r b h = ground arith

step_in-Agrees : (s : State) → Keeps (step_in s) s
unfolding step_in
step_in-Agrees State.scheme_start = scheme_start-Agrees
step_in-Agrees State.scheme = scheme-Agrees
step_in-Agrees State.no_scheme = no_scheme-Agrees
step_in-Agrees State.special_relative_or_authority = special_relative_or_authority-Agrees
step_in-Agrees State.path_or_authority = path_or_authority-Agrees
step_in-Agrees State.relative = relative-Agrees
step_in-Agrees State.relative_slash = relative_slash-Agrees
step_in-Agrees State.special_authority_slashes = special_authority_slashes-Agrees
step_in-Agrees State.special_authority_ignore_slashes = special_authority_ignore_slashes-Agrees
step_in-Agrees State.authority = authority-Agrees
step_in-Agrees State.host = host-Agrees
step_in-Agrees State.hostname = hostname-Agrees
step_in-Agrees State.port = port-Agrees
step_in-Agrees State.file = file-Agrees
step_in-Agrees State.file_slash = file_slash-Agrees
step_in-Agrees State.file_host = file_host-Agrees
step_in-Agrees State.path_start = path_start-Agrees
step_in-Agrees State.path = path-Agrees
step_in-Agrees State.cannot_be_base = cannot_be_base-Agrees
step_in-Agrees State.query = query-Agrees
step_in-Agrees State.fragment = fragment-Agrees

-- Every round keeps what the rounds before it have made.
pub step-Agrees :
    (x : Context) (m m' : Machine)
    → Agrees x m
    → ((base : Url) → x.base ≡ some base → IsConsistent base)
    → step x m ≡ next m'
    → Agrees x m'
step-Agrees x m m' r b h = step_in-Agrees m.state x m m' (get_elem? x.input m.index) refl r b h
