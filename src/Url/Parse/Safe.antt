-- ===== src/Url/Parse/Safe.antt =====
-- No round of `basicURLParse` reads a property of null or undefined.
use zero_archive.Prelude.{
  ℕ, Option-cases, inl, inr, ◌≡◌, ◌≢◌, refl, Bool, true, false, not, ◌&&◌, ◌||◌, Option, none, some,
  List, [], ◌∷◌, arith, ltb, length, get_elem?, Text, same, is_some,
}
use zero_archive.Url.Record.{Url, file_scheme}
use zero_archive.Url.Machine.{Context, Machine, State, Step, next, type_error}
use zero_archive.Url.Step.Scheme.{
  step_scheme_start, step_scheme, step_no_scheme, after_scheme, end_scheme, no_scheme_base,
  base_has_scheme,
}
use zero_archive.Url.Step.Relative.{
  step_special_relative_or_authority, step_path_or_authority, step_relative, step_relative_slash,
  step_special_authority_slashes, step_special_authority_ignore_slashes, relative_base,
}
use zero_archive.Url.Step.Authority.{
  host_colon, end_host, step_authority, step_host, step_port, host_character, port_digit, end_port,
}
use zero_archive.Url.Step.File.{
  step_file, step_file_slash, step_file_host, file_switch, file_slash_base, end_file_host,
  file_base,
}
use zero_archive.Url.Step.Path.{
  step_path_start, step_path, step_cannot_be_base, step_query, step_fragment, after_segment,
}
use zero_archive.Url.Parse.{step_in, step}

-- The states that read `base`, or lead to one that does.
unfoldable pub uses_base : State → Bool
uses_base State.special_relative_or_authority = true
uses_base State.relative = true
uses_base State.relative_slash = true
uses_base _ = false

-- A base with the scheme `file:` has a path segment.
unfoldable pub base_has_segment : Option Url → Bool
base_has_segment none = true
base_has_segment (some base) = not (same base.scheme file_scheme) || ltb 0 (length base.path)

-- In a state that reads `base` there is one.
abbrev pub IsBased : Context → Machine → Type 0
IsBased x m = (uses_base m.state && not (is_some x.base)) ≡ false

abbrev Keeps : (Context → Machine → Option ℕ → Step) → State → Type 0
Keeps f s =
    (x : Context) (m m' : Machine) (ch : Option ℕ)
    → m.state ≡ s
    → IsBased x m
    → f x m ch ≡ next m'
    → IsBased x m'

scheme_start-IsBased : Keeps step_scheme_start State.scheme_start
unfolding uses_base step_scheme_start
scheme_start-IsBased x m m' ch s r h = ground arith

scheme-IsBased : Keeps step_scheme State.scheme
unfolding uses_base step_scheme end_scheme after_scheme base_has_scheme
scheme-IsBased x m m' ch s r h = ground arith

no_scheme-IsBased : Keeps step_no_scheme State.no_scheme
unfolding uses_base step_no_scheme no_scheme_base
no_scheme-IsBased x m m' ch s r h = ground arith

special_relative_or_authority-IsBased :
    Keeps step_special_relative_or_authority State.special_relative_or_authority
unfolding uses_base step_special_relative_or_authority
special_relative_or_authority-IsBased x m m' ch s r h = ground arith

path_or_authority-IsBased : Keeps step_path_or_authority State.path_or_authority
unfolding uses_base step_path_or_authority
path_or_authority-IsBased x m m' ch s r h = ground arith

relative-IsBased : Keeps step_relative State.relative
unfolding uses_base step_relative relative_base
relative-IsBased x m m' ch s r h = ground arith

relative_slash-IsBased : Keeps step_relative_slash State.relative_slash
unfolding uses_base step_relative_slash
relative_slash-IsBased x m m' ch s r h = ground arith

special_authority_slashes-IsBased :
    Keeps step_special_authority_slashes State.special_authority_slashes
unfolding uses_base step_special_authority_slashes
special_authority_slashes-IsBased x m m' ch s r h = ground arith

special_authority_ignore_slashes-IsBased :
    Keeps step_special_authority_ignore_slashes State.special_authority_ignore_slashes
unfolding uses_base step_special_authority_ignore_slashes
special_authority_ignore_slashes-IsBased x m m' ch s r h = ground arith

authority-IsBased : Keeps step_authority State.authority
unfolding uses_base step_authority
authority-IsBased x m m' ch s r h = ground arith

host-IsBased : Keeps step_host State.host
unfolding uses_base step_host host_colon end_host host_character
host-IsBased x m m' ch s r h = ground arith

hostname-IsBased : Keeps step_host State.hostname
unfolding uses_base step_host host_colon end_host host_character
hostname-IsBased x m m' ch s r h = ground arith

port-IsBased : Keeps step_port State.port
unfolding uses_base step_port port_digit end_port
port-IsBased x m m' ch s r h = ground arith

file-IsBased : Keeps step_file State.file
unfolding uses_base step_file file_switch file_base
file-IsBased x m m' ch s r h = ground arith

file_slash-IsBased : Keeps step_file_slash State.file_slash
unfolding uses_base step_file_slash file_slash_base file_base
file_slash-IsBased x m m' ch s r h = ground arith

file_host-IsBased : Keeps step_file_host State.file_host
unfolding uses_base step_file_host end_file_host
file_host-IsBased x m m' ch s r h = ground arith

path_start-IsBased : Keeps step_path_start State.path_start
unfolding uses_base step_path_start
path_start-IsBased x m m' ch s r h = ground arith

path-IsBased : Keeps step_path State.path
unfolding uses_base step_path after_segment
path-IsBased x m m' ch s r h = ground arith

cannot_be_base-IsBased : Keeps step_cannot_be_base State.cannot_be_base
unfolding uses_base step_cannot_be_base
cannot_be_base-IsBased x m m' ch s r h = ground arith

query-IsBased : Keeps step_query State.query
unfolding uses_base step_query
query-IsBased x m m' ch s r h = ground arith

fragment-IsBased : Keeps step_fragment State.fragment
unfolding uses_base step_fragment
fragment-IsBased x m m' ch s r h = ground arith

step_in-IsBased : (s : State) → Keeps (step_in s) s
unfolding step_in
step_in-IsBased State.scheme_start = scheme_start-IsBased
step_in-IsBased State.scheme = scheme-IsBased
step_in-IsBased State.no_scheme = no_scheme-IsBased
step_in-IsBased State.special_relative_or_authority = special_relative_or_authority-IsBased
step_in-IsBased State.path_or_authority = path_or_authority-IsBased
step_in-IsBased State.relative = relative-IsBased
step_in-IsBased State.relative_slash = relative_slash-IsBased
step_in-IsBased State.special_authority_slashes = special_authority_slashes-IsBased
step_in-IsBased State.special_authority_ignore_slashes = special_authority_ignore_slashes-IsBased
step_in-IsBased State.authority = authority-IsBased
step_in-IsBased State.host = host-IsBased
step_in-IsBased State.hostname = hostname-IsBased
step_in-IsBased State.port = port-IsBased
step_in-IsBased State.file = file-IsBased
step_in-IsBased State.file_slash = file_slash-IsBased
step_in-IsBased State.file_host = file_host-IsBased
step_in-IsBased State.path_start = path_start-IsBased
step_in-IsBased State.path = path-IsBased
step_in-IsBased State.cannot_be_base = cannot_be_base-IsBased
step_in-IsBased State.query = query-IsBased
step_in-IsBased State.fragment = fragment-IsBased

-- Every round keeps a base where one is read.
pub step-IsBased : (x : Context) (m m' : Machine) → IsBased x m → step x m ≡ next m' → IsBased x m'
step-IsBased x m m' r h = step_in-IsBased m.state x m m' (get_elem? x.input m.index) refl r h

abbrev Safe : (Context → Machine → Option ℕ → Step) → State → Type 0
Safe f s =
    (x : Context) (m : Machine) (ch : Option ℕ)
    → m.state ≡ s
    → IsBased x m
    → base_has_segment x.base ≡ true
    → f x m ch ≢ type_error

file_base-segment :
    (x : Context) (base : Url)
    → base_has_segment x.base ≡ true
    → file_base x ≡ some base
    → ltb 0 (length base.path) ≡ true
unfolding file_base base_has_segment
file_base-segment x base b e = ground arith

first_segment : (path : List Text) → ltb 0 (length path) ≡ true → get_elem? path 0 ≢ none
first_segment [] h = cc
first_segment (p ∷ path) h = λ e. cc

file_slash_base-Safe :
    (m : Machine) (base : Url)
    → ltb 0 (length base.path) ≡ true
    → file_slash_base m base ≢ type_error
unfolding file_slash_base
file_slash_base-Safe m base h = ground (arith, first_segment base.path h)

scheme_start-Safe : Safe step_scheme_start State.scheme_start
unfolding uses_base base_has_segment step_scheme_start
scheme_start-Safe x m ch s r b = ground arith

scheme-Safe : Safe step_scheme State.scheme
unfolding uses_base base_has_segment step_scheme end_scheme after_scheme
scheme-Safe x m ch s r b = ground arith

no_scheme-Safe : Safe step_no_scheme State.no_scheme
unfolding uses_base base_has_segment step_no_scheme no_scheme_base
no_scheme-Safe x m ch s r b = ground arith

special_relative_or_authority-Safe :
    Safe step_special_relative_or_authority State.special_relative_or_authority
unfolding uses_base base_has_segment step_special_relative_or_authority
special_relative_or_authority-Safe x m ch s r b = ground arith

path_or_authority-Safe : Safe step_path_or_authority State.path_or_authority
unfolding uses_base base_has_segment step_path_or_authority
path_or_authority-Safe x m ch s r b = ground arith

relative-Safe : Safe step_relative State.relative
unfolding uses_base base_has_segment step_relative relative_base
relative-Safe x m ch s r b = ground arith

relative_slash-Safe : Safe step_relative_slash State.relative_slash
unfolding uses_base base_has_segment step_relative_slash
relative_slash-Safe x m ch s r b = ground arith

special_authority_slashes-Safe : Safe step_special_authority_slashes State.special_authority_slashes
unfolding uses_base base_has_segment step_special_authority_slashes
special_authority_slashes-Safe x m ch s r b = ground arith

special_authority_ignore_slashes-Safe :
    Safe step_special_authority_ignore_slashes State.special_authority_ignore_slashes
unfolding uses_base base_has_segment step_special_authority_ignore_slashes
special_authority_ignore_slashes-Safe x m ch s r b = ground arith

authority-Safe : Safe step_authority State.authority
unfolding uses_base base_has_segment step_authority
authority-Safe x m ch s r b = ground arith

host-Safe : Safe step_host State.host
unfolding uses_base base_has_segment step_host host_colon end_host host_character
host-Safe x m ch s r b = ground arith

hostname-Safe : Safe step_host State.hostname
unfolding uses_base base_has_segment step_host host_colon end_host host_character
hostname-Safe x m ch s r b = ground arith

port-Safe : Safe step_port State.port
unfolding uses_base base_has_segment step_port port_digit end_port
port-Safe x m ch s r b = ground arith

file-Safe : Safe step_file State.file
unfolding uses_base base_has_segment step_file file_switch file_base
file-Safe x m ch s r b = ground arith

file_slash-Safe : Safe step_file_slash State.file_slash
unfolding step_file_slash
file_slash-Safe x m ch s r b = elim (Option-cases (file_base x)) [
  | inl e ↦ ground arith
  | inr (base, e) ↦ ground (arith, file_slash_base-Safe m base (file_base-segment x base b e))
]

file_host-Safe : Safe step_file_host State.file_host
unfolding uses_base base_has_segment step_file_host end_file_host
file_host-Safe x m ch s r b = ground arith

path_start-Safe : Safe step_path_start State.path_start
unfolding uses_base base_has_segment step_path_start
path_start-Safe x m ch s r b = ground arith

path-Safe : Safe step_path State.path
unfolding uses_base base_has_segment step_path after_segment
path-Safe x m ch s r b = ground arith

cannot_be_base-Safe : Safe step_cannot_be_base State.cannot_be_base
unfolding uses_base base_has_segment step_cannot_be_base
cannot_be_base-Safe x m ch s r b = ground arith

query-Safe : Safe step_query State.query
unfolding uses_base base_has_segment step_query
query-Safe x m ch s r b = ground arith

fragment-Safe : Safe step_fragment State.fragment
unfolding uses_base base_has_segment step_fragment
fragment-Safe x m ch s r b = ground arith

step_in-Safe : (s : State) → Safe (step_in s) s
unfolding step_in
step_in-Safe State.scheme_start = scheme_start-Safe
step_in-Safe State.scheme = scheme-Safe
step_in-Safe State.no_scheme = no_scheme-Safe
step_in-Safe State.special_relative_or_authority = special_relative_or_authority-Safe
step_in-Safe State.path_or_authority = path_or_authority-Safe
step_in-Safe State.relative = relative-Safe
step_in-Safe State.relative_slash = relative_slash-Safe
step_in-Safe State.special_authority_slashes = special_authority_slashes-Safe
step_in-Safe State.special_authority_ignore_slashes = special_authority_ignore_slashes-Safe
step_in-Safe State.authority = authority-Safe
step_in-Safe State.host = host-Safe
step_in-Safe State.hostname = hostname-Safe
step_in-Safe State.port = port-Safe
step_in-Safe State.file = file-Safe
step_in-Safe State.file_slash = file_slash-Safe
step_in-Safe State.file_host = file_host-Safe
step_in-Safe State.path_start = path_start-Safe
step_in-Safe State.path = path-Safe
step_in-Safe State.cannot_be_base = cannot_be_base-Safe
step_in-Safe State.query = query-Safe
step_in-Safe State.fragment = fragment-Safe

-- With a base where one is read, and a path segment in a `file:` base, no round throws.
pub step-Safe :
    (x : Context) (m : Machine)
    → IsBased x m
    → base_has_segment x.base ≡ true
    → step x m ≢ type_error
step-Safe x m r b = step_in-Safe m.state x m (get_elem? x.input m.index) refl r b
