-- ===== src/Url/Parse/PathReturns.antt =====
-- The path of a record that a round of `basicURLParse` returns.
use zero_archive.Prelude.{ℕ, ◌≡◌, refl, Option, arith, get_elem?}
use zero_archive.Url.Record.{Url}
use zero_archive.Url.Machine.{Context, Machine, State, Step, return}
use zero_archive.Url.Parse.PathFits.{IsWellPathed, PathFits, may_be_opaque}
use zero_archive.Url.Step.Scheme.{
  step_scheme_start, step_scheme, step_no_scheme, after_scheme, end_scheme, no_scheme_base,
}
use zero_archive.Url.Step.Relative.{
  step_special_relative_or_authority, step_path_or_authority, step_relative, step_relative_slash,
  step_special_authority_slashes, step_special_authority_ignore_slashes, relative_base,
}
use zero_archive.Url.Step.Authority.{
  step_authority, step_host, step_port, host_colon, end_host, host_character, port_digit, end_port,
}
use zero_archive.Url.Step.File.{
  step_file, step_file_slash, step_file_host, file_switch, file_slash_base, end_file_host,
  file_base,
}
use zero_archive.Url.Step.Path.{
  step_path_start, step_path, step_cannot_be_base, step_query, step_fragment, after_segment,
}
use zero_archive.Url.Parse.{step_in, step}

abbrev Returns : (Context → Machine → Option ℕ → Step) → State → Type 0
Returns f s =
    (x : Context) (m : Machine) (url : Url) (ch : Option ℕ)
    → m.state ≡ s
    → PathFits x m
    → f x m ch ≡ return url
    → IsWellPathed url

scheme_start-IsWellPathed : Returns step_scheme_start State.scheme_start
unfolding may_be_opaque step_scheme_start
scheme_start-IsWellPathed x m url ch s p h = ground arith

scheme-IsWellPathed : Returns step_scheme State.scheme
unfolding may_be_opaque step_scheme end_scheme after_scheme
scheme-IsWellPathed x m url ch s p h = ground arith

no_scheme-IsWellPathed : Returns step_no_scheme State.no_scheme
unfolding may_be_opaque step_no_scheme no_scheme_base
no_scheme-IsWellPathed x m url ch s p h = ground arith

special_relative_or_authority-IsWellPathed :
    Returns step_special_relative_or_authority State.special_relative_or_authority
unfolding may_be_opaque step_special_relative_or_authority
special_relative_or_authority-IsWellPathed x m url ch s p h = ground arith

path_or_authority-IsWellPathed : Returns step_path_or_authority State.path_or_authority
unfolding may_be_opaque step_path_or_authority
path_or_authority-IsWellPathed x m url ch s p h = ground arith

relative-IsWellPathed : Returns step_relative State.relative
unfolding may_be_opaque step_relative relative_base
relative-IsWellPathed x m url ch s p h = ground arith

relative_slash-IsWellPathed : Returns step_relative_slash State.relative_slash
unfolding may_be_opaque step_relative_slash
relative_slash-IsWellPathed x m url ch s p h = ground arith

special_authority_slashes-IsWellPathed :
    Returns step_special_authority_slashes State.special_authority_slashes
unfolding may_be_opaque step_special_authority_slashes
special_authority_slashes-IsWellPathed x m url ch s p h = ground arith

special_authority_ignore_slashes-IsWellPathed :
    Returns step_special_authority_ignore_slashes State.special_authority_ignore_slashes
unfolding may_be_opaque step_special_authority_ignore_slashes
special_authority_ignore_slashes-IsWellPathed x m url ch s p h = ground arith

authority-IsWellPathed : Returns step_authority State.authority
unfolding may_be_opaque step_authority
authority-IsWellPathed x m url ch s p h = ground arith

host-IsWellPathed : Returns step_host State.host
unfolding may_be_opaque step_host host_colon end_host host_character
host-IsWellPathed x m url ch s p h = ground arith

hostname-IsWellPathed : Returns step_host State.hostname
unfolding may_be_opaque step_host host_colon end_host host_character
hostname-IsWellPathed x m url ch s p h = ground arith

port-IsWellPathed : Returns step_port State.port
unfolding may_be_opaque step_port port_digit end_port
port-IsWellPathed x m url ch s p h = ground arith

file-IsWellPathed : Returns step_file State.file
unfolding may_be_opaque step_file file_switch file_base
file-IsWellPathed x m url ch s p h = ground arith

file_slash-IsWellPathed : Returns step_file_slash State.file_slash
unfolding may_be_opaque step_file_slash file_slash_base file_base
file_slash-IsWellPathed x m url ch s p h = ground arith

file_host-IsWellPathed : Returns step_file_host State.file_host
unfolding may_be_opaque step_file_host end_file_host
file_host-IsWellPathed x m url ch s p h = ground arith

path_start-IsWellPathed : Returns step_path_start State.path_start
unfolding may_be_opaque step_path_start
path_start-IsWellPathed x m url ch s p h = ground arith

path-IsWellPathed : Returns step_path State.path
unfolding may_be_opaque step_path after_segment
path-IsWellPathed x m url ch s p h = ground arith

cannot_be_base-IsWellPathed : Returns step_cannot_be_base State.cannot_be_base
unfolding may_be_opaque step_cannot_be_base
cannot_be_base-IsWellPathed x m url ch s p h = ground arith

query-IsWellPathed : Returns step_query State.query
unfolding may_be_opaque step_query
query-IsWellPathed x m url ch s p h = ground arith

fragment-IsWellPathed : Returns step_fragment State.fragment
unfolding may_be_opaque step_fragment
fragment-IsWellPathed x m url ch s p h = ground arith

step_in-IsWellPathed : (s : State) → Returns (step_in s) s
unfolding step_in
step_in-IsWellPathed State.scheme_start = scheme_start-IsWellPathed
step_in-IsWellPathed State.scheme = scheme-IsWellPathed
step_in-IsWellPathed State.no_scheme = no_scheme-IsWellPathed
step_in-IsWellPathed State.special_relative_or_authority =
    special_relative_or_authority-IsWellPathed
step_in-IsWellPathed State.path_or_authority = path_or_authority-IsWellPathed
step_in-IsWellPathed State.relative = relative-IsWellPathed
step_in-IsWellPathed State.relative_slash = relative_slash-IsWellPathed
step_in-IsWellPathed State.special_authority_slashes = special_authority_slashes-IsWellPathed
step_in-IsWellPathed State.special_authority_ignore_slashes =
    special_authority_ignore_slashes-IsWellPathed
step_in-IsWellPathed State.authority = authority-IsWellPathed
step_in-IsWellPathed State.host = host-IsWellPathed
step_in-IsWellPathed State.hostname = hostname-IsWellPathed
step_in-IsWellPathed State.port = port-IsWellPathed
step_in-IsWellPathed State.file = file-IsWellPathed
step_in-IsWellPathed State.file_slash = file_slash-IsWellPathed
step_in-IsWellPathed State.file_host = file_host-IsWellPathed
step_in-IsWellPathed State.path_start = path_start-IsWellPathed
step_in-IsWellPathed State.path = path-IsWellPathed
step_in-IsWellPathed State.cannot_be_base = cannot_be_base-IsWellPathed
step_in-IsWellPathed State.query = query-IsWellPathed
step_in-IsWellPathed State.fragment = fragment-IsWellPathed

-- A record that a round returns has a well-formed path.
pub step-IsWellPathed :
    (x : Context) (m : Machine) (url : Url)
    → PathFits x m
    → step x m ≡ return url
    → IsWellPathed url
step-IsWellPathed x m url p h =
    step_in-IsWellPathed m.state x m url (get_elem? x.input m.index) refl p h
