-- ===== src/Url/Parse/ConsistentReturns.antt =====
-- The records that a round of `basicURLParse` returns agree in scheme, `special` and port.
use zero_archive.Prelude.{ℕ, ◌≡◌, refl, Option, [], ◌∷◌, ◌++◌, arith, get_elem?}
use zero_archive.Url.Record.{Url}
use zero_archive.Url.Machine.{Context, Machine, State, Step, return}
use zero_archive.Url.Step.Scheme.{
  step_scheme_start, step_scheme, step_no_scheme, after_scheme, end_scheme, no_scheme_base,
  base_has_scheme,
}
use zero_archive.Url.Step.Relative.{
  step_special_relative_or_authority, step_path_or_authority, step_relative, step_relative_slash,
  step_special_authority_slashes, step_special_authority_ignore_slashes, relative_base,
}
use zero_archive.Url.Step.Authority.{
  host_colon, end_host, step_authority, step_host, step_port, host_character, port_digit, end_port,
}
use zero_archive.Url.Step.File.{
  step_file, step_file_slash, step_file_host, file_switch, file_slash_base, end_file_host,
  file_base,
}
use zero_archive.Url.Step.Path.{
  step_path_start, step_path, step_cannot_be_base, step_query, step_fragment, after_segment,
}
use zero_archive.Url.Parse.{step_in, step}
use zero_archive.Url.Parse.Consistent.{
  IsConsistent, Agrees, before_port, port_fits, normalize_port-none,
}

abbrev Returns : (Context → Machine → Option ℕ → Step) → State → Type 0
Returns f s =
    (x : Context) (m : Machine) (url : Url) (ch : Option ℕ)
    → m.state ≡ s
    → Agrees x m
    → f x m ch ≡ return url
    → IsConsistent url

scheme_start-IsConsistent : Returns step_scheme_start State.scheme_start
unfolding port_fits before_port step_scheme_start
scheme_start-IsConsistent x m url ch s r h = ground arith

scheme-IsConsistent : Returns step_scheme State.scheme
unfolding port_fits before_port step_scheme end_scheme after_scheme base_has_scheme
scheme-IsConsistent x m url ch s r h = ground (arith, normalize_port-none (m.buffer ++ b':' ∷ []))

no_scheme-IsConsistent : Returns step_no_scheme State.no_scheme
unfolding port_fits before_port step_no_scheme no_scheme_base
no_scheme-IsConsistent x m url ch s r h = ground arith

special_relative_or_authority-IsConsistent :
    Returns step_special_relative_or_authority State.special_relative_or_authority
unfolding port_fits before_port step_special_relative_or_authority
special_relative_or_authority-IsConsistent x m url ch s r h = ground arith

path_or_authority-IsConsistent : Returns step_path_or_authority State.path_or_authority
unfolding port_fits before_port step_path_or_authority
path_or_authority-IsConsistent x m url ch s r h = ground arith

relative-IsConsistent : Returns step_relative State.relative
unfolding port_fits before_port step_relative relative_base
relative-IsConsistent x m url ch s r h = ground arith

relative_slash-IsConsistent : Returns step_relative_slash State.relative_slash
unfolding port_fits before_port step_relative_slash
relative_slash-IsConsistent x m url ch s r h = ground arith

special_authority_slashes-IsConsistent :
    Returns step_special_authority_slashes State.special_authority_slashes
unfolding port_fits before_port step_special_authority_slashes
special_authority_slashes-IsConsistent x m url ch s r h = ground arith

special_authority_ignore_slashes-IsConsistent :
    Returns step_special_authority_ignore_slashes State.special_authority_ignore_slashes
unfolding port_fits before_port step_special_authority_ignore_slashes
special_authority_ignore_slashes-IsConsistent x m url ch s r h = ground arith

authority-IsConsistent : Returns step_authority State.authority
unfolding port_fits before_port step_authority
authority-IsConsistent x m url ch s r h = ground arith

host-IsConsistent : Returns step_host State.host
unfolding port_fits before_port step_host host_colon end_host host_character
host-IsConsistent x m url ch s r h = ground arith

hostname-IsConsistent : Returns step_host State.hostname
unfolding port_fits before_port step_host host_colon end_host host_character
hostname-IsConsistent x m url ch s r h = ground arith

port-IsConsistent : Returns step_port State.port
unfolding port_fits before_port step_port port_digit end_port
port-IsConsistent x m url ch s r h = ground arith

file-IsConsistent : Returns step_file State.file
unfolding port_fits before_port step_file file_switch file_base
file-IsConsistent x m url ch s r h = ground arith

file_slash-IsConsistent : Returns step_file_slash State.file_slash
unfolding port_fits before_port step_file_slash file_slash_base file_base
file_slash-IsConsistent x m url ch s r h = ground arith

file_host-IsConsistent : Returns step_file_host State.file_host
unfolding port_fits before_port step_file_host end_file_host
file_host-IsConsistent x m url ch s r h = ground arith

path_start-IsConsistent : Returns step_path_start State.path_start
unfolding port_fits before_port step_path_start
path_start-IsConsistent x m url ch s r h = ground arith

path-IsConsistent : Returns step_path State.path
unfolding port_fits before_port step_path after_segment
path-IsConsistent x m url ch s r h = ground arith

cannot_be_base-IsConsistent : Returns step_cannot_be_base State.cannot_be_base
unfolding port_fits before_port step_cannot_be_base
cannot_be_base-IsConsistent x m url ch s r h = ground arith

query-IsConsistent : Returns step_query State.query
unfolding port_fits before_port step_query
query-IsConsistent x m url ch s r h = ground arith

fragment-IsConsistent : Returns step_fragment State.fragment
unfolding port_fits before_port step_fragment
fragment-IsConsistent x m url ch s r h = ground arith

step_in-IsConsistent : (s : State) → Returns (step_in s) s
unfolding step_in
step_in-IsConsistent State.scheme_start = scheme_start-IsConsistent
step_in-IsConsistent State.scheme = scheme-IsConsistent
step_in-IsConsistent State.no_scheme = no_scheme-IsConsistent
step_in-IsConsistent State.special_relative_or_authority =
    special_relative_or_authority-IsConsistent
step_in-IsConsistent State.path_or_authority = path_or_authority-IsConsistent
step_in-IsConsistent State.relative = relative-IsConsistent
step_in-IsConsistent State.relative_slash = relative_slash-IsConsistent
step_in-IsConsistent State.special_authority_slashes = special_authority_slashes-IsConsistent
step_in-IsConsistent State.special_authority_ignore_slashes =
    special_authority_ignore_slashes-IsConsistent
step_in-IsConsistent State.authority = authority-IsConsistent
step_in-IsConsistent State.host = host-IsConsistent
step_in-IsConsistent State.hostname = hostname-IsConsistent
step_in-IsConsistent State.port = port-IsConsistent
step_in-IsConsistent State.file = file-IsConsistent
step_in-IsConsistent State.file_slash = file_slash-IsConsistent
step_in-IsConsistent State.file_host = file_host-IsConsistent
step_in-IsConsistent State.path_start = path_start-IsConsistent
step_in-IsConsistent State.path = path-IsConsistent
step_in-IsConsistent State.cannot_be_base = cannot_be_base-IsConsistent
step_in-IsConsistent State.query = query-IsConsistent
step_in-IsConsistent State.fragment = fragment-IsConsistent

-- A record that a round returns is consistent too.
pub step-IsConsistent :
    (x : Context) (m : Machine) (url : Url) → Agrees x m → step x m ≡ return url → IsConsistent url
step-IsConsistent x m url r h =
    step_in-IsConsistent m.state x m url (get_elem? x.input m.index) refl r h
