-- ===== src/Url/Parse/Measure.antt =====
-- A number that every round of the loop of `basicURLParse` makes smaller.
use zero_archive.Prelude.{
  ℕ, zero, suc, ◌+◌, ◌-◌, ◌*◌, ◌≤◌, ◌<◌, ◌≡◌, ◌≢◌, inl, inr, Bool-cases, refl, Option, none, some,
  arith, ltb, if◌then◌else◌, length, get_elem?, Text,
}
use zero_archive.Url.Record.{Url}
use zero_archive.Url.Machine.{Context, Machine, State, Step, next, return, type_error}
use zero_archive.Url.Step.Scheme.{
  step_scheme_start, step_scheme, step_no_scheme, after_scheme, end_scheme, no_scheme_base,
}
use zero_archive.Url.Step.Relative.{
  step_special_relative_or_authority, step_path_or_authority, step_relative, step_relative_slash,
  step_special_authority_slashes, step_special_authority_ignore_slashes, relative_base,
}
use zero_archive.Url.Step.Authority.{
  host_colon, end_host, step_authority, step_host, step_port, host_character, port_digit, end_port,
}
use zero_archive.Url.Step.File.{
  step_file, step_file_slash, step_file_host, file_switch, file_slash_base, end_file_host,
}
use zero_archive.Url.Step.Path.{
  step_path_start, step_path, step_cannot_be_base, step_query, step_fragment, after_segment,
}
use zero_archive.Url.Parse.{
  step_in, step, run, parsed, throws, out_of_fuel, start, basic_url_parse, fuel_for, context,
}

-- The position of a state in an order in which the parser only goes down.
unfoldable pub rank : State → ℕ
rank State.scheme_start = 20
rank State.scheme = 19
rank State.no_scheme = 18
rank State.special_relative_or_authority = 17
rank State.path_or_authority = 16
rank State.relative = 15
rank State.relative_slash = 14
rank State.special_authority_slashes = 13
rank State.special_authority_ignore_slashes = 12
rank State.authority = 11
rank State.host = 10
rank State.hostname = 10
rank State.port = 9
rank State.file = 8
rank State.file_slash = 7
rank State.file_host = 6
rank State.path_start = 5
rank State.path = 4
rank State.cannot_be_base = 3
rank State.query = 2
rank State.fragment = 1

-- How often the parser can still go back: to the start of the input from STATE_SCHEME, and to the
-- start of the host from STATE_AUTHORITY.
unfoldable pub sweeps : State → ℕ
unfolding rank
sweeps s = if ltb 18 (rank s) then 2 else if ltb 10 (rank s) then 1 else 0

unfoldable pub measure_at : ℕ → State → ℕ → ℕ
unfolding rank sweeps
measure_at size s index = sweeps s * size + rank s + (size - index)

unfoldable pub measure : Context → Machine → ℕ
unfolding measure_at
measure x m = measure_at (length x.input + 1) m.state m.index

abbrev Shrinks : (Context → Machine → Option ℕ → Step) → State → Type 0
Shrinks f s =
    (x : Context) (m m' : Machine) (ch : Option ℕ)
    → m.state ≡ s
    → m.index < length x.input + 1
    → f x m ch ≡ next m'
    → measure x m' < measure x m

scheme_start-Shrinks : Shrinks step_scheme_start State.scheme_start
unfolding measure step_scheme_start
scheme_start-Shrinks x m m' ch s l h = ground arith

scheme-Shrinks : Shrinks step_scheme State.scheme
unfolding measure step_scheme end_scheme after_scheme
scheme-Shrinks x m m' ch s l h = ground arith

no_scheme-Shrinks : Shrinks step_no_scheme State.no_scheme
unfolding measure step_no_scheme no_scheme_base
no_scheme-Shrinks x m m' ch s l h = ground arith

special_relative_or_authority-Shrinks :
    Shrinks step_special_relative_or_authority State.special_relative_or_authority
unfolding measure step_special_relative_or_authority
special_relative_or_authority-Shrinks x m m' ch s l h = ground arith

path_or_authority-Shrinks : Shrinks step_path_or_authority State.path_or_authority
unfolding measure step_path_or_authority
path_or_authority-Shrinks x m m' ch s l h = ground arith

relative-Shrinks : Shrinks step_relative State.relative
unfolding measure step_relative relative_base
relative-Shrinks x m m' ch s l h = ground arith

relative_slash-Shrinks : Shrinks step_relative_slash State.relative_slash
unfolding measure step_relative_slash
relative_slash-Shrinks x m m' ch s l h = ground arith

special_authority_slashes-Shrinks :
    Shrinks step_special_authority_slashes State.special_authority_slashes
unfolding measure step_special_authority_slashes
special_authority_slashes-Shrinks x m m' ch s l h = ground arith

special_authority_ignore_slashes-Shrinks :
    Shrinks step_special_authority_ignore_slashes State.special_authority_ignore_slashes
unfolding measure step_special_authority_ignore_slashes
special_authority_ignore_slashes-Shrinks x m m' ch s l h = ground arith

authority-Shrinks : Shrinks step_authority State.authority
unfolding measure step_authority
authority-Shrinks x m m' ch s l h = ground arith

host-Shrinks : Shrinks step_host State.host
unfolding measure step_host host_colon end_host host_character
host-Shrinks x m m' ch s l h = ground arith

hostname-Shrinks : Shrinks step_host State.hostname
unfolding measure step_host host_colon end_host host_character
hostname-Shrinks x m m' ch s l h = ground arith

port-Shrinks : Shrinks step_port State.port
unfolding measure step_port port_digit end_port
port-Shrinks x m m' ch s l h = ground arith

file-Shrinks : Shrinks step_file State.file
unfolding measure step_file file_switch
file-Shrinks x m m' ch s l h = ground arith

file_slash-Shrinks : Shrinks step_file_slash State.file_slash
unfolding measure step_file_slash file_slash_base
file_slash-Shrinks x m m' ch s l h = ground arith

file_host-Shrinks : Shrinks step_file_host State.file_host
unfolding measure step_file_host end_file_host
file_host-Shrinks x m m' ch s l h = ground arith

path_start-Shrinks : Shrinks step_path_start State.path_start
unfolding measure step_path_start
path_start-Shrinks x m m' ch s l h = ground arith

path-Shrinks : Shrinks step_path State.path
unfolding measure step_path after_segment
path-Shrinks x m m' ch s l h = ground arith

cannot_be_base-Shrinks : Shrinks step_cannot_be_base State.cannot_be_base
unfolding measure step_cannot_be_base
cannot_be_base-Shrinks x m m' ch s l h = ground arith

query-Shrinks : Shrinks step_query State.query
unfolding measure step_query
query-Shrinks x m m' ch s l h = ground arith

fragment-Shrinks : Shrinks step_fragment State.fragment
unfolding measure step_fragment
fragment-Shrinks x m m' ch s l h = ground arith

step_in-Shrinks : (s : State) → Shrinks (step_in s) s
unfolding step_in
step_in-Shrinks State.scheme_start = scheme_start-Shrinks
step_in-Shrinks State.scheme = scheme-Shrinks
step_in-Shrinks State.no_scheme = no_scheme-Shrinks
step_in-Shrinks State.special_relative_or_authority = special_relative_or_authority-Shrinks
step_in-Shrinks State.path_or_authority = path_or_authority-Shrinks
step_in-Shrinks State.relative = relative-Shrinks
step_in-Shrinks State.relative_slash = relative_slash-Shrinks
step_in-Shrinks State.special_authority_slashes = special_authority_slashes-Shrinks
step_in-Shrinks State.special_authority_ignore_slashes = special_authority_ignore_slashes-Shrinks
step_in-Shrinks State.authority = authority-Shrinks
step_in-Shrinks State.host = host-Shrinks
step_in-Shrinks State.hostname = hostname-Shrinks
step_in-Shrinks State.port = port-Shrinks
step_in-Shrinks State.file = file-Shrinks
step_in-Shrinks State.file_slash = file_slash-Shrinks
step_in-Shrinks State.file_host = file_host-Shrinks
step_in-Shrinks State.path_start = path_start-Shrinks
step_in-Shrinks State.path = path-Shrinks
step_in-Shrinks State.cannot_be_base = cannot_be_base-Shrinks
step_in-Shrinks State.query = query-Shrinks
step_in-Shrinks State.fragment = fragment-Shrinks

-- A round that goes on makes the measure smaller.
pub step-measure :
    (x : Context) (m m' : Machine)
    → m.index < length x.input + 1
    → step x m ≡ next m'
    → measure x m' < measure x m
step-measure x m m' l h = step_in-Shrinks m.state x m m' (get_elem? x.input m.index) refl l h

sweeps-le : (s : State) → sweeps s ≤ 2
unfolding sweeps
sweeps-le s = ground arith

rank-le : (s : State) → rank s ≤ 20
unfolding rank
rank-le State.scheme_start = omega arith
rank-le _ = omega arith

pub measure-start : (x : Context) (s : Option State) → measure x (start s) < 3 * length x.input + 40
unfolding measure
measure-start x none = omega arith
measure-start x (some s) =
    let le : sweeps s * (length x.input + 1) ≤ 2 * (length x.input + 1) =
      grind (arith, sweeps-le s) in
    omega (arith, le, rank-le s)

run_enough :
    (fuel : ℕ) (x : Context) (m : Machine) → measure x m < fuel → run fuel x m ≢ out_of_fuel
unfolding run
run_enough zero x m h = absurd (omega arith)
run_enough (suc fuel) x m h = elim (Bool-cases (ltb m.index (length x.input + 1))) [
  | inl l ↦ rw l (go_on (ground arith) (step x m) refl (run_enough fuel x))
  | inr l ↦ rw l (λ e. cc)
]
  where
    go_on :
        m.index < length x.input + 1
        → (s : Step) → step x m ≡ s
        → ((m' : Machine) → measure x m' < fuel → run fuel x m' ≢ out_of_fuel)
        → elim s [ next m' ↦ run fuel x m' | return url ↦ parsed url | type_error ↦ throws ]
          ≢ out_of_fuel
    go_on l (next m') e ih = ih m' (omega (arith, step-measure x m m' l e))
    go_on l (return url) e ih = λ p. cc
    go_on l type_error e ih = λ p. cc

-- With any base and any override `basicURLParse` ends: the fuel of the model, three times the
-- length of the cleaned input and 40, is not used up.
pub basic_url_parse-ends :
    (upper : ℕ → Text) (input : Text) (base : Option Url) (state_override : Option State)
    → basic_url_parse upper input base state_override ≢ out_of_fuel
unfolding basic_url_parse
basic_url_parse-ends upper input base state_override =
    let x = context upper input base state_override in
    run_enough (fuel_for x.input) x (start state_override) (measure-start x state_override)
