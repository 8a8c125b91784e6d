-- ===== src/Url/Parse.antt =====
-- `basicURLParse` of lib/whatwg/url/parser.js: the cleaning of the input, the switch and the loop.
pub mod Measure
pub mod Induction
pub mod Safe
pub mod Alike
pub mod Consistent
pub mod ConsistentReturns
pub mod Segments
pub mod PathFits
pub mod Paths
pub mod PathReturns
pub mod Correct
pub mod Protocol
use zero_archive.Prelude.{
  ℕ, zero, suc, ◌+◌, ◌*◌, Bool, false, ◌||◌, Option, none, some, [], ◌∷◌, leb, ltb, ◌==◌,
  if◌then◌else◌, length, get_elem?, Text,
}
use zero_archive.Url.Record.{Url, empty_url}
use zero_archive.Url.Machine.{Context, Machine, State, Step, next, return, type_error}
use zero_archive.Url.Step.Scheme.{step_scheme_start, step_scheme, step_no_scheme}
use zero_archive.Url.Step.Relative.{
  step_special_relative_or_authority, step_path_or_authority, step_relative, step_relative_slash,
  step_special_authority_slashes, step_special_authority_ignore_slashes,
}
use zero_archive.Url.Step.Authority.{step_authority, step_host, step_port}
use zero_archive.Url.Step.File.{step_file, step_file_slash, step_file_host}
use zero_archive.Url.Step.Path.{
  step_path_start, step_path, step_cannot_be_base, step_query, step_fragment,
}

-- `switch (state)`
unfoldable pub step_in : State → Context → Machine → Option ℕ → Step
step_in State.scheme_start = step_scheme_start
step_in State.scheme = step_scheme
step_in State.no_scheme = step_no_scheme
step_in State.special_relative_or_authority = step_special_relative_or_authority
step_in State.path_or_authority = step_path_or_authority
step_in State.relative = step_relative
step_in State.relative_slash = step_relative_slash
step_in State.special_authority_slashes = step_special_authority_slashes
step_in State.special_authority_ignore_slashes = step_special_authority_ignore_slashes
step_in State.authority = step_authority
step_in State.host = step_host
step_in State.hostname = step_host
step_in State.port = step_port
step_in State.file = step_file
step_in State.file_slash = step_file_slash
step_in State.file_host = step_file_host
step_in State.path_start = step_path_start
step_in State.path = step_path
step_in State.cannot_be_base = step_cannot_be_base
step_in State.query = step_query
step_in State.fragment = step_fragment

abbrev pub step : Context → Machine → Step
step x m = step_in m.state x m (get_elem? x.input m.index)

-- What a call returns, or that the fuel of the model is used up.
pub data Result : Type 0 where
  parsed : Url → Result
  throws : Result
  out_of_fuel : Result

-- `while (index < length + 1)`
unfoldable pub run : ℕ → Context → Machine → Result
run zero x m = out_of_fuel
run (suc fuel) x m =
    if ltb m.index (length x.input + 1)
    then elim (step x m) [ next m' ↦ run fuel x m' | return url ↦ parsed url | type_error ↦ throws ]
    else parsed m.url

-- `[\u0000-\u001F\u0020]`, at both ends, and the tabs and line ends everywhere.
abbrev is_c0_or_space : ℕ → Bool
is_c0_or_space c = leb c 0x20

unfoldable pub strip_leading : Text → Text
strip_leading [] = []
strip_leading (c ∷ cs) = let rest = strip_leading cs in if is_c0_or_space c then rest else c ∷ cs

unfoldable pub strip_trailing : Text → Text
strip_trailing [] = []
strip_trailing (c ∷ cs) = elim (strip_trailing cs) [
  | [] ↦ if is_c0_or_space c then [] else c ∷ []
  | d ∷ ds ↦ c ∷ d ∷ ds
]

unfoldable pub remove_tabs_and_newlines : Text → Text
remove_tabs_and_newlines [] = []
remove_tabs_and_newlines (c ∷ cs) =
    let rest = remove_tabs_and_newlines cs in
    if c == 0x09 || c == 0x0a || c == 0x0d then rest else c ∷ rest

unfoldable pub clean_input : Text → Text
unfolding strip_leading strip_trailing remove_tabs_and_newlines
clean_input input = remove_tabs_and_newlines (strip_trailing (strip_leading input))

abbrev pub first_state : Option State → State
first_state none = State.scheme_start
first_state (some s) = s

abbrev pub start : Option State → Machine
start state_override = record {
  url = empty_url;
  state = first_state state_override;
  index = 0;
  buffer = [];
  at_flag = false;
  square_bracket_flag = false;
  password_token_seen_flag = false;
}

abbrev pub context : (ℕ → Text) → Text → Option Url → Option State → Context
context upper input base state_override = record {
  input = clean_input input;
  base = base;
  state_override = state_override;
  upper = upper;
}

-- Rounds for three sweeps over the input and for each change of state.
abbrev pub fuel_for : Text → ℕ
fuel_for input = 3 * length input + 40

unfoldable pub basic_url_parse : (ℕ → Text) → Text → Option Url → Option State → Result
basic_url_parse upper input base state_override =
    let x = context upper input base state_override in
    run (fuel_for x.input) x (start state_override)
