-- ===== src/Url/Machine.antt =====
-- The state of the loop of `basicURLParse` in lib/whatwg/url/parser.js, and what a round of it does.
use zero_archive.Prelude.{
  ℕ, ◌+◌, Bool, true, ◌&&◌, Option, none, some, get_elem?, Text, is_char, is_some,
}
use zero_archive.Url.Record.{Url}

-- The constants `STATE_*`.
pub data State : Type 0 where
  scheme_start scheme no_scheme special_relative_or_authority path_or_authority : State
  relative relative_slash special_authority_slashes special_authority_ignore_slashes : State
  authority host hostname port file file_slash file_host path_start path : State
  cannot_be_base query fragment : State

-- What the loop reads and never writes: the cleaned input, `base` (`none` is null or undefined),
-- `stateOverride` (`none` is `STATE_UNKNOWN`), and the engine's `toUpperCase` on one character.
pub record Context : Type 0 where
  pub input : Text
  pub base : Option Url
  pub state_override : Option State
  pub upper : ℕ → Text

-- What the loop writes.
pub record Machine : Type 0 where
  pub url : Url
  pub state : State
  pub index : ℕ
  pub buffer : Text
  pub at_flag : Bool
  pub square_bracket_flag : Bool
  pub password_token_seen_flag : Bool

-- A round goes on, returns the record, or throws a TypeError (a property of null or undefined).
pub data Step : Type 0 where
  next : Machine → Step
  return : Url → Step
  type_error : Step

abbrev pub has_base : Context → Bool
has_base x = is_some x.base

abbrev pub has_state_override : Context → Bool
has_state_override x = is_some x.state_override

abbrev pub special_back_slash : Machine → Option ℕ → Bool
special_back_slash m ch = m.url.special && is_char ch b'\\'

-- `state = s; break;`, with the `index += 1` behind the switch.
abbrev pub advance : Machine → State → Url → Step
advance m s u = next (record m { state = s; url = u; index = m.index + 1 })

-- `state = s; continue;`
abbrev pub stay : Machine → State → Url → Step
stay m s u = next (record m { state = s; url = u })

-- `url.failed = true; return url;`
abbrev pub fail : Url → Step
fail u = return (record u { failed = true })

-- `url.terminated = true; return url;`
abbrev pub terminate : Url → Step
terminate u = return (record u { terminated = true })

-- A property of `base` is read.
abbrev pub with_base : Context → (Url → Step) → Step
with_base x f = elim x.base [ none ↦ type_error | some base ↦ f base ]

-- `input[index + 1] === c`
abbrev pub next_is : Context → Machine → ℕ → Bool
next_is x m c = is_char (get_elem? x.input (m.index + 1)) c
