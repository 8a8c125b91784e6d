-- ===== src/Repl/Keys.antt =====
-- `emitKeys` of lib/repl/tty.js, a generator that is given one code unit at each `yield`. The places
-- where it waits are the phases of a state machine.
pub mod Names
pub mod Framing
pub mod Decode
pub mod Grammar
use zero_archive.Prelude.{
  ◌%◌, is_some, ◌+◌, ◌^◌, not, same, ◌/◌, if◌then◌else◌, ◌&&◌, ◌++◌, ◌-◌, ◌==◌, ◌||◌, codes, drop,
  length, Text, leb, some, [], ◌∷◌, true, false, zero, suc, refl, arith, inl, inr, ◌≡◌, ◌<◌, ◌≤◌,
  Bool, Option, List, ℕ, none,
}
use zero_archive.Repl.Keys.Names.{Case, cases}

abbrev pub k_escape : ℕ
k_escape = 0x1b

abbrev pub is_digit : ℕ → Bool
is_digit c = leb b'0' c && leb c b'9'

abbrev pub is_upper : ℕ → Bool
is_upper c = leb b'A' c && leb c b'Z'

abbrev pub is_letter : ℕ → Bool
is_letter c = is_upper c || (leb b'a' c && leb c b'z')

-- `key`; `name` and `code` are none for undefined.
pub record Key : Type 0 where
  pub sequence : Text
  pub name : Option Text
  pub ctrl : Bool
  pub meta : Bool
  pub shift : Bool
  pub code : Option Text

-- The arguments of a call of `cb`.
pub record Event : Type 0 where
  pub s : Option Text
  pub key : Key

-- The yields, in their order in the source.
pub data Phase : Type 0 where
  wait_first wait_escaped wait_twice wait_function wait_function_letter : Phase
  wait_csi wait_csi_bracket wait_digit wait_digits wait_modifier wait_final : Phase

-- The variables. `modifier` is the digit that the source subtracts 1 from, and 1 where it is 0.
pub record Decoder : Type 0 where
  pub phase : Phase
  pub s : Text
  pub code : Text
  pub cmd_start : ℕ
  pub modifier : ℕ

abbrev pub first_round : Decoder
first_round = record { phase = wait_first; s = []; code = []; cmd_start = 0; modifier = 1 }

-- `modifier & mask` on the bit `k`, where `modifier` is -1 for the digit 0.
unfoldable pub modifier_bit : ℕ → ℕ → Bool
modifier_bit k digit = digit == 0 || (digit - 1) / 2 ^ k % 2 == 1

unfoldable pub find_case : Text → List Case → Option Case
find_case code [] = none
find_case code (c ∷ rest) =
    let found = find_case code rest in if same c.code code then some c else found

-- `switch (code)`; its default is the text `undefined`.
unfoldable pub key_of_code : Text → Text → ℕ → Key
unfolding modifier_bit find_case cases
key_of_code s code modifier = elim (find_case code cases) [
  | none ↦ record {
    sequence = s;
    name = some (codes "undefined");
    ctrl = modifier_bit 2 modifier;
    meta = modifier_bit 1 modifier || modifier_bit 3 modifier;
    shift = modifier_bit 0 modifier;
    code = some code;
  }
  | some c ↦ record {
    sequence = s;
    name = some c.name;
    ctrl = c.ctrl || modifier_bit 2 modifier;
    meta = modifier_bit 1 modifier || modifier_bit 3 modifier;
    shift = c.shift || modifier_bit 0 modifier;
    code = some code;
  }
]

abbrev named : Text → Option Text → Bool → Bool → Bool → Key
named s name ctrl meta shift = record {
  sequence = s;
  name = name;
  ctrl = ctrl;
  meta = meta;
  shift = shift;
  code = none;
}

-- The branches behind the escape sequences.
unfoldable pub key_of_char : Bool → Text → ℕ → Key
key_of_char escaped s ch =
    if ch == 0x0d
    then named s (some (codes "return")) false false false
    else if ch == 0x0a
    then named s (some (codes "enter")) false false false
    else if ch == 0x09
    then named s (some (codes "tab")) false false false
    else if ch == 0x08 || ch == 0x7f
    then named s (some (codes "backspace")) false escaped false
    else if ch == k_escape
    then named s (some (codes "escape")) false escaped false
    else if ch == b' '
    then named s (some (codes "space")) false escaped false
    else if not escaped && leb ch 0x1a
    then named s (some ((ch + b'a' - 1) ∷ [])) true false false
    else if is_digit ch || is_letter ch
    then named s (some ((if is_upper ch then ch + 0x20 else ch) ∷ [])) false escaped (is_upper ch)
    else named s none false escaped false

-- The two calls of `cb`.
unfoldable pub emit : Bool → Text → Key → List Event
emit escaped s key =
    if not (length s == 0) && (is_some key.name || escaped)
    then record { s = if escaped then none else some s; key = key } ∷ []
    else if length s == 1
    then record { s = some s; key = key } ∷ []
    else []

-- The end of a round: `cb` is called, and the next round waits.
abbrev pub end_char : Bool → Text → ℕ → Decoder × List Event
end_char escaped s ch = (first_round, emit escaped s (key_of_char escaped s ch))

abbrev pub end_code : Text → Text → ℕ → Decoder × List Event
end_code s code modifier = (first_round, emit true s (key_of_code s code modifier))

abbrev is_final : ℕ → Bool
is_final c = c == b'~' || c == b'^' || c == b'$'

abbrev digit_of : ℕ → ℕ
digit_of c = c - b'0'

-- `(;(\d))?([~^$])$`, behind the digits.
unfoldable pub match_number_end : Text → Text → Option (Text × ℕ)
match_number_end digits (f ∷ []) = if is_final f then some (digits ++ f ∷ [], 1) else none
match_number_end digits (c ∷ m ∷ f ∷ []) =
    if c == b';' && is_digit m && is_final f then some (digits ++ f ∷ [], digit_of m) else none
match_number_end digits _ = none

-- `/^(\d\d?)(;(\d))?([~^$])$/`: the first and the last group, and the digit.
unfoldable pub match_number : Text → Option (Text × ℕ)
unfolding match_number_end
match_number (a ∷ b ∷ cmd) =
    if is_digit a
    then (if is_digit b
        then match_number_end (a ∷ b ∷ []) cmd
        else match_number_end (a ∷ []) (b ∷ cmd))
    else none
match_number _ = none

-- `/^((\d;)?(\d))?([A-Za-z])$/`
unfoldable pub match_letter : Text → Option (Text × ℕ)
match_letter (l ∷ []) = if is_letter l then some (l ∷ [], 1) else none
match_letter (m ∷ l ∷ []) = if is_digit m && is_letter l then some (l ∷ [], digit_of m) else none
match_letter (a ∷ c ∷ m ∷ l ∷ []) =
    if is_digit a && c == b';' && is_digit m && is_letter l then some (l ∷ [], digit_of m) else none
match_letter _ = none

-- What `cmd` adds to the code, and the modifier.
unfoldable pub match_cmd : Text → Text × ℕ
unfolding match_number match_letter
match_cmd cmd = elim (match_number cmd) [
  | some m ↦ m
  | none ↦ elim (match_letter cmd) [ some m ↦ m | none ↦ (cmd, 1) ]
]

unfoldable pub end_cmd : Decoder → Text → Decoder × List Event
unfolding match_cmd
end_cmd d s =
    let (more, modifier) = match_cmd (drop d.cmd_start s) in end_code s (d.code ++ more) modifier

abbrev pub wait : Decoder → Phase → Text → Decoder × List Event
wait d phase s = (record d { phase = phase; s = s }, [])

-- From `if (ch === ';')` on.
unfoldable pub after_digits : Decoder → Text → ℕ → Decoder × List Event
unfolding end_cmd
after_digits d s ch = if ch == b';' then wait d wait_modifier s else end_cmd d s

-- From `const cmdStart` on.
unfoldable pub start_cmd : Decoder → Text → ℕ → Decoder × List Event
unfolding after_digits
start_cmd d s ch =
    let d' = record d { cmd_start = length s - 1 } in
    if is_digit ch then wait d' wait_digit s else after_digits d' s ch

-- From `if (escaped && …)` on, behind an escape character.
unfoldable pub after_escape : Decoder → Text → ℕ → Decoder × List Event
after_escape d s ch =
    if ch == b'O'
    then wait (record d { code = ch ∷ [] }) wait_function s
    else if ch == b'['
    then wait (record d { code = ch ∷ [] }) wait_csi s
    else end_char true s ch

-- From a `yield` to the next one.
unfoldable pub resume : Decoder → Phase → Text → ℕ → Decoder × List Event
unfolding after_escape start_cmd
resume d wait_first s ch = if ch == k_escape then wait d wait_escaped s else end_char false s ch
resume d wait_escaped s ch = if ch == k_escape then wait d wait_twice s else after_escape d s ch
resume d wait_twice s ch = after_escape d s ch
resume d wait_function s ch =
    if is_digit ch
    then wait (record d { modifier = digit_of ch }) wait_function_letter s
    else end_code s (d.code ++ ch ∷ []) d.modifier
resume d wait_function_letter s ch = end_code s (d.code ++ ch ∷ []) d.modifier
resume d wait_csi s ch =
    if ch == b'['
    then wait (record d { code = d.code ++ ch ∷ [] }) wait_csi_bracket s
    else start_cmd d s ch
resume d wait_csi_bracket s ch = start_cmd d s ch
resume d wait_digit s ch = if is_digit ch then wait d wait_digits s else after_digits d s ch
resume d wait_digits s ch = after_digits d s ch
resume d wait_modifier s ch = if is_digit ch then wait d wait_final s else end_cmd d s
resume d wait_final s ch = end_cmd d s

-- `decoder.next(ch)`, with `s += ch`.
unfoldable pub next : Decoder → ℕ → Decoder × List Event
unfolding resume
next d ch = resume d d.phase (d.s ++ ch ∷ []) ch

unfoldable pub feed : Decoder → Text → Decoder × List Event
feed d [] = (d, [])
feed d (ch ∷ rest) =
    let (d', events) = next d ch in let (d'', more) = feed d' rest in (d'', events ++ more)
