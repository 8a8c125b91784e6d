-- ===== src/Tests/Repl.antt =====
-- The theorems on lib/repl/tty.js at concrete inputs.
use zero_archive.Prelude.{length, ◌≤◌, [], List, Text, ◌≡◌, ◌++◌, ◌∷◌, codes, true, false, refl}
use zero_archive.Repl.Editor.{on_data, on_all_data, new_editor}
use zero_archive.Repl.Editor.Sides.{Sides, editor_of}
use zero_archive.Repl.Editor.Typing.{all_printable, submitted, arrow_up, typed_line_returns}
use zero_archive.Repl.Editor.Sessions.{
  closes_empty, edit_all_data, empty_line, shown, on_all_data-edits,
}
use zero_archive.Repl.Keys.{feed, first_round}
use zero_archive.Repl.Keys.Decode.{pressed}
use zero_archive.Repl.Keys.Framing.{Framed, fits, capacity, feed-Framed}
use zero_archive.Repl.Keys.Grammar.{
  Command, number_two_modified, is_command, command_text, command_code, command_modifier, escapes,
  feed-command,
}

-- The arrow up, a letter, and a sequence that is cut off.
abbrev typed : Text
typed = 0x1b ∷ codes "[Aq" ++ 0x1b ∷ codes "[24;"

first_round-fits : fits first_round ≡ true
unfolding fits capacity
first_round-fits = refl

feed-Framed_example : Framed (first_round.s ++ typed) (feed first_round typed)
feed-Framed_example = feed-Framed first_round typed first_round-fits

-- `24;5~`
abbrev control_f12 : Command
control_f12 = number_two_modified b'2' b'4' b'5' b'~'

control_f12-is_command : is_command control_f12 ≡ true
unfolding is_command
control_f12-is_command = refl

feed-command_example :
    let s = escapes false ++ b'[' ∷ command_text control_f12 in
    feed first_round s ≡ pressed s (b'[' ∷ command_code control_f12) (command_modifier control_f12)
feed-command_example = feed-command false control_f12 control_f12-is_command

-- `ab`, the arrow to the left, `c`, and Enter in a second piece.
abbrev two_inputs : List Text
two_inputs = (codes "ab" ++ 0x1b ∷ codes "[Dc") ∷ (0x0d ∷ []) ∷ []

on_all_data-edits_example :
    let session = edit_all_data two_inputs (first_round, empty_line) in
    (on_all_data two_inputs (first_round, new_editor) ≡ shown session)
    × ((on_all_data two_inputs (first_round, new_editor)).1.cursor
        ≤ length (on_all_data two_inputs (first_round, new_editor)).1.buffer)
on_all_data-edits_example = on_all_data-edits two_inputs

-- `1+|2`
abbrev open_line : Sides
open_line = record empty_line { before = codes "1+"; after = codes "2" }

open_line-closes_empty : closes_empty open_line ≡ true
unfolding closes_empty
open_line-closes_empty = refl

digits_printable : all_printable (codes "30") ≡ true
unfolding all_printable
digits_printable = refl

typed_line_returns_example :
    let line = (codes "1+" ++ codes "30") ++ codes "2" in
    let session = on_data (codes "30" ++ 0x0d ∷ []) (first_round, editor_of open_line) in
    (session ≡ (first_round, editor_of (submitted line open_line)))
    × ((on_data arrow_up session).1.buffer ≡ line)
typed_line_returns_example =
    typed_line_returns (codes "30") open_line digits_printable open_line-closes_empty refl
