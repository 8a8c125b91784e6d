-- ===== src/Repl/Editor.antt =====
-- The line editor of lib/repl.js: its variables, what a key does to them, and a line that is run.
-- What is drawn on the terminal, and what the evaluated code does, is left out: `onLine` catches
-- whatever that throws.
pub mod Sides
pub mod Refines
pub mod Sessions
pub mod Typing
use zero_archive.Prelude.{
  refl, arith, inl, inr, ◌≡◌, ◌<◌, ◌≤◌, Text, List, ◌++◌, ◌∷◌, [], some, none, Option, ℕ, true,
  false, Bool, zero, suc, same, codes, ◌||◌, ◌&&◌, ltb, ◌==◌, if◌then◌else◌, length, take, drop,
  ◌+◌, ◌-◌, get_elem?,
}
use zero_archive.Repl.Keys.{Key, Event, Decoder, feed}

-- `historyIndex`, which may be negative.
pub data ℤ : Type 0 where
  pos negsuc : ℕ → ℤ

abbrev pub suc_int : ℤ → ℤ
suc_int (pos n) = pos (n + 1)
suc_int (negsuc zero) = pos 0
suc_int (negsuc (suc n)) = negsuc n

abbrev pub pred_int : ℤ → ℤ
pred_int (pos zero) = negsuc 0
pred_int (pos (suc n)) = pos n
pred_int (negsuc n) = negsuc (n + 1)

pub record Editor : Type 0 where
  pub buffer : Text
  pub cursor : ℕ
  pub history : List Text
  pub history_index : ℤ
  pub stop : Bool
  pub close_on_this_one : Bool

abbrev pub new_editor : Editor
new_editor = record {
  buffer = [];
  cursor = 0;
  history = [];
  history_index = pos 0;
  stop = false;
  close_on_this_one = false;
}

-- `history[historyIndex]`; none is undefined or the empty string.
unfoldable pub target_of : List Text → ℤ → Option Text
target_of history (negsuc n) = none
target_of history (pos n) = elim (get_elem? history n) [
  | none ↦ none
  | some target ↦ if length target == 0 then none else some target
]

-- `moveCursor(-1)` and `moveCursor(1)`
unfoldable pub move_left : Editor → Editor
move_left e =
    if e.cursor == 0 || ltb (length e.buffer) (e.cursor - 1)
    then e
    else record e { cursor = e.cursor - 1 }

unfoldable pub move_right : Editor → Editor
move_right e =
    if ltb (length e.buffer) (e.cursor + 1) then e else record e { cursor = e.cursor + 1 }

unfoldable pub on_line : Editor → Editor
on_line e = record e {
  history = e.buffer ∷ e.history;
  history_index = pos 0;
  buffer = [];
  cursor = 0;
}

unfoldable pub write : Text → Editor → Editor
write s e =
    if ltb e.cursor (length e.buffer)
    then record e {
      buffer = take e.cursor e.buffer ++ s ++ drop e.cursor e.buffer;
      cursor = e.cursor + length s;
    }
    else record e { buffer = e.buffer ++ s; cursor = e.cursor + length s }

-- `s.split(/\r\n|\n|\r/)`
abbrev starts_line_feed : Text → Bool
starts_line_feed [] = false
starts_line_feed (c ∷ cs) = c == 0x0a

abbrev add_first : ℕ → List Text → List Text
add_first c [] = []
add_first c (line ∷ lines) = (c ∷ line) ∷ lines

unfoldable pub split_lines : Text → List Text
split_lines [] = [] ∷ []
split_lines (c ∷ cs) =
    let lines = split_lines cs in
    if c == 0x0d && starts_line_feed cs
    then lines
    else if c == 0x0d || c == 0x0a
    then [] ∷ lines
    else add_first c lines

-- The loop over the lines, from the second one on.
unfoldable pub write_lines : List Text → Editor → Editor
write_lines [] e = e
write_lines (line ∷ lines) e = write_lines lines (write line (on_line e))

unfoldable pub write_all : List Text → Editor → Editor
write_all [] e = e
write_all (line ∷ lines) e = write_lines lines (write line e)

-- The cases of `switch (key.name)`.
unfoldable pub press_up : Editor → Editor
press_up e = elim (target_of e.history e.history_index) [
  | none ↦ e
  | some target ↦ record e {
    buffer = target;
    history_index = suc_int e.history_index;
    cursor = length target;
  }
]

unfoldable pub press_down : Editor → Editor
press_down e =
    let index = pred_int e.history_index in
    elim (target_of e.history index) [
      | none ↦ record e { history_index = index; buffer = []; cursor = 0 }
      | some target ↦ record e { history_index = index; buffer = target; cursor = length target }
    ]

unfoldable pub erase : Editor → Editor
erase e =
    if e.cursor == 0
    then e
    else move_left (record e { buffer = take (e.cursor - 1) e.buffer ++ drop e.cursor e.buffer })

abbrev pub write_text : Option Text → Editor → Editor
write_text none e = e
write_text (some s) e = if length s == 0 then e else write_all (split_lines s) e

abbrev pub is_named : Key → Text → Bool
is_named key name = elim key.name [ none ↦ false | some n ↦ same n name ]

unfoldable pub press_named : Event → Editor → Editor
press_named event e =
    if is_named event.key (codes "up")
    then press_up e
    else if is_named event.key (codes "down")
    then press_down e
    else if is_named event.key (codes "left")
    then move_left e
    else if is_named event.key (codes "right")
    then move_right e
    else if is_named event.key (codes "backspace") || is_named event.key (codes "delete")
    then erase e
    else write_text event.s e

-- The branch for `ctrl` and `meta`.
unfoldable pub press_control : Key → Editor → Editor
press_control key e =
    if is_named key (codes "c") || is_named key (codes "d")
    then (if e.close_on_this_one
        then record e { stop = true }
        else record e { buffer = []; cursor = 0; close_on_this_one = true })
    else e

-- The callback of `emitKeys`.
unfoldable pub press : Event → Editor → Editor
press event e =
    if event.key.ctrl || event.key.meta
    then press_control event.key e
    else press_named event
        (if e.close_on_this_one then record e { cursor = 0; close_on_this_one = false } else e)

unfoldable pub press_all : List Event → Editor → Editor
press_all [] e = e
press_all (event ∷ events) e = press_all events (press event e)

-- The callback of `TTYWrap`. Once `stop` is set, the decoder is not called any more.
unfoldable pub on_data : Text → Decoder × Editor → Decoder × Editor
on_data input (d, e) =
    let (d', events) = feed d input in if e.stop then (d, e) else (d', press_all events e)

unfoldable pub on_all_data : List Text → Decoder × Editor → Decoder × Editor
on_all_data [] session = session
on_all_data (input ∷ inputs) session = on_all_data inputs (on_data input session)
