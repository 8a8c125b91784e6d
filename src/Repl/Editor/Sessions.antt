-- ===== src/Repl/Editor/Sessions.antt =====
-- Whole sessions of lib/repl.js: the terminal's data, the keys that `emitKeys` makes of them, and the
-- line that the keys edit.
use zero_archive.Prelude.{
  Text, List, ◌≡◌, ◌∷◌, [], some, none, Option, true, false, refl, arith, Bool, ◌||◌, ◌&&◌, ◌==◌,
  not, if◌then◌else◌, length, ap, ◌∙◌, ◌≤◌, length-append,
}
use zero_archive.Repl.Keys.{Key, Event, Decoder, first_round, feed}
use zero_archive.Repl.Editor.{
  pos, Editor, new_editor, press_named, press_control, press, press_all, on_data, on_all_data,
  split_lines,
}
use zero_archive.Repl.Editor.Sides.{Sides, editor_of, go_left, go_right, insert, submit}
use zero_archive.Repl.Editor.Refines.{
  insert_lines, insert_all, insert_text, older, newer, edit_named, edit_control, edit, edit_all,
  press_named-sides,
}

-- While the editor waits for a second key to close, the line is empty.
unfoldable pub closes_empty : Sides → Bool
closes_empty m = not m.close_on_this_one || (length m.before == 0 && length m.after == 0)

insert_lines-open :
    (lines : List Text) (m : Sides) → (insert_lines lines m).close_on_this_one ≡ m.close_on_this_one
unfolding insert_lines
insert_lines-open [] m = refl
insert_lines-open (line ∷ lines) m = insert_lines-open lines (insert line (submit m))

insert_all-open :
    (lines : List Text) (m : Sides) → (insert_all lines m).close_on_this_one ≡ m.close_on_this_one
unfolding insert_all
insert_all-open [] m = refl
insert_all-open (line ∷ lines) m = insert_lines-open lines (insert line m)

insert_text-open :
    (s : Option Text) (m : Sides) → (insert_text s m).close_on_this_one ≡ m.close_on_this_one
insert_text-open none m = refl
insert_text-open (some s) m = ground (arith, insert_all-open (split_lines s) m)

older-open : (m : Sides) → (older m).close_on_this_one ≡ m.close_on_this_one
unfolding older
older-open m = ground arith

newer-open : (m : Sides) → (newer m).close_on_this_one ≡ m.close_on_this_one
unfolding newer
newer-open m = ground arith

go_left-open : (m : Sides) → (go_left m).close_on_this_one ≡ m.close_on_this_one
unfolding go_left
go_left-open m = ground arith

go_right-open : (m : Sides) → (go_right m).close_on_this_one ≡ m.close_on_this_one
unfolding go_right
go_right-open m = ground arith

edit_named-open :
    (event : Event) (m : Sides) → (edit_named event m).close_on_this_one ≡ m.close_on_this_one
unfolding edit_named
edit_named-open event m =
    ground (
      arith,
      older-open m,
      newer-open m,
      go_left-open m,
      go_right-open m,
      insert_text-open event.s m,
    )

edit-closes_empty :
    (event : Event) (m : Sides) → closes_empty m ≡ true → closes_empty (edit event m) ≡ true
unfolding closes_empty edit edit_control
edit-closes_empty event m h =
    ground (arith, edit_named-open event (record m { close_on_this_one = false }))

press_control-sides :
    (key : Key) (m : Sides) → press_control key (editor_of m) ≡ editor_of (edit_control key m)
unfolding press_control edit_control editor_of
press_control-sides key m = ground arith

open_again :
    (m : Sides)
    → closes_empty m ≡ true
    → (if (editor_of m).close_on_this_one
        then record (editor_of m) { cursor = 0; close_on_this_one = false }
        else editor_of m)
      ≡ editor_of (record m { close_on_this_one = false })
unfolding closes_empty editor_of
open_again m h = ground arith

press-sides :
    (event : Event) (m : Sides)
    → closes_empty m ≡ true
    → press event (editor_of m) ≡ editor_of (edit event m)
unfolding press edit
press-sides event m h = ground (
  arith,
  press_control-sides event.key m,
  ap (press_named event) (open_again m h),
  press_named-sides event (record m { close_on_this_one = false }),
)

press_all-sides :
    (events : List Event) (m : Sides)
    → closes_empty m ≡ true
    → (press_all events (editor_of m) ≡ editor_of (edit_all events m))
      × (closes_empty (edit_all events m) ≡ true)
unfolding press_all edit_all
press_all-sides [] m h = (refl, h)
press_all-sides (event ∷ events) m h =
    let p = press_all-sides events (edit event m) (edit-closes_empty event m h) in
    (ap (press_all events) (press-sides event m h) ∙ p.0, p.1)

-- The decoder and the line of a session.
unfoldable pub edit_data : Text → Decoder × Sides → Decoder × Sides
edit_data input (d, m) =
    let (d', events) = feed d input in if m.stop then (d, m) else (d', edit_all events m)

unfoldable pub edit_all_data : List Text → Decoder × Sides → Decoder × Sides
edit_all_data [] session = session
edit_all_data (input ∷ inputs) session = edit_all_data inputs (edit_data input session)

abbrev pub empty_line : Sides
empty_line = record {
  before = [];
  after = [];
  history = [];
  history_index = pos 0;
  stop = false;
  close_on_this_one = false;
}

abbrev pub shown : Decoder × Sides → Decoder × Editor
shown (d, m) = (d, editor_of m)

shown_either :
    (stop : Bool) (x y : Decoder × Editor) (s t : Decoder × Sides)
    → x ≡ shown s
    → y ≡ shown t
    → closes_empty s.1 ≡ true
    → closes_empty t.1 ≡ true
    → ((if stop then x else y) ≡ shown (if stop then s else t))
      × (closes_empty (if stop then s else t).1 ≡ true)
shown_either true x y s t p q h k = (p, h)
shown_either false x y s t p q h k = (q, k)

pub on_data-sides :
    (input : Text) (d : Decoder) (m : Sides)
    → closes_empty m ≡ true
    → (on_data input (d, editor_of m) ≡ shown (edit_data input (d, m)))
      × (closes_empty (edit_data input (d, m)).1 ≡ true)
unfolding on_data edit_data editor_of
on_data-sides input d m h =
    let p = press_all-sides (feed d input).1 m h in
    shown_either m.stop _ _ (d, m) ((feed d input).0, edit_all (feed d input).1 m) refl
      (ap (λ x. ((feed d input).0, x)) p.0) h p.1

on_all_data-sides :
    (inputs : List Text) (d : Decoder) (m : Sides)
    → closes_empty m ≡ true
    → on_all_data inputs (d, editor_of m) ≡ shown (edit_all_data inputs (d, m))
unfolding on_all_data edit_all_data
on_all_data-sides [] d m h = refl
on_all_data-sides (input ∷ inputs) d m h =
    let p = on_data-sides input d m h in
    ap (on_all_data inputs) p.0
    ∙ on_all_data-sides inputs (edit_data input (d, m)).0 (edit_data input (d, m)).1 p.1

cursor_of : (m : Sides) → (editor_of m).cursor ≤ length (editor_of m).buffer
unfolding editor_of
cursor_of m = omega (arith, length-append m.before m.after)

-- After any data from the terminal, in any pieces, the buffer is the text in front of the cursor and
-- behind it, as the keys that the data mean edit them, the history has the submitted lines, and the
-- cursor is within the buffer.
pub on_all_data-edits :
    (inputs : List Text)
    → let session = edit_all_data inputs (first_round, empty_line) in
      (on_all_data inputs (first_round, new_editor) ≡ shown session)
      × ((on_all_data inputs (first_round, new_editor)).1.cursor
          ≤ length (on_all_data inputs (first_round, new_editor)).1.buffer)
unfolding editor_of closes_empty
on_all_data-edits inputs =
    let e = on_all_data-sides inputs first_round empty_line refl in
    (e, rw e (cursor_of (edit_all_data inputs (first_round, empty_line)).1))
