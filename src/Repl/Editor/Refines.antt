-- ===== src/Repl/Editor/Refines.antt =====
-- What keys do to a line with a cursor, and that the callback of `emitKeys` in lib/repl.js does it.
use zero_archive.Prelude.{
  Text, List, ◌≡◌, ◌∷◌, [], some, none, Option, true, false, refl, arith, codes, ◌||◌, ◌==◌,
  if◌then◌else◌, length, ap, ◌∙◌, Option-cases, inl, inr,
}
use mathlib.Core.List.{append-nil}
use zero_archive.Repl.Keys.{Key, Event}
use zero_archive.Repl.Editor.{
  suc_int, pred_int, target_of, on_line, write, split_lines, write_lines, write_all, press_up,
  press_down, write_text, is_named, press_named,
}
use zero_archive.Repl.Editor.Sides.{
  Sides, editor_of, go_left, go_right, insert, remove_last, submit, recall, move_left-sides,
  move_right-sides, write-sides, erase-sides,
}

unfoldable pub insert_lines : List Text → Sides → Sides
insert_lines [] m = m
insert_lines (line ∷ lines) m = insert_lines lines (insert line (submit m))

unfoldable pub insert_all : List Text → Sides → Sides
insert_all [] m = m
insert_all (line ∷ lines) m = insert_lines lines (insert line m)

abbrev pub insert_text : Option Text → Sides → Sides
insert_text none m = m
insert_text (some s) m = if length s == 0 then m else insert_all (split_lines s) m

unfoldable pub older : Sides → Sides
older m = elim (target_of m.history m.history_index) [
  | none ↦ m
  | some line ↦ recall line (suc_int m.history_index) m
]

unfoldable pub newer : Sides → Sides
newer m =
    let index = pred_int m.history_index in
    elim (target_of m.history index) [ none ↦ recall [] index m | some line ↦ recall line index m ]

-- The key that edits a line.
unfoldable pub edit_named : Event → Sides → Sides
edit_named event m =
    if is_named event.key (codes "up")
    then older m
    else if is_named event.key (codes "down")
    then newer m
    else if is_named event.key (codes "left")
    then go_left m
    else if is_named event.key (codes "right")
    then go_right m
    else if is_named event.key (codes "backspace") || is_named event.key (codes "delete")
    then remove_last m
    else insert_text event.s m

unfoldable pub edit_control : Key → Sides → Sides
edit_control key m =
    if is_named key (codes "c") || is_named key (codes "d")
    then (if m.close_on_this_one
        then record m { stop = true }
        else record m { before = []; after = []; close_on_this_one = true })
    else m

-- A closing line is empty, so that its cursor is at its start.
unfoldable pub edit : Event → Sides → Sides
edit event m =
    if event.key.ctrl || event.key.meta
    then edit_control event.key m
    else edit_named event (record m { close_on_this_one = false })

unfoldable pub edit_all : List Event → Sides → Sides
edit_all [] m = m
edit_all (event ∷ events) m = edit_all events (edit event m)

on_line-sides : (m : Sides) → on_line (editor_of m) ≡ editor_of (submit m)
unfolding on_line editor_of
on_line-sides m = refl

write_lines-sides :
    (lines : List Text) (m : Sides)
    → write_lines lines (editor_of m) ≡ editor_of (insert_lines lines m)
unfolding write_lines insert_lines
write_lines-sides [] m = refl
write_lines-sides (line ∷ lines) m =
    ap (λ e. write_lines lines (write line e)) (on_line-sides m)
    ∙ ap (write_lines lines) (write-sides line (submit m))
    ∙ write_lines-sides lines (insert line (submit m))

write_all-sides :
    (lines : List Text) (m : Sides) → write_all lines (editor_of m) ≡ editor_of (insert_all lines m)
unfolding write_all insert_all
write_all-sides [] m = refl
write_all-sides (line ∷ lines) m =
    ap (write_lines lines) (write-sides line m) ∙ write_lines-sides lines (insert line m)

write_text-sides :
    (s : Option Text) (m : Sides) → write_text s (editor_of m) ≡ editor_of (insert_text s m)
write_text-sides none m = refl
write_text-sides (some s) m = ground (arith, write_all-sides (split_lines s) m)

press_up-sides : (m : Sides) → press_up (editor_of m) ≡ editor_of (older m)
unfolding press_up older editor_of
press_up-sides m = elim (Option-cases (target_of m.history m.history_index)) [
  | inl e ↦ ground arith
  | inr (line, e) ↦ ground (arith, append-nil line)
]

press_down-sides : (m : Sides) → press_down (editor_of m) ≡ editor_of (newer m)
unfolding press_down newer editor_of
press_down-sides m = elim (Option-cases (target_of m.history (pred_int m.history_index))) [
  | inl e ↦ ground arith
  | inr (line, e) ↦ ground (arith, append-nil line)
]

pub press_named-sides :
    (event : Event) (m : Sides) → press_named event (editor_of m) ≡ editor_of (edit_named event m)
unfolding press_named edit_named
press_named-sides event m = ground (
  arith,
  press_up-sides m,
  press_down-sides m,
  move_left-sides m,
  move_right-sides m,
  erase-sides m,
  write_text-sides event.s m,
)
