-- ===== src/Repl/Editor/Sides.antt =====
-- The line editor of lib/repl.js as the text on the two sides of its cursor.
use zero_archive.Prelude.{
  Text, List, ◌≡◌, ◌++◌, ◌∷◌, [], ℕ, refl, arith, Bool, suc, length, take, drop, drop_last, ◌-◌, ap,
  ◌∙◌, length-append,
}
use mathlib.Core.List.{append-nil, append_assoc}
use zero_archive.Repl.Editor.{ℤ, pos, Editor, move_left, move_right, write, erase}

pub record Sides : Type 0 where
  pub before : Text
  pub after : Text
  pub history : List Text
  pub history_index : ℤ
  pub stop : Bool
  pub close_on_this_one : Bool

unfoldable pub editor_of : Sides → Editor
editor_of m = record {
  buffer = m.before ++ m.after;
  cursor = length m.before;
  history = m.history;
  history_index = m.history_index;
  stop = m.stop;
  close_on_this_one = m.close_on_this_one;
}

abbrev last_of : ℕ → Text → ℕ
last_of c [] = c
last_of c (d ∷ ds) = last_of d ds

-- One character over the cursor.
unfoldable pub go_left : Sides → Sides
go_left m = elim m.before [
  | [] ↦ m
  | c ∷ cs ↦ record m { before = drop_last (c ∷ cs); after = last_of c cs ∷ m.after }
]

unfoldable pub go_right : Sides → Sides
go_right m = elim m.after [ [] ↦ m | c ∷ cs ↦ record m { before = m.before ++ c ∷ []; after = cs } ]

abbrev pub insert : Text → Sides → Sides
insert s m = record m { before = m.before ++ s }

abbrev pub remove_last : Sides → Sides
remove_last m = record m { before = drop_last m.before }

abbrev pub submit : Sides → Sides
submit m = record m {
  history = (m.before ++ m.after) ∷ m.history;
  history_index = pos 0;
  before = [];
  after = [];
}

abbrev pub recall : Text → ℤ → Sides → Sides
recall line index m = record m { before = line; after = []; history_index = index }

drop_last-last_of :
    (c : ℕ) (cs rest : Text) → drop_last (c ∷ cs) ++ last_of c cs ∷ rest ≡ (c ∷ cs) ++ rest
drop_last-last_of c [] rest = refl
drop_last-last_of c (d ∷ ds) rest = ap (λ s. c ∷ s) (drop_last-last_of d ds rest)

length-drop_last : (s : Text) → length (drop_last s) ≡ length s - 1
length-drop_last [] = omega arith
length-drop_last (c ∷ []) = omega arith
length-drop_last (c ∷ d ∷ s) = omega (arith, length-drop_last (d ∷ s))

drop-front : (s rest : Text) → drop (length s) (s ++ rest) ≡ rest
drop-front [] rest = refl
drop-front (c ∷ s) rest = drop-front s rest

take-front : (s rest : Text) → take (length s) (s ++ rest) ≡ s
take-front [] rest = refl
take-front (c ∷ s) rest = ap (λ t. c ∷ t) (take-front s rest)

take-drop_last : (s rest : Text) → take (length s - 1) (s ++ rest) ≡ drop_last s
take-drop_last [] rest = refl
take-drop_last (c ∷ []) rest = refl
take-drop_last (c ∷ d ∷ s) rest =
    let n : length (c ∷ d ∷ s) - 1 ≡ suc (length (d ∷ s) - 1) = omega arith in
    ap (λ n. take n (c ∷ d ∷ (s ++ rest))) n ∙ ap (λ t. c ∷ t) (take-drop_last (d ∷ s) rest)

-- The two operations on the text in front of the cursor, and the one on the text behind it.
move_left-before :
    (before : Text) (m : Sides)
    → move_left (editor_of (record m { before = before }))
      ≡ editor_of (go_left (record m { before = before }))
unfolding move_left editor_of go_left
move_left-before [] m = refl
move_left-before (c ∷ cs) m = ground (
  arith,
  drop_last-last_of c cs m.after,
  length-drop_last (c ∷ cs),
  length-append (c ∷ cs) m.after,
)

pub move_left-sides : (m : Sides) → move_left (editor_of m) ≡ editor_of (go_left m)
move_left-sides m = move_left-before m.before m

move_right-after :
    (after : Text) (m : Sides)
    → move_right (editor_of (record m { after = after }))
      ≡ editor_of (go_right (record m { after = after }))
unfolding move_right editor_of go_right
move_right-after [] m = ground (arith, length-append m.before [])
move_right-after (c ∷ cs) m = ground (
  arith,
  length-append m.before (c ∷ cs),
  length-append m.before (c ∷ []),
  append_assoc m.before (c ∷ []) cs,
)

pub move_right-sides : (m : Sides) → move_right (editor_of m) ≡ editor_of (go_right m)
move_right-sides m = move_right-after m.after m

write-after :
    (s after : Text) (m : Sides)
    → write s (editor_of (record m { after = after }))
      ≡ editor_of (insert s (record m { after = after }))
unfolding write editor_of
write-after s [] m = ground (
  arith,
  length-append m.before [],
  length-append m.before s,
  append-nil m.before,
  append-nil (m.before ++ s),
)
write-after s (c ∷ cs) m = ground (
  arith,
  length-append m.before (c ∷ cs),
  length-append m.before s,
  take-front m.before (c ∷ cs),
  drop-front m.before (c ∷ cs),
  append_assoc m.before s (c ∷ cs),
)

pub write-sides : (s : Text) (m : Sides) → write s (editor_of m) ≡ editor_of (insert s m)
write-sides s m = write-after s m.after m

erase-before :
    (before : Text) (m : Sides)
    → erase (editor_of (record m { before = before }))
      ≡ editor_of (remove_last (record m { before = before }))
unfolding erase editor_of move_left
erase-before [] m = refl
erase-before (c ∷ cs) m = ground (
  arith,
  take-drop_last (c ∷ cs) m.after,
  drop-front (c ∷ cs) m.after,
  length-drop_last (c ∷ cs),
  length-append (drop_last (c ∷ cs)) m.after,
)

pub erase-sides : (m : Sides) → erase (editor_of m) ≡ editor_of (remove_last m)
erase-sides m = erase-before m.before m
