-- ===== src/Repl/Editor/Typing.antt =====
-- A line that is typed into lib/repl.js, submitted, and called back from the history.
use zero_archive.Prelude.{
  Text, List, ◌≡◌, ◌++◌, ◌∷◌, [], some, none, ℕ, true, false, refl, arith, Bool, same, codes, ◌&&◌,
  ◌==◌, ltb, not, if◌then◌else◌, ap, sym, ◌∙◌,
}
use mathlib.Core.List.{append-nil, append_assoc}
use zero_archive.Repl.Keys.{
  Key, Event, Decoder, first_round, key_of_char, key_of_code, find_case, emit, next, resume, feed,
}
use zero_archive.Repl.Keys.Framing.{emit-one}
use zero_archive.Repl.Keys.Names.{cases}
use zero_archive.Repl.Editor.{pos, is_named, on_data, split_lines, target_of}
use zero_archive.Repl.Editor.Sides.{Sides, editor_of, insert}
use zero_archive.Repl.Editor.Refines.{
  insert_lines, insert_all, insert_text, older, edit_named, edit, edit_all,
}
use zero_archive.Repl.Editor.Sessions.{closes_empty, edit_data, shown, on_data-sides}

-- No control character.
abbrev pub is_printable : ℕ → Bool
is_printable c = ltb 0x1f c && not (c == 0x7f)

unfoldable pub all_printable : Text → Bool
all_printable [] = true
all_printable (c ∷ cs) = is_printable c && all_printable cs

-- The event of a character alone.
abbrev typed : ℕ → Event
typed c = record { s = some (c ∷ []); key = key_of_char false (c ∷ []) c }

next-typed : (c : ℕ) → (c == 0x1b) ≡ false → next first_round c ≡ (first_round, typed c ∷ [])
unfolding next resume emit
next-typed c h = ground arith

-- A key that edits nothing but by its text.
record Writes (key : Key) : Type 0 where
  no_ctrl : key.ctrl ≡ false
  no_meta : key.meta ≡ false
  no_up : is_named key (codes "up") ≡ false
  no_down : is_named key (codes "down") ≡ false
  no_left : is_named key (codes "left") ≡ false
  no_right : is_named key (codes "right") ≡ false
  no_backspace : is_named key (codes "backspace") ≡ false
  no_delete : is_named key (codes "delete") ≡ false

printable-Writes : (c : ℕ) → is_printable c ≡ true → Writes (key_of_char false (c ∷ []) c)
unfolding key_of_char same
printable-Writes c h = record {
  no_ctrl = ground arith;
  no_meta = ground arith;
  no_up = ground arith;
  no_down = ground arith;
  no_left = ground arith;
  no_right = ground arith;
  no_backspace = ground arith;
  no_delete = ground arith;
}

abbrev opened : Sides → Sides
opened m = record m { close_on_this_one = false }

edit-Writes :
    (event : Event) (m : Sides) → Writes event.key → edit event m ≡ insert_text event.s (opened m)
unfolding edit edit_named
edit-Writes event m w = ground arith

split_lines-one : (c : ℕ) → is_printable c ≡ true → split_lines (c ∷ []) ≡ (c ∷ []) ∷ []
unfolding split_lines
split_lines-one c h = ground arith

edit-typed :
    (c : ℕ) (m : Sides) → is_printable c ≡ true → edit (typed c) m ≡ insert (c ∷ []) (opened m)
unfolding insert_all insert_lines
edit-typed c m h =
    edit-Writes (typed c) m (printable-Writes c h)
    ∙ ap (λ lines. insert_all lines (opened m)) (split_lines-one c h)

-- The line is in the history, and a new one is empty.
abbrev pub submitted : Text → Sides → Sides
submitted line m = record m {
  history = line ∷ m.history;
  history_index = pos 0;
  before = [];
  after = [];
  close_on_this_one = false;
}

edit-return : (m : Sides) → edit (typed 0x0d) m ≡ submitted (m.before ++ m.after) m
unfolding key_of_char same edit edit_named insert_all insert_lines split_lines
edit-return m = ap (λ s. submitted (s ++ m.after) m) (append-nil m.before)

-- The events of a line and Enter.
unfoldable typed_line : Text → List Event
typed_line [] = typed 0x0d ∷ []
typed_line (c ∷ cs) = typed c ∷ typed_line cs

abbrev feed_behind : Text → Decoder × List Event → Decoder × List Event
feed_behind rest (d, events) = let (d', more) = feed d rest in (d', events ++ more)

feed-typed_line :
    (s : Text)
    → all_printable s ≡ true
    → feed first_round (s ++ 0x0d ∷ []) ≡ (first_round, typed_line s)
unfolding feed all_printable typed_line
feed-typed_line [] h = ap (feed_behind []) (next-typed 0x0d refl)
feed-typed_line (c ∷ cs) h =
    ap (feed_behind (cs ++ 0x0d ∷ [])) (next-typed c (ground arith))
    ∙ ap (λ r. (r.0, typed c ∷ r.1)) (feed-typed_line cs (ground arith))

edit_all-typed_line :
    (s : Text) (m : Sides)
    → all_printable s ≡ true
    → edit_all (typed_line s) m ≡ submitted ((m.before ++ s) ++ m.after) m
unfolding edit_all all_printable typed_line
edit_all-typed_line [] m h =
    edit-return m ∙ ap (λ s. submitted (s ++ m.after) m) (sym (append-nil m.before))
edit_all-typed_line (c ∷ cs) m h =
    ap (edit_all (typed_line cs)) (edit-typed c m (ground arith))
    ∙ edit_all-typed_line cs (insert (c ∷ []) (opened m)) (ground arith)
    ∙ ap (λ s. submitted (s ++ m.after) m) (append_assoc m.before (c ∷ []) cs)

-- The arrow up.
abbrev pub arrow_up : Text
arrow_up = 0x1b ∷ b'[' ∷ b'A' ∷ []

abbrev up_key : Key
up_key = key_of_code arrow_up (codes "[A") 1

abbrev up_event : Event
up_event = record { s = none; key = up_key }

feed-arrow_up : feed first_round arrow_up ≡ (first_round, up_event ∷ [])
unfolding feed next resume
feed-arrow_up =
    ap (λ events. (first_round, events ++ [])) (emit-one true arrow_up up_key (omega arith) refl)

edit-up_event : (m : Sides) → edit up_event m ≡ older (opened m)
unfolding edit edit_named key_of_code find_case cases same
edit-up_event m = refl

older-submitted :
    (line : Text) (m : Sides)
    → (older (submitted line m)).before ++ (older (submitted line m)).after ≡ line
unfolding older target_of
older-submitted [] m = refl
older-submitted (c ∷ cs) m = ground (arith, append-nil (c ∷ cs))

edit_data-open :
    (input : Text) (d d' : Decoder) (m : Sides) (events : List Event)
    → m.stop ≡ false
    → feed d input ≡ (d', events)
    → edit_data input (d, m) ≡ (d', edit_all events m)
unfolding edit_data
edit_data-open input d d' m events h e =
    ap (λ b. if b then (d, m) else ((feed d input).0, edit_all (feed d input).1 m)) h
    ∙ ap (λ r. (r.0, edit_all r.1 m)) e

on_data-open :
    (input : Text) (m : Sides) (events : List Event)
    → closes_empty m ≡ true
    → m.stop ≡ false
    → feed first_round input ≡ (first_round, events)
    → on_data input (first_round, editor_of m) ≡ (first_round, editor_of (edit_all events m))
on_data-open input m events c h e =
    (on_data-sides input first_round m c).0
    ∙ ap shown (edit_data-open input first_round first_round m events h e)

-- A text without control characters and Enter, typed at the cursor of a line, put the whole line with
-- the text into the history and leave an empty line; the arrow up then brings the line back.
pub typed_line_returns :
    (s : Text) (m : Sides)
    → all_printable s ≡ true
    → closes_empty m ≡ true
    → m.stop ≡ false
    → let line = (m.before ++ s) ++ m.after in
      let session = on_data (s ++ 0x0d ∷ []) (first_round, editor_of m) in
      (session ≡ (first_round, editor_of (submitted line m)))
      × ((on_data arrow_up session).1.buffer ≡ line)
unfolding edit_all closes_empty editor_of
typed_line_returns s m p c h =
    let line = (m.before ++ s) ++ m.after in
    let first =
      on_data-open (s ++ 0x0d ∷ []) m (typed_line s) c h (feed-typed_line s p)
      ∙ ap (λ n. (first_round, editor_of n)) (edit_all-typed_line s m p) in
    (
      first,
      ap (λ session. (on_data arrow_up session).1.buffer) first
          ∙ ap (λ session. session.1.buffer)
              (on_data-open arrow_up (submitted line m) (up_event ∷ []) refl h feed-arrow_up)
          ∙ ap (λ n. n.before ++ n.after) (edit-up_event (submitted line m))
          ∙ older-submitted line m,
    )
