-- ===== src/Repl/Keys/Framing.antt =====
-- `emitKeys` of lib/repl/tty.js loses nothing of its input and never waits long.
use zero_archive.Prelude.{
  sym, length-append, ◌-◌, ◌∙◌, ap, ◌==◌, ◌&&◌, ◌||◌, if◌then◌else◌, length, ltb, ◌++◌, some, [],
  ◌∷◌, true, false, suc, refl, arith, ◌≡◌, ◌<◌, ◌≤◌, List, leb, Text, Bool, ℕ, none,
}
use mathlib.Core.List.{append-nil, append_assoc}
use zero_archive.Repl.Keys.{
  wait_first, wait_escaped, wait_twice, wait_function, wait_function_letter, wait_csi,
  wait_csi_bracket, wait_digit, wait_digits, wait_modifier, wait_final, Key, Event, Phase, Decoder,
  first_round, key_of_code, key_of_char, emit, end_char, end_code, end_cmd, wait, after_digits,
  start_cmd, after_escape, resume, next, feed,
}

-- The longest sequence that a phase waits with.
unfoldable pub capacity : Phase → ℕ
capacity wait_first = 0
capacity wait_escaped = 1
capacity wait_twice = 2
capacity wait_function = 3
capacity wait_function_letter = 4
capacity wait_csi = 3
capacity wait_csi_bracket = 4
capacity wait_digit = 5
capacity wait_digits = 6
capacity wait_modifier = 7
capacity wait_final = 8

unfoldable pub fits : Decoder → Bool
fits d = leb (length d.s) (capacity d.phase)

-- The sequences of the emitted keys, one behind the other.
unfoldable pub sequences : List Event → Text
sequences [] = []
sequences (e ∷ events) = e.key.sequence ++ sequences events

-- No key is made of nothing, and none of more than nine code units.
unfoldable pub all_short : List Event → Bool
all_short [] = true
all_short (e ∷ events) =
    ltb 0 (length e.key.sequence) && leb (length e.key.sequence) 9 && all_short events

-- What a piece of the round makes of the sequence `s`.
pub record Framed (s : Text) (r : Decoder × List Event) : Type 0 where
  pub fit : fits r.0 ≡ true
  pub whole : sequences r.1 ++ r.0.s ≡ s
  pub short : all_short r.1 ≡ true

Framed-if :
    (s : Text) (b : Bool) (x y : Decoder × List Event)
    → Framed s x
    → Framed s y
    → Framed s (if b then x else y)
Framed-if s true x y p q = p
Framed-if s false x y p q = q

wait-Framed :
    (d : Decoder) (phase : Phase) (s : Text) → length s ≤ capacity phase → Framed s (wait d phase s)
unfolding fits sequences all_short
wait-Framed d phase s h = record { fit = ground arith; whole = refl; short = refl }

pub emit-one :
    (escaped : Bool) (s : Text) (key : Key)
    → 0 < length s
    → (escaped || length s == 1) ≡ true
    → emit escaped s key ≡ record { s = if escaped then none else some s; key = key } ∷ []
unfolding emit
emit-one escaped s key h e = ground arith

one-Framed :
    (s : Text) (e : Event)
    → 0 < length s
    → length s ≤ 9
    → e.key.sequence ≡ s
    → Framed s (first_round, e ∷ [])
unfolding fits sequences all_short capacity
one-Framed s e h l q = record {
  fit = refl;
  whole = append-nil (e.key.sequence ++ []) ∙ append-nil e.key.sequence ∙ q;
  short = ground arith;
}

emit-Framed :
    (escaped : Bool) (s : Text) (key : Key)
    → 0 < length s
    → length s ≤ 9
    → (escaped || length s == 1) ≡ true
    → key.sequence ≡ s
    → Framed s (first_round, emit escaped s key)
emit-Framed escaped s key h l o q =
    rw (emit-one escaped s key h o)
      (one-Framed s (record { s = if escaped then none else some s; key = key }) h l q)

key_of_char-sequence :
    (escaped : Bool) (s : Text) (ch : ℕ) → (key_of_char escaped s ch).sequence ≡ s
unfolding key_of_char
key_of_char-sequence escaped s ch = ground arith

key_of_code-sequence : (s code : Text) (m : ℕ) → (key_of_code s code m).sequence ≡ s
unfolding key_of_code
key_of_code-sequence s code m = ground arith

end_char-Framed :
    (escaped : Bool) (s : Text) (ch : ℕ)
    → 0 < length s
    → length s ≤ 9
    → (escaped || length s == 1) ≡ true
    → Framed s (end_char escaped s ch)
end_char-Framed escaped s ch h l o =
    emit-Framed escaped s (key_of_char escaped s ch) h l o (key_of_char-sequence escaped s ch)

end_code-Framed :
    (s code : Text) (m : ℕ) → 0 < length s → length s ≤ 9 → Framed s (end_code s code m)
end_code-Framed s code m h l =
    emit-Framed true s (key_of_code s code m) h l refl (key_of_code-sequence s code m)

end_cmd-Framed : (d : Decoder) (s : Text) → 0 < length s → length s ≤ 9 → Framed s (end_cmd d s)
unfolding end_cmd
end_cmd-Framed d s h l = end_code-Framed s _ _ h l

after_digits-Framed :
    (d : Decoder) (s : Text) (ch : ℕ) → 0 < length s → length s ≤ 7 → Framed s (after_digits d s ch)
unfolding after_digits capacity
after_digits-Framed d s ch h l =
    Framed-if s _ _ _ (wait-Framed d wait_modifier s l) (end_cmd-Framed d s h (omega arith))

start_cmd-Framed :
    (d : Decoder) (s : Text) (ch : ℕ) → 0 < length s → length s ≤ 5 → Framed s (start_cmd d s ch)
unfolding start_cmd capacity
start_cmd-Framed d s ch h l =
    let d' = record d { cmd_start = length s - 1 } in
    Framed-if s _ _ _ (wait-Framed d' wait_digit s l) (after_digits-Framed d' s ch h (omega arith))

after_escape-Framed :
    (d : Decoder) (s : Text) (ch : ℕ) → 0 < length s → length s ≤ 3 → Framed s (after_escape d s ch)
unfolding after_escape capacity
after_escape-Framed d s ch h l =
    Framed-if s _ _ _ (wait-Framed (record d { code = ch ∷ [] }) wait_function s l) (
      Framed-if s _ _ _ (wait-Framed (record d { code = ch ∷ [] }) wait_csi s l)
        (end_char-Framed true s ch h (omega arith) refl))

resume-Framed :
    (d : Decoder) (phase : Phase) (s : Text) (ch : ℕ)
    → 0 < length s
    → length s ≤ suc (capacity phase)
    → Framed s (resume d phase s ch)
unfolding resume capacity
resume-Framed d wait_first s ch h l =
    Framed-if s _ _ _ (wait-Framed d wait_escaped s l)
      (end_char-Framed false s ch h (omega arith) (ground arith))
resume-Framed d wait_escaped s ch h l =
    Framed-if s _ _ _ (wait-Framed d wait_twice s l) (after_escape-Framed d s ch h (omega arith))
resume-Framed d wait_twice s ch h l = after_escape-Framed d s ch h l
resume-Framed d wait_function s ch h l =
    Framed-if s _ _ _ (wait-Framed (record d { modifier = ch - b'0' }) wait_function_letter s l)
      (end_code-Framed s _ _ h (omega arith))
resume-Framed d wait_function_letter s ch h l = end_code-Framed s _ _ h (omega arith)
resume-Framed d wait_csi s ch h l =
    Framed-if s _ _ _ (wait-Framed (record d { code = d.code ++ ch ∷ [] }) wait_csi_bracket s l)
      (start_cmd-Framed d s ch h (omega arith))
resume-Framed d wait_csi_bracket s ch h l = start_cmd-Framed d s ch h l
resume-Framed d wait_digit s ch h l =
    Framed-if s _ _ _ (wait-Framed d wait_digits s l) (after_digits-Framed d s ch h (omega arith))
resume-Framed d wait_digits s ch h l = after_digits-Framed d s ch h l
resume-Framed d wait_modifier s ch h l =
    Framed-if s _ _ _ (wait-Framed d wait_final s l) (end_cmd-Framed d s h (omega arith))
resume-Framed d wait_final s ch h l = end_cmd-Framed d s h l

next-Framed : (d : Decoder) (ch : ℕ) → fits d ≡ true → Framed (d.s ++ ch ∷ []) (next d ch)
unfolding next fits
next-Framed d ch f =
    resume-Framed d d.phase (d.s ++ ch ∷ []) ch (omega (arith, length-append d.s (ch ∷ [])))
      (ground (arith, length-append d.s (ch ∷ [])))

sequences-append :
    (events more : List Event) → sequences (events ++ more) ≡ sequences events ++ sequences more
unfolding sequences
sequences-append [] more = refl
sequences-append (e ∷ events) more =
    ap (λ t. e.key.sequence ++ t) (sequences-append events more)
    ∙ sym (append_assoc e.key.sequence (sequences events) (sequences more))

all_short-append :
    (events more : List Event)
    → all_short events ≡ true
    → all_short more ≡ true
    → all_short (events ++ more) ≡ true
unfolding all_short
all_short-append [] more h e = e
all_short-append (e ∷ events) more h k = ground (arith, all_short-append events more)

-- From any state in which no more has come than its phase can wait with, the sequences of the keys
-- that are emitted and the sequence that is waited with are together the old sequence and the input,
-- in order; each key has one to nine code units, and what is waited with fits its phase again. So an
-- unrecognized or broken escape sequence is emitted too, as keys, against the comment behind the calls
-- of the callback.
pub feed-Framed :
    (d : Decoder) (input : Text) → fits d ≡ true → Framed (d.s ++ input) (feed d input)
unfolding feed sequences all_short
feed-Framed d [] f = record { fit = f; whole = sym (append-nil d.s); short = refl }
feed-Framed d (ch ∷ input) f =
    let r = next d ch in
    let first = next-Framed d ch f in
    let others = feed-Framed r.0 input first.fit in
    record {
      fit = others.fit;
      whole = cc (
        sequences-append r.1 (feed r.0 input).1,
        append_assoc (sequences r.1) (sequences (feed r.0 input).1) (feed r.0 input).0.s,
        others.whole,
        append_assoc (sequences r.1) r.0.s input,
        first.whole,
        append_assoc d.s (ch ∷ []) input,
      );
      short = all_short-append r.1 (feed r.0 input).1 first.short others.short;
    }
