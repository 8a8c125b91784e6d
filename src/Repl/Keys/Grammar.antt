-- ===== src/Repl/Keys/Grammar.antt =====
-- The control sequences of terminals, as the comments of `emitKeys` in lib/repl/tty.js describe them,
-- and the keys that it makes of them.
use zero_archive.Prelude.{
  ◌++◌, ◌==◌, refl, List, false, ◌&&◌, [], ◌∷◌, true, arith, ◌≡◌, Bool, Text, ℕ,
}
use zero_archive.Repl.Keys.{
  first_round, wait_csi, after_escape, Event, resume, k_escape, Decoder, feed, next, is_digit,
  is_letter, is_final, digit_of, match_cmd, match_number, match_number_end, match_letter,
}
use zero_archive.Repl.Keys.Decode.{
  at, pressed, feed-next, feed-last, csi-digit, digit-digit, digit-semicolon, digits-semicolon,
  modifier-digit, digit-ends, digits-ends, final-ends, csi-ends,
}

-- What follows `ESC [`: `n f`, `n n f`, `n ; m f` and `n n ; m f` with an `f` of `~^$`, and `l`, `m l`
-- and `n ; m l` with a letter `l`, where `n` and `m` are digits.
pub data Command : Type 0 where
  number : ℕ → ℕ → Command
  number_two : ℕ → ℕ → ℕ → Command
  number_modified : ℕ → ℕ → ℕ → Command
  number_two_modified : ℕ → ℕ → ℕ → ℕ → Command
  letter : ℕ → Command
  letter_modified : ℕ → ℕ → Command
  letter_one_modified : ℕ → ℕ → ℕ → Command

unfoldable pub command_text : Command → Text
command_text (number n f) = n ∷ f ∷ []
command_text (number_two n k f) = n ∷ k ∷ f ∷ []
command_text (number_modified n m f) = n ∷ b';' ∷ m ∷ f ∷ []
command_text (number_two_modified n k m f) = n ∷ k ∷ b';' ∷ m ∷ f ∷ []
command_text (letter l) = l ∷ []
command_text (letter_modified m l) = m ∷ l ∷ []
command_text (letter_one_modified n m l) = n ∷ b';' ∷ m ∷ l ∷ []

-- The code has the number and what ends the sequence, and not the modifier.
unfoldable pub command_code : Command → Text
command_code (number n f) = n ∷ f ∷ []
command_code (number_two n k f) = n ∷ k ∷ f ∷ []
command_code (number_modified n m f) = n ∷ f ∷ []
command_code (number_two_modified n k m f) = n ∷ k ∷ f ∷ []
command_code (letter l) = l ∷ []
command_code (letter_modified m l) = l ∷ []
command_code (letter_one_modified n m l) = l ∷ []

unfoldable pub command_modifier : Command → ℕ
command_modifier (number_modified n m f) = digit_of m
command_modifier (number_two_modified n k m f) = digit_of m
command_modifier (letter_modified m l) = digit_of m
command_modifier (letter_one_modified n m l) = digit_of m
command_modifier _ = 1

unfoldable pub is_command : Command → Bool
is_command (number n f) = is_digit n && is_final f
is_command (number_two n k f) = is_digit n && is_digit k && is_final f
is_command (number_modified n m f) = is_digit n && is_digit m && is_final f
is_command (number_two_modified n k m f) = is_digit n && is_digit k && is_digit m && is_final f
is_command (letter l) = is_letter l
is_command (letter_modified m l) = is_digit m && is_letter l
is_command (letter_one_modified n m l) = is_digit n && is_digit m && is_letter l

match_cmd-command :
    (c : Command)
    → is_command c ≡ true
    → match_cmd (command_text c) ≡ (command_code c, command_modifier c)
unfolding match_cmd match_number match_number_end match_letter command_text command_code
    command_modifier is_command
match_cmd-command (number n f) h = ground arith
match_cmd-command (number_two n k f) h = ground arith
match_cmd-command (number_modified n m f) h = ground arith
match_cmd-command (number_two_modified n k m f) h = ground arith
match_cmd-command (letter l) h = ground arith
match_cmd-command (letter_modified m l) h = ground arith
match_cmd-command (letter_one_modified n m l) h = ground arith

-- The last character is no digit, no `;` and no `[`.
record Ends (f : ℕ) : Type 0 where
  no_digit : is_digit f ≡ false
  no_semicolon : (f == b';') ≡ false
  no_bracket : (f == b'[') ≡ false

final-Ends : (f : ℕ) → is_final f ≡ true → Ends f
final-Ends f h = ground arith

letter-Ends : (l : ℕ) → is_letter l ≡ true → Ends l
letter-Ends l h = ground arith

abbrev decoded : Text → Command → Decoder × List Event
decoded s c = pressed (s ++ command_text c) (b'[' ∷ command_code c) (command_modifier c)

command-decoded :
    (s : Text) (c : Command)
    → is_command c ≡ true
    → feed (at wait_csi s 0) (command_text c) ≡ decoded s c
unfolding command_text command_code command_modifier is_command
command-decoded s (number n f) h =
    let e = final-Ends f (ground arith) in
    feed-next _ _ n _ _ (csi-digit s [] n (ground arith)) (
      feed-last _ f _
        (digit-ends s (n ∷ []) f _ _ e.no_digit e.no_semicolon (match_cmd-command (number n f) h)))
command-decoded s (number_two n k f) h =
    let e = final-Ends f (ground arith) in
    feed-next _ _ n _ _ (csi-digit s [] n (ground arith)) (
      feed-next _ _ k _ _ (digit-digit s (n ∷ []) k (ground arith)) (
        feed-last _ f _ (
          digits-ends s (n ∷ k ∷ []) f _ _ e.no_digit e.no_semicolon
            (match_cmd-command (number_two n k f) h))))
command-decoded s (number_modified n m f) h =
    let e = final-Ends f (ground arith) in
    feed-next _ _ n _ _ (csi-digit s [] n (ground arith)) (
      feed-next _ _ b';' _ _ (digit-semicolon s (n ∷ []) b';' refl) (
        feed-next _ _ m _ _ (modifier-digit s (n ∷ b';' ∷ []) m (ground arith)) (
          feed-last _ f _ (
            final-ends s (n ∷ b';' ∷ m ∷ []) f _ _ e.no_digit e.no_semicolon
              (match_cmd-command (number_modified n m f) h)))))
command-decoded s (number_two_modified n k m f) h =
    let e = final-Ends f (ground arith) in
    feed-next _ _ n _ _ (csi-digit s [] n (ground arith)) (
      feed-next _ _ k _ _ (digit-digit s (n ∷ []) k (ground arith)) (
        feed-next _ _ b';' _ _ (digits-semicolon s (n ∷ k ∷ []) b';' refl) (
          feed-next _ _ m _ _ (modifier-digit s (n ∷ k ∷ b';' ∷ []) m (ground arith)) (
            feed-last _ f _ (
              final-ends s (n ∷ k ∷ b';' ∷ m ∷ []) f _ _ e.no_digit e.no_semicolon
                (match_cmd-command (number_two_modified n k m f) h))))))
command-decoded s (letter l) h =
    let e = letter-Ends l h in
    feed-last _ l _
      (csi-ends s l _ _ e.no_bracket e.no_digit e.no_semicolon (match_cmd-command (letter l) h))
command-decoded s (letter_modified m l) h =
    let e = letter-Ends l (ground arith) in
    feed-next _ _ m _ _ (csi-digit s [] m (ground arith)) (
      feed-last _ l _ (
        digit-ends s (m ∷ []) l _ _ e.no_digit e.no_semicolon
          (match_cmd-command (letter_modified m l) h)))
command-decoded s (letter_one_modified n m l) h =
    let e = letter-Ends l (ground arith) in
    feed-next _ _ n _ _ (csi-digit s [] n (ground arith)) (
      feed-next _ _ b';' _ _ (digit-semicolon s (n ∷ []) b';' refl) (
        feed-next _ _ m _ _ (modifier-digit s (n ∷ b';' ∷ []) m (ground arith)) (
          feed-last _ l _ (
            final-ends s (n ∷ b';' ∷ m ∷ []) l _ _ e.no_digit e.no_semicolon
              (match_cmd-command (letter_one_modified n m l) h)))))

-- One escape character, or two where the Meta key is down.
abbrev pub escapes : Bool → Text
escapes false = k_escape ∷ []
escapes true = k_escape ∷ k_escape ∷ []

-- A whole control sequence, `ESC [` or `ESC ESC [` and a command, gives one key, whose code is `[`
-- with the number or letter of the command and whose modifiers are those of its digit, and the
-- decoder waits for a first character again.
pub feed-command :
    (twice : Bool) (c : Command)
    → is_command c ≡ true
    → let s = escapes twice ++ b'[' ∷ command_text c in
      feed first_round s ≡ pressed s (b'[' ∷ command_code c) (command_modifier c)
unfolding next resume after_escape at
feed-command false c h =
    feed-next _ _ k_escape _ _ refl
      (feed-next _ _ b'[' _ _ refl (command-decoded (k_escape ∷ b'[' ∷ []) c h))
feed-command true c h = feed-next _ _ k_escape _ _ refl (
    feed-next _ _ k_escape _ _ refl
      (feed-next _ _ b'[' _ _ refl (command-decoded (k_escape ∷ k_escape ∷ b'[' ∷ []) c h)))
