-- ===== src/Mime/Spans.antt =====
-- The loops of `parse` in lib/mime.js over the text that `MIMEStringify` prints.
use zero_archive.Prelude.{
  if◌then◌else◌, ◌&&◌, ◌||◌, not, ◌++◌, Text, ◌==◌, [], ◌∷◌, true, false, refl, arith, ◌≡◌, Bool, ℕ,
}
use zero_archive.Mime.{
  all_chars, collect, behind, quoted, escape, parameter_value, is_token_code_point, is_empty,
  is_white_space, trim_left, is_name_end, is_token,
}

-- The text is empty or begins with a character that stops the loop.
unfoldable pub is_stopped : (ℕ → Bool) → Text → Bool
is_stopped stops [] = true
is_stopped stops (c ∷ cs) = stops c

unfoldable pub none_stops : (ℕ → Bool) → Text → Bool
none_stops stops [] = true
none_stops stops (c ∷ cs) = not (stops c) && none_stops stops cs

is_stopped-equals : (rest : Text) → is_stopped is_name_end (b'=' ∷ rest) ≡ true
unfolding is_stopped
is_stopped-equals rest = refl

pub collect-append :
    (stops : ℕ → Bool) (t rest : Text)
    → none_stops stops t ≡ true
    → is_stopped stops rest ≡ true
    → collect stops (t ++ rest) ≡ t
unfolding collect none_stops is_stopped
collect-append stops [] [] h e = refl
collect-append stops [] (c ∷ cs) h e = ground arith
collect-append stops (c ∷ t) rest h e = ground (arith, collect-append stops t rest)

pub behind-append :
    (stops : ℕ → Bool) (t rest : Text)
    → none_stops stops t ≡ true
    → is_stopped stops rest ≡ true
    → behind stops (t ++ rest) ≡ rest
unfolding behind none_stops is_stopped
behind-append stops [] [] h e = refl
behind-append stops [] (c ∷ cs) h e = ground arith
behind-append stops (c ∷ t) rest h e = ground (arith, behind-append stops t rest)

pub all_chars→none_stops :
    (fits stops : ℕ → Bool) (t : Text)
    → ((c : ℕ) → fits c ≡ true → stops c ≡ false)
    → all_chars fits t ≡ true
    → none_stops stops t ≡ true
unfolding all_chars none_stops
all_chars→none_stops fits stops [] f h = refl
all_chars→none_stops fits stops (c ∷ t) f h =
    ground (arith, f c, all_chars→none_stops fits stops t f)

token-is_name_end : (c : ℕ) → is_token_code_point c ≡ true → is_name_end c ≡ false
unfolding is_token_code_point
token-is_name_end c h = ground arith

pub token-is_semicolon : (c : ℕ) → is_token_code_point c ≡ true → (c == b';') ≡ false
unfolding is_token_code_point
token-is_semicolon c h = ground arith

pub token-is_quote : (c : ℕ) → is_token_code_point c ≡ true → (c == b'"') ≡ false
unfolding is_token_code_point
token-is_quote c h = ground arith

token-is_white_space : (c : ℕ) → is_token_code_point c ≡ true → is_white_space c ≡ false
unfolding is_token_code_point is_white_space
token-is_white_space c h = ground arith

pub trim_left-token : (name : Text) → is_token name ≡ true → trim_left name ≡ name
unfolding trim_left is_token all_chars
trim_left-token [] h = refl
trim_left-token (c ∷ cs) h = ground (arith, token-is_white_space c)

quoted-plain :
    (c : ℕ) (cs : Text)
    → (c == b'"') ≡ false
    → (c == 0x5c) ≡ false
    → quoted (c ∷ cs) ≡ (c ∷ (quoted cs).0, (quoted cs).1)
unfolding quoted
quoted-plain c [] h e = ground arith
quoted-plain c (d ∷ cs) h e = ground arith

quoted-escaped : (c : ℕ) (cs : Text) → quoted (0x5c ∷ c ∷ cs) ≡ (c ∷ (quoted cs).0, (quoted cs).1)
unfolding quoted
quoted-escaped c cs = refl

quoted-end : (rest : Text) → quoted (b'"' ∷ rest) ≡ ([], b'"' ∷ rest)
unfolding quoted
quoted-end [] = refl
quoted-end (c ∷ rest) = refl

-- A character and its escaping, before a text that is read back.
quoted-escape_one :
    (c : ℕ) (tail after value end : Text) (b : Bool)
    → b ≡ (c == b'"' || c == 0x5c)
    → quoted (tail ++ after) ≡ (value, end)
    → quoted ((if b then 0x5c ∷ c ∷ tail else c ∷ tail) ++ after) ≡ (c ∷ value, end)
quoted-escape_one c tail after value end true e h = cc (quoted-escaped c (tail ++ after), h)
quoted-escape_one c tail after value end false e h =
    cc (quoted-plain c (tail ++ after) (ground arith) (ground arith), h)

pub quoted-escape :
    (value rest : Text) → quoted (escape value ++ b'"' ∷ rest) ≡ (value, b'"' ∷ rest)
unfolding escape
quoted-escape [] rest = quoted-end rest
quoted-escape (c ∷ value) rest =
    quoted-escape_one c (escape value) (b'"' ∷ rest) value (b'"' ∷ rest) _ refl
      (quoted-escape value rest)

pub parameter_value-unquoted :
    (c : ℕ) (cs : Text)
    → (c == b'"') ≡ false
    → parameter_value (c ∷ cs)
      ≡ (collect (λ d. d == b';') (c ∷ cs), behind (λ d. d == b';') (c ∷ cs))
unfolding parameter_value
parameter_value-unquoted c cs h = ground arith

pub all_chars-head :
    (fits : ℕ → Bool) (c : ℕ) (cs : Text) → all_chars fits (c ∷ cs) ≡ true → fits c ≡ true
unfolding all_chars
all_chars-head fits c cs h = ground arith

-- An unquoted value is read up to what follows.
pub parameter_value-token :
    (value rest : Text)
    → is_empty value ≡ false
    → all_chars is_token_code_point value ≡ true
    → is_stopped (λ d. d == b';') rest ≡ true
    → parameter_value (value ++ rest) ≡ (value, rest)
parameter_value-token [] rest n h e = absurd cc
parameter_value-token (c ∷ cs) rest n h e =
    let none_stop =
      all_chars→none_stops is_token_code_point (λ d. d == b';') (c ∷ cs) token-is_semicolon h in
    cc (
      parameter_value-unquoted c (cs ++ rest)
          (token-is_quote c (all_chars-head is_token_code_point c cs h)),
      collect-append (λ d. d == b';') (c ∷ cs) rest none_stop e,
      behind-append (λ d. d == b';') (c ∷ cs) rest none_stop e,
    )

-- The name of a printed entry is read up to the `=`.
pub collect-name :
    (name rest : Text)
    → all_chars is_token_code_point name ≡ true
    → collect is_name_end (name ++ b'=' ∷ rest) ≡ name
collect-name name rest h =
    collect-append is_name_end name (b'=' ∷ rest)
      (all_chars→none_stops is_token_code_point is_name_end name token-is_name_end h)
      (is_stopped-equals rest)

pub behind-name :
    (name rest : Text)
    → all_chars is_token_code_point name ≡ true
    → behind is_name_end (name ++ b'=' ∷ rest) ≡ b'=' ∷ rest
behind-name name rest h =
    behind-append is_name_end name (b'=' ∷ rest)
      (all_chars→none_stops is_token_code_point is_name_end name token-is_name_end h)
      (is_stopped-equals rest)
