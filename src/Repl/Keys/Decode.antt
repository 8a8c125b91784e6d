-- ===== src/Repl/Keys/Decode.antt =====
-- The keys that `emitKeys` of lib/repl/tty.js makes of the control sequences of terminals.
use zero_archive.Prelude.{
  ◌-◌, length-append, drop, ◌==◌, ◌∙◌, ap, length, ◌++◌, [], ◌∷◌, true, false, refl, arith, ◌≡◌,
  ◌<◌, Bool, Text, List, ℕ, none,
}
use mathlib.Core.List.{append-nil, append_assoc}
use zero_archive.Repl.Keys.Framing.{emit-one}
use zero_archive.Repl.Keys.{
  end_code, Event, Phase, Decoder, first_round, is_digit, key_of_code, next, feed, resume,
  start_cmd, after_digits, end_cmd, match_cmd, wait_csi, wait_digit, wait_digits, wait_modifier,
  wait_final,
}

unfoldable pub at : Phase → Text → ℕ → Decoder
at phase s start = record {
  phase = phase;
  s = s;
  code = b'[' ∷ [];
  cmd_start = start;
  modifier = 1;
}

pub feed-next :
    (d d' : Decoder) (ch : ℕ) (rest : Text) (r : Decoder × List Event)
    → next d ch ≡ (d', [])
    → feed d' rest ≡ r
    → feed d (ch ∷ rest) ≡ r
unfolding feed
feed-next d d' ch rest r n f = ap (λ x. ((feed x.0 rest).0, x.1 ++ (feed x.0 rest).1)) n ∙ f

pub feed-last :
    (d : Decoder) (ch : ℕ) (r : Decoder × List Event) → next d ch ≡ r → feed d (ch ∷ []) ≡ r
unfolding feed
feed-last d ch r n = ap (λ x. (x.0, x.1 ++ [])) n ∙ ap (λ events. (r.0, events)) (append-nil r.1)

pub drop-append : (s t : Text) → drop (length s) (s ++ t) ≡ t
drop-append [] t = refl
drop-append (c ∷ s) t = drop-append s t

-- A round that only waits on, where `t` has come behind `s`.
module _ (s t : Text) (a : ℕ) where
  pub csi-digit :
      is_digit a ≡ true → next (at wait_csi s 0) a ≡ (at wait_digit (s ++ a ∷ []) (length s), [])
  unfolding next resume start_cmd at
  csi-digit h = ground (arith, length-append s (a ∷ []))

  pub digit-digit :
      is_digit a ≡ true
      → next (at wait_digit (s ++ t) (length s)) a
        ≡ (at wait_digits (s ++ (t ++ a ∷ [])) (length s), [])
  unfolding next resume at
  digit-digit h = ground (arith, append_assoc s t (a ∷ []))

  pub digit-semicolon :
      (a == b';') ≡ true
      → next (at wait_digit (s ++ t) (length s)) a
        ≡ (at wait_modifier (s ++ (t ++ a ∷ [])) (length s), [])
  unfolding next resume at after_digits
  digit-semicolon h = ground (arith, append_assoc s t (a ∷ []))

  pub digits-semicolon :
      (a == b';') ≡ true
      → next (at wait_digits (s ++ t) (length s)) a
        ≡ (at wait_modifier (s ++ (t ++ a ∷ [])) (length s), [])
  unfolding next resume at after_digits
  digits-semicolon h = ground (arith, append_assoc s t (a ∷ []))

  pub modifier-digit :
      is_digit a ≡ true
      → next (at wait_modifier (s ++ t) (length s)) a
        ≡ (at wait_final (s ++ (t ++ a ∷ [])) (length s), [])
  unfolding next resume at
  modifier-digit h = ground (arith, append_assoc s t (a ∷ []))

-- A key of the code, for the whole sequence.
abbrev pub pressed : Text → Text → ℕ → Decoder × List Event
pressed s code modifier = (first_round, record { s = none; key = key_of_code s code modifier } ∷ [])

pub end_code-pressed : (s code : Text) (m : ℕ) → 0 < length s → end_code s code m ≡ pressed s code m
end_code-pressed s code m h =
    ap (λ events. (first_round, events)) (emit-one true s (key_of_code s code m) h refl)

-- The phases in which a character that is no digit and no `;` ends the command.
unfoldable ends_cmd : Phase → Bool
ends_cmd wait_csi = true
ends_cmd wait_digit = true
ends_cmd wait_digits = true
ends_cmd wait_final = true
ends_cmd _ = false

pub end_cmd-pressed :
    (s t more : Text) (m : ℕ) (d : Decoder)
    → 0 < length (s ++ t)
    → d.cmd_start ≡ length s
    → d.code ≡ b'[' ∷ []
    → match_cmd t ≡ (more, m)
    → end_cmd d (s ++ t) ≡ pressed (s ++ t) (b'[' ∷ more) m
unfolding end_cmd
end_cmd-pressed s t more m d n c k e =
    ap (λ x. end_code (s ++ t) (d.code ++ x.0) x.1)
      (ap (λ i. match_cmd (drop i (s ++ t))) c ∙ ap match_cmd (drop-append s t) ∙ e)
    ∙ ap (λ code. end_code (s ++ t) (code ++ more) m) k
    ∙ end_code-pressed (s ++ t) (b'[' ∷ more) m n

-- A round that ends the command, whose text is `t` and the character.
module _ (s t : Text) (f : ℕ) (more : Text) (m : ℕ) (n : is_digit f ≡ false)
    (k : (f == b';') ≡ false) (e : match_cmd (t ++ f ∷ []) ≡ (more, m)) where
  ends :
      (d : Decoder)
      → d.cmd_start ≡ length s
      → d.code ≡ b'[' ∷ []
      → end_cmd d ((s ++ t) ++ f ∷ []) ≡ pressed (s ++ (t ++ f ∷ [])) (b'[' ∷ more) m
  ends d c h =
      ap (end_cmd d) (append_assoc s t (f ∷ []))
      ∙ end_cmd-pressed s (t ++ f ∷ []) more m d
          (omega (arith, length-append s (t ++ f ∷ []), length-append t (f ∷ []))) c h e

  pub digit-ends :
      next (at wait_digit (s ++ t) (length s)) f ≡ pressed (s ++ (t ++ f ∷ [])) (b'[' ∷ more) m
  unfolding next resume at after_digits
  digit-ends = ground (arith, ends (at wait_digit (s ++ t) (length s)) refl refl)

  pub digits-ends :
      next (at wait_digits (s ++ t) (length s)) f ≡ pressed (s ++ (t ++ f ∷ [])) (b'[' ∷ more) m
  unfolding next resume at after_digits
  digits-ends = ground (arith, ends (at wait_digits (s ++ t) (length s)) refl refl)

  pub final-ends :
      next (at wait_final (s ++ t) (length s)) f ≡ pressed (s ++ (t ++ f ∷ [])) (b'[' ∷ more) m
  unfolding next resume at
  final-ends = ends (at wait_final (s ++ t) (length s)) refl refl

pub csi-ends :
    (s : Text) (f : ℕ) (more : Text) (m : ℕ)
    → (f == b'[') ≡ false
    → is_digit f ≡ false
    → (f == b';') ≡ false
    → match_cmd (f ∷ []) ≡ (more, m)
    → next (at wait_csi s 0) f ≡ pressed (s ++ f ∷ []) (b'[' ∷ more) m
unfolding next resume at start_cmd after_digits
csi-ends s f more m b n k e = ground (
  arith,
  end_cmd-pressed s (f ∷ []) more m
      (record {
        phase = wait_csi;
        s = s;
        code = b'[' ∷ [];
        cmd_start = length (s ++ f ∷ []) - 1;
        modifier = 1;
      })
      (omega (arith, length-append s (f ∷ []))) (omega (arith, length-append s (f ∷ []))) refl e,
)
