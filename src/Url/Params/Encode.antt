-- ===== src/Url/Params/Encode.antt =====
-- `encodeStr` copies the runs of unescaped characters by slices; it gives what escaping one code
-- unit after the other gives.
use mathlib.Core.Path.{subst}
use mathlib.Core.List.{append-nil, append_assoc}
use zero_archive.Prelude.{
  ℕ, zero, suc, ◌+◌, ◌-◌, ◌≤◌, ◌≡◌, refl, false, Bool-cases, [], ◌∷◌, ◌++◌, arith, Text, sym, inl,
  inr, length, take, drop, ◌∙◌, ap, ltb, ◌==◌, length-append,
}
use zero_archive.Url.Params.{
  UnitKind, unescaped, escaped, surrogate, kind_of, pair_code, escape_pair, flush, finish,
  encode_from, encode_str,
}

-- The escaped form of a text, one code unit or surrogate pair after the other.
unfoldable pub encode_units : Text → Text
encode_units [] = []
encode_units (c ∷ []) = elim (kind_of c) [
  | unescaped ↦ c ∷ []
  | escaped bytes ↦ bytes
  | surrogate ↦ escape_pair (pair_code c 0)
]
encode_units (c ∷ d ∷ rest) = elim (kind_of c) [
  | unescaped ↦ c ∷ encode_units (d ∷ rest)
  | escaped bytes ↦ bytes ++ encode_units (d ∷ rest)
  | surrogate ↦ escape_pair (pair_code c d) ++ encode_units rest
]

drop-all : (xs : Text) (n : ℕ) → length xs ≤ n → drop n xs ≡ []
drop-all [] zero h = refl
drop-all [] (suc n) h = refl
drop-all (x ∷ xs) zero h = absurd (omega arith)
drop-all (x ∷ xs) (suc n) h = drop-all xs n (omega arith)

drop-append : (n : ℕ) (xs ys : Text) → n ≤ length xs → drop n (xs ++ ys) ≡ drop n xs ++ ys
drop-append zero xs ys h = refl
drop-append (suc n) [] ys h = absurd (omega arith)
drop-append (suc n) (x ∷ xs) ys h = drop-append n xs ys (omega arith)

take-append : (n : ℕ) (xs ys : Text) → n ≡ length xs → take n (xs ++ ys) ≡ xs
take-append zero [] ys h = refl
take-append zero (x ∷ xs) ys h = absurd (omega arith)
take-append (suc n) [] ys h = absurd (omega arith)
take-append (suc n) (x ∷ xs) ys h = ap (λ zs. x ∷ zs) (take-append n xs ys (omega arith))

length-drop : (n : ℕ) (xs : Text) → length (drop n xs) ≡ length xs - n
length-drop zero xs = omega arith
length-drop (suc n) [] = omega arith
length-drop (suc n) (x ∷ xs) = omega (arith, length-drop n xs)

flush-drop :
    (pre rest out : Text) (last_pos : ℕ)
    → last_pos ≤ length pre
    → flush (pre ++ rest) last_pos (length pre) out ≡ out ++ drop last_pos pre
unfolding flush
flush-drop pre rest out last_pos h = elim (Bool-cases (ltb last_pos (length pre))) [
  | inl l ↦
      rw (l, drop-append last_pos pre rest h)
        (ap (λ t. out ++ t)
          (take-append (length pre - last_pos) (drop last_pos pre) rest
            (sym (length-drop last_pos pre))))
  | inr l ↦ rw (l, drop-all pre last_pos (ground arith)) (sym (append-nil out))
]

suc_not_zero : (n : ℕ) → (suc n == 0) ≡ false
suc_not_zero n = ground arith

finish-drop :
    (str out : Text) (last_pos : ℕ)
    → (last_pos ≡ 0 → out ≡ [])
    → finish str last_pos out ≡ out ++ drop last_pos str
unfolding finish
finish-drop str out zero h = rw (h refl) refl
finish-drop str out (suc last_pos) h = elim (Bool-cases (ltb (suc last_pos) (length str))) [
  | inl l ↦ rw (suc_not_zero last_pos, l) refl
  | inr l ↦
      rw (suc_not_zero last_pos, l, drop-all str (suc last_pos) (ground arith))
        (sym (append-nil out))
]

-- The part of the text in front of `i`, and what the loop makes of it.
record At (str pre rest : Text) (i last_pos : ℕ) (out : Text) : Type 0 where
  split : str ≡ pre ++ rest
  at : i ≡ length pre
  behind : last_pos ≤ length pre
  fresh : last_pos ≡ 0 → out ≡ []

module _ (str pre : Text) (c : ℕ) (rest : Text) (i last_pos : ℕ) (out : Text)
    (h : At str pre (c ∷ rest) i last_pos out) where
  here : flush str last_pos i out ≡ out ++ drop last_pos pre
  here = rw (h.split, h.at) (flush-drop pre (c ∷ rest) out last_pos h.behind)

  length-further : length (pre ++ c ∷ []) ≡ suc (length pre)
  length-further = omega (arith, length-append pre (c ∷ []))

  At-unescaped : At str (pre ++ c ∷ []) rest (i + 1) last_pos out
  At-unescaped = record {
    split = h.split ∙ sym (append_assoc pre (c ∷ []) rest);
    at = omega (arith, length-further, h.at);
    behind = omega (arith, length-further, h.behind);
    fresh = h.fresh;
  }

  At-escaped : (out' : Text) → At str (pre ++ c ∷ []) rest (i + 1) (i + 1) out'
  At-escaped out' = record {
    split = h.split ∙ sym (append_assoc pre (c ∷ []) rest);
    at = omega (arith, length-further, h.at);
    behind = omega (arith, length-further, h.at);
    fresh = λ e. absurd (omega arith);
  }

At-finish :
    (str pre : Text) (i last_pos : ℕ) (out : Text)
    → At str pre [] i last_pos out
    → finish str last_pos out ≡ out ++ drop last_pos pre
At-finish str pre i last_pos out h =
    rw (h.split, append-nil pre) (finish-drop pre out last_pos h.fresh)

-- What is left to print: the run that is not copied, and the rest.
abbrev Prints : Text → Text → ℕ → Text → Text → Type 0
Prints result pre last_pos out more = result ≡ out ++ (drop last_pos pre ++ more)

module _ (str pre : Text) (c : ℕ) (rest : Text) (i last_pos : ℕ) (out : Text)
    (h : At str pre (c ∷ rest) i last_pos out) where
  Prints-unescaped :
      (result more : Text)
      → Prints result (pre ++ c ∷ []) last_pos out more
      → Prints result pre last_pos out (c ∷ more)
  Prints-unescaped result more e =
      e
      ∙ ap (λ t. out ++ t)
          (ap (λ t. t ++ more) (drop-append last_pos pre (c ∷ []) h.behind)
            ∙ append_assoc (drop last_pos pre) (c ∷ []) more)

  Prints-escaped :
      (result further bytes more : Text) (n : ℕ)
      → length further ≤ n
      → Prints result further n (flush str last_pos i out ++ bytes) more
      → Prints result pre last_pos out (bytes ++ more)
  Prints-escaped result further bytes more n l e =
      e
      ∙ ap (λ t. (flush str last_pos i out ++ bytes) ++ (t ++ more)) (drop-all further n l)
      ∙ ap (λ t. (t ++ bytes) ++ more) (here str pre c rest i last_pos out h)
      ∙ append_assoc (out ++ drop last_pos pre) bytes more
      ∙ append_assoc out (drop last_pos pre) (bytes ++ more)

-- The last code unit: a text that ends in it, and whose print is complete.
module _ (str pre : Text) (c : ℕ) (i last_pos : ℕ) (out : Text)
    (h : At str pre (c ∷ []) i last_pos out) where
  str_length : length str ≡ suc i
  str_length = rw h.split (omega (arith, length-append pre (c ∷ []), h.at))

  finish-escaped :
      (n : ℕ) (bytes : Text)
      → suc i ≤ n
      → Prints (finish str n (flush str last_pos i out ++ bytes)) pre last_pos out bytes
  finish-escaped n bytes l =
      subst (λ b. Prints (finish str n (flush str last_pos i out ++ bytes)) pre last_pos out b)
        (append-nil bytes)
        (Prints-escaped str pre c [] i last_pos out h _ str bytes [] n (omega (arith, str_length)) (
          rw (append-nil (drop n str))
            (finish-drop str (flush str last_pos i out ++ bytes) n (λ e. absurd (omega arith)))))

  finish-unescaped : Prints (finish str last_pos out) pre last_pos out (c ∷ [])
  finish-unescaped = Prints-unescaped str pre c [] i last_pos out h _ [] (
      rw (append-nil (drop last_pos (pre ++ c ∷ [])))
        (rw h.split (finish-drop (pre ++ c ∷ []) out last_pos h.fresh)))

  last_unit :
      (k : UnitKind)
      → Prints
          (elim k [
            | unescaped ↦ finish str last_pos out
            | escaped bytes ↦ finish str (i + 1) (flush str last_pos i out ++ bytes)
            | surrogate ↦
                finish str (i + 2) (flush str last_pos i out ++ escape_pair (pair_code c 0))
          ])
          pre
          last_pos
          out
          (elim k [
            | unescaped ↦ c ∷ []
            | escaped bytes ↦ bytes
            | surrogate ↦ escape_pair (pair_code c 0)
          ])
  last_unit unescaped = finish-unescaped
  last_unit (escaped bytes) = finish-escaped (i + 1) bytes (omega arith)
  last_unit surrogate = finish-escaped (i + 2) (escape_pair (pair_code c 0)) (omega arith)

At-pair :
    (str pre : Text) (c d : ℕ) (rest : Text) (i last_pos : ℕ) (out out' : Text)
    → At str pre (c ∷ d ∷ rest) i last_pos out
    → At str (pre ++ c ∷ d ∷ []) rest (i + 2) (i + 2) out'
At-pair str pre c d rest i last_pos out out' h = record {
  split = h.split ∙ sym (append_assoc pre (c ∷ d ∷ []) rest);
  at = omega (arith, length-append pre (c ∷ d ∷ []), h.at);
  behind = omega (arith, length-append pre (c ∷ d ∷ []), h.at);
  fresh = λ e. absurd (omega arith);
}

encode_from-units :
    (str pre rest : Text) (i last_pos : ℕ) (out : Text)
    → At str pre rest i last_pos out
    → Prints (encode_from str i last_pos out rest) pre last_pos out (encode_units rest)
unfolding encode_from encode_units
encode_from-units str pre [] i last_pos out h =
    rw (append-nil (drop last_pos pre)) (At-finish str pre i last_pos out h)
encode_from-units str pre (c ∷ []) i last_pos out h =
    last_unit str pre c i last_pos out h (kind_of c)
encode_from-units str pre (c ∷ d ∷ rest) i last_pos out h =
    elim (kind_of c)
      as (λ k.
        Prints
          (elim k [
            | unescaped ↦ encode_from str (i + 1) last_pos out (d ∷ rest)
            | escaped bytes ↦
                encode_from str (i + 1) (i + 1) (flush str last_pos i out ++ bytes) (d ∷ rest)
            | surrogate ↦
                encode_from str (i + 2) (i + 2)
                  (flush str last_pos i out ++ escape_pair (pair_code c d)) rest
          ])
          pre last_pos out
          (elim k [
            | unescaped ↦ c ∷ encode_units (d ∷ rest)
            | escaped bytes ↦ bytes ++ encode_units (d ∷ rest)
            | surrogate ↦ escape_pair (pair_code c d) ++ encode_units rest
          ])) [
            | unescaped ↦
                Prints-unescaped str pre c (d ∷ rest) i last_pos out h _ (encode_units (d ∷ rest)) (
                  encode_from-units str (pre ++ c ∷ []) (d ∷ rest) (i + 1) last_pos out
                    (At-unescaped str pre c (d ∷ rest) i last_pos out h))
            | escaped bytes ↦
                Prints-escaped str pre c (d ∷ rest) i last_pos out h _ (pre ++ c ∷ []) bytes
                  (encode_units (d ∷ rest)) (i + 1)
                  (omega (arith, length-append pre (c ∷ []), h.at))
                  (encode_from-units str (pre ++ c ∷ []) (d ∷ rest) (i + 1) (i + 1) _
                    (At-escaped str pre c (d ∷ rest) i last_pos out h _))
            | surrogate ↦
                Prints-escaped str pre c (d ∷ rest) i last_pos out h _ (pre ++ c ∷ d ∷ [])
                  (escape_pair (pair_code c d)) (encode_units rest) (i + 2)
                  (omega (arith, length-append pre (c ∷ d ∷ []), h.at))
                  (encode_from-units str (pre ++ c ∷ d ∷ []) rest (i + 2) (i + 2) _
                    (At-pair str pre c d rest i last_pos out _ h))
          ]

-- `encodeStr` prints a text as escaping it unit by unit does.
pub encode_str-encode_units : (str : Text) → encode_str str ≡ encode_units str
unfolding encode_str encode_units
encode_str-encode_units [] = refl
encode_str-encode_units (c ∷ rest) = rw (suc_not_zero (length rest)) (
    encode_from-units (c ∷ rest) [] (c ∷ rest) 0 0 []
      (record { split = refl; at = refl; behind = omega arith; fresh = λ e. refl }))
