-- ===== src/Url/Ipv4/RoundTrip.antt =====
-- `parseIPv4` reads back what `serializeURLHost` prints.
use zero_archive.Prelude.{
  lacks, ℕ, ◌+◌, ◌*◌, ◌/◌, ◌%◌, ◌^◌, ◌<◌, ◌≡◌, refl, ◌∙◌, ap, Bool, true, false, ◌&&◌, none, some,
  List, [], ◌∷◌, ◌++◌, arith, ltb, ◌==◌, length, Text, succeeds_below, succeeds_below-at,
}
use mathlib.Core.List.{append-nil}
use zero_archive.Url.Ipv4.{
  address, drop_empty_last, split, numbers_of, parse_ipv4_number, combine, parse_ipv4, decimal,
  serialize_ipv4,
}

-- A text without the separator, in front of one, is the first part.
split-append : (c : ℕ) (xs ys : Text) → lacks c xs ≡ true → split c (xs ++ c ∷ ys) ≡ xs ∷ split c ys
unfolding split lacks
split-append c [] ys h = ground arith
split-append c (x ∷ xs) ys h = ground (arith, split-append c xs ys)

split_whole : (c : ℕ) (xs : Text) → lacks c xs ≡ true → split c xs ≡ xs ∷ []
unfolding split lacks
split_whole c [] h = refl
split_whole c (x ∷ xs) h = ground (arith, split_whole c xs)

-- `part` prints the number `n`.
reads : ℕ → Bool
reads n =
    lacks b'.' (decimal n)
    && (ltb 0 (length (decimal n))
        && elim (parse_ipv4_number (decimal n)) [ none ↦ false | some m ↦ m == n ])

reads_table : succeeds_below reads 256 ≡ true
unfolding succeeds_below reads lacks decimal parse_ipv4_number
reads_table = refl

record Reads (part : Text) (n : ℕ) : Type 0 where
  no_dot : lacks b'.' part ≡ true
  filled : 0 < length part
  number : parse_ipv4_number part ≡ some n

decimal-Reads : (n : ℕ) → n < 256 → Reads (decimal n) n
unfolding reads
decimal-Reads n h =
    let e = succeeds_below-at reads n 256 h reads_table in
    record { no_dot = ground arith; filled = ground arith; number = ground arith }

numbers_of-cons :
    (part : Text) (n : ℕ) (parts : List Text) (ns : List ℕ)
    → Reads part n
    → numbers_of parts ≡ some ns
    → numbers_of (part ∷ parts) ≡ some (n ∷ ns)
unfolding numbers_of
numbers_of-cons [] n parts ns r e = absurd (omega (arith, r.filled))
numbers_of-cons (c ∷ cs) n parts ns r e = ground (arith, r.number)

numbers_of_nil : numbers_of [] ≡ some []
unfolding numbers_of
numbers_of_nil = refl

module _ (p q r s : Text) (a b c d : ℕ) (hp : Reads p a) (hq : Reads q b) (hr : Reads r c)
    (hs : Reads s d) where
  split_dotted : split b'.' (p ++ b'.' ∷ (q ++ b'.' ∷ (r ++ b'.' ∷ s))) ≡ p ∷ q ∷ r ∷ s ∷ []
  split_dotted = simp (
    split-append b'.' p _ hp.no_dot,
    split-append b'.' q _ hq.no_dot,
    split-append b'.' r _ hr.no_dot,
    split_whole b'.' s hs.no_dot,
  )

  numbers_of_dotted : numbers_of (p ∷ q ∷ r ∷ s ∷ []) ≡ some (a ∷ b ∷ c ∷ d ∷ [])
  numbers_of_dotted = numbers_of-cons p a _ _ hp (
      numbers_of-cons q b _ _ hq
        (numbers_of-cons r c _ _ hr (numbers_of-cons s d _ _ hs numbers_of_nil)))

  drop_dotted : drop_empty_last (p ∷ q ∷ r ∷ s ∷ []) ≡ p ∷ q ∷ r ∷ s ∷ []
  unfolding drop_empty_last
  drop_dotted = ground (arith, hs.filled)

  parse_dotted :
      parse_ipv4 (p ++ b'.' ∷ (q ++ b'.' ∷ (r ++ b'.' ∷ s))) ≡ combine (a ∷ b ∷ c ∷ d ∷ [])
  unfolding parse_ipv4
  parse_dotted = rw (split_dotted, drop_dotted, numbers_of_dotted)

combine_bytes :
    (a b c d : ℕ)
    → a < 256
    → b < 256
    → c < 256
    → d < 256
    → combine (a ∷ b ∷ c ∷ d ∷ []) ≡ address (d + a * 256 ^ 3 + b * 256 ^ 2 + c * 256)
unfolding combine
combine_bytes a b c d ha hb hc hd = ground arith

-- Every 32-bit address is read back from its printed form.
pub parse_ipv4-serialize_ipv4 : (n : ℕ) → n < 2 ^ 32 → parse_ipv4 (serialize_ipv4 n) ≡ address n
unfolding serialize_ipv4
parse_ipv4-serialize_ipv4 n h =
    let a = n / 256 / 256 / 256 % 256 in
    let b = n / 256 / 256 % 256 in
    let c = n / 256 % 256 in
    let d = n % 256 in
    rw append-nil (
      parse_dotted _ _ _ _ a b c d (decimal-Reads a (omega arith)) (decimal-Reads b (omega arith))
        (decimal-Reads c (omega arith)) (decimal-Reads d (omega arith))
      ∙ (combine_bytes a b c d (omega arith) (omega arith) (omega arith) (omega arith)
          ∙ ap address (omega arith)))
