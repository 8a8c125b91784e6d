-- ===== src/Url/Ipv4/Bounds.antt =====
-- The number that `parseIPv4` returns fits in 32 bits.
use zero_archive.Prelude.{
  ℕ, ◌^◌, ◌≤◌, ◌<◌, ◌≡◌, some, List, [], ◌∷◌, arith, length, Text, Option-cases, inl, inr,
}
use zero_archive.Url.Ipv4.{address, drop_empty_last, split, numbers_of, combine, parse_ipv4}

length-numbers_of :
    (parts : List Text) (ns : List ℕ) → numbers_of parts ≡ some ns → length ns ≡ length parts
unfolding numbers_of
length-numbers_of [] ns h = ground arith
length-numbers_of ([] ∷ parts) ns h = cc
length-numbers_of ((c ∷ cs) ∷ parts) ns h = elim (Option-cases (numbers_of parts)) [
  | inl e ↦ ground arith
  | inr (rest, e) ↦ ground (arith, length-numbers_of parts rest e)
]

combine-lt : (ns : List ℕ) (n : ℕ) → length ns ≤ 4 → combine ns ≡ address n → n < 2 ^ 32
unfolding combine
combine-lt [] n l h = ground arith
combine-lt (a ∷ []) n l h = ground arith
combine-lt (a ∷ b ∷ []) n l h = ground arith
combine-lt (a ∷ b ∷ c ∷ []) n l h = ground arith
combine-lt (a ∷ b ∷ c ∷ d ∷ []) n l h = ground arith
combine-lt (a ∷ b ∷ c ∷ d ∷ e ∷ ns) n l h = absurd (omega arith)

-- A number that `parseIPv4` returns is below 2 ^ 32.
pub parse_ipv4-lt : (input : Text) (n : ℕ) → parse_ipv4 input ≡ address n → n < 2 ^ 32
unfolding parse_ipv4
parse_ipv4-lt input n h =
    let parts = drop_empty_last (split b'.' input) in
    elim (Option-cases (numbers_of parts)) [
      | inl e ↦ ground arith
      | inr (ns, e) ↦ ground (arith, length-numbers_of parts ns e, combine-lt ns n)
    ]
