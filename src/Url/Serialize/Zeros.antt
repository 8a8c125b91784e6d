-- ===== src/Url/Serialize/Zeros.antt =====
-- `findLongestZeroSequence` and the runs of zeros of its array.
use zero_archive.Prelude.{
  ℕ, zero, suc, ◌+◌, ◌≤◌, ◌≡◌, refl, true, false, Option, none, some, List, [], ◌∷◌, arith, drop,
  ltb, ◌==◌, if◌then◌else◌, is_some, ◌||◌, Bool-cases, inl, inr, ap,
}
use zero_archive.Url.Serialize.{
  Search, keep_longer, search_round, search_from, no_zeros, find_longest_zero_sequence,
}

-- How many zeros stand at the front.
unfoldable pub leading_zeros : List ℕ → ℕ
leading_zeros [] = 0
leading_zeros (x ∷ xs) = let rest = leading_zeros xs in if x == 0 then suc rest else 0

max_len-grows : (s : Search) (i : ℕ) (rest : List ℕ) → s.max_len ≤ (search_from s i rest).max_len
unfolding search_from search_round keep_longer
max_len-grows s i [] = ground arith
max_len-grows s i (x ∷ rest) = ground (arith, max_len-grows (search_round s i x) (i + 1) rest)

max_len-current :
    (s : Search) (i : ℕ) (rest : List ℕ)
    → s.curr_len + leading_zeros rest ≤ (search_from s i rest).max_len
unfolding search_from search_round keep_longer leading_zeros
max_len-current s i [] = ground arith
max_len-current s i (x ∷ rest) = ground (
  arith,
  max_len-current (search_round s i x) (i + 1) rest,
  max_len-grows (search_round s i x) (i + 1) rest,
)

max_len-longest :
    (s : Search) (i : ℕ) (rest : List ℕ) (j : ℕ)
    → leading_zeros (drop j rest) ≤ (search_from s i rest).max_len
unfolding search_from leading_zeros
max_len-longest s i rest zero = ground (arith, max_len-current s i rest)
max_len-longest s i [] (suc j) = ground arith
max_len-longest s i (x ∷ rest) (suc j) = max_len-longest (search_round s i x) (i + 1) rest j

-- The length of the run at an index; without an index it is the number given.
unfoldable pub run_at : Option ℕ → List ℕ → ℕ → ℕ
run_at none arr n = n
run_at (some k) arr n = leading_zeros (drop k arr)

-- The state of the search in front of `rest`.
record Searching (arr rest : List ℕ) (i : ℕ) (s : Search) : Type 0 where
  rest_of : drop i arr ≡ rest
  current :
      run_at s.curr_start arr (s.curr_len + leading_zeros rest) ≡ s.curr_len + leading_zeros rest
  idle : (is_some s.curr_start || s.curr_len == 0) ≡ true
  best : run_at s.max_idx arr s.max_len ≡ s.max_len
  marked : is_some s.max_idx ≡ ltb 1 s.max_len
  positive : ltb 0 s.max_len ≡ true

drop-suc :
    (arr : List ℕ) (i j x : ℕ) (rest : List ℕ)
    → j ≡ suc i
    → drop i arr ≡ x ∷ rest
    → drop j arr ≡ rest
drop-suc [] zero j x rest e h = absurd cc
drop-suc [] (suc i) j x rest e h = absurd cc
drop-suc (y ∷ arr) i zero x rest e h = absurd (omega arith)
drop-suc (y ∷ arr) zero (suc zero) x rest e h = cc
drop-suc (y ∷ arr) zero (suc (suc j)) x rest e h = absurd (omega arith)
drop-suc (y ∷ arr) (suc i) (suc j) x rest e h = drop-suc arr i j x rest (omega arith) h

keep_longer-best :
    (arr rest : List ℕ) (i : ℕ) (s : Search)
    → Searching arr rest i s
    → leading_zeros rest ≡ 0
    → (run_at (keep_longer s).max_idx arr (keep_longer s).max_len ≡ (keep_longer s).max_len)
      × (is_some (keep_longer s).max_idx ≡ ltb 1 (keep_longer s).max_len)
      × (ltb 0 (keep_longer s).max_len ≡ true)
unfolding keep_longer run_at
keep_longer-best arr rest i s h e = (
  ground (arith, h.current, h.idle, h.best, h.marked, h.positive),
  ground (arith, h.current, h.idle, h.best, h.marked, h.positive),
  ground (arith, h.positive),
)

module _ (arr rest : List ℕ) (i x : ℕ) (s : Search) (h : Searching arr (x ∷ rest) i s) where
  run_here : leading_zeros (drop i arr) ≡ leading_zeros (x ∷ rest)
  run_here = ap leading_zeros h.rest_of

  round_current :
      run_at
        (search_round s i x).curr_start
        arr
        ((search_round s i x).curr_len + leading_zeros rest)
      ≡ (search_round s i x).curr_len + leading_zeros rest
  unfolding search_round run_at leading_zeros
  round_current = ground (arith, h.current, h.idle, run_here)

  round_idle :
      (is_some (search_round s i x).curr_start || (search_round s i x).curr_len == 0) ≡ true
  unfolding search_round
  round_idle = ground (arith, h.idle)

  nonzero : (x == 0) ≡ false → leading_zeros (x ∷ rest) ≡ 0
  unfolding leading_zeros
  nonzero e = rw e refl

  round_best :
      (run_at (search_round s i x).max_idx arr (search_round s i x).max_len
        ≡ (search_round s i x).max_len)
      × (is_some (search_round s i x).max_idx ≡ ltb 1 (search_round s i x).max_len)
      × (ltb 0 (search_round s i x).max_len ≡ true)
  unfolding search_round
  round_best = elim (Bool-cases (x == 0)) [
    | inl e ↦ rw e (h.best, h.marked, h.positive)
    | inr e ↦ rw e (keep_longer-best arr (x ∷ rest) i s h (nonzero e))
  ]

  search_round-Searching : Searching arr rest (i + 1) (search_round s i x)
  search_round-Searching = record {
    rest_of = drop-suc arr i (i + 1) x rest (omega arith) h.rest_of;
    current = round_current;
    idle = round_idle;
    best = round_best.0;
    marked = round_best.1;
    positive = round_best.2;
  }

search_from-Searching :
    (arr rest : List ℕ) (i : ℕ) (s : Search)
    → Searching arr rest i s
    → (run_at (search_from s i rest).max_idx arr (search_from s i rest).max_len
        ≡ (search_from s i rest).max_len)
      × (is_some (search_from s i rest).max_idx ≡ ltb 1 (search_from s i rest).max_len)
unfolding search_from leading_zeros
search_from-Searching arr [] i s h =
    let best = keep_longer-best arr [] i s h refl in (best.0, best.1)
search_from-Searching arr (x ∷ rest) i s h =
    search_from-Searching arr rest (i + 1) (search_round s i x)
      (search_round-Searching arr rest i x s h)

start-Searching : (arr : List ℕ) → Searching arr arr 0 no_zeros
unfolding run_at
start-Searching arr = record {
  rest_of = refl;
  current = ground arith;
  idle = refl;
  best = refl;
  marked = refl;
  positive = refl;
}

-- `findLongestZeroSequence` returns a length that no run of zeros exceeds, wherever it starts, and an
-- index exactly if that length is above 1, at which a run of just this length starts.
pub find_longest_zero_sequence-longest :
    (arr : List ℕ) (j : ℕ)
    → (leading_zeros (drop j arr) ≤ (find_longest_zero_sequence arr).1)
      × (is_some (find_longest_zero_sequence arr).0 ≡ ltb 1 (find_longest_zero_sequence arr).1)
      × (run_at (find_longest_zero_sequence arr).0 arr (find_longest_zero_sequence arr).1
          ≡ (find_longest_zero_sequence arr).1)
unfolding find_longest_zero_sequence
find_longest_zero_sequence-longest arr j =
    let found = search_from-Searching arr arr 0 no_zeros (start-Searching arr) in
    (max_len-longest no_zeros 0 arr j, found.1, found.0)
