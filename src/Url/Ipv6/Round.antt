-- ===== src/Url/Ipv6/Round.antt =====
-- One round of the main loop of `parseIPv6Host` keeps its invariant and shortens the input.
use mathlib.Core.Path.{subst}
use zero_archive.Prelude.{
  ℕ, ◌+◌, ◌≤◌, ◌<◌, ◌≡◌, refl, Option, none, some, [], ◌∷◌, arith, ltb, ◌==◌, ◌||◌, length, Text,
  ==_iff, get_or, set,
}
use native.Mathlib.Decide.{ℕ_discrete}
use zero_archive.Url.Ipv6.{
  Pieces, after_hex, hex_digits, decimal_pieces, embedded_ipv4, push_piece, round,
}
use zero_archive.Url.Ipv6.Digits.{hex_digits-lt, hex_digits_left}
use zero_archive.Url.Ipv6.Runs.{
  returned, null, write, ◌>>=◌, Clean, Clean-bind, Clean-if, write-Clean,
}
use zero_archive.Url.Ipv6.Halves.{
  IsPiece, IsAddress, CompressFits, Halves, IsAddress-set, zeros-set, CompressFits-le,
  decimal_pieces-Halves,
}

-- What holds at the head of the main loop: nothing is written at `pieceIndex` or behind it.
pub record Fits (p : Pieces) : Type 0 where
  pub is_address : IsAddress p.address
  pub index_le : p.piece_index ≤ 8
  pub zeros : (j : ℕ) → p.piece_index ≤ j → get_or p.address j 0 ≡ 0
  pub compress_fits : CompressFits p.compress p.piece_index

push_piece-Fits :
    (p : Pieces) (v : ℕ) → Fits p → p.piece_index < 8 → IsPiece v → Clean Fits (push_piece p v)
unfolding push_piece
push_piece-Fits p v h l s =
    Clean-bind (λ a. a ≡ set p.address p.piece_index v) Fits (write p.address p.piece_index v) _
      (write-Clean _ p.address p.piece_index v (omega (arith, h.is_address.eight)) refl)
      (λ a e. record {
        is_address = rw e (IsAddress-set p.address p.piece_index v h.is_address s);
        index_le = omega arith;
        zeros = λ j hj.
            rw e (
              zeros-set p.address p.piece_index v j (λ k hk. h.zeros k (omega arith))
                (omega arith));
        compress_fits =
            CompressFits-le p.compress p.piece_index (p.piece_index + 1) h.compress_fits
              (omega arith);
      })

enter : (p : Pieces) → Fits p → p.piece_index ≤ 6 → Halves p.piece_index p 0
enter p h l = record {
  is_address = h.is_address;
  entry_le = l;
  index = omega arith;
  seen_le = omega arith;
  zeros = λ j hj. h.zeros j (omega arith);
  half = omega (arith, h.zeros p.piece_index (omega arith));
  compress_fits = h.compress_fits;
}

leave : (i : ℕ) (p : Pieces) → Halves i p 4 → Fits p
leave i p h = record {
  is_address = h.is_address;
  index_le = omega (arith, h.index, h.entry_le);
  zeros = λ j hj. elim (ℕ_discrete p.piece_index j) [
    | yes e ↦ rw (← e) (omega (arith, h.half))
    | no ne ↦ h.zeros j (omega arith)
  ];
  compress_fits = h.compress_fits;
}

embedded_ipv4-Fits :
    (p : Pieces) (n : ℕ) (rest : Text) → Fits p → Clean Fits (embedded_ipv4 p n rest)
unfolding embedded_ipv4
embedded_ipv4-Fits p n rest h =
    Clean-if Fits (n == 0 || ltb 6 p.piece_index) _ _ (λ e. tt)
      (λ e.
        Clean-bind (λ r. Halves p.piece_index r.0 r.1) Fits (decimal_pieces 6 p 0 rest) _
          (decimal_pieces-Halves 6 p.piece_index p 0 rest (enter p h (ground arith)) refl)
          (λ r hr.
            Clean-if Fits (r.1 == 4) _ _
              (λ e4.
                leave p.piece_index r.0 (subst (Halves p.piece_index r.0) ((==_iff r.1 4).0 e4) hr))
              (λ ne. tt)))

-- A round keeps the invariant, and what it leaves to read is shorter than what it was given.
abbrev pub Shorter : ℕ → Option Text → Type 0
Shorter n none = Unit
Shorter n (some rest) = length rest < n

abbrev pub Goes : ℕ → Pieces × Option Text → Type 0
Goes n r = Fits r.0 × Shorter n r.1

compressed :
    (p : Pieces)
    → Fits p
    → p.piece_index < 8
    → Fits (record p { piece_index = p.piece_index + 1; compress = some (p.piece_index + 1) })
compressed p h l = record {
  is_address = h.is_address;
  index_le = omega arith;
  zeros = λ j hj. h.zeros j (omega arith);
  compress_fits = (omega arith, omega arith);
}

-- `push_piece` is followed by a return of what is left.
pushed :
    (p : Pieces) (value m : ℕ) (left : Text)
    → Fits p
    → p.piece_index < 8
    → value < 0x10000
    → length left < m
    → Clean (Goes m) (push_piece p value >>= (λ p'. returned (p', some left)))
pushed p value m left h l v s =
    Clean-bind Fits (Goes m) (push_piece p value) _ (push_piece-Fits p value h l (omega arith))
      (λ p' h'. (h', s))

after_hex-Goes :
    (p : Pieces) (c : ℕ) (rest : Text) (r : ℕ × ℕ × Text)
    → Fits p
    → p.piece_index < 8
    → r.0 < 0x10000
    → length r.2 ≤ length rest + 1
    → Clean (Goes (length rest + 1)) (after_hex p c rest r)
unfolding after_hex
after_hex-Goes p c rest (value, n, []) h l v s = pushed p value _ [] h l v (omega arith)
after_hex-Goes p c rest (value, n, d ∷ left) h l v s =
    Clean-if _ (d == b'.') _ _
      (λ e.
        Clean-bind Fits _ (embedded_ipv4 p n (c ∷ rest)) _ (embedded_ipv4-Fits p n (c ∷ rest) h)
          (λ p' h'. (h', tt)))
      (λ ne. Clean-if _ (d == b':') _ _ (λ e. more left s) (λ ne'. tt))
  where
    more :
        (left' : Text)
        → length (d ∷ left') ≤ length rest + 1
        → Clean (Goes (length rest + 1)) (elim left' [
          | [] ↦ null
          | e ∷ more' ↦ push_piece p value >>= (λ p'. returned (p', some (e ∷ more')))
        ])
    more [] s' = tt
    more (e ∷ more') s' = pushed p value _ (e ∷ more') h l v (omega arith)

pub round-Goes :
    (p : Pieces) (c : ℕ) (rest : Text) → Fits p → Clean (Goes (length rest + 1)) (round p c rest)
unfolding round
round-Goes p c rest h =
    Clean-if _ (p.piece_index == 8) _ _ (λ e. tt)
      (λ ne.
        let l : p.piece_index < 8 = ground arith in
        Clean-if _ (c == b':') _ _ (λ e. colon l p.compress)
          (λ ne'.
            after_hex-Goes p c rest (hex_digits 4 0 0 (c ∷ rest)) h l
              (hex_digits-lt 4 0 0 1 (c ∷ rest) (omega arith))
              (omega (arith, hex_digits_left 4 0 0 (c ∷ rest)))))
  where
    colon :
        p.piece_index < 8
        → (k : Option ℕ)
        → Clean {A = Pieces × Option Text} (Goes (length rest + 1)) (elim k [
          | some k' ↦ null
          | none ↦ returned (
            record p { piece_index = p.piece_index + 1; compress = some (p.piece_index + 1) },
            some rest,
          )
        ])
    colon l none = (compressed p h l, omega arith)
    colon l (some k) = tt
