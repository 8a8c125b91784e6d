-- ===== src/Url/Ipv6/Safe.antt =====
-- `parseIPv6Host` ends, never indexes outside `address`, and returns eight pieces of 16 bits.
use zero_archive.Prelude.{
  ℕ, zero, suc, ◌+◌, ◌-◌, ◌≤◌, ◌<◌, ◌≡◌, refl, Option, none, some, List, [], ◌∷◌, arith, ◌==◌,
  if◌then◌else◌, length, Text, get_or, All-get_or,
}
use zero_archive.Url.Ipv6.{
  Pieces, initial, round, rounds, move_pieces, decompress, start, parse_ipv6_host,
}
use zero_archive.Url.Ipv6.Runs.{
  returned, null, read, write, Clean, Clean-bind, Clean-if, read-Clean, write-Clean,
}
use zero_archive.Url.Ipv6.Halves.{IsPiece, IsAddress, CompressFits, IsAddress-set}
use zero_archive.Url.Ipv6.Round.{Fits, Shorter, Goes, round-Goes}

rounds-Fits :
    (fuel : ℕ) (p : Pieces) (rest : Text)
    → Fits p
    → length rest < fuel
    → Clean Fits (rounds fuel p rest)
unfolding rounds
rounds-Fits zero p rest h l = absurd (omega arith)
rounds-Fits (suc fuel) p [] h l = h
rounds-Fits (suc fuel) p (c ∷ rest) h l =
    Clean-bind (Goes (length rest + 1)) Fits (round p c rest) _ (round-Goes p c rest h)
      (λ r g. go_on r.0 r.1 g.0 g.1 (rounds-Fits fuel))
  where
    go_on :
        (p' : Pieces) (left : Option Text)
        → Fits p'
        → Shorter (length rest + 1) left
        → ((q : Pieces) (t : Text) → Fits q → length t < fuel → Clean Fits (rounds fuel q t))
        → Clean Fits (elim left [ none ↦ returned p' | some rest' ↦ rounds fuel p' rest' ])
    go_on p' none h' s ih = h'
    go_on p' (some rest') h' s ih = ih p' rest' h' (omega arith)

move_pieces-IsAddress :
    (swaps index compress : ℕ) (a : List ℕ)
    → IsAddress a
    → index < 8
    → compress + swaps ≤ 8
    → Clean IsAddress (move_pieces swaps index compress a)
unfolding move_pieces
move_pieces-IsAddress zero index compress a h i c = h
move_pieces-IsAddress (suc swaps) zero compress a h i c = h
move_pieces-IsAddress (suc swaps) (suc index) compress a h i c =
    let from = compress + suc swaps - 1 in
    Clean-bind IsPiece IsAddress (read a (suc index)) _
      (read-Clean IsPiece a (suc index) (omega (arith, h.eight))
        (All-get_or IsPiece a (suc index) 0 h.small (omega arith)))
      (λ t pt.
        Clean-bind IsPiece IsAddress (read a from) _
          (read-Clean IsPiece a from (omega (arith, h.eight))
            (All-get_or IsPiece a from 0 h.small (omega arith)))
          (λ s ps.
            Clean-bind IsAddress IsAddress (write a (suc index) s) _
              (write-Clean IsAddress a (suc index) s (omega (arith, h.eight))
                (IsAddress-set a (suc index) s h ps))
              (λ a' h'.
                Clean-bind IsAddress IsAddress (write a' from t) _
                  (write-Clean IsAddress a' from t (omega (arith, h'.eight))
                    (IsAddress-set a' from t h' pt))
                  (λ a'' h''.
                    move_pieces-IsAddress swaps index compress a'' h'' (omega arith)
                      (omega arith)))))

decompress-IsAddress : (p : Pieces) → Fits p → Clean IsAddress (decompress p)
unfolding decompress
decompress-IsAddress p h = by_compress p.compress h.compress_fits
  where
    by_compress :
        (k : Option ℕ)
        → CompressFits k p.piece_index
        → Clean IsAddress (elim k [
          | some k' ↦ move_pieces (p.piece_index - k') 7 k' p.address
          | none ↦ if p.piece_index == 8 then returned p.address else null
        ])
    by_compress none f = Clean-if IsAddress (p.piece_index == 8) _ _ (λ e. h.is_address) (λ e. tt)
    by_compress (some k) f =
        move_pieces-IsAddress (p.piece_index - k) 7 k p.address h.is_address (omega arith)
          (omega (arith, h.index_le, f.0, f.1))

zeros_initial : (j : ℕ) → get_or initial.address j 0 ≡ 0
zeros_initial j = All-get_or (λ x. x ≡ 0) initial.address j 0 (omega arith) refl

initial-Fits :
    (i : ℕ) (k : Option ℕ)
    → i ≤ 8
    → CompressFits k i
    → Fits (record initial { piece_index = i; compress = k })
initial-Fits i k l h = record {
  is_address = record { eight = refl; small = omega arith };
  index_le = l;
  zeros = λ j _. zeros_initial j;
  compress_fits = h;
}

start-Fits : (input : Text) → Clean (λ r. Fits r.0) (start input)
unfolding start
start-Fits [] = initial-Fits 0 none (omega arith) tt
start-Fits (c ∷ []) =
    Clean-if _ (c == b':') _ _ (λ e. tt) (λ e. initial-Fits 0 none (omega arith) tt)
start-Fits (c ∷ d ∷ rest) =
    Clean-if _ (c == b':') _ _
      (λ e.
        Clean-if _ (d == b':') _ _ (λ e'. initial-Fits 1 (some 1) (omega arith) (omega arith))
          (λ e'. tt))
      (λ e. initial-Fits 0 none (omega arith) tt)

-- For every input `parseIPv6Host` ends with null or with eight pieces of at most 0xffff, and it
-- never reads or writes `address` outside its eight entries.
pub parse_ipv6_host-IsAddress : (input : Text) → Clean IsAddress (parse_ipv6_host input)
unfolding parse_ipv6_host
parse_ipv6_host-IsAddress input =
    Clean-bind (λ r. Fits r.0) IsAddress (start input) _ (start-Fits input)
      (λ r h.
        Clean-bind Fits IsAddress (rounds (length r.1 + 1) r.0 r.1) _
          (rounds-Fits (length r.1 + 1) r.0 r.1 h (omega arith)) (λ p f. decompress-IsAddress p f))
