-- ===== src/Url/Ipv6/Halves.antt =====
-- The loop over the decimal pieces of an embedded IPv4 address in `parseIPv6Host`.
use mathlib.Core.Path.{◌∙◌}
use zero_archive.Prelude.{
  ℕ, zero, suc, ◌+◌, ◌*◌, ◌/◌, ◌%◌, ◌≤◌, ◌<◌, ◌≡◌, refl, Option, none, some, List, [], ◌∷◌, arith,
  ◌==◌, ◌||◌, if◌then◌else◌, length, Text, inl, inr, get_or, set, All, All-set, length-set,
  get_or-set_self, get_or-set_ne, ◌⊎◌,
}
use zero_archive.Url.Ipv6.{Pieces, skip_dot, read_piece, decimal_pieces}
use zero_archive.Url.Ipv6.Digits.{read_piece-le, skip_dot-lt}
use zero_archive.Url.Ipv6.Runs.{read, write, Clean, Clean-bind, read-Clean, write-Clean}

abbrev pub IsPiece : ℕ → Type 0
IsPiece n = n ≤ 0xffff

pub record IsAddress (a : List ℕ) : Type 0 where
  pub eight : length a ≡ 8
  pub small : All IsPiece a

-- `compress` is the index of a piece that was left out, plus one.
abbrev pub CompressFits : Option ℕ → ℕ → Type 0
CompressFits none i = Unit
CompressFits (some k) i = (1 ≤ k) × (k ≤ i)

-- What holds in the loop of the embedded IPv4 address that was entered at index `i`.
pub record Halves (i : ℕ) (p : Pieces) (seen : ℕ) : Type 0 where
  pub is_address : IsAddress p.address
  pub entry_le : i ≤ 6
  pub index : p.piece_index ≡ i + seen / 2
  pub seen_le : seen ≤ 4
  pub zeros : (j : ℕ) → p.piece_index < j → get_or p.address j 0 ≡ 0
  pub half : get_or p.address p.piece_index 0 ≤ 255 * (seen % 2)
  pub compress_fits : CompressFits p.compress p.piece_index

pub IsAddress-set : (a : List ℕ) (i v : ℕ) → IsAddress a → IsPiece v → IsAddress (set a i v)
IsAddress-set a i v h p = record {
  eight = omega (arith, length-set a i v, h.eight);
  small = All-set IsPiece a i v h.small p;
}

pub zeros-set :
    (a : List ℕ) (i v j : ℕ)
    → ((k : ℕ) → i < k → get_or a k 0 ≡ 0)
    → i < j
    → get_or (set a i v) j 0 ≡ 0
zeros-set a i v j z h = get_or-set_ne a i j v 0 (omega arith) ∙ z j h

pub CompressFits-le : (c : Option ℕ) (i j : ℕ) → CompressFits c i → i ≤ j → CompressFits c j
CompressFits-le none i j h l = tt
CompressFits-le (some k) i j h l = (h.0, omega arith)

next_index : ℕ → ℕ → ℕ
next_index seen i = if seen + 1 == 2 || seen + 1 == 4 then i + 1 else i

next_index-cases :
    (seen i : ℕ)
    → seen < 4
    → ((seen % 2 ≡ 0) × (next_index seen i ≡ i)) ⊎ ((seen % 2 ≡ 1) × (next_index seen i ≡ i + 1))
unfolding next_index
next_index-cases zero i h = inl (refl, refl)
next_index-cases (suc zero) i h = inr (refl, refl)
next_index-cases (suc (suc zero)) i h = inl (refl, refl)
next_index-cases (suc (suc (suc zero))) i h = inr (refl, refl)
next_index-cases (suc (suc (suc (suc n)))) i h = absurd (omega arith)

-- One round of the loop over the decimal pieces, on the address alone.
module _ (a : List ℕ) (index seen piece : ℕ) (address : IsAddress a) (inside : index < 8)
    (few : seen < 4) (byte : piece ≤ 255) (zeros : (j : ℕ) → index < j → get_or a j 0 ≡ 0)
    (half : get_or a index 0 ≤ 255 * (seen % 2)) where
  abbrev value : ℕ
  value = get_or a index 0 * 0x100 + piece

  abbrev after : List ℕ
  after = set a index value

  step-IsAddress : IsAddress after
  step-IsAddress = IsAddress-set a index value address (omega arith)

  step_zeros : (j : ℕ) → next_index seen index < j → get_or after j 0 ≡ 0
  step_zeros j h =
      zeros-set a index value j zeros
        (elim (next_index-cases seen index few) [ inl e ↦ omega arith | inr e ↦ omega arith ])

  step_half : get_or after (next_index seen index) 0 ≤ 255 * ((seen + 1) % 2)
  step_half = elim (next_index-cases seen index few) [
    | inl e ↦
        rw e.1 (omega (arith, get_or-set_self a index value 0 (omega (arith, address.eight)), e.0))
    | inr e ↦ rw e.1 (
        omega (
          arith,
          get_or-set_ne a index (index + 1) value 0 (omega arith),
          zeros (index + 1) (omega arith),
        ))
  ]

Halves-step :
    (i : ℕ) (p : Pieces) (seen piece : ℕ)
    → Halves i p seen
    → seen < 4
    → piece ≤ 255
    → Halves i
        (record p {
          address = set p.address p.piece_index (get_or p.address p.piece_index 0 * 0x100 + piece);
          piece_index = next_index seen p.piece_index;
        })
        (seen + 1)
Halves-step i p seen piece h l b =
    let inside : p.piece_index < 8 = omega (arith, h.index, h.entry_le) in
    let cases = next_index-cases seen p.piece_index l in
    record {
      is_address =
          step-IsAddress p.address p.piece_index seen piece h.is_address inside l b h.zeros h.half;
      entry_le = h.entry_le;
      index = elim cases [ inl e ↦ omega (arith, h.index) | inr e ↦ omega (arith, h.index) ];
      seen_le = omega arith;
      zeros = step_zeros p.address p.piece_index seen piece h.is_address inside l b h.zeros h.half;
      half = step_half p.address p.piece_index seen piece h.is_address inside l b h.zeros h.half;
      compress_fits =
          CompressFits-le p.compress p.piece_index _ h.compress_fits
            (elim cases [ inl e ↦ omega arith | inr e ↦ omega arith ]);
    }

pub decimal_pieces-Halves :
    (fuel i : ℕ) (p : Pieces) (seen : ℕ) (rest : Text)
    → Halves i p seen
    → fuel + seen ≡ 6
    → Clean (λ r. Halves i r.0 r.1) (decimal_pieces fuel p seen rest)
unfolding decimal_pieces next_index
decimal_pieces-Halves zero i p seen rest h e = absurd (omega (arith, h.seen_le))
decimal_pieces-Halves (suc fuel) i p seen [] h e = h
decimal_pieces-Halves (suc fuel) i p seen (c ∷ rest) h e =
    Clean-bind (λ _. seen < 4) _ (skip_dot seen (c ∷ rest)) _ (skip_dot-lt seen c rest)
      (λ digits l.
        Clean-bind (λ x. x.0 ≤ 255) _ (read_piece digits) _ (read_piece-le digits)
          (λ x b.
            let inside : p.piece_index < length p.address =
              omega (arith, h.index, h.entry_le, h.is_address.eight) in
            Clean-bind (λ old. old ≡ get_or p.address p.piece_index 0) _
              (read p.address p.piece_index) _ (read-Clean _ p.address p.piece_index inside refl)
              (λ old eo.
                Clean-bind (λ a. a ≡ set p.address p.piece_index (old * 0x100 + x.0)) _
                  (write p.address p.piece_index (old * 0x100 + x.0)) _
                  (write-Clean _ p.address p.piece_index _ inside refl)
                  (λ a ea.
                    rw (ea, eo)
                      (decimal_pieces-Halves fuel i _ (seen + 1) x.1
                        (Halves-step i p seen x.0 h l b) (omega arith))))))
