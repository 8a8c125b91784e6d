-- ===== src/Prelude/Lists.antt =====
-- Lists measured and indexed by native numbers, under the library's names.
use Prim.Native.Nat.{ℕ, zero, suc, ◌+◌, ◌<◌, ◌≤◌}
use mathlib.Core.Path.{◌≡◌, refl, ap}
use mathlib.Core.Logic.{◌≢◌}
use mathlib.Core.List.{List, [], ◌∷◌, ◌++◌}
use mathlib.Core.Option.{Option, none, some}
use native.Mathlib.Omega.{arith}

module _ {ℓ} {A : Type ℓ} where
  abbrev pub length : List A → ℕ
  length [] = 0
  length (x ∷ xs) = suc (length xs)

  abbrev pub get_elem? : List A → ℕ → Option A
  get_elem? [] i = none
  get_elem? (x ∷ xs) zero = some x
  get_elem? (x ∷ xs) (suc i) = get_elem? xs i

  -- A write out of bounds changes nothing.
  abbrev pub set : List A → ℕ → A → List A
  set [] i v = []
  set (x ∷ xs) zero v = v ∷ xs
  set (x ∷ xs) (suc i) v = x ∷ set xs i v

  abbrev pub get_or : List A → ℕ → A → A
  get_or [] i d = d
  get_or (x ∷ xs) zero d = x
  get_or (x ∷ xs) (suc i) d = get_or xs i d

  abbrev pub drop : ℕ → List A → List A
  drop zero xs = xs
  drop (suc n) [] = []
  drop (suc n) (x ∷ xs) = drop n xs

  abbrev pub take : ℕ → List A → List A
  take zero xs = []
  take (suc n) [] = []
  take (suc n) (x ∷ xs) = x ∷ take n xs

  -- `xs.splice(i, 1)`
  abbrev pub remove_at : List A → ℕ → List A
  remove_at [] i = []
  remove_at (x ∷ xs) zero = xs
  remove_at (x ∷ xs) (suc i) = x ∷ remove_at xs i

  -- The list without its last element.
  abbrev pub drop_last : List A → List A
  drop_last [] = []
  drop_last (x ∷ []) = []
  drop_last (x ∷ y ∷ xs) = x ∷ drop_last (y ∷ xs)

  pub length-append : (xs ys : List A) → length (xs ++ ys) ≡ length xs + length ys
  length-append [] ys = omega arith
  length-append (x ∷ xs) ys = omega (arith, length-append xs ys)

  pub length-set : (xs : List A) (i : ℕ) (v : A) → length (set xs i v) ≡ length xs
  length-set [] i v = refl
  length-set (x ∷ xs) zero v = refl
  length-set (x ∷ xs) (suc i) v = ap suc (length-set xs i v)

-- Every element satisfies `P`.
abbrev pub All {ℓ κ} : {A : Type ℓ} → (A → Type κ) → List A → Type κ
All P [] = Unit
All P (x ∷ xs) = P x × All P xs

module _ {ℓ κ} {A : Type ℓ} (P : A → Type κ) where
  pub All-append : (xs ys : List A) → All P xs → All P ys → All P (xs ++ ys)
  All-append [] ys hx hy = hy
  All-append (x ∷ xs) ys hx hy = (hx.0, All-append xs ys hx.1 hy)

  pub All-concat : (xs : List A) (x : A) → All P xs → P x → All P (xs ++ x ∷ [])
  All-concat xs x h p = All-append xs (x ∷ []) h (p, tt)

  pub All-drop_last : (xs : List A) → All P xs → All P (drop_last xs)
  All-drop_last [] h = h
  All-drop_last (x ∷ []) h = tt
  All-drop_last (x ∷ y ∷ xs) h = (h.0, All-drop_last (y ∷ xs) h.1)

  pub All-set : (xs : List A) (i : ℕ) (v : A) → All P xs → P v → All P (set xs i v)
  All-set [] i v h p = h
  All-set (x ∷ xs) zero v h p = (p, h.1)
  All-set (x ∷ xs) (suc i) v h p = (h.0, All-set xs i v h.1 p)

  pub All-get_or : (xs : List A) (i : ℕ) (d : A) → All P xs → P d → P (get_or xs i d)
  All-get_or [] i d h p = p
  All-get_or (x ∷ xs) zero d h p = h.0
  All-get_or (x ∷ xs) (suc i) d h p = All-get_or xs i d h.1 p

module _ {ℓ} {A : Type ℓ} where
  pub get_or-set_self :
      (xs : List A) (i : ℕ) (v d : A) → i < length xs → get_or (set xs i v) i d ≡ v
  get_or-set_self [] i v d h = absurd (omega arith)
  get_or-set_self (x ∷ xs) zero v d h = refl
  get_or-set_self (x ∷ xs) (suc i) v d h = get_or-set_self xs i v d (omega arith)

  pub get_or-set_ne :
      (xs : List A) (i j : ℕ) (v d : A) → i ≢ j → get_or (set xs i v) j d ≡ get_or xs j d
  get_or-set_ne [] i j v d h = refl
  get_or-set_ne (x ∷ xs) zero zero v d h = absurd (h refl)
  get_or-set_ne (x ∷ xs) zero (suc j) v d h = refl
  get_or-set_ne (x ∷ xs) (suc i) zero v d h = refl
  get_or-set_ne (x ∷ xs) (suc i) (suc j) v d h = get_or-set_ne xs i j v d (λ e. h (ap suc e))

module _ {ℓ} {A : Type ℓ} where
  pub take-suc-none : (xs : List A) (i : ℕ) → get_elem? xs i ≡ none → take (suc i) xs ≡ take i xs
  take-suc-none [] zero h = refl
  take-suc-none [] (suc i) h = refl
  take-suc-none (x ∷ xs) zero h = absurd cc
  take-suc-none (x ∷ xs) (suc i) h = ap (λ ys. x ∷ ys) (take-suc-none xs i h)

  pub take-suc-some :
      (xs : List A) (i : ℕ) (y : A)
      → get_elem? xs i ≡ some y
      → take (suc i) xs ≡ take i xs ++ y ∷ []
  take-suc-some [] i y h = absurd cc
  take-suc-some (x ∷ xs) zero y h = cc
  take-suc-some (x ∷ xs) (suc i) y h = ap (λ ys. x ∷ ys) (take-suc-some xs i y h)

  pub take-remove_at : (xs : List A) (i : ℕ) → take i (remove_at xs i) ≡ take i xs
  take-remove_at [] zero = refl
  take-remove_at [] (suc i) = refl
  take-remove_at (x ∷ xs) zero = refl
  take-remove_at (x ∷ xs) (suc i) = ap (λ ys. x ∷ ys) (take-remove_at xs i)

  pub take-set :
      (xs : List A) (i : ℕ) (x y : A)
      → get_elem? xs i ≡ some x
      → take (suc i) (set xs i y) ≡ take i xs ++ y ∷ []
  take-set [] i x y h = absurd cc
  take-set (z ∷ xs) zero x y h = refl
  take-set (z ∷ xs) (suc i) x y h = ap (λ ys. z ∷ ys) (take-set xs i x y h)

  pub take-length : (xs : List A) (n : ℕ) → length xs ≤ n → take n xs ≡ xs
  take-length [] zero h = refl
  take-length [] (suc n) h = refl
  take-length (x ∷ xs) zero h = absurd (omega arith)
  take-length (x ∷ xs) (suc n) h = ap (λ ys. x ∷ ys) (take-length xs n (omega arith))

  pub length-remove_at : (xs : List A) (i : ℕ) → length (remove_at xs i) ≤ length xs
  length-remove_at [] i = omega arith
  length-remove_at (x ∷ xs) zero = omega arith
  length-remove_at (x ∷ xs) (suc i) = omega (arith, length-remove_at xs i)

  pub length-remove_at_self :
      (xs : List A) (i : ℕ) → i < length xs → length xs ≡ suc (length (remove_at xs i))
  length-remove_at_self [] i h = absurd (omega arith)
  length-remove_at_self (x ∷ xs) zero h = omega arith
  length-remove_at_self (x ∷ xs) (suc i) h = omega (arith, length-remove_at_self xs i)

  pub remove_at-none : (xs : List A) (i : ℕ) → get_elem? xs i ≡ none → remove_at xs i ≡ xs
  remove_at-none [] i h = refl
  remove_at-none (x ∷ xs) zero h = absurd cc
  remove_at-none (x ∷ xs) (suc i) h = ap (λ ys. x ∷ ys) (remove_at-none xs i h)

  pub get_elem?-append_self :
      (pre rest : List A) (x : A) (i : ℕ) → i ≡ length pre → get_elem? (pre ++ x ∷ rest) i ≡ some x
  get_elem?-append_self [] rest x zero e = refl
  get_elem?-append_self [] rest x (suc i) e = absurd (omega arith)
  get_elem?-append_self (y ∷ pre) rest x zero e = absurd (omega arith)
  get_elem?-append_self (y ∷ pre) rest x (suc i) e =
      get_elem?-append_self pre rest x i (omega arith)

  pub remove_at-append_self :
      (pre rest : List A) (x : A) (i : ℕ)
      → i ≡ length pre
      → remove_at (pre ++ x ∷ rest) i ≡ pre ++ rest
  remove_at-append_self [] rest x zero e = refl
  remove_at-append_self [] rest x (suc i) e = absurd (omega arith)
  remove_at-append_self (y ∷ pre) rest x zero e = absurd (omega arith)
  remove_at-append_self (y ∷ pre) rest x (suc i) e =
      ap (λ ys. y ∷ ys) (remove_at-append_self pre rest x i (omega arith))

  pub get_elem?-beyond : (xs : List A) (i : ℕ) → length xs ≤ i → get_elem? xs i ≡ none
  get_elem?-beyond [] i h = refl
  get_elem?-beyond (x ∷ xs) zero h = absurd (omega arith)
  get_elem?-beyond (x ∷ xs) (suc i) h = get_elem?-beyond xs i (omega arith)
