-- ===== src/Prelude/Texts.antt =====
-- Texts as lists of UTF-16 code units, the way the source indexes its strings.
use Prim.Native.Nat.{ℕ}
use Prim.Native.Char.{code}
use Prim.Native.String.{String}
use mathlib.Core.Path.{◌≡◌, refl}
use mathlib.Core.Bool.{Bool, true, false, not, ◌&&◌}
use mathlib.Core.List.{List, [], ◌∷◌, ◌++◌}
use mathlib.Core.Option.{Option, none, some}
use native.Mathlib.Omega.{arith}
use zero_archive.Prelude.Tests.{◌==◌, if◌then◌else◌}

abbrev pub Text : Type 0
Text = List ℕ

-- The code units of a literal; every literal of the development is ASCII.
abbrev pub codes : String → Text
codes String.[] = []
codes (String.◌∷◌ c s) = code c ∷ codes s

-- `a === b` on strings.
unfoldable pub same : Text → Text → Bool
same [] [] = true
same (x ∷ xs) (y ∷ ys) = x == y && same xs ys
same _ _ = false

pub same_refl : (xs : Text) → same xs xs ≡ true
unfolding same
same_refl [] = refl
same_refl (x ∷ xs) = ground (arith, same_refl xs)

pub same→eq : (xs ys : Text) → same xs ys ≡ true → xs ≡ ys
unfolding same
same→eq [] [] h = refl
same→eq [] (y ∷ ys) h = cc
same→eq (x ∷ xs) [] h = cc
same→eq (x ∷ xs) (y ∷ ys) h = ground (arith, same→eq xs ys)

-- `ch === c` for `ch = input[index]`, which is undefined behind the end.
abbrev pub is_char : Option ℕ → ℕ → Bool
is_char none c = false
is_char (some d) c = d == c

-- Every `from` of the text becomes `to`.
abbrev pub replace_char : ℕ → ℕ → Text → Text
replace_char from to [] = []
replace_char from to (c ∷ cs) =
    let rest = replace_char from to cs in if c == from then to ∷ rest else c ∷ rest

-- No character of the text is `c`.
unfoldable pub lacks : ℕ → Text → Bool
lacks c [] = true
lacks c (d ∷ ds) = not (d == c) && lacks c ds

pub lacks-concat :
    (c : ℕ) (xs : Text) (d : ℕ)
    → lacks c xs ≡ true
    → (d == c) ≡ false
    → lacks c (xs ++ d ∷ []) ≡ true
unfolding lacks
lacks-concat c [] d h e = ground arith
lacks-concat c (x ∷ xs) d h e = ground (arith, lacks-concat c xs d)
