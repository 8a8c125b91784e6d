-- ===== src/Url/Ipv6/Runs.antt =====
-- Results of code that returns null, and that indexes an array: an index outside the array is a
-- fault, and so is a loop that has used up its fuel.
use mathlib.Core.Path.{subst}
use zero_archive.Prelude.{
  Bool, true, false, refl, ◌≡◌, ◌<◌, lt→ltb, ℕ, List, if◌then◌else◌, ltb, length, get_or, set,
}

pub data Run {ℓ} (A : Type ℓ) : Type ℓ where
  returned : A → Run A
  null : Run A
  fault : Run A
  out_of_fuel : Run A

infixl 5 ◌>>=◌
abbrev pub ◌>>=◌ {ℓ κ} : {A : Type ℓ} {B : Type κ} → Run A → (A → Run B) → Run B
returned a >>= f = f a
null >>= f = null
fault >>= f = fault
out_of_fuel >>= f = out_of_fuel

-- `address[i]` and `address[i] = v`.
unfoldable pub read : List ℕ → ℕ → Run ℕ
read address i = if ltb i (length address) then returned (get_or address i 0) else fault

unfoldable pub write : List ℕ → ℕ → ℕ → Run (List ℕ)
write address i v = if ltb i (length address) then returned (set address i v) else fault

-- A run is clean when it returns a value with `P`, or null: it neither faults nor lacks fuel.
abbrev pub Clean {ℓ} : {A : Type ℓ} → (A → Type 0) → Run A → Type 0
Clean P (returned a) = P a
Clean P null = Unit
Clean P fault = ⊥
Clean P out_of_fuel = ⊥

pub Clean-bind {ℓ κ} :
    {A : Type ℓ} {B : Type κ} (P : A → Type 0) (Q : B → Type 0) (m : Run A) (f : A → Run B)
    → Clean P m
    → ((a : A) → P a → Clean Q (f a))
    → Clean Q (m >>= f)
Clean-bind P Q (returned a) f h k = k a h
Clean-bind P Q null f h k = tt
Clean-bind P Q fault f h k = h
Clean-bind P Q out_of_fuel f h k = h

pub Clean-map {ℓ} :
    {A : Type ℓ} (P Q : A → Type 0) (m : Run A) → ((a : A) → P a → Q a) → Clean P m → Clean Q m
Clean-map P Q (returned a) f h = f a h
Clean-map P Q null f h = tt
Clean-map P Q fault f h = h
Clean-map P Q out_of_fuel f h = h

pub Clean-returned {ℓ} :
    {A : Type ℓ} (P : A → Type 0) (m : Run A) (a : A) → Clean P m → m ≡ returned a → P a
Clean-returned P m a h e = subst (Clean P) e h

pub read-Clean :
    (P : ℕ → Type 0) (address : List ℕ) (i : ℕ)
    → i < length address
    → P (get_or address i 0)
    → Clean P (read address i)
unfolding read
read-Clean P address i h p = rw (lt→ltb i (length address) h) p

pub write-Clean :
    (P : List ℕ → Type 0) (address : List ℕ) (i v : ℕ)
    → i < length address
    → P (set address i v)
    → Clean P (write address i v)
unfolding write
write-Clean P address i v h p = rw (lt→ltb i (length address) h) p

pub Clean-if {ℓ} :
    {A : Type ℓ} (P : A → Type 0) (b : Bool) (m n : Run A)
    → (b ≡ true → Clean P m)
    → (b ≡ false → Clean P n)
    → Clean P (if b then m else n)
Clean-if P true m n hm hn = hm refl
Clean-if P false m n hm hn = hn refl
