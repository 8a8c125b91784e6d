-- ===== src/Util/Inspect/Unseen.antt =====
-- The objects that `ctx.seen` of lib/util/inspect.js does not have yet, and inspections that end.
use zero_archive.Prelude.{
  List, ◌≡◌, ◌++◌, ◌∷◌, [], some, ℕ, true, false, refl, arith, zero, suc, if◌then◌else◌, ◌≤◌, ◌<◌,
  ap, sym, ◌∙◌,
}
use mathlib.Core.List.{append_assoc}
use zero_archive.Util.Inspect.Values.{
  Context, includes_object, tail, pop_seen, Inspection, and_then,
}

-- How many of the first objects are not seen.
unfoldable pub unseen : ℕ → List ℕ → ℕ
unseen zero seen = 0
unseen (suc n) seen =
    let others = unseen n seen in if includes_object n seen then others else suc others

includes_object-append :
    (r : ℕ) (extra seen : List ℕ)
    → includes_object r seen ≡ true
    → includes_object r (extra ++ seen) ≡ true
unfolding includes_object
includes_object-append r [] seen h = h
includes_object-append r (s ∷ extra) seen h = ground (arith, includes_object-append r extra seen h)

pub unseen-append : (n : ℕ) (extra seen : List ℕ) → unseen n (extra ++ seen) ≤ unseen n seen
unfolding unseen
unseen-append zero extra seen = omega arith
unseen-append (suc n) extra seen =
    ground (arith, unseen-append n extra seen, includes_object-append n extra seen)

-- An object that is seen now is one less.
pub unseen-cons :
    (n r : ℕ) (seen : List ℕ)
    → r < n
    → includes_object r seen ≡ false
    → unseen n (r ∷ seen) < unseen n seen
unfolding unseen includes_object
unseen-cons zero r seen l h = absurd (omega arith)
unseen-cons (suc n) r seen l h = ground (arith, unseen-cons n r seen, unseen-append n (r ∷ []) seen)

-- An inspection that ends, and leaves all that was seen.
pub record Ends {A : Type 0} (seen : List ℕ) (o : Inspection A) : Type 0 where
  pub value : A
  pub behind : Context
  pub extra : List ℕ
  pub ends : o ≡ some (value, behind)
  pub grows : behind.seen ≡ extra ++ seen

pub Ends-done : {A : Type 0} (a : A) (ctx : Context) → Ends ctx.seen (some (a, ctx))
Ends-done a ctx = record { value = a; behind = ctx; extra = []; ends = refl; grows = refl }

pub Ends-and_then :
    {A B : Type 0} (n : ℕ) (seen : List ℕ) (o : Inspection A) (f : A → Context → Inspection B)
    → Ends seen o
    → ((a : A) (ctx : Context) → unseen n ctx.seen ≤ unseen n seen → Ends ctx.seen (f a ctx))
    → Ends seen (and_then o f)
Ends-and_then n seen o f p q =
    let r = q p.value p.behind (rw p.grows (unseen-append n p.extra seen)) in
    record {
      value = r.value;
      behind = r.behind;
      extra = r.extra ++ p.extra;
      ends = ap (λ x. and_then x f) p.ends ∙ r.ends;
      grows = r.grows ∙ ap (λ s. r.extra ++ s) p.grows ∙ sym (append_assoc r.extra p.extra seen);
    }

-- What is left of the extra ones when the last one is taken away.
abbrev less : ℕ → List ℕ → List ℕ
less r [] = []
less r (s ∷ extra) = extra ++ r ∷ []

tail-less : (r : ℕ) (extra seen : List ℕ) → tail (extra ++ r ∷ seen) ≡ less r extra ++ seen
tail-less r [] seen = refl
tail-less r (s ∷ extra) seen = sym (append_assoc extra (r ∷ []) seen)

-- `pop` behind the children, which may have left others in `seen`.
pub Ends-pop :
    {A B : Type 0} (r : ℕ) (seen : List ℕ) (o : Inspection A) (f : A → Context → B)
    → Ends (r ∷ seen) o
    → Ends seen (and_then o (λ a ctx. some (f a ctx, pop_seen ctx)))
Ends-pop r seen o f p = record {
  value = f p.value p.behind;
  behind = pop_seen p.behind;
  extra = less r p.extra;
  ends = ap (λ x. and_then x (λ a ctx. some (f a ctx, pop_seen ctx))) p.ends;
  grows = ap tail p.grows ∙ tail-less r p.extra seen;
}

-- Without `pop` the object stays.
pub Ends-stays :
    {A : Type 0} (r : ℕ) (seen : List ℕ) (o : Inspection A) → Ends (r ∷ seen) o → Ends seen o
Ends-stays r seen o p = record {
  value = p.value;
  behind = p.behind;
  extra = p.extra ++ r ∷ [];
  ends = p.ends;
  grows = p.grows ∙ sym (append_assoc p.extra (r ∷ []) seen);
}
