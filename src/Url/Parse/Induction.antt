-- ===== src/Url/Parse/Induction.antt =====
-- Invariants of the loop of `basicURLParse`.
use zero_archive.Prelude.{
  ℕ, zero, suc, ◌+◌, ◌<◌, ◌≡◌, ◌≢◌, refl, inl, inr, arith, ltb, Option, length, Text, Bool-cases,
}
use zero_archive.Url.Record.{Url}
use zero_archive.Url.Machine.{Context, Machine, State, Step, next, return, type_error}
use zero_archive.Url.Parse.{
  step, run, Result, parsed, throws, out_of_fuel, start, fuel_for, context, basic_url_parse,
}
use zero_archive.Url.Parse.Measure.{measure, step-measure, measure-start}

-- The call returns a record with `Q`.
abbrev pub Parses : (Url → Type 0) → Result → Type 0
Parses Q (parsed url) = Q url
Parses Q throws = ⊥
Parses Q out_of_fuel = ⊥

abbrev Result-of : (Url → Type 0) → (Machine → Type 0) → Step → Type 0
Result-of Q P (next m) = P m
Result-of Q P (return url) = Q url
Result-of Q P type_error = ⊥

-- An invariant of the rounds that no round leaves by a TypeError, and what it gives at the end.
pub record Invariant (x : Context) (P : Machine → Type 0) (Q : Url → Type 0) : Type 0 where
  pub goes_on : (m m' : Machine) → P m → step x m ≡ next m' → P m'
  pub returns : (m : Machine) (url : Url) → P m → step x m ≡ return url → Q url
  pub ends : (m : Machine) → P m → Q m.url
  pub no_type_error : (m : Machine) → P m → step x m ≢ type_error

module _ (x : Context) (P : Machine → Type 0) (Q : Url → Type 0) (inv : Invariant x P Q) where
  run-Parses : (fuel : ℕ) (m : Machine) → P m → measure x m < fuel → Parses Q (run fuel x m)
  unfolding run
  run-Parses zero m p h = absurd (omega arith)
  run-Parses (suc fuel) m p h = elim (Bool-cases (ltb m.index (length x.input + 1))) [
    | inl l ↦ rw l (go_on (ground arith) (step x m) refl (run-Parses fuel))
    | inr l ↦ rw l (inv.ends m p)
  ]
    where
      go_on :
          m.index < length x.input + 1
          → (s : Step) → step x m ≡ s
          → ((m' : Machine) → P m' → measure x m' < fuel → Parses Q (run fuel x m'))
          → Parses Q
              (elim s [ next m' ↦ run fuel x m' | return url ↦ parsed url | type_error ↦ throws ])
      go_on l (next m') e ih = ih m' (inv.goes_on m m' p e) (omega (arith, step-measure x m m' l e))
      go_on l (return url) e ih = inv.returns m url p e
      go_on l type_error e ih = absurd (inv.no_type_error m p e)

-- An invariant that holds at the start makes a whole call return a record with `Q`.
pub basic_url_parse-Parses :
    (P : Machine → Type 0) (Q : Url → Type 0) (upper : ℕ → Text) (input : Text) (base : Option Url)
    (state_override : Option State)
    → Invariant (context upper input base state_override) P Q
    → P (start state_override)
    → Parses Q (basic_url_parse upper input base state_override)
unfolding basic_url_parse
basic_url_parse-Parses P Q upper input base state_override inv p =
    let x = context upper input base state_override in
    run-Parses x P Q inv (fuel_for x.input) (start state_override) p
      (omega (arith, measure-start x state_override))
