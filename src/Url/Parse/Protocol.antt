-- ===== src/Url/Parse/Protocol.antt =====
-- `basicURLParse` with STATE_SCHEME_START as its override, as the setter of `protocol` calls it.
use mathlib.Core.Path.{subst}
use zero_archive.Prelude.{
  [], ◌≢◌, ◌⊎◌, ℕ, ◌≡◌, refl, Bool, true, false, Option, none, some, Text, arith, same, get_elem?,
  inl, inr,
}
use zero_archive.Url.Record.{Url, empty_url, is_special, lookup_special}
use zero_archive.Url.Machine.{Context, Machine, State, next, return, type_error}
use zero_archive.Url.Step.Scheme.{
  step_scheme_start, step_scheme, end_scheme, after_scheme, base_has_scheme,
}
use zero_archive.Url.Parse.{context, basic_url_parse, step, step_in}
use zero_archive.Url.Parse.Induction.{Parses, Invariant, basic_url_parse-Parses}

unfoldable pub is_scheme_state : State → Bool
is_scheme_state State.scheme_start = true
is_scheme_state State.scheme = true
is_scheme_state _ = false

-- The record is still the fresh one, and the scheme is being read.
record IsReading (m : Machine) : Type 0 where
  fresh : m.url ≡ empty_url
  reading : is_scheme_state m.state ≡ true

empty_not_special : is_special [] ≡ false
unfolding is_special lookup_special same
empty_not_special = refl

scheme_start-IsReading :
    (x : Context) (m m' : Machine) (ch : Option ℕ)
    → x.state_override ≡ some State.scheme_start
    → IsReading m
    → step_scheme_start x m ch ≡ next m'
    → IsReading m'
unfolding is_scheme_state step_scheme_start
scheme_start-IsReading x m m' ch o r h = ground arith

scheme-IsReading :
    (x : Context) (m m' : Machine) (ch : Option ℕ)
    → x.state_override ≡ some State.scheme_start
    → IsReading m
    → step_scheme x m ch ≡ next m'
    → IsReading m'
unfolding is_scheme_state step_scheme end_scheme
scheme-IsReading x m m' ch o r h = ground arith

abbrev IsPlain : Url → Type 0
IsPlain u = is_special u.scheme ≡ false

scheme_start-IsPlain :
    (x : Context) (m : Machine) (url : Url) (ch : Option ℕ)
    → IsReading m
    → step_scheme_start x m ch ≡ return url
    → IsPlain url
unfolding step_scheme_start
scheme_start-IsPlain x m url ch r h = ground (arith, empty_not_special)

scheme-IsPlain :
    (x : Context) (m : Machine) (url : Url) (ch : Option ℕ)
    → x.state_override ≡ some State.scheme_start
    → IsReading m
    → step_scheme x m ch ≡ return url
    → IsPlain url
unfolding step_scheme end_scheme
scheme-IsPlain x m url ch o r h = ground (arith, empty_not_special)

scheme_state-cases :
    (s : State) → is_scheme_state s ≡ true → (s ≡ State.scheme_start) ⊎ (s ≡ State.scheme)
unfolding is_scheme_state
scheme_state-cases State.scheme_start h = inl refl
scheme_state-cases State.scheme h = inr refl
scheme_state-cases _ h = cc

scheme_start-returns :
    (x : Context) (m : Machine) (ch : Option ℕ) → step_scheme_start x m ch ≢ type_error
unfolding step_scheme_start
scheme_start-returns x m ch h = ground arith

scheme-returns : (x : Context) (m : Machine) (ch : Option ℕ) → step_scheme x m ch ≢ type_error
unfolding step_scheme end_scheme after_scheme base_has_scheme
scheme-returns x m ch h = ground arith

module _ (x : Context) (override : x.state_override ≡ some State.scheme_start) where
  goes_on : (m m' : Machine) → IsReading m → step x m ≡ next m' → IsReading m'
  unfolding step_in
  goes_on m m' r h =
      let ch = get_elem? x.input m.index in
      elim (scheme_state-cases m.state r.reading) [
        | inl e ↦
            scheme_start-IsReading x m m' ch override r
              (subst (λ s. step_in s x m ch ≡ next m') e h)
        | inr e ↦
            scheme-IsReading x m m' ch override r (subst (λ s. step_in s x m ch ≡ next m') e h)
      ]

  returns : (m : Machine) (url : Url) → IsReading m → step x m ≡ return url → IsPlain url
  unfolding step_in
  returns m url r h =
      let ch = get_elem? x.input m.index in
      elim (scheme_state-cases m.state r.reading) [
        | inl e ↦ scheme_start-IsPlain x m url ch r (subst (λ s. step_in s x m ch ≡ return url) e h)
        | inr e ↦
            scheme-IsPlain x m url ch override r (subst (λ s. step_in s x m ch ≡ return url) e h)
      ]

  never_throws : (m : Machine) → IsReading m → step x m ≢ type_error
  unfolding step_in
  never_throws m r h =
      let ch = get_elem? x.input m.index in
      elim (scheme_state-cases m.state r.reading) [
        | inl e ↦ scheme_start-returns x m ch (subst (λ s. step_in s x m ch ≡ type_error) e h)
        | inr e ↦ scheme-returns x m ch (subst (λ s. step_in s x m ch ≡ type_error) e h)
      ]

  reading : Invariant x IsReading IsPlain
  reading = record {
    goes_on = goes_on;
    returns = returns;
    ends = λ m r. rw r.fresh empty_not_special;
    no_type_error = never_throws;
  }

-- With the state override of the setter of `protocol`, no input is parsed to a special scheme: an
-- input such as `https` ends with the empty scheme of the fresh record.
pub protocol_never_special :
    (upper : ℕ → Text) (input : Text)
    → Parses
        (λ u. is_special u.scheme ≡ false)
        (basic_url_parse upper input none (some State.scheme_start))
unfolding is_scheme_state
protocol_never_special upper input =
    basic_url_parse-Parses IsReading IsPlain upper input none (some State.scheme_start)
      (reading (context upper input none (some State.scheme_start)) refl)
      (record { fresh = refl; reading = refl })
