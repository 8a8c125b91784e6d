-- ===== src/Url/Parse/PathFits.antt =====
-- What a well-formed path is in each round of `basicURLParse`, and the rounds that leave it alone.
use zero_archive.Prelude.{
  ℕ, ◌≡◌, refl, Bool, true, false, not, ◌&&◌, ◌||◌, Option, none, some, [], arith, Text, is_char,
  Option-cases, inl, inr, same→eq, lacks, lacks-concat,
}
use zero_archive.Url.Record.{Url, file_scheme, is_special, normalize_port}
use zero_archive.Url.Machine.{Context, Machine, State, Step, next}
use zero_archive.Url.Parse.Consistent.{IsConsistent, Agrees, file_scheme_special}
use zero_archive.Url.Parse.Segments.{all_fit, not_slash_of_digit}
use zero_archive.Url.Step.Scheme.{after_scheme, end_scheme, base_has_scheme}
use zero_archive.Url.Step.Authority.{
  step_host, step_port, host_colon, end_host, host_character, port_digit, end_port,
}
use zero_archive.Url.Step.File.{file_base}

-- A record whose path is well-formed. With `special` it can be a base.
pub record IsWellPathed (u : Url) : Type 0 where
  pub opaque : (u.cannot_be_base && u.special) ≡ false
  pub segments : (u.cannot_be_base || all_fit u.path) ≡ true

-- The states in which `cannotBeBase` may be set.
unfoldable pub may_be_opaque : State → Bool
may_be_opaque State.cannot_be_base = true
may_be_opaque State.query = true
may_be_opaque State.fragment = true
may_be_opaque _ = false

unfoldable pub is_opaque_state : State → Bool
is_opaque_state State.cannot_be_base = true
is_opaque_state _ = false

-- The states whose buffer may hold a slash.
unfoldable pub may_hold_slash : State → Bool
may_hold_slash State.query = true
may_hold_slash State.fragment = true
may_hold_slash _ = false

-- The states that copy the path of a base.
unfoldable pub copies_path : State → Bool
copies_path State.special_relative_or_authority = true
copies_path State.relative = true
copies_path _ = false

unfoldable pub base_is_opaque : Option Url → Bool
base_is_opaque none = false
base_is_opaque (some base) = base.cannot_be_base

pub record PathFits (x : Context) (m : Machine) : Type 0 where
  pub url : IsWellPathed m.url
  pub opaque_only : (not (may_be_opaque m.state) && m.url.cannot_be_base) ≡ false
  pub opaque_state : (is_opaque_state m.state && not m.url.cannot_be_base) ≡ false
  pub buffer : (not (may_hold_slash m.state) && not (lacks b'/' m.buffer)) ≡ false
  pub base : (copies_path m.state && base_is_opaque x.base) ≡ false

pub record IsBase (u : Url) : Type 0 where
  pub consistent : IsConsistent u
  pub well_pathed : IsWellPathed u

abbrev pub Keeps : (Context → Machine → Option ℕ → Step) → State → Type 0
Keeps f s =
    (x : Context) (m m' : Machine) (ch : Option ℕ)
    → m.state ≡ s
    → PathFits x m
    → Agrees x m
    → ((base : Url) → x.base ≡ some base → IsBase base)
    → f x m ch ≡ next m'
    → PathFits x m'

pub lacks_nil : lacks b'/' [] ≡ true
unfolding lacks
lacks_nil = refl

all_fit_nil : all_fit [] ≡ true
unfolding all_fit
all_fit_nil = refl

-- A round that leaves the path alone and whose buffer still has no slash.
pub record Plain (m m' : Machine) : Type 0 where
  path : m'.url.path ≡ m.url.path
  cannot_be_base : m'.url.cannot_be_base ≡ m.url.cannot_be_base
  special : m'.url.special ≡ m.url.special
  buffer : lacks b'/' m'.buffer ≡ true
  state : (may_be_opaque m'.state || copies_path m'.state) ≡ false

pub PathFits-Plain :
    (x : Context) (m m' : Machine)
    → may_be_opaque m.state ≡ false
    → PathFits x m
    → Plain m m'
    → PathFits x m'
unfolding may_be_opaque is_opaque_state may_hold_slash copies_path base_is_opaque
PathFits-Plain x m m' s p q = ground arith

unfoldable pub is_host : State → Bool
is_host State.host = true
is_host State.hostname = true
is_host _ = false

host_character-Plain :
    (m m' : Machine) (ch : Option ℕ)
    → is_host m.state ≡ true
    → lacks b'/' m.buffer ≡ true
    → is_char ch b'/' ≡ false
    → host_character m ch ≡ next m'
    → Plain m m'
unfolding host_character may_be_opaque copies_path is_host
host_character-Plain m m' none s l e h = ground arith
host_character-Plain m m' (some c) s l e h = ground (arith, lacks-concat b'/' m.buffer c)

host_colon-Plain : (x : Context) (m m' : Machine) → host_colon x m ≡ next m' → Plain m m'
unfolding host_colon may_be_opaque copies_path
host_colon-Plain x m m' h = ground (arith, lacks_nil)

end_host-Plain : (x : Context) (m m' : Machine) → end_host x m ≡ next m' → Plain m m'
unfolding end_host may_be_opaque copies_path
end_host-Plain x m m' h = ground (arith, lacks_nil)

pub host-Plain :
    (x : Context) (m m' : Machine) (ch : Option ℕ)
    → is_host m.state ≡ true
    → lacks b'/' m.buffer ≡ true
    → step_host x m ch ≡ next m'
    → Plain m m'
unfolding step_host may_be_opaque copies_path
host-Plain x m m' ch s l h =
    ground (arith, host_colon-Plain x m m', end_host-Plain x m m', host_character-Plain m m' ch)

pub port-Plain :
    (x : Context) (m m' : Machine) (ch : Option ℕ)
    → lacks b'/' m.buffer ≡ true
    → step_port x m ch ≡ next m'
    → Plain m m'
unfolding step_port may_be_opaque copies_path port_digit end_port
port-Plain x m m' none l h = ground (arith, lacks_nil)
port-Plain x m m' (some c) l h =
    ground (arith, lacks_nil, not_slash_of_digit (some c), lacks-concat b'/' m.buffer c)

-- Behind the colon of a scheme.
after_scheme-PathFits :
    (x : Context) (m m' : Machine) (url : Url)
    → url.cannot_be_base ≡ false
    → all_fit url.path ≡ true
    → lacks b'/' m.buffer ≡ true
    → (url.special && base_has_scheme x url.scheme && base_is_opaque x.base) ≡ false
    → after_scheme x m url ≡ next m'
    → PathFits x m'
unfolding after_scheme may_be_opaque is_opaque_state may_hold_slash copies_path
after_scheme-PathFits x m m' url o a l b h = ground arith

base_of_special :
    (x : Context) (scheme : Text)
    → ((base : Url) → x.base ≡ some base → IsBase base)
    → (is_special scheme && base_has_scheme x scheme && base_is_opaque x.base) ≡ false
unfolding base_has_scheme base_is_opaque
base_of_special x scheme b = elim (Option-cases x.base) [
  | inl e ↦ ground arith
  | inr (base, e) ↦ ground (arith, b base e, same→eq scheme base.scheme)
]

pub end_scheme-PathFits :
    (x : Context) (m m' : Machine) (buffer : Text)
    → m.url.cannot_be_base ≡ false
    → all_fit m.url.path ≡ true
    → ((base : Url) → x.base ≡ some base → IsBase base)
    → end_scheme x m buffer ≡ next m'
    → PathFits x m'
unfolding end_scheme
end_scheme-PathFits x m m' buffer o a b h = ground (
  arith,
  lacks_nil,
  base_of_special x buffer b,
  after_scheme-PathFits x (record m { buffer = [] }) m'
      (record (m.url) {
        scheme = buffer;
        port = normalize_port buffer m.url.port;
        special = is_special buffer;
      }),
)

pub file_base-fits :
    (x : Context) (base : Url)
    → ((base' : Url) → x.base ≡ some base' → IsBase base')
    → file_base x ≡ some base
    → (base.cannot_be_base ≡ false) × (all_fit base.path ≡ true)
unfolding file_base
file_base-fits x base b e =
    ground (arith, b base, file_scheme_special, same→eq base.scheme file_scheme)

pub held :
    (x : Context) (m : Machine)
    → PathFits x m
    → may_hold_slash m.state ≡ false
    → lacks b'/' m.buffer ≡ true
held x m p e = ground (arith, p.buffer)
