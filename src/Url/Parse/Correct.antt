-- ===== src/Url/Parse/Correct.antt =====
-- What `basicURLParse` returns, for the states that lib/whatwg/url/parser.js exports.
use zero_archive.Prelude.{ℕ, ◌≡◌, Bool, true, false, Option, none, some, Text, arith, same, lacks}
use zero_archive.Url.Record.{Url, is_special, lookup_special}
use zero_archive.Url.Machine.{Context, Machine, State}
use zero_archive.Url.Parse.{start, context, basic_url_parse}
use zero_archive.Url.Parse.Induction.{Parses, Invariant, basic_url_parse-Parses}
use zero_archive.Url.Parse.Safe.{IsBased, uses_base, base_has_segment, step-IsBased, step-Safe}
use zero_archive.Url.Parse.Consistent.{
  Agrees, step-Agrees, before_port, is_file_state, is_relative, is_relative_slash, port_fits,
}
use zero_archive.Url.Parse.ConsistentReturns.{step-IsConsistent}
use zero_archive.Url.Parse.Paths.{step-PathFits}
use zero_archive.Url.Parse.PathFits.{
  PathFits, IsBase, may_be_opaque, is_opaque_state, may_hold_slash, copies_path,
}
use zero_archive.Url.Parse.Segments.{all_fit}
use zero_archive.Url.Parse.PathReturns.{step-IsWellPathed}

-- The states that parser.js puts into its namespace, and no override.
unfoldable pub is_exported : Option State → Bool
is_exported none = true
is_exported (some State.scheme_start) = true
is_exported (some State.authority) = true
is_exported (some State.host) = true
is_exported (some State.hostname) = true
is_exported (some State.port) = true
is_exported (some State.path_start) = true
is_exported (some State.fragment) = true
is_exported _ = false

-- Nothing, or a record that can be a base; a `file:` base has a path segment.
pub record CanBeBase (base : Option Url) : Type 0 where
  pub is_base : (b : Url) → base ≡ some b → IsBase b
  pub has_segment : base_has_segment base ≡ true

record Holds (x : Context) (m : Machine) : Type 0 where
  based : IsBased x m
  agrees : Agrees x m
  path_fits : PathFits x m

Holds-start : (x : Context) (s : Option State) → is_exported s ≡ true → Holds x (start s)
unfolding is_exported uses_base before_port is_file_state is_relative is_relative_slash port_fits
    may_be_opaque is_opaque_state may_hold_slash copies_path is_special lookup_special same lacks
    all_fit
Holds-start x none e = ground arith
Holds-start x (some s) e = ground arith

Holds-invariant : (x : Context) → CanBeBase x.base → Invariant x (Holds x) IsBase
Holds-invariant x b = record {
  goes_on = λ m m' p h. record {
    based = step-IsBased x m m' p.based h;
    agrees = step-Agrees x m m' p.agrees (λ base e. (b.is_base base e).consistent) h;
    path_fits = step-PathFits x m m' p.path_fits p.agrees b.is_base h;
  };
  returns = λ m url p h. record {
    consistent = step-IsConsistent x m url p.agrees h;
    well_pathed = step-IsWellPathed x m url p.path_fits h;
  };
  ends = λ m p. record { consistent = p.agrees.url; well_pathed = p.path_fits.url };
  no_type_error = λ m p. step-Safe x m p.based b.has_segment;
}

-- With no base or one that can be a base, and no override or an exported one, `basicURLParse`
-- returns a record and throws no TypeError, and the record is fit to be a base: `special` says
-- whether the scheme is special, the port is below 65536 and not the scheme's default, a special
-- URL can be a base, and unless it cannot be a base, no path segment is a dot segment or has a slash.
pub basic_url_parse-IsBase :
    (upper : ℕ → Text) (input : Text) (base : Option Url) (state_override : Option State)
    → CanBeBase base
    → is_exported state_override ≡ true
    → Parses IsBase (basic_url_parse upper input base state_override)
basic_url_parse-IsBase upper input base state_override b e =
    let x = context upper input base state_override in
    basic_url_parse-Parses (Holds x) IsBase upper input base state_override (Holds-invariant x b)
      (Holds-start x state_override e)
