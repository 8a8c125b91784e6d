-- ===== src/Tests.antt =====
-- The theorems on lib/whatwg/url at concrete inputs.
mod Util
mod Mime
mod Loader
mod Graph
mod Object
mod Timers
mod Events
mod Repl
mod CliTable
mod Headers
mod Inspect
mod Encoding
mod Blob
use mathlib.Core.Path.{subst}
use zero_archive.Prelude.{
  zero, suc, inl, inr, Bool, Option, List, drop, ◌≤◌, is_some, ltb, same, if◌then◌else◌, ◌++◌,
  lacks, ℕ, ◌^◌, ◌<◌, ◌≡◌, ◌≢◌, refl, true, false, none, some, [], ◌∷◌, arith, Text, codes,
}
use zero_archive.Url.Ipv4.{address, parse_ipv4, serialize_ipv4}
use zero_archive.Url.Ipv4.RoundTrip.{parse_ipv4-serialize_ipv4}
use zero_archive.Url.Ipv6.{parse_ipv6_host}
use zero_archive.Url.Ipv6.Halves.{IsAddress}
use zero_archive.Url.Ipv6.Runs.{Clean}
use zero_archive.Url.Ipv6.Safe.{parse_ipv6_host-IsAddress}
use zero_archive.Url.Host.{parse_host}
use zero_archive.Url.Host.Fits.{IsHost, OnHost, parse_host-IsHost}
use zero_archive.Url.Record.{Url, empty_url, is_special, ipv4}
use zero_archive.Url.Machine.{State}
use zero_archive.Url.Parse.{out_of_fuel, basic_url_parse}
use zero_archive.Url.Parse.Induction.{Parses}
use zero_archive.Url.Parse.Measure.{basic_url_parse-ends}
use zero_archive.Url.Parse.Safe.{base_has_segment}
use zero_archive.Url.Parse.Consistent.{port_fits}
use zero_archive.Url.Parse.PathFits.{IsBase}
use zero_archive.Url.Parse.Segments.{all_fit, segment_fits}
use zero_archive.Url.Parse.Correct.{CanBeBase, is_exported, basic_url_parse-IsBase}
use zero_archive.Url.Parse.Protocol.{protocol_never_special}
use zero_archive.Url.Runs.{parser}
use zero_archive.Url.Serialize.{serialize_url, all_parts, find_longest_zero_sequence}
use zero_archive.Url.Params.{
  SearchParams, set_param, get, without, delete, has, get_all, append, encode_str,
}
use zero_archive.Url.Params.Set.{get-set_param}
use zero_archive.Url.Params.Lookup.{get_all_changed}
use zero_archive.Url.Params.Encode.{encode_units, encode_str-encode_units}
use zero_archive.Url.Serialize.Zeros.{leading_zeros, run_at, find_longest_zero_sequence-longest}

-- A `toUpperCase` that changes nothing, as on the control characters.
abbrev plain : ℕ → Text
plain c = c ∷ []

-- `http://127.0.0.1:8080/a/b`
abbrev sample_base : Url
sample_base = record empty_url {
  scheme = codes "http:";
  host = some (ipv4 2130706433);
  port = some 8080;
  path = codes "a" ∷ codes "b" ∷ [];
  special = true;
}

sample_base-IsBase : IsBase sample_base
unfolding parser port_fits all_fit segment_fits lacks
sample_base-IsBase = record {
  consistent = record { special = refl; port = refl; is_default_scheme_port = refl };
  well_pathed = record { opaque = refl; segments = refl };
}

some_injective : (a b : Url) → some a ≡ some b → a ≡ b
some_injective a b e = cc

sample_base-CanBeBase : CanBeBase (some sample_base)
unfolding base_has_segment parser
sample_base-CanBeBase = record {
  is_base = λ b e. subst IsBase (some_injective sample_base b e) sample_base-IsBase;
  has_segment = refl;
}

exported_none : is_exported none ≡ true
unfolding is_exported
exported_none = refl

basic_url_parse-IsBase_example :
    Parses IsBase (basic_url_parse plain (codes "../c?q") (some sample_base) none)
basic_url_parse-IsBase_example =
    basic_url_parse-IsBase plain (codes "../c?q") (some sample_base) none sample_base-CanBeBase
      exported_none

basic_url_parse-ends_example :
    basic_url_parse plain (codes "http://u@h@x:1/") none none ≢ out_of_fuel
basic_url_parse-ends_example = basic_url_parse-ends plain (codes "http://u@h@x:1/") none none

parse_ipv4-serialize_ipv4_example : parse_ipv4 (serialize_ipv4 3232235777) ≡ address 3232235777
parse_ipv4-serialize_ipv4_example = parse_ipv4-serialize_ipv4 3232235777 (omega arith)

parse_ipv6_host-IsAddress_example : Clean IsAddress (parse_ipv6_host (codes "1::ffff:1.2.3.4"))
parse_ipv6_host-IsAddress_example = parse_ipv6_host-IsAddress (codes "1::ffff:1.2.3.4")

parse_host-IsHost_example : OnHost (IsHost true) (parse_host plain (codes "example.org") true)
parse_host-IsHost_example = parse_host-IsHost plain (codes "example.org") true

protocol_never_special_example :
    Parses
      (λ u. is_special u.scheme ≡ false)
      (basic_url_parse plain (codes "https") none (some State.scheme_start))
protocol_never_special_example = protocol_never_special plain (codes "https")

-- `a=1&b=2&a=3&a=4` of a URL object.
abbrev sample_params : SearchParams
sample_params = record {
  list =
      (codes "a", codes "1")
      ∷ (codes "b", codes "2")
      ∷ (codes "a", codes "3")
      ∷ (codes "a", codes "4")
      ∷ [];
  url_object = some sample_base;
}

get-set_param_example :
    (get (set_param sample_params (codes "a") (codes "x y")) (codes "a") ≡ some (codes "x y"))
    × (without (codes "a") (set_param sample_params (codes "a") (codes "x y")).list
        ≡ without (codes "a") sample_params.list)
get-set_param_example = get-set_param sample_params (codes "a") (codes "x y")

encode_str-encode_units_example : encode_str (codes "a b/c") ≡ encode_units (codes "a b/c")
encode_str-encode_units_example = encode_str-encode_units (codes "a b/c")

get_all_changed_example :
    (get_all (append sample_params (codes "a") (codes "5")) (codes "b")
      ≡ get_all sample_params (codes "b")
        ++ (if same (codes "a") (codes "b") then codes "5" ∷ [] else []))
    × (has (delete sample_params (codes "a")) (codes "a") ≡ false)
    × (get_all (delete sample_params (codes "a")) (codes "b")
        ≡ (if same (codes "b") (codes "a") then [] else get_all sample_params (codes "b")))
get_all_changed_example = get_all_changed sample_params (codes "a") (codes "5") (codes "b")

-- The pieces of `2001:0:0:1::`.
abbrev sample_pieces : List ℕ
sample_pieces = 0x2001 ∷ 0 ∷ 0 ∷ 1 ∷ 0 ∷ 0 ∷ 0 ∷ 0 ∷ []

find_longest_zero_sequence-longest_example :
    (leading_zeros (drop 1 sample_pieces) ≤ (find_longest_zero_sequence sample_pieces).1)
    × (is_some (find_longest_zero_sequence sample_pieces).0
        ≡ ltb 1 (find_longest_zero_sequence sample_pieces).1)
    × (run_at
          (find_longest_zero_sequence sample_pieces).0
          sample_pieces
          (find_longest_zero_sequence sample_pieces).1
        ≡ (find_longest_zero_sequence sample_pieces).1)
find_longest_zero_sequence-longest_example = find_longest_zero_sequence-longest sample_pieces 1
