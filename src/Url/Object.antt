-- ===== src/Url/Object.antt =====
-- The class URL of lib/whatwg/url.js: its constructor, its getters and its setters.
pub mod Refused
pub mod Sound
pub mod Assigned
pub mod Search
use zero_archive.Prelude.{
  drop, get_elem?, ◌&&◌, is_char, same, ◌==◌, if◌then◌else◌, ◌++◌, ◌||◌, zero, suc, refl, arith,
  inl, inr, ◌≡◌, ◌<◌, ◌≤◌, not, true, length, ltb, ◌∷◌, [], false, Option, some, Text, List, Bool,
  ℕ, none,
}
use zero_archive.Url.Ipv4.{decimal}
use zero_archive.Url.Record.{Url, Host, domain, ipv4, ipv6, file_scheme}
use zero_archive.Url.Machine.{State}
use zero_archive.Url.Parse.{Result, parsed, throws, out_of_fuel, basic_url_parse}
use zero_archive.Url.Serialize.{serialize_url, serialize_url_path, all_parts}
use zero_archive.Url.Params.{search_params_of_string, Pair, parse_params}

-- `kURL`, and the list of the URLSearchParams `kQuery`.
pub record UrlObject : Type 0 where
  pub url : Url
  pub params : List Pair

-- The wrapper of `basicURLParse` throws a TypeError for a failed record.
unfoldable pub refuse_failed : Result → Result
refuse_failed (parsed url) = if url.failed then throws else parsed url
refuse_failed throws = throws
refuse_failed out_of_fuel = out_of_fuel

-- How a constructor or setter ends: `unfinished` if the fuel of the model is used up.
pub data Completion : Type 0 where
  normal : Completion
  throw : Completion
  unfinished : Completion

-- The host is null or the empty string.
unfoldable pub host_is_empty : Option Host → Bool
host_is_empty none = true
host_is_empty (some (domain d)) = length d == 0
host_is_empty (some h) = false

unfoldable pub cannot_have_username_password_port : Url → Bool
unfolding host_is_empty
cannot_have_username_password_port url =
    host_is_empty url.host || url.cannot_be_base || same url.scheme file_scheme

-- `host || ''`: null, 0 and the empty string are false.
unfoldable pub host_or_empty : Option Host → Host
host_or_empty none = domain []
host_or_empty (some (ipv4 n)) = if n == 0 then domain [] else ipv4 n
host_or_empty (some h) = h

unfoldable pub get_hostname : UrlObject → Host
unfolding host_or_empty
get_hostname o = host_or_empty o.url.host

-- `numbers.join(',')`
unfoldable pub join_numbers : List ℕ → Text
join_numbers [] = []
join_numbers (n ∷ []) = decimal n
join_numbers (n ∷ m ∷ ns) = decimal n ++ b',' ∷ join_numbers (m ∷ ns)

-- A host in a template string.
unfoldable pub host_text : Host → Text
unfolding join_numbers
host_text (domain d) = d
host_text (ipv4 n) = decimal n
host_text (ipv6 pieces) = join_numbers pieces

unfoldable pub get_host : UrlObject → Host
unfolding get_hostname host_text
get_host o = elim o.url.port [
  | none ↦ get_hostname o
  | some p ↦ domain (host_text (get_hostname o) ++ b':' ∷ decimal p)
]

unfoldable pub get_port : UrlObject → Text
get_port o = elim o.url.port [ none ↦ [] | some p ↦ decimal p ]

-- `href`, `toString` and `toJSON`
unfoldable pub get_href : UrlObject → Text
get_href o = serialize_url o.url all_parts

-- A part with its mark, or the empty string for null and the empty string.
abbrev marked : ℕ → Option Text → Text
marked mark none = []
marked mark (some []) = []
marked mark (some (c ∷ cs)) = mark ∷ c ∷ cs

unfoldable pub get_search : UrlObject → Text
get_search o = marked b'?' o.url.query

unfoldable pub get_hash : UrlObject → Text
get_hash o = marked b'#' o.url.fragment

-- `query !== null ? query : ''`
abbrev pub text_or_empty : Option Text → Text
text_or_empty none = []
text_or_empty (some t) = t

-- `if (v[0] === c) { v = v.slice(1); }`
abbrev pub without_mark : ℕ → Text → Text
without_mark mark v = if is_char (get_elem? v 0) mark then drop 1 v else v

-- `url.x = basicURLParse(…).x`; `write` puts the property of the parsed record into the old one.
unfoldable pub assign_from : UrlObject → Result → (Url → Url) → UrlObject × Completion
unfolding refuse_failed
assign_from o r write = elim (refuse_failed r) [
  | parsed u ↦ (record o { url = write u }, normal)
  | throws ↦ (o, throw)
  | out_of_fuel ↦ (o, unfinished)
]

-- An assignment to a property of a URL.
pub data Assignment : Type 0 where
  sets_href sets_protocol sets_username sets_password sets_host : Text → Assignment
  sets_hostname sets_port sets_pathname sets_search sets_hash : Text → Assignment

module _ (upper : ℕ → Text) (decode : Text → Option Text) where
  abbrev pub parse_as : Text → State → Result
  parse_as v state = basic_url_parse upper v none (some state)

  -- The part of the constructor behind the parser.
  unfoldable pub with_params : Result → Option UrlObject × Completion
  with_params throws = (none, throw)
  with_params out_of_fuel = (none, unfinished)
  with_params (parsed url) = elim (search_params_of_string decode (text_or_empty url.query)) [
    | none ↦ (none, throw)
    | some p ↦ (some (record { url = url; params = p.list }), normal)
  ]

  -- The constructor; `base` is none for undefined.
  unfoldable pub new_url : Text → Option Text → Option UrlObject × Completion
  unfolding with_params refuse_failed
  new_url url none = with_params (refuse_failed (basic_url_parse upper url none none))
  new_url url (some base) = elim (refuse_failed (basic_url_parse upper base none none)) [
    | parsed b ↦ with_params (refuse_failed (basic_url_parse upper url (some b) none))
    | throws ↦ (none, throw)
    | out_of_fuel ↦ (none, unfinished)
  ]

  unfoldable pub set_href : UrlObject → Text → UrlObject × Completion
  set_href o v = assign_from o (basic_url_parse upper v none none) (λ u. u)

  unfoldable pub set_protocol : UrlObject → Text → UrlObject × Completion
  set_protocol o scheme =
      if length scheme == 0
      then (o, normal)
      else if same o.url.scheme file_scheme && host_is_empty o.url.host
      then (o, normal)
      else assign_from o (parse_as scheme State.scheme_start)
          (λ u. record (o.url) { scheme = u.scheme })

  unfoldable pub set_username : UrlObject → Text → UrlObject × Completion
  set_username o username =
      if cannot_have_username_password_port o.url
      then (o, normal)
      else if length username == 0
      then (record o { url = record (o.url) { username = [] } }, normal)
      else assign_from o (parse_as username State.authority)
          (λ u. record (o.url) { username = u.username })

  unfoldable pub set_password : UrlObject → Text → UrlObject × Completion
  set_password o password =
      if cannot_have_username_password_port o.url
      then (o, normal)
      else if length password == 0
      then (record o { url = record (o.url) { password = [] } }, normal)
      else assign_from o (parse_as password State.authority)
          (λ u. record (o.url) { password = u.password })

  -- The setters of `host` and `hostname`, which differ in the state.
  unfoldable pub set_host_in : State → UrlObject → Text → UrlObject × Completion
  set_host_in state o host =
      if o.url.cannot_be_base
      then (o, normal)
      else assign_from o (parse_as host state) (λ u. record (o.url) { host = u.host })

  -- The empty string sets the port to null, and is parsed all the same.
  unfoldable pub set_port_to : UrlObject → Text → UrlObject × Completion
  set_port_to o port =
      if cannot_have_username_password_port o.url
      then (o, normal)
      else (let cleared =
            if length port == 0 then record o { url = record (o.url) { port = none } } else o in
          assign_from cleared (parse_as port State.port)
            (λ u. record (cleared.url) { port = u.port }))

  unfoldable pub set_pathname : UrlObject → Text → UrlObject × Completion
  set_pathname o path =
      if o.url.cannot_be_base
      then (o, normal)
      else assign_from o (parse_as path State.path_start) (λ u. record (o.url) { path = u.path })

  -- The query is the empty string when `parseParams` is called, which may throw.
  unfoldable pub set_search : UrlObject → Text → UrlObject × Completion
  set_search o v =
      if length v == 0
      then (record { url = record (o.url) { query = none }; params = [] }, normal)
      else (let cleared = record o { url = record (o.url) { query = some [] } } in
          elim (parse_params decode (without_mark b'?' v)) [
            | none ↦ (cleared, throw)
            | some list ↦ (record cleared { params = list }, normal)
          ])

  unfoldable pub set_hash : UrlObject → Text → UrlObject × Completion
  set_hash o v =
      if length v == 0
      then (record o { url = record (o.url) { fragment = none } }, normal)
      else assign_from o (parse_as (without_mark b'#' v) State.fragment)
          (λ u. record (o.url) { fragment = u.fragment })

  unfoldable pub assign : UrlObject → Assignment → UrlObject × Completion
  assign o (sets_href v) = set_href o v
  assign o (sets_protocol v) = set_protocol o v
  assign o (sets_username v) = set_username o v
  assign o (sets_password v) = set_password o v
  assign o (sets_host v) = set_host_in State.host o v
  assign o (sets_hostname v) = set_host_in State.hostname o v
  assign o (sets_port v) = set_port_to o v
  assign o (sets_pathname v) = set_pathname o v
  assign o (sets_search v) = set_search o v
  assign o (sets_hash v) = set_hash o v

  -- One assignment after the other; what one throws is caught.
  unfoldable pub assign_all : UrlObject → List Assignment → UrlObject
  assign_all o [] = o
  assign_all o (a ∷ assignments) = assign_all (assign o a).0 assignments
