-- ===== src/Url/Object/Refused.antt =====
-- What a setter of URL in lib/whatwg/url.js leaves of the record when it throws.
use zero_archive.Prelude.{
  ◌&&◌, same, Bool-cases, if◌then◌else◌, [], List, refl, arith, ◌≡◌, some, true, false, Bool,
  Option, Text, ℕ, none, inl, inr, length, ◌==◌,
}
use zero_archive.Url.Record.{Url}
use zero_archive.Url.Parse.{Result, parsed, throws, out_of_fuel}
use zero_archive.Url.Object.{
  host_is_empty, cannot_have_username_password_port, file_scheme, set_href, parse_params, Pair,
  without_mark, set_password, set_host_in, set_search, set_username, set_protocol, set_hash,
  set_pathname, set_port_to, UrlObject, Completion, normal, throw, unfinished, refuse_failed,
  assign_from, Assignment, assign, sets_href, sets_protocol, sets_username, sets_password,
  sets_host, sets_hostname, sets_port, sets_pathname, sets_search, sets_hash,
}

pub assign_from-failed :
    (o : UrlObject) (u : Url) (write : Url → Url)
    → u.failed ≡ true
    → assign_from o (parsed u) write ≡ (o, throw)
unfolding assign_from refuse_failed
assign_from-failed o u write f = ground arith

pub assign_from-passed :
    (o : UrlObject) (u : Url) (write : Url → Url)
    → u.failed ≡ false
    → assign_from o (parsed u) write ≡ (record o { url = write u }, normal)
unfolding assign_from refuse_failed
assign_from-passed o u write f = ground arith

-- The records differ in port and query at most.
abbrev Alike : UrlObject → UrlObject → Type 0
Alike o o' = o'.url ≡ record (o.url) { port = o'.url.port; query = o'.url.query }

-- A throw leaves the record, but for its port and its query, which may be cleared before.
abbrev pub KeptOnThrow : UrlObject → UrlObject × Completion → Type 0
KeptOnThrow o (o', throw) = o'.url ≡ record (o.url) { port = o'.url.port; query = o'.url.query }
KeptOnThrow o (o', normal) = Unit
KeptOnThrow o (o', unfinished) = Unit

pub record IsKept (o : UrlObject) (r : UrlObject × Completion) : Type 0 where
  pub kept : KeptOnThrow o r

assign_from-IsKept :
    (o o' : UrlObject) (r : Result) (write : Url → Url)
    → Alike o o'
    → IsKept o (assign_from o' r write)
unfolding assign_from refuse_failed
assign_from-IsKept o o' (parsed u) write a = elim (Bool-cases u.failed) [
  | inl f ↦ record { kept = rw (assign_from-failed o' u write f) a }
  | inr f ↦ record { kept = rw (assign_from-passed o' u write f) tt }
]
assign_from-IsKept o o' throws write a = record { kept = a }
assign_from-IsKept o o' out_of_fuel write a = record { kept = tt }

IsKept-if :
    (o : UrlObject) (b : Bool) (x y : UrlObject × Completion)
    → IsKept o x
    → IsKept o y
    → IsKept o (if b then x else y)
IsKept-if o true x y h e = h
IsKept-if o false x y h e = e

normal-IsKept : (o o' : UrlObject) → IsKept o (o', normal)
normal-IsKept o o' = record { kept = tt }

Alike-cleared :
    (o : UrlObject) (b : Bool)
    → Alike o (if b then record o { url = record (o.url) { port = none } } else o)
Alike-cleared o true = refl
Alike-cleared o false = refl

module _ (upper : ℕ → Text) (decode : Text → Option Text) (o : UrlObject) where
  -- Behind a test, the setter does nothing, clears its part, or parses.
  tested :
      (b : Bool) (o' : UrlObject) (r : Result) (write : Url → Url)
      → IsKept o (if b then (o', normal) else assign_from o r write)
  tested b o' r write =
      IsKept-if o b (o', normal) (assign_from o r write) (normal-IsKept o o')
        (assign_from-IsKept o o r write refl)

  set_search-IsKept : (v : Text) → IsKept o (set_search upper decode o v)
  unfolding set_search
  set_search-IsKept v =
      IsKept-if o (length v == 0) _ _
        (normal-IsKept o (record { url = record (o.url) { query = none }; params = [] }))
        (by_parsed (parse_params decode (without_mark b'?' v)))
    where
      by_parsed :
          (r : Option (List Pair))
          → IsKept o (elim r [
            | none ↦ (record o { url = record (o.url) { query = some [] } }, throw)
            | some list ↦
                (record { url = record (o.url) { query = some [] }; params = list }, normal)
          ])
      by_parsed none = record { kept = refl }
      by_parsed (some list) = record { kept = tt }

  pub assign-IsKept : (a : Assignment) → IsKept o (assign upper decode o a)
  unfolding assign set_href set_protocol set_username set_password set_host_in set_port_to
      set_pathname set_hash
  assign-IsKept (sets_href v) = assign_from-IsKept o o _ _ refl
  assign-IsKept (sets_protocol v) = IsKept-if o (length v == 0) _ _ (normal-IsKept o o) (
      tested (same o.url.scheme file_scheme && host_is_empty o.url.host) o _
        (λ u. record (o.url) { scheme = u.scheme }))
  assign-IsKept (sets_username v) =
      IsKept-if o (cannot_have_username_password_port o.url) _ _ (normal-IsKept o o) (
        tested (length v == 0) (record o { url = record (o.url) { username = [] } }) _
          (λ u. record (o.url) { username = u.username }))
  assign-IsKept (sets_password v) =
      IsKept-if o (cannot_have_username_password_port o.url) _ _ (normal-IsKept o o) (
        tested (length v == 0) (record o { url = record (o.url) { password = [] } }) _
          (λ u. record (o.url) { password = u.password }))
  assign-IsKept (sets_host v) =
      tested o.url.cannot_be_base o _ (λ u. record (o.url) { host = u.host })
  assign-IsKept (sets_hostname v) =
      tested o.url.cannot_be_base o _ (λ u. record (o.url) { host = u.host })
  assign-IsKept (sets_port v) =
      IsKept-if o (cannot_have_username_password_port o.url) _ _ (normal-IsKept o o)
        (assign_from-IsKept o _ _ _ (Alike-cleared o (length v == 0)))
  assign-IsKept (sets_pathname v) =
      tested o.url.cannot_be_base o _ (λ u. record (o.url) { path = u.path })
  assign-IsKept (sets_search v) = set_search-IsKept v
  assign-IsKept (sets_hash v) =
      tested (length v == 0) (record o { url = record (o.url) { fragment = none } }) _
        (λ u. record (o.url) { fragment = u.fragment })
