-- ===== src/Url/Object/Sound.antt =====
-- The records that the setters of URL in lib/whatwg/url.js leave.
use zero_archive.Prelude.{
  inr, inl, not, Bool-cases, if◌then◌else◌, [], List, ◌&&◌, refl, arith, ◌≡◌, leb, some, true,
  false, Bool, Option, Text, ℕ, none,
}
use zero_archive.Url.Record.{Url}
use zero_archive.Url.Machine.{State}
use zero_archive.Url.Parse.{Result, parsed, throws, out_of_fuel, basic_url_parse}
use zero_archive.Url.Parse.Induction.{Parses}
use zero_archive.Url.Parse.Consistent.{IsConsistent, port_fits}
use zero_archive.Url.Parse.PathFits.{IsBase}
use zero_archive.Url.Parse.Correct.{CanBeBase, is_exported, basic_url_parse-IsBase}
use zero_archive.Url.Parse.Safe.{base_has_segment}
use zero_archive.Url.Object.{
  set_href, parse_params, Pair, without_mark, set_password, set_host_in, set_search, set_username,
  set_protocol, set_hash, set_pathname, UrlObject, Completion, normal, throw, unfinished,
  refuse_failed, assign_from,
}
use zero_archive.Url.Object.Refused.{assign_from-failed, assign_from-passed}

-- A port of 16 bits, or none.
unfoldable pub port_is_small : Option ℕ → Bool
port_is_small none = true
port_is_small (some p) = leb p 0xffff

-- A port of 16 bits, and `isDefaultSchemePort`, which hides the port from `href`.
unfoldable pub has_hidden_port : Url → Bool
has_hidden_port u = port_is_small u.port && u.is_default_scheme_port

-- The record is also none that the parser has failed on.
unfoldable pub is_sound : Url → Bool
is_sound u = has_hidden_port u && not u.failed

-- The call ended, and the record is sound.
unfoldable pub is_assigned : UrlObject × Completion → Bool
is_assigned (o, unfinished) = false
is_assigned (o, throw) = is_sound o.url
is_assigned (o, normal) = is_sound o.url

unfoldable pub sound_result : Result → Bool
sound_result (parsed u) = has_hidden_port u
sound_result throws = false
sound_result out_of_fuel = false

IsConsistent-has_hidden_port : (u : Url) → IsConsistent u → has_hidden_port u ≡ true
unfolding has_hidden_port port_is_small port_fits
IsConsistent-has_hidden_port u c = ground arith

Parses-is_sound : (r : Result) → Parses IsBase r → sound_result r ≡ true
unfolding sound_result
Parses-is_sound (parsed u) p = IsConsistent-has_hidden_port u p.consistent
Parses-is_sound throws p = absurd p
Parses-is_sound out_of_fuel p = absurd p

no_base : CanBeBase none
unfolding base_has_segment
no_base = record { is_base = λ b e. absurd cc; has_segment = refl }

pub parse_sound :
    (upper : ℕ → Text) (v : Text) (state : Option State)
    → is_exported state ≡ true
    → sound_result (basic_url_parse upper v none state) ≡ true
parse_sound upper v state e =
    Parses-is_sound (basic_url_parse upper v none state)
      (basic_url_parse-IsBase upper v none state no_base e)

-- A setter keeps the record sound if what it writes does.
assign_from_sound :
    (o : UrlObject) (r : Result) (write : Url → Url)
    → is_sound o.url ≡ true
    → sound_result r ≡ true
    → ((u : Url) → is_sound u ≡ true → is_sound (write u) ≡ true)
    → is_assigned (assign_from o r write) ≡ true
unfolding assign_from refuse_failed is_assigned sound_result is_sound
assign_from_sound o (parsed u) write s p w = elim (Bool-cases u.failed) [
  | inl f ↦ rw (assign_from-failed o u write f) s
  | inr f ↦ rw (assign_from-passed o u write f) (w u (ground arith))
]
assign_from_sound o throws write s p w = absurd cc
assign_from_sound o out_of_fuel write s p w = absurd cc

abbrev is_unfinished : Completion → Bool
is_unfinished unfinished = true
is_unfinished _ = false

pub is_assigned-if :
    (b : Bool) (x y : UrlObject × Completion)
    → is_assigned x ≡ true
    → is_assigned y ≡ true
    → is_assigned (if b then x else y) ≡ true
is_assigned-if true x y h e = h
is_assigned-if false x y h e = e

module _ (upper : ℕ → Text) (decode : Text → Option Text) (o : UrlObject)
    (s : is_sound o.url ≡ true) where
  -- Soundness reads three properties of the record.
  alike :
      (u : Url)
      → u.port ≡ o.url.port
      → u.is_default_scheme_port ≡ o.url.is_default_scheme_port
      → u.failed ≡ o.url.failed
      → is_sound u ≡ true
  unfolding is_sound has_hidden_port
  alike u p d f = cc (s)

  left-is_assigned :
      (o' : UrlObject) (c : Completion)
      → is_unfinished c ≡ false
      → o'.url.port ≡ o.url.port
      → o'.url.is_default_scheme_port ≡ o.url.is_default_scheme_port
      → o'.url.failed ≡ o.url.failed
      → is_assigned (o', c) ≡ true
  unfolding is_assigned
  left-is_assigned o' normal e p d f = alike o'.url p d f
  left-is_assigned o' throw e p d f = alike o'.url p d f
  left-is_assigned o' unfinished e p d f = absurd cc

  pub parsed-is_assigned :
      (v : Text) (state : Option State) (write : Url → Url)
      → is_exported state ≡ true
      → ((u : Url) → is_sound u ≡ true → is_sound (write u) ≡ true)
      → is_assigned (assign_from o (basic_url_parse upper v none state) write) ≡ true
  parsed-is_assigned v state write e w =
      assign_from_sound o (basic_url_parse upper v none state) write s (parse_sound upper v state e)
        w

  pub left : is_assigned (o, normal) ≡ true
  left = left-is_assigned o normal refl refl refl refl

  pub set_protocol-is_assigned : (v : Text) → is_assigned (set_protocol upper decode o v) ≡ true
  unfolding set_protocol is_exported
  set_protocol-is_assigned v = is_assigned-if _ _ _ left (
      is_assigned-if _ _ _ left (
        parsed-is_assigned v (some State.scheme_start) (λ u. record (o.url) { scheme = u.scheme })
          refl (λ u h. alike (record (o.url) { scheme = u.scheme }) refl refl refl)))

  pub set_username-is_assigned : (v : Text) → is_assigned (set_username upper decode o v) ≡ true
  unfolding set_username is_exported
  set_username-is_assigned v = is_assigned-if _ _ _ left (
      is_assigned-if _ _ _
        (left-is_assigned (record o { url = record (o.url) { username = [] } }) normal refl refl
          refl refl)
        (parsed-is_assigned v (some State.authority) (λ u. record (o.url) { username = u.username })
          refl (λ u h. alike (record (o.url) { username = u.username }) refl refl refl)))

  pub set_password-is_assigned : (v : Text) → is_assigned (set_password upper decode o v) ≡ true
  unfolding set_password is_exported
  set_password-is_assigned v = is_assigned-if _ _ _ left (
      is_assigned-if _ _ _
        (left-is_assigned (record o { url = record (o.url) { password = [] } }) normal refl refl
          refl refl)
        (parsed-is_assigned v (some State.authority) (λ u. record (o.url) { password = u.password })
          refl (λ u h. alike (record (o.url) { password = u.password }) refl refl refl)))

  pub set_host_in-is_assigned :
      (state : State) (v : Text)
      → is_exported (some state) ≡ true
      → is_assigned (set_host_in upper decode state o v) ≡ true
  unfolding set_host_in
  set_host_in-is_assigned state v e = is_assigned-if _ _ _ left (
      parsed-is_assigned v (some state) (λ u. record (o.url) { host = u.host }) e
        (λ u h. alike (record (o.url) { host = u.host }) refl refl refl))

  pub set_pathname-is_assigned : (v : Text) → is_assigned (set_pathname upper decode o v) ≡ true
  unfolding set_pathname is_exported
  set_pathname-is_assigned v = is_assigned-if _ _ _ left (
      parsed-is_assigned v (some State.path_start) (λ u. record (o.url) { path = u.path }) refl
        (λ u h. alike (record (o.url) { path = u.path }) refl refl refl))

  pub set_hash-is_assigned : (v : Text) → is_assigned (set_hash upper decode o v) ≡ true
  unfolding set_hash is_exported
  set_hash-is_assigned v =
      is_assigned-if _ _ _
        (left-is_assigned (record o { url = record (o.url) { fragment = none } }) normal refl refl
          refl refl)
        (parsed-is_assigned (without_mark b'#' v) (some State.fragment)
          (λ u. record (o.url) { fragment = u.fragment }) refl
          (λ u h. alike (record (o.url) { fragment = u.fragment }) refl refl refl))

  pub set_search-is_assigned : (v : Text) → is_assigned (set_search upper decode o v) ≡ true
  unfolding set_search
  set_search-is_assigned v =
      is_assigned-if _ _ _
        (left-is_assigned (record { url = record (o.url) { query = none }; params = [] }) normal
          refl refl refl refl)
        (by_parsed (parse_params decode (without_mark b'?' v)))
    where
      by_parsed :
          (r : Option (List Pair))
          → is_assigned (elim r [
            | none ↦ (record o { url = record (o.url) { query = some [] } }, throw)
            | some list ↦
                (record { url = record (o.url) { query = some [] }; params = list }, normal)
          ])
            ≡ true
      by_parsed none =
          left-is_assigned (record o { url = record (o.url) { query = some [] } }) throw refl refl
            refl refl
      by_parsed (some list) =
          left-is_assigned (record { url = record (o.url) { query = some [] }; params = list })
            normal refl refl refl refl

  pub set_href-is_assigned : (v : Text) → is_assigned (set_href upper decode o v) ≡ true
  unfolding set_href is_exported
  set_href-is_assigned v = parsed-is_assigned v none (λ u. u) refl (λ u h. h)
