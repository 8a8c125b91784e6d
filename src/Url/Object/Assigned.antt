-- ===== src/Url/Object/Assigned.antt =====
-- What any assignments to a URL of lib/whatwg/url.js leave of the record.
use zero_archive.Prelude.{
  inr, inl, Bool-cases, false, ◌∙◌, ap, ◌==◌, length, if◌then◌else◌, some, [], ◌∷◌, true, refl,
  arith, ◌≡◌, List, Option, Text, ℕ, none,
}
use zero_archive.Url.Record.{Url}
use zero_archive.Url.Machine.{State}
use zero_archive.Url.Parse.{Result, parsed, throws, out_of_fuel, basic_url_parse}
use zero_archive.Url.Serialize.{all_parts}
use zero_archive.Url.Parse.Correct.{is_exported}
use zero_archive.Url.Serialize.Port.{serialize_url-default}
use zero_archive.Url.Object.{
  sets_hash, sets_search, sets_pathname, sets_port, sets_hostname, sets_host, sets_password,
  sets_username, sets_protocol, sets_href, UrlObject, Completion, normal, throw, unfinished,
  Assignment, assign, assign_all, set_port_to, new_url, with_params, get_href, refuse_failed,
}
use zero_archive.Url.Object.Sound.{
  set_hash-is_assigned, set_search-is_assigned, set_pathname-is_assigned, set_host_in-is_assigned,
  set_password-is_assigned, set_username-is_assigned, set_protocol-is_assigned,
  set_href-is_assigned, is_sound, is_assigned, port_is_small, parsed-is_assigned, left,
  is_assigned-if, sound_result, parse_sound,
}
use zero_archive.Url.Object.Sound.{has_hidden_port}

sound_port :
    (a u : Url)
    → is_sound a ≡ true
    → is_sound u ≡ true
    → is_sound (record a { port = u.port }) ≡ true
unfolding is_sound has_hidden_port
sound_port a u h e = ground arith

-- The object whose port the setter has cleared for the empty string.
abbrev cleared : UrlObject → Text → UrlObject
cleared o v = if length v == 0 then record o { url = record (o.url) { port = none } } else o

sound_cleared :
    (o : UrlObject) (v : Text) → is_sound o.url ≡ true → is_sound (cleared o v).url ≡ true
unfolding is_sound has_hidden_port port_is_small
sound_cleared o v s = elim (Bool-cases (length v == 0)) [
  | inl e ↦ rw e (ground arith)
  | inr e ↦ rw e s
]

module _ (upper : ℕ → Text) (decode : Text → Option Text) where
  set_port_to-is_assigned :
      (o : UrlObject) (v : Text)
      → is_sound o.url ≡ true
      → is_assigned (set_port_to upper decode o v) ≡ true
  unfolding set_port_to is_exported
  set_port_to-is_assigned o v s = is_assigned-if _ _ _ (left upper decode o s) (
      parsed-is_assigned upper decode (cleared o v) (sound_cleared o v s) v (some State.port)
        (λ u. record ((cleared o v).url) { port = u.port }) refl
        (λ u h. sound_port (cleared o v).url u (sound_cleared o v s) h))

  ended-is_assigned :
      (o : UrlObject) (a : Assignment)
      → is_sound o.url ≡ true
      → is_assigned (assign upper decode o a) ≡ true
  unfolding assign is_exported
  ended-is_assigned o (sets_href v) s = set_href-is_assigned upper decode o s v
  ended-is_assigned o (sets_protocol v) s = set_protocol-is_assigned upper decode o s v
  ended-is_assigned o (sets_username v) s = set_username-is_assigned upper decode o s v
  ended-is_assigned o (sets_password v) s = set_password-is_assigned upper decode o s v
  ended-is_assigned o (sets_host v) s = set_host_in-is_assigned upper decode o s State.host v refl
  ended-is_assigned o (sets_hostname v) s =
      set_host_in-is_assigned upper decode o s State.hostname v refl
  ended-is_assigned o (sets_port v) s = set_port_to-is_assigned o v s
  ended-is_assigned o (sets_pathname v) s = set_pathname-is_assigned upper decode o s v
  ended-is_assigned o (sets_search v) s = set_search-is_assigned upper decode o s v
  ended-is_assigned o (sets_hash v) s = set_hash-is_assigned upper decode o s v

  is_assigned_sound : (r : UrlObject × Completion) → is_assigned r ≡ true → is_sound r.0.url ≡ true
  unfolding is_assigned
  is_assigned_sound (o, normal) h = h
  is_assigned_sound (o, throw) h = h
  is_assigned_sound (o, unfinished) h = absurd cc

  assign_all-is_sound :
      (o : UrlObject) (assignments : List Assignment)
      → is_sound o.url ≡ true
      → is_sound (assign_all upper decode o assignments).url ≡ true
  unfolding assign_all
  assign_all-is_sound o [] s = s
  assign_all-is_sound o (a ∷ assignments) s =
      assign_all-is_sound (assign upper decode o a).0 assignments
        (is_assigned_sound (assign upper decode o a) (ended-is_assigned o a s))

  sound_default : (u : Url) → is_sound u ≡ true → u.is_default_scheme_port ≡ true
  unfolding is_sound has_hidden_port
  sound_default u s = ground arith

  sound_small : (u : Url) → is_sound u ≡ true → port_is_small u.port ≡ true
  unfolding is_sound has_hidden_port
  sound_small u s = ground arith

  with_params-url :
      (u : Url) (o : UrlObject)
      → with_params upper decode (refuse_failed (parsed u)) ≡ (some o, normal)
      → o.url ≡ u
  unfolding with_params refuse_failed
  with_params-url u o h = ground arith

  with_params-failed :
      (u : Url) (o : UrlObject)
      → with_params upper decode (refuse_failed (parsed u)) ≡ (some o, normal)
      → u.failed ≡ false
  unfolding with_params refuse_failed
  with_params-failed u o h = ground arith

  with_params-is_sound :
      (r : Result) (o : UrlObject)
      → sound_result r ≡ true
      → with_params upper decode (refuse_failed r) ≡ (some o, normal)
      → is_sound o.url ≡ true
  unfolding with_params refuse_failed sound_result is_sound
  with_params-is_sound (parsed u) o s h =
      let passed = with_params-failed u o h in ap is_sound (with_params-url u o h) ∙ ground arith
  with_params-is_sound throws o s h = absurd cc
  with_params-is_sound out_of_fuel o s h = absurd cc

  -- After any assignments to a URL that was made of a text without a base, whatever they throw, the
  -- port is below 65536, and `href` is what it would be without a port.
  pub assign_all-get_href :
      (v : Text) (o : UrlObject) (assignments : List Assignment)
      → new_url upper decode v none ≡ (some o, normal)
      → let o' = assign_all upper decode o assignments in
        (port_is_small o'.url.port ≡ true)
        × (get_href o' ≡ get_href (record o' { url = record (o'.url) { port = none } }))
  unfolding new_url get_href is_exported
  assign_all-get_href v o assignments h =
      let s = assign_all-is_sound o assignments (
        with_params-is_sound (basic_url_parse upper v none none) o (parse_sound upper v none refl)
          h) in
      (sound_small _ s, serialize_url-default _ all_parts (sound_default _ s))
