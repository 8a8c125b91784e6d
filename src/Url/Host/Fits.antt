-- ===== src/Url/Host/Fits.antt =====
-- What `parseHost` returns.
use zero_archive.Prelude.{
  ℕ, ◌-◌, ◌^◌, ◌<◌, ◌≡◌, refl, Bool, true, false, not, Option, none, some, List, [], arith, ◌==◌,
  if◌then◌else◌, length, get_elem?, drop, drop_last, Text, is_char,
}
use zero_archive.Url.Ipv4
use zero_archive.Url.Ipv4.{parse_ipv4}
use zero_archive.Url.Ipv4.Bounds.{parse_ipv4-lt}
use zero_archive.Url.Ipv6.{parse_ipv6_host}
use zero_archive.Url.Ipv6.Halves.{IsAddress}
use zero_archive.Url.Ipv6.Runs.{Run, returned, null, fault, out_of_fuel, Clean}
use zero_archive.Url.Ipv6.Safe.{parse_ipv6_host-IsAddress}
use zero_archive.Url.Host.{
  parse_host, parse_opaque_host, ipv6_host, ipv4_or_domain, contains_forbidden_host_code_point,
}
use zero_archive.Url.Record.{Host, domain, ipv4, ipv6}

-- A host that can be printed: an address in range, or for a special URL a name without forbidden
-- characters.
abbrev pub IsHost : Bool → Host → Type 0
IsHost special (domain d) = special ≡ true → contains_forbidden_host_code_point d ≡ false
IsHost special (ipv4 n) = n < 2 ^ 32
IsHost special (ipv6 pieces) = IsAddress pieces

abbrev pub OnHost : (Host → Type 0) → Option Host → Type 0
OnHost P none = Unit
OnHost P (some h) = P h

OnHost-if :
    (P : Host → Type 0) (b : Bool) (s t : Option Host)
    → (b ≡ true → OnHost P s)
    → (b ≡ false → OnHost P t)
    → OnHost P (if b then s else t)
OnHost-if P true s t hs ht = hs refl
OnHost-if P false s t hs ht = ht refl

of_ipv6 :
    (special : Bool) (r : Run (List ℕ)) → Clean IsAddress r → OnHost (IsHost special) (ipv6_host r)
of_ipv6 special (returned pieces) h = h
of_ipv6 special null h = tt
of_ipv6 special fault h = tt
of_ipv6 special out_of_fuel h = tt

of_ipv4 :
    (special : Bool) (d : Text) (r : Ipv4.Ipv4Result)
    → ((n : ℕ) → r ≡ Ipv4.address n → n < 2 ^ 32)
    → contains_forbidden_host_code_point d ≡ false
    → OnHost (IsHost special) (ipv4_or_domain r d)
of_ipv4 special d (Ipv4.address n) h e = h n refl
of_ipv4 special d Ipv4.invalid h e = tt
of_ipv4 special d Ipv4.not_ipv4 h e = λ _. e

empty_allowed : (d : Text) → length d ≡ 0 → contains_forbidden_host_code_point [] ≡ false
unfolding contains_forbidden_host_code_point
empty_allowed d h = refl

-- A host that `parseHost` accepts is a number below 2 ^ 32, eight pieces of 16 bits, or a name, and
-- for a special URL the name has no forbidden character.
pub parse_host-IsHost :
    (upper : ℕ → Text) (input : Text) (special : Bool)
    → OnHost (IsHost special) (parse_host upper input special)
unfolding parse_host parse_opaque_host
parse_host-IsHost upper input special =
    OnHost-if P (length input == 0) _ _ (λ e _. empty_allowed input (ground arith))
      (λ n1.
        OnHost-if P (is_char (get_elem? input 0) b'[') _ _
          (λ e.
            OnHost-if P (is_char (get_elem? input (length input - 1)) b']') _ _
              (λ e'. of_ipv6 special (parse_ipv6_host inner) (parse_ipv6_host-IsAddress inner))
              (λ e'. tt))
          (λ n2.
            OnHost-if P (not special) _ _
              (λ e.
                OnHost-if P (contains_forbidden_host_code_point input) _ _ (λ f. tt)
                  (λ f s. absurd (ground arith)))
              (λ n3.
                OnHost-if P (contains_forbidden_host_code_point input) _ _ (λ f. tt)
                  (λ f. of_ipv4 special input (parse_ipv4 input) (parse_ipv4-lt input) f))))
  where
    P : Host → Type 0
    P = IsHost special

    inner : Text
    inner = drop_last (drop 1 input)
