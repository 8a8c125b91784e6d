-- ===== src/Url/Parse/Alike.antt =====
-- What the helpers of the rounds of `basicURLParse` leave unchanged in the record.
use zero_archive.Prelude.{
  ℕ, ◌≡◌, Bool, not, ◌&&◌, ◌||◌, Option, [], ◌∷◌, arith, ◌==◌, if◌then◌else◌, Text,
}
use zero_archive.Url.EncodeSets.{append_or_escape, userinfo_encode_set}
use zero_archive.Url.Record.{Url, shorten_url_path}
use zero_archive.Url.Step.Authority.{credentials}
use zero_archive.Url.Step.Path.{end_segment, push_segment, strip_file_path}

-- The fields that say how a URL is to be read.
pub record Alike (u v : Url) : Type 0 where
  pub scheme : v.scheme ≡ u.scheme
  pub port : v.port ≡ u.port
  pub special : v.special ≡ u.special
  pub cannot_be_base : v.cannot_be_base ≡ u.cannot_be_base
  pub is_default_scheme_port : v.is_default_scheme_port ≡ u.is_default_scheme_port

-- The loop over the credentials changes the user name and the password only.
pub credentials-Alike :
    (seen : Bool) (u : Url) (cs : Text)
    → Alike u (credentials seen u cs).1 × ((credentials seen u cs).1.path ≡ u.path)
unfolding credentials
credentials-Alike seen u [] = ground arith
credentials-Alike seen u (c ∷ cs) = ground (
  arith,
  credentials-Alike (seen || c == b':')
      (if c == b':' && not seen
        then u
        else if seen
        then record u { password = append_or_escape u.password c userinfo_encode_set }
        else record u { username = append_or_escape u.username c userinfo_encode_set })
      cs,
)

pub shorten_url_path-Alike : (u : Url) → Alike u (shorten_url_path u)
unfolding shorten_url_path
shorten_url_path-Alike u = ground arith

push_segment-Alike : (u : Url) (buffer : Text) → Alike u (push_segment u buffer)
unfolding push_segment
push_segment-Alike u buffer = ground arith

pub end_segment-Alike :
    (u : Url) (buffer : Text) (slash : Bool) → Alike u (end_segment u buffer slash)
unfolding end_segment
end_segment-Alike u buffer slash =
    ground (arith, shorten_url_path-Alike u, push_segment-Alike u buffer)

pub strip_file_path-Alike : (u : Url) (ch : Option ℕ) → Alike u (strip_file_path u ch)
unfolding strip_file_path
strip_file_path-Alike u ch = ground arith
