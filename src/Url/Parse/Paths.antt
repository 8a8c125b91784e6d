-- ===== src/Url/Parse/Paths.antt =====
-- The path of the record in every round of `basicURLParse`: unless the URL cannot be a base, its
-- segments are no dot segments and have no slash.
use zero_archive.Prelude.{
  ◌≡◌, refl, ◌||◌, some, [], ◌∷◌, ◌++◌, arith, if◌then◌else◌, get_elem?, is_char, codes,
  Option-cases, inl, inr, same→eq, lacks-concat,
}
use zero_archive.Url.EncodeSets.{path_encode_set}
use zero_archive.Url.Record.{Url, file_scheme}
use zero_archive.Url.Machine.{Context, Machine, State, next, special_back_slash}
use zero_archive.Url.Parse.Alike.{
  credentials-Alike, shorten_url_path-Alike, end_segment-Alike, strip_file_path-Alike,
}
use zero_archive.Url.Parse.Consistent.{Agrees}
use zero_archive.Url.Parse.Segments.{
  all_fit-drop_last, all_fit-first, all_fit-concat, all_fit-shorten_url_path, all_fit-end_segment,
  all_fit-strip_file_path, lacks-escape_onto, lacks-lower_onto, not_slash_of_alphanumeric,
  not_slash_of_alpha,
}
use zero_archive.Url.Step.Scheme.{step_scheme_start, step_scheme, step_no_scheme, no_scheme_base}
use zero_archive.Url.Step.Relative.{
  step_special_relative_or_authority, step_path_or_authority, step_relative, step_relative_slash,
  step_special_authority_slashes, step_special_authority_ignore_slashes, relative_base,
}
use zero_archive.Url.Step.Authority.{step_authority, step_host, step_port}
use zero_archive.Url.Step.File.{
  step_file, step_file_slash, step_file_host, file_switch, file_slash_base, end_file_host,
  file_base,
}
use zero_archive.Url.Step.Path.{
  step_path_start, step_path, step_cannot_be_base, step_query, step_fragment, after_segment,
  end_segment,
}
use zero_archive.Url.Parse.{step_in, step}
use zero_archive.Url.Parse.PathFits.{
  base_is_opaque, Keeps, lacks_nil, PathFits-Plain, is_host, host-Plain, port-Plain,
  end_scheme-PathFits, file_base-fits, held, may_be_opaque, is_opaque_state, may_hold_slash,
  copies_path, PathFits, IsBase,
}

scheme_start-PathFits : Keeps step_scheme_start State.scheme_start
unfolding may_be_opaque is_opaque_state may_hold_slash copies_path base_is_opaque step_scheme_start
scheme_start-PathFits x m m' ch s p r b h =
    ground (arith, lacks_nil, not_slash_of_alpha ch, lacks-lower_onto m.buffer ch)

scheme-PathFits : Keeps step_scheme State.scheme
unfolding may_be_opaque is_opaque_state may_hold_slash copies_path base_is_opaque step_scheme
scheme-PathFits x m m' ch s p r b h = ground (
  arith,
  lacks_nil,
  not_slash_of_alphanumeric ch,
  lacks-lower_onto m.buffer ch,
  end_scheme-PathFits x m m' (m.buffer ++ b':' ∷ []) _ _ b,
)

no_scheme-PathFits : Keeps step_no_scheme State.no_scheme
unfolding may_be_opaque is_opaque_state may_hold_slash copies_path base_is_opaque step_no_scheme
    no_scheme_base
no_scheme-PathFits x m m' ch s p r b h = elim (Option-cases x.base) [
  | inl e ↦ ground (arith, lacks_nil)
  | inr (base, e) ↦ ground (arith, b base e, lacks_nil)
]

special_relative_or_authority-PathFits :
    Keeps step_special_relative_or_authority State.special_relative_or_authority
unfolding may_be_opaque is_opaque_state may_hold_slash copies_path base_is_opaque
    step_special_relative_or_authority
special_relative_or_authority-PathFits x m m' ch s p r b h = ground (arith, lacks_nil)

path_or_authority-PathFits : Keeps step_path_or_authority State.path_or_authority
unfolding may_be_opaque is_opaque_state may_hold_slash copies_path base_is_opaque
    step_path_or_authority
path_or_authority-PathFits x m m' ch s p r b h = ground (arith, lacks_nil)

relative-PathFits : Keeps step_relative State.relative
unfolding may_be_opaque is_opaque_state may_hold_slash copies_path base_is_opaque step_relative
    relative_base
relative-PathFits x m m' ch s p r b h = elim (Option-cases x.base) [
  | inl e ↦ ground (arith, lacks_nil)
  | inr (base, e) ↦ ground (arith, b base e, all_fit-drop_last base.path, lacks_nil)
]

relative_slash-PathFits : Keeps step_relative_slash State.relative_slash
unfolding may_be_opaque is_opaque_state may_hold_slash copies_path base_is_opaque
    step_relative_slash
relative_slash-PathFits x m m' ch s p r b h = elim (Option-cases x.base) [
  | inl e ↦ ground (arith, lacks_nil)
  | inr (base, e) ↦ ground (arith, b base e, lacks_nil)
]

special_authority_slashes-PathFits :
    Keeps step_special_authority_slashes State.special_authority_slashes
unfolding may_be_opaque is_opaque_state may_hold_slash copies_path base_is_opaque
    step_special_authority_slashes
special_authority_slashes-PathFits x m m' ch s p r b h = ground (arith, lacks_nil)

special_authority_ignore_slashes-PathFits :
    Keeps step_special_authority_ignore_slashes State.special_authority_ignore_slashes
unfolding may_be_opaque is_opaque_state may_hold_slash copies_path base_is_opaque
    step_special_authority_ignore_slashes
special_authority_ignore_slashes-PathFits x m m' ch s p r b h = ground (arith, lacks_nil)

authority-PathFits : Keeps step_authority State.authority
unfolding may_be_opaque is_opaque_state may_hold_slash copies_path base_is_opaque step_authority
authority-PathFits x m m' ch s p r b h = elim (Option-cases ch) [
  | inl e ↦ ground (arith, lacks_nil)
  | inr (c, e) ↦ ground (
    arith,
    lacks_nil,
    lacks-concat b'/' m.buffer c,
    credentials-Alike m.password_token_seen_flag m.url
        (if m.at_flag then codes "%40" ++ m.buffer else m.buffer),
  )
]

host-PathFits : Keeps step_host State.host
unfolding may_be_opaque may_hold_slash is_host
host-PathFits x m m' ch s p r b h =
    PathFits-Plain x m m' (ground arith) p
      (host-Plain x m m' ch (ground arith) (held x m p (ground arith)) h)

hostname-PathFits : Keeps step_host State.hostname
unfolding may_be_opaque may_hold_slash is_host
hostname-PathFits x m m' ch s p r b h =
    PathFits-Plain x m m' (ground arith) p
      (host-Plain x m m' ch (ground arith) (held x m p (ground arith)) h)

port-PathFits : Keeps step_port State.port
unfolding may_be_opaque may_hold_slash
port-PathFits x m m' ch s p r b h =
    PathFits-Plain x m m' (ground arith) p (port-Plain x m m' ch (held x m p (ground arith)) h)

file-PathFits : Keeps step_file State.file
unfolding may_be_opaque is_opaque_state may_hold_slash copies_path base_is_opaque step_file
    file_switch
file-PathFits x m m' ch s p r b h = elim (Option-cases (file_base x)) [
  | inl e ↦ ground (arith, same→eq m.url.scheme file_scheme)
  | inr (base, e) ↦
      let copied : Url = record (m.url) {
        scheme = file_scheme;
        host = base.host;
        path = base.path;
      } in
      ground (
        arith,
        file_base-fits x base b e,
        shorten_url_path-Alike copied,
        all_fit-shorten_url_path copied,
      )
]

file_slash-PathFits : Keeps step_file_slash State.file_slash
unfolding may_be_opaque is_opaque_state may_hold_slash copies_path base_is_opaque step_file_slash
    file_slash_base
file_slash-PathFits x m m' ch s p r b h = elim (Option-cases (file_base x)) [
  | inl e ↦ ground arith
  | inr (base, e) ↦ elim (Option-cases (get_elem? base.path 0)) [
    | inl f ↦ ground arith
    | inr (first, f) ↦ ground (
      arith,
      file_base-fits x base b e,
      all_fit-first base.path first,
      all_fit-concat m.url.path first,
    )
  ]
]

file_host-PathFits : Keeps step_file_host State.file_host
unfolding may_be_opaque is_opaque_state may_hold_slash copies_path base_is_opaque step_file_host
    end_file_host
file_host-PathFits x m m' ch s p r b h = elim (Option-cases ch) [
  | inl e ↦ ground (arith, lacks_nil)
  | inr (c, e) ↦ ground (arith, lacks_nil, lacks-concat b'/' m.buffer c)
]

path_start-PathFits : Keeps step_path_start State.path_start
unfolding may_be_opaque is_opaque_state may_hold_slash copies_path base_is_opaque step_path_start
path_start-PathFits x m m' ch s p r b h = ground (arith, lacks_nil)

path-PathFits : Keeps step_path State.path
unfolding may_be_opaque is_opaque_state may_hold_slash copies_path base_is_opaque step_path
    after_segment
path-PathFits x m m' ch s p r b h =
    let slash = is_char ch b'/' || special_back_slash m ch in
    let ended = end_segment m.url m.buffer slash in
    ground (
      arith,
      lacks_nil,
      end_segment-Alike m.url m.buffer slash,
      strip_file_path-Alike ended ch,
      all_fit-end_segment m.url m.buffer slash,
      all_fit-strip_file_path ended ch,
      lacks-escape_onto m.buffer ch path_encode_set,
    )

cannot_be_base-PathFits : Keeps step_cannot_be_base State.cannot_be_base
unfolding may_be_opaque is_opaque_state may_hold_slash copies_path base_is_opaque
    step_cannot_be_base
cannot_be_base-PathFits x m m' ch s p r b h = ground arith

query-PathFits : Keeps step_query State.query
unfolding may_be_opaque is_opaque_state may_hold_slash copies_path base_is_opaque step_query
query-PathFits x m m' ch s p r b h = ground (arith, lacks_nil)

fragment-PathFits : Keeps step_fragment State.fragment
unfolding may_be_opaque is_opaque_state may_hold_slash copies_path base_is_opaque step_fragment
fragment-PathFits x m m' ch s p r b h = ground (arith, lacks_nil)

step_in-PathFits : (s : State) → Keeps (step_in s) s
unfolding step_in
step_in-PathFits State.scheme_start = scheme_start-PathFits
step_in-PathFits State.scheme = scheme-PathFits
step_in-PathFits State.no_scheme = no_scheme-PathFits
step_in-PathFits State.special_relative_or_authority = special_relative_or_authority-PathFits
step_in-PathFits State.path_or_authority = path_or_authority-PathFits
step_in-PathFits State.relative = relative-PathFits
step_in-PathFits State.relative_slash = relative_slash-PathFits
step_in-PathFits State.special_authority_slashes = special_authority_slashes-PathFits
step_in-PathFits State.special_authority_ignore_slashes = special_authority_ignore_slashes-PathFits
step_in-PathFits State.authority = authority-PathFits
step_in-PathFits State.host = host-PathFits
step_in-PathFits State.hostname = hostname-PathFits
step_in-PathFits State.port = port-PathFits
step_in-PathFits State.file = file-PathFits
step_in-PathFits State.file_slash = file_slash-PathFits
step_in-PathFits State.file_host = file_host-PathFits
step_in-PathFits State.path_start = path_start-PathFits
step_in-PathFits State.path = path-PathFits
step_in-PathFits State.cannot_be_base = cannot_be_base-PathFits
step_in-PathFits State.query = query-PathFits
step_in-PathFits State.fragment = fragment-PathFits

-- Every round keeps the path well-formed.
pub step-PathFits :
    (x : Context) (m m' : Machine)
    → PathFits x m
    → Agrees x m
    → ((base : Url) → x.base ≡ some base → IsBase base)
    → step x m ≡ next m'
    → PathFits x m'
step-PathFits x m m' p r b h =
    step_in-PathFits m.state x m m' (get_elem? x.input m.index) refl p r b h
