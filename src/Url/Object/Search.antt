-- ===== src/Url/Object/Search.antt =====
-- The setter of `search` of URL in lib/whatwg/url.js.
use zero_archive.Prelude.{some, ◌∷◌, refl, arith, ◌≡◌, [], List, Option, Text, ℕ}
use zero_archive.Url.Ipv4.{split}
use zero_archive.Url.Params.{Pair, parse_params, decode_sequences}
use zero_archive.Url.Object.{UrlObject, normal, set_search, get_search, without_mark}

parse_params-nil : (decode : Text → Option Text) → parse_params decode [] ≡ some []
unfolding parse_params decode_sequences split
parse_params-nil decode = refl

-- If the text can be parsed, assigning it to `search` puts the parsed pairs into `searchParams`, and
-- `search` is empty then, whatever was assigned.
pub set_search-get_search :
    (upper : ℕ → Text) (decode : Text → Option Text) (o : UrlObject) (v : Text) (list : List Pair)
    → parse_params decode (without_mark b'?' v) ≡ some list
    → let (o', completion) = set_search upper decode o v in
      (completion ≡ normal) × (o'.params ≡ list) × (get_search o' ≡ [])
unfolding set_search get_search
set_search-get_search upper decode o [] list h = (refl, cc (parse_params-nil decode, h), refl)
set_search-get_search upper decode o (c ∷ cs) list h = (ground arith, ground arith, ground arith)
