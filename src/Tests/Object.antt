-- ===== src/Tests/Object.antt =====
-- The theorems on the class URL of lib/whatwg/url.js at concrete inputs. `toUpperCase` and
-- `decodeURIComponent` leave the inputs as they are.
use zero_archive.Prelude.{same, lacks, ◌∷◌, refl, ◌≡◌, [], some, true, Option, codes, Text, ℕ, none}
use zero_archive.Url.Record.{empty_url, domain}
use zero_archive.Url.Runs.{parser}
use zero_archive.Url.Ipv4.{split}
use zero_archive.Url.Params.{
  search_params_of_string, decode_sequences, name_and_value, parse_params,
}
use zero_archive.Url.Object.{
  with_params, refuse_failed, UrlObject, sets_port, sets_hash, assign_all, new_url, get_href,
  normal,
}
use zero_archive.Url.Object.Sound.{port_is_small}
use zero_archive.Url.Object.Assigned.{assign_all-get_href}

abbrev one_to_one : ℕ → Text
one_to_one c = c ∷ []

abbrev decodes : Text → Option Text
decodes t = some t

abbrev sample_object : UrlObject
sample_object = record {
  url = record empty_url {
    scheme = codes "http:";
    special = true;
    host = some (domain (codes "a"));
    path = [] ∷ [];
  };
  params = [];
}

made : new_url one_to_one decodes (codes "http://a/") none ≡ (some sample_object, normal)
unfolding parser new_url with_params refuse_failed search_params_of_string parse_params
    decode_sequences name_and_value split lacks same
made = refl

assign_all-get_href_example :
    let o' =
      assign_all one_to_one decodes sample_object
        (sets_port (codes "81") ∷ sets_hash (codes "#b") ∷ []) in
    (port_is_small o'.url.port ≡ true)
    × (get_href o' ≡ get_href (record o' { url = record (o'.url) { port = none } }))
assign_all-get_href_example =
    assign_all-get_href one_to_one decodes (codes "http://a/") sample_object
      (sets_port (codes "81") ∷ sets_hash (codes "#b") ∷ []) made
