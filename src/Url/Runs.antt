-- ===== src/Url/Runs.antt =====
-- Runs of `basicURLParse` on texts that can be followed in the source.
use zero_archive.Prelude.{◌≡◌, refl, Option, none, some, [], ◌∷◌, true, String, codes, same}
use zero_archive.Url.Chars.{
  is_ascii_alpha, is_ascii_digit, is_ascii_alphanumeric, ascii_lowercase, is_windows_drive_letter,
  is_normalized_windows_drive_letter, starts_with_windows_drive_letter, is_single_dot_segment,
  is_double_dot_segment, is_alpha, is_digit, is_ascii_hex,
}
use zero_archive.Url.EncodeSets.{
  append_or_escape, in_set, userinfo_encode_set, path_encode_set, c0_control_encode_set,
  query_encode_set, fragment_encode_set,
}
use zero_archive.Url.Ipv4.{
  parse_ipv4, split, drop_empty_last, numbers_of, parse_ipv4_number, combine, parse_int_from,
  digit_value,
}
use zero_archive.Url.Host.{
  parse_host, contains_forbidden_host_code_point, is_forbidden_host_code_point, parse_opaque_host,
  encode_opaque, percent_encode_char, is_c0_control_percent_encode, percent_encode,
}
use zero_archive.Url.Record.{
  Url, ipv4, empty_url, lookup_special, is_special, normalize_port, shorten_url_path,
}
use zero_archive.Url.Step.Scheme.{
  step_scheme_start, step_scheme, step_no_scheme, lower_onto, base_has_scheme, after_scheme,
  end_scheme, no_scheme_base,
}
use zero_archive.Url.Step.Relative.{
  step_special_relative_or_authority, step_path_or_authority, step_relative, step_relative_slash,
  step_special_authority_slashes, step_special_authority_ignore_slashes, relative_base,
}
use zero_archive.Url.Step.Authority.{
  host_colon, end_host, step_authority, step_host, step_port, credentials, host_character,
  port_digit, end_port,
}
use zero_archive.Url.Step.File.{
  step_file, step_file_slash, step_file_host, file_base, file_switch, file_slash_base,
  drop_localhost, end_file_host,
}
use zero_archive.Url.Step.Path.{
  step_path_start, step_path, step_cannot_be_base, step_query, step_fragment, clear_host,
  push_segment, end_segment, strip_empty, strip_file_path, after_segment, escape_onto,
}
use zero_archive.Url.Parse.{Result, parsed, step_in, run, clean_input, basic_url_parse}

-- All that a run of the parser computes with.
unfoldable pub parser : Unit {0}
unfolding is_ascii_alpha is_ascii_digit is_ascii_alphanumeric ascii_lowercase
    is_windows_drive_letter is_normalized_windows_drive_letter starts_with_windows_drive_letter
    is_single_dot_segment is_double_dot_segment is_alpha is_digit is_ascii_hex append_or_escape
    in_set userinfo_encode_set path_encode_set c0_control_encode_set query_encode_set
    fragment_encode_set parse_ipv4 split drop_empty_last numbers_of parse_ipv4_number combine
    parse_int_from digit_value parse_host contains_forbidden_host_code_point
    is_forbidden_host_code_point parse_opaque_host encode_opaque percent_encode_char
    is_c0_control_percent_encode percent_encode lookup_special is_special normalize_port
    shorten_url_path step_scheme_start step_scheme step_no_scheme lower_onto base_has_scheme
    after_scheme end_scheme no_scheme_base step_special_relative_or_authority step_path_or_authority
    step_relative step_relative_slash step_special_authority_slashes
    step_special_authority_ignore_slashes relative_base step_authority step_host step_port
    credentials host_colon end_host host_character port_digit end_port step_file step_file_slash
    step_file_host file_base file_switch file_slash_base drop_localhost end_file_host
    step_path_start step_path step_cannot_be_base step_query step_fragment clear_host push_segment
    end_segment strip_empty strip_file_path after_segment escape_onto step_in run clean_input
    basic_url_parse same
parser = tt

abbrev parse : String → Option Url → Result
parse input base = basic_url_parse (λ c. c ∷ []) (codes input) base none

http_run :
    parse "http://u:p@127.1:8080/a/../b?q#f" none
    ≡ parsed (record empty_url {
      scheme = codes "http:";
      username = codes "u";
      password = codes "p";
      host = some (ipv4 2130706433);
      port = some 8080;
      path = codes "b" ∷ [];
      query = some (codes "q");
      fragment = some (codes "f");
      special = true;
    })
unfolding parser
http_run = refl
