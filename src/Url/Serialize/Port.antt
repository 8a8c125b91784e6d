-- ===== src/Url/Serialize/Port.antt =====
-- `serializeURL` prints the port only where `isDefaultSchemePort` is false.
use zero_archive.Prelude.{[], ◌≡◌, true, none, arith}
use zero_archive.Url.Record.{Url}
use zero_archive.Url.Serialize.{
  Parts, port_part, serialize_url, credentials_part, serialize_url_path,
}

port_part-default : (u : Url) → u.is_default_scheme_port ≡ true → port_part u ≡ []
unfolding port_part
port_part-default u h = ground arith

pub serialize_url-default :
    (u : Url) (parts : Parts)
    → u.is_default_scheme_port ≡ true
    → serialize_url u parts ≡ serialize_url (record u { port = none }) parts
unfolding serialize_url credentials_part serialize_url_path
serialize_url-default u parts h =
    ground (arith, port_part-default u h, port_part-default (record u { port = none }) h)
