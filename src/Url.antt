-- ===== src/Url.antt =====
-- lib/whatwg/url/parser.js and lib/whatwg/url.js.
pub mod Chars
pub mod EncodeSets
pub mod Ipv4
pub mod Ipv6
pub mod Record
pub mod Host
pub mod Machine
pub mod Step
pub mod Parse
pub mod Runs
pub mod Serialize
pub mod Object
pub mod Params
