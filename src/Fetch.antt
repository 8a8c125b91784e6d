-- ===== src/Fetch.antt =====
-- lib/whatwg/fetch.js.
pub mod Headers
