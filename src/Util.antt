-- ===== src/Util.antt =====
-- lib/util.js: the queue of asynchronous jobs, `base64decode` and `uuid4122`.
pub mod AsyncQueue
pub mod Base64
pub mod Uuid
pub mod CliTable
pub mod Inspect
