-- ===== src/Repl.antt =====
-- lib/repl.js and lib/repl/.
pub mod Keys
pub mod Editor
