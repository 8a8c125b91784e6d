-- ===== src/Url/Step.antt =====
-- The rounds of the loop of `basicURLParse`, one function for each state.
pub mod Scheme
pub mod Relative
pub mod Authority
pub mod File
pub mod Path
