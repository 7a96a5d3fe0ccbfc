-- ===== src/Judge.antt =====
-- Judging claims of a dump: crates/talaria-judge/src.
pub mod Gazetteer
pub mod Place
pub mod Deaths
pub mod Classes
pub mod Epistemic
pub mod Verdict
pub mod Mine
mod Tests
