-- ===== src/Intuition.antt =====
-- Debates for the knowledge graph: crates/talaria-intuition/src.
pub mod Slug
pub mod Json
pub mod Canon
pub mod Plan
pub mod Facts
mod Tests
