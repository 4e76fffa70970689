-- ===== src/Discovery.antt =====
-- What the discovery resolvers of several modules have in common.
pub mod Table
