-- ===== src/Db.antt =====
-- db-engineering: the parts that have bodies.
pub mod Types
pub mod Page
