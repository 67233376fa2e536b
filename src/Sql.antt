-- ===== src/Sql.antt =====
-- packages/core/src/sql: the reading of SQL texts.
pub mod Placeholders
mod Tests
