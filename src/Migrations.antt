-- ===== src/Migrations.antt =====
-- packages/core/src/migrations: the choice, the checks and the execution of migrations.
pub mod Range
pub mod Plan
pub mod Executor
pub mod Update
pub mod Inverse
pub mod Inlining
pub mod TableOrder
mod Tests
