-- ===== src/UnitOfWork.antt =====
-- packages/core/src/core: the parts of a context's unit of work.
pub mod Saver
pub mod Lifecycle
pub mod Executor
pub mod Session
pub mod Coordinator
pub mod Outbox
mod Tests
