-- ===== src/Storage.antt =====
-- packages/core/src/storage: transactions, leases, retries and the data source.
pub mod Errors
pub mod Enclosing
pub mod Guard
pub mod Connection
pub mod Retry
pub mod DataSource
mod Tests
