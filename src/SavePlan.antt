-- ===== src/SavePlan.antt =====
-- packages/core/src/core/save-plan: the order in which a save writes its entries.
pub mod Heap
pub mod Topology
pub mod Entries
mod Tests
