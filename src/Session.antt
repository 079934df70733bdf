-- ===== src/Session.antt =====
-- Python programs over the binding: World objects, the views that were taken, and the calls.
pub mod Stays
pub mod Batches
pub mod Methods
pub mod State
pub mod Invariant
pub mod Calls
pub mod Worlds
pub mod Preserve
pub mod Reachable
pub mod Safety
pub mod Stale
