-- ===== src/World.antt =====
-- The World objects of bindings/python/src/dense_sim/_dense_sim.c: the wrapped ds_world, and the
-- methods and properties of dense_sim.World.
pub mod State
pub mod Lifecycle
pub mod Entities
pub mod Observers
pub mod Properties
pub mod Batches
pub mod Calls
pub mod Init
pub mod Closed
pub mod Sequential
pub mod MoveMany
pub mod MarkMany
pub mod Lengths
pub mod Scalar
pub mod Balance
pub mod Frame
