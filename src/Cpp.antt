-- ===== src/Cpp.antt =====
-- The header-only C++ binding, bindings/cpp/include/dense/dense_sim.hpp.
pub mod Types
pub mod State
pub mod Steps
pub mod Process
pub mod DeltaEntryRange
pub mod SubscriberRange
pub mod ChunkDeltaView
pub mod FanoutView
pub mod Lifecycle
pub mod Entities
pub mod Observers
pub mod Calls
pub mod Closed
pub mod Frame
pub mod Variables
pub mod Program
pub mod Reads
pub mod Iteration
pub mod Workset
