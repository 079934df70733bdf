-- ===== src/View.antt =====
-- The borrowed views of bindings/python/src/dense_sim/_dense_sim.c: FanoutView, ChunkDeltaView,
-- DeltaEntryView, SubscriberView and DeltaEntry.
pub mod State
pub mod Fanout
pub mod Chunk
pub mod Sequences
pub mod Index
pub mod Reads
pub mod Safety
