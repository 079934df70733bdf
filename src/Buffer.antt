-- ===== src/Buffer.antt =====
-- The buffer arguments of move_many and mark_dirty_many in
-- bindings/python/src/dense_sim/_dense_sim.c: native bytes, format codes, and the DenseBuffer.
pub mod Bytes
pub mod Format
pub mod Acquire
pub mod Arrays
