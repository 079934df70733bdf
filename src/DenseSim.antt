-- ===== src/DenseSim.antt =====
-- The C interface of libdense_sim (include/dense/dense_sim.h), as its bindings use it: the
-- header's types, and the library's functions as a record that a client takes as a parameter.
mod Types
mod Functions
pub mod Lifetimes
pub mod Existence
pub use Types.*
pub use Functions.{Library, ProcessLibrary, WorksetLibrary}
