-- ===== src/Leases.antt =====
-- The arrays that a binding has borrowed from the library, and the generations that guard them: what
-- the bindings of C++ and of Python share.
pub mod Invariant
pub mod Change
pub mod Local
pub mod Ticks
pub mod Current
pub mod Holdings
use libdense.Common.{ℕ}
use libdense.DenseSim.{Pointer}
use libdense.DenseSim.Lifetimes.{Span}

-- An array in use: the address of the object that owns its world, the generation of that object
-- when the array was borrowed, and the array.
pub record Lease : Type 0 where
  pub world : Pointer
  pub generation : ℕ
  pub span : Span
