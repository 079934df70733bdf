-- ===== src/Bindings.antt =====
-- The Python binding and the C++ binding next to each other.
pub mod Corresponds
pub mod Agreement
