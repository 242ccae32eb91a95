-- ===== src/Examples.antt =====
-- Concrete runs of the theorems on the small cryptosystem and on small vectors.
pub mod Protocols
pub mod Threads
pub mod Transforms
pub mod Sets
pub mod Intersections
pub mod Wire
pub mod Polynomials
pub mod Transport
