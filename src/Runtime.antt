-- ===== src/Runtime.antt =====
-- The runtime (runtime/src): hidden classes, objects, the space of floating-point numbers and
-- the garbage collector.
pub mod ClassList
pub mod F64Allocator
pub mod Object
pub mod Gc
pub mod StringPtr
