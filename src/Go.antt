-- ===== src/Go.antt =====
-- What the operator uses of the Go language: error values, calls that may fail, maps, and integers.
pub mod Fault
pub mod Action
pub mod Map
pub mod Integer
pub mod Slice
pub mod Strings
