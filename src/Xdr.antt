-- ===== src/Xdr.antt =====
-- The XDR runtime of cmd/goxdr/header.go.in and the allocators of the package xdr.
mod Tests
pub mod Fault
pub mod Codec
pub mod Heap
pub mod Arena
pub mod Pool
pub mod ObjectPool
pub mod Vec
pub mod Optional
pub mod Enum
