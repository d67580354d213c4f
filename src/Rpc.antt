-- ===== src/Rpc.antt =====
-- The package rpc, with the message header of rpc/rpc_msg.x.
pub mod Header
pub mod Status
pub mod Call
pub mod Message
pub mod Transport
pub mod CallSet
pub mod Server
pub mod Context
pub mod Driver
pub mod Decode
pub mod File
mod Tests
