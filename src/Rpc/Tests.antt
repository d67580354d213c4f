-- ===== src/Rpc/Tests.antt =====
-- The package rpc on concrete inputs.
mod Calls
mod Wires
mod Servers
mod Traces
mod Drivers
mod Loops
mod Channels
mod Files
