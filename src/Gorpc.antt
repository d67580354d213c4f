-- ===== src/Gorpc.antt =====
-- The command gorpc: the conversion of XDR values to JSON and back.
mod Tests
pub mod Names
pub mod Hex
pub mod Values
pub mod Documents
pub mod ToJson
pub mod FromJson
pub mod Parts
pub mod Printing
pub mod Text
pub mod Reading
pub mod RoundTrip
pub mod GoJson
