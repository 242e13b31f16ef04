-- ===== src/Runes.antt =====
-- The rune bridge: bridge_node/bridge/bridges/runes.
pub mod Addresses
pub mod Models
pub mod Amounts
pub mod External
pub mod World
pub mod Messages
pub mod Signing
pub mod ToEvm
pub mod ToBtc
pub mod Frame
pub mod Quiet
pub mod Scan
pub mod Bridge
