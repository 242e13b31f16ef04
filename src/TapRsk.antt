-- ===== src/TapRsk.antt =====
-- The bridge between Taproot assets and RSK (bridge_node/bridge/bridges/tap_rsk).
pub mod Models
pub mod External
pub mod World
pub mod RskToTap
pub mod TapToRsk
pub mod Machine
pub mod Payments
pub mod Outpoints
pub mod Deposits
pub mod Scanner
pub mod Bridge
