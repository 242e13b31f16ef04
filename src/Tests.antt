-- ===== src/Tests.antt =====
-- Runs of the bridge on small concrete states.
pub mod Wallet
pub mod Multisig
pub mod Service
pub mod Once
pub mod Bridge
pub mod Chain
pub mod Tap
pub mod Deposits
pub mod Network
pub mod Addresses
pub mod Main
