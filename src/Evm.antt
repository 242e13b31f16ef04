-- ===== src/Evm.antt =====
-- Events of the EVM chain: bridge_node/bridge/common/evm.
pub mod Order
pub mod Events
pub mod Batches
pub mod Stops
pub mod Scanner
