-- ===== src/Ord.antt =====
-- The client side of the ord indexer: bridge_node/bridge/common/ord.
pub mod Names
pub mod Outputs
pub mod Multisig
