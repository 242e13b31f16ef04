-- ===== src/Btc.antt =====
-- Bitcoin amounts, unspent outputs and fees: bridge_node/bridge/common/btc.
pub mod Fees
pub mod Amounts
pub mod Types
